-- ===== src/Prelude/Fallible.antt =====
-- Rust's `String` as its bytes, and `Result<T, String>`.
use Prim.Native.String.{String}
use mathlib.Core.Path.{◌≡◌, refl}
use mathlib.Core.Logic.{◌⊎◌, inl, inr}
use mathlib.Core.Bool.{Bool, true, false}
use mathlib.Core.Option.{Option, none, some}
use syslog_dtls_agent.Prelude.Words.{Bytes, codes}

abbrev pub Text : Type 0
Text = Bytes

-- A literal. It stays shut, so that proofs do not compute with its bytes.
unfoldable pub text : String → Text
text s = codes s

pub data Result {ℓ} (A : Type ℓ) : Type ℓ where
  ok : A → Result A
  err : Text → Result A

infixl 5 ◌>>=◌
abbrev pub ◌>>=◌ {ℓ κ} : {A : Type ℓ} {B : Type κ} → Result A → (A → Result B) → Result B
err message >>= next = err message
ok value >>= next = next value

-- `if bad { return Err(e) }`.
abbrev pub refuse_if : Bool → Text → Result (Unit {0})
refuse_if true e = err e
refuse_if false e = ok tt

-- `r?;` on a result that carries nothing.
infixl 5 ◌>>◌
abbrev pub ◌>>◌ {ℓ} : {B : Type ℓ} → Result (Unit {0}) → Result B → Result B
first >> second = first >>= λ _. second

-- `option.ok_or(e)`.
abbrev pub ok_or {ℓ} : {A : Type ℓ} → Option A → Text → Result A
ok_or none e = err e
ok_or (some a) e = ok a

abbrev pub is_ok {ℓ} : {A : Type ℓ} → Result A → Bool
is_ok (ok a) = true
is_ok (err e) = false

pub Result-cases {ℓ} :
    {A : Type ℓ} (r : Result A) → ((a : A) × (r ≡ ok a)) ⊎ ((e : Text) × (r ≡ err e))
Result-cases (ok a) = inl (a, refl)
Result-cases (err e) = inr (e, refl)

-- A chain that succeeds: what its first step returned, and what the rest made of it.
pub >>=-eq-ok {ℓ κ} :
    {A : Type ℓ} {B : Type κ} (first : Result A) (next : A → Result B) {result : B}
    → first >>= next ≡ ok result
    → (value : A) × (first ≡ ok value) × (next value ≡ ok result)
>>=-eq-ok (err message) next e = cc
>>=-eq-ok (ok value) next e = (value, refl, e)
