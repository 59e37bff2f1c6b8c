-- ===== src/Auth/Store.antt =====
-- `HashMap<String, _>` as crates/cli/src/auth.rs uses it: the entries in some order, each key once.
use syslog_dtls_agent.Prelude.{
  suc, ◌≤◌, ◌≡◌, refl, sym, ap, ◌∙◌, inl, inr, Bool, true, Option, none, some, List, [], ◌∷◌,
  if◌then◌else◌, length, Text, bytes_eq, Bool-cases, arith,
}

module _ {A : Type 0} where
  unfoldable pub find : Text → List (Text × A) → Option A
  find key [] = none
  find key ((k, a) ∷ m) = let rest = find key m in if bytes_eq k key then some a else rest

  unfoldable pub remove : Text → List (Text × A) → List (Text × A)
  remove key [] = []
  remove key ((k, a) ∷ m) =
      let rest = remove key m in if bytes_eq k key then rest else (k, a) ∷ rest

  unfoldable pub insert : Text → A → List (Text × A) → List (Text × A)
  insert key a m = (key, a) ∷ remove key m

  unfoldable pub retain : (A → Bool) → List (Text × A) → List (Text × A)
  retain keep [] = []
  retain keep ((k, a) ∷ m) = let rest = retain keep m in if keep a then (k, a) ∷ rest else rest

  pub length-remove : (key : Text) (m : List (Text × A)) → length (remove key m) ≤ length m
  unfolding remove
  length-remove key [] = omega arith
  length-remove key ((k, a) ∷ m) = ground (arith, length-remove key m)

  pub length-insert :
      (key : Text) (a : A) (m : List (Text × A)) → length (insert key a m) ≤ suc (length m)
  unfolding insert
  length-insert key a m = omega (arith, length-remove key m)

  pub length-retain : (keep : A → Bool) (m : List (Text × A)) → length (retain keep m) ≤ length m
  unfolding retain
  length-retain keep [] = omega arith
  length-retain keep ((k, a) ∷ m) = ground (arith, length-retain keep m)

  pub find-remove : (key : Text) (m : List (Text × A)) → find key (remove key m) ≡ none
  unfolding find remove
  find-remove key [] = refl
  find-remove key ((k, a) ∷ m) = elim (Bool-cases (bytes_eq k key)) [
    | inl e ↦ rw e (find-remove key m)
    | inr e ↦ rw (e, e) (find-remove key m)
  ]

  -- What is found after `retain` was kept by it.
  pub find-retain :
      (keep : A → Bool) (key : Text) (m : List (Text × A)) (a : A)
      → find key (retain keep m) ≡ some a
      → keep a ≡ true
  unfolding find retain
  find-retain keep key [] a h = absurd (ground arith)
  find-retain keep key ((k, b) ∷ m) a h = elim (Bool-cases (keep b)) [
    | inr e ↦ find-retain keep key m a (ground (arith, e, h))
    | inl e ↦ elim (Bool-cases (bytes_eq k key)) [
      | inl f ↦ (let same : b ≡ a = ground (arith, e, f, h) in ap keep (sym same) ∙ e)
      | inr f ↦ find-retain keep key m a (ground (arith, e, f, h))
    ]
  ]
