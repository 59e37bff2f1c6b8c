-- ===== src/Dtls/Fingerprint.antt =====
-- The fingerprints of crates/dtls-openssl/src/lib.rs tell certificates apart as their digests do.
use syslog_dtls_agent.Prelude.{
  ℕ, ◌/◌, ◌%◌, ◌<◌, ◌≡◌, refl, ap, ap₂, some, List, [], ◌∷◌, ◌++◌, map, All, Bytes, Text, text, ok,
  arith,
}
use syslog_dtls_agent.Dtls.Credentials.{Library, fingerprint, hex_digit, hex_byte, join_colon}

abbrev IsByte : ℕ → Type 0
IsByte b = b < 256

hex_digit_injective : (a b : ℕ) → hex_digit a ≡ hex_digit b → a < 16 → b < 16 → a ≡ b
hex_digit_injective a b e h k = ground arith

hex_byte_injective :
    (a b : ℕ)
    → hex_digit (a / 16) ≡ hex_digit (b / 16)
    → hex_digit (a % 16) ≡ hex_digit (b % 16)
    → IsByte a
    → IsByte b
    → a ≡ b
hex_byte_injective a b high low h k = omega (
  arith,
  hex_digit_injective (a / 16) (b / 16) high (omega arith) (omega arith),
  hex_digit_injective (a % 16) (b % 16) low (omega arith) (omega arith),
)

cons_injective : (x y : ℕ) (xs ys : Bytes) → x ∷ xs ≡ y ∷ ys → (x ≡ y) × (xs ≡ ys)
cons_injective x y xs ys e = ground (arith, e)

append_injective : (prefix xs ys : Bytes) → prefix ++ xs ≡ prefix ++ ys → xs ≡ ys
append_injective [] xs ys e = e
append_injective (p ∷ prefix) xs ys e =
    append_injective prefix xs ys (cons_injective p p (prefix ++ xs) (prefix ++ ys) e).1

-- Two digits and what follows them.
byte_injective :
    (a b : ℕ) (xs ys : Bytes)
    → hex_byte a ++ xs ≡ hex_byte b ++ ys
    → IsByte a
    → IsByte b
    → (a ≡ b) × (xs ≡ ys)
byte_injective a b xs ys e h k =
    let high = cons_injective _ _ _ _ e in
    let low = cons_injective _ _ _ _ high.1 in (hex_byte_injective a b high.0 low.0 h k, low.1)

join_colon_injective :
    (xs ys : List ℕ)
    → All IsByte xs
    → All IsByte ys
    → join_colon (map hex_byte xs) ≡ join_colon (map hex_byte ys)
    → xs ≡ ys
join_colon_injective [] [] h k e = refl
join_colon_injective [] (y ∷ []) h k e = absurd (ground (arith, e))
join_colon_injective [] (y ∷ z ∷ ys) h k e = absurd (ground (arith, e))
join_colon_injective (x ∷ []) [] h k e = absurd (ground (arith, e))
join_colon_injective (x ∷ z ∷ xs) [] h k e = absurd (ground (arith, e))
join_colon_injective (x ∷ []) (y ∷ []) h k e =
    ap (λ b. b ∷ []) (byte_injective x y [] [] e h.0 k.0).0
join_colon_injective (x ∷ []) (y ∷ z ∷ ys) h k e =
    absurd (ground (arith, (byte_injective x y [] _ e h.0 k.0).1))
join_colon_injective (x ∷ z ∷ xs) (y ∷ []) h k e =
    absurd (ground (arith, (byte_injective x y _ [] e h.0 k.0).1))
join_colon_injective (x ∷ u ∷ xs) (y ∷ v ∷ ys) h k e =
    let (same, rest) = byte_injective x y _ _ e h.0 k.0 in
    let after = (cons_injective b':' b':' _ _ rest).1 in
    ap₂ (λ b bs. b ∷ bs) same (join_colon_injective (u ∷ xs) (v ∷ ys) h.1 k.1 after)

-- Two certificates of one library whose digests are made of bytes: if
-- their fingerprints are equal then so are their digests.
pub fingerprint_injective :
    {Cert Key : Type 0} (lib : Library Cert Key) (c1 c2 : Cert) (d1 d2 : List ℕ) (print : Text)
    → lib.digest c1 ≡ some d1
    → lib.digest c2 ≡ some d2
    → All IsByte d1
    → All IsByte d2
    → fingerprint lib c1 ≡ ok print
    → fingerprint lib c2 ≡ ok print
    → d1 ≡ d2
unfolding fingerprint
fingerprint_injective lib c1 c2 d1 d2 print e1 e2 h k f1 f2 =
    join_colon_injective d1 d2 h k
      (append_injective (text "sha-256:") _ _ (ground (arith, e1, e2, f1, f2)))
