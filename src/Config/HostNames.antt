-- ===== src/Config/HostNames.antt =====
-- What `normalize_name` of crates/core/src/config.rs returns for a DNS name.
use syslog_dtls_agent.Prelude.{
  ℕ, suc, ◌≤◌, ◌≡◌, ◌≢◌, ◌⊎◌, refl, sym, ap, ap₂, ◌∙◌, inl, inr, true, false, ◌||◌, Option, List,
  [], ◌∷◌, ◌++◌, map, ◌==◌, length, all, any, All, Text, text, ok, ok_or, >>=-eq-ok, Bool-cases,
  arith,
}
use syslog_dtls_agent.Framing.Text.{starts_with_byte, ends_with_byte}
use syslog_dtls_agent.Oidc.Settings.{trim_end_matches}
use syslog_dtls_agent.Config.Names.{
  onto_first, split, is_ascii_alphanumeric, lower, to_ascii_lowercase, bad_label,
  normalize_dns_name,
}

-- A byte of a normalised label: a lower-case letter, a digit or a hyphen.
abbrev pub IsLabelByte : ℕ → Type 0
IsLabelByte b = ((b'0' ≤ b) × (b ≤ b'9')) ⊎ ((b'a' ≤ b) × (b ≤ b'z')) ⊎ (b ≡ b'-')

pub record IsLabel (s : Text) : Type 0 where
  pub least : 1 ≤ length s
  pub most : length s ≤ 63
  pub no_hyphen_first : starts_with_byte b'-' s ≡ false
  pub no_hyphen_last : ends_with_byte b'-' s ≡ false
  pub bytes : All IsLabelByte s

-- Pieces with a separator between them.
abbrev pub intercalate : ℕ → List Text → Text
intercalate c [] = []
intercalate c (s ∷ []) = s
intercalate c (s ∷ t ∷ ts) = s ++ c ∷ intercalate c (t ∷ ts)

-- A host name: labels between dots, 253 bytes at most.
pub record IsHostName (name : Text) : Type 0 where
  pub labels : List Text
  pub written : name ≡ intercalate b'.' labels
  pub valid : All IsLabel labels
  pub some_label : labels ≢ []
  pub size : length name ≤ 253

split_nonempty : (c : ℕ) (s : Text) → (p : Text) × (ps : List Text) × (split c s ≡ p ∷ ps)
unfolding split
split_nonempty c [] = ([], [], refl)
split_nonempty c (b ∷ s) =
    let (p, ps, e) = split_nonempty c s in
    elim (Bool-cases (b == c)) [
      | inl f ↦ ([], p ∷ ps, rw (f, e) refl)
      | inr f ↦ (b ∷ p, ps, rw (f, e) refl)
    ]

onto_first-intercalate :
    (c b : ℕ) (p : Text) (ps : List Text)
    → intercalate c (onto_first b (p ∷ ps)) ≡ b ∷ intercalate c (p ∷ ps)
onto_first-intercalate c b p [] = refl
onto_first-intercalate c b p (q ∷ ps) = refl

pub split-intercalate : (c : ℕ) (s : Text) → intercalate c (split c s) ≡ s
unfolding split
split-intercalate c [] = refl
split-intercalate c (b ∷ s) =
    let (p, ps, e) = split_nonempty c s in
    let rest = split-intercalate c s in
    elim (Bool-cases (b == c)) [
      | inl f ↦
          (let same : b ≡ c = ground (arith, f) in
            rw (f, e) (ap₂ (λ x t. x ∷ t) (sym same) (ap (intercalate c) (sym e) ∙ rest)))
      | inr f ↦
          rw (f, e)
            (onto_first-intercalate c b p ps ∙ ap (λ t. b ∷ t) (ap (intercalate c) (sym e) ∙ rest))
    ]

length-lower : (s : Text) → length (to_ascii_lowercase s) ≡ length s
length-lower [] = refl
length-lower (b ∷ s) = ap suc (length-lower s)

lower-append :
    (s t : Text) → to_ascii_lowercase (s ++ t) ≡ to_ascii_lowercase s ++ to_ascii_lowercase t
lower-append [] t = refl
lower-append (b ∷ s) t = ap (λ r. lower b ∷ r) (lower-append s t)

lower-intercalate :
    (ls : List Text)
    → to_ascii_lowercase (intercalate b'.' ls) ≡ intercalate b'.' (map to_ascii_lowercase ls)
lower-intercalate [] = refl
lower-intercalate (s ∷ []) = refl
lower-intercalate (s ∷ t ∷ ls) =
    lower-append s (b'.' ∷ intercalate b'.' (t ∷ ls))
    ∙ ap (λ r. to_ascii_lowercase s ++ b'.' ∷ r) (lower-intercalate (t ∷ ls))

lower_bytes :
    (s : Text)
    → all (λ c. is_ascii_alphanumeric c || c == b'-') s ≡ true
    → All IsLabelByte (to_ascii_lowercase s)
lower_bytes [] h = tt
lower_bytes (b ∷ s) h = (ground arith, lower_bytes s (ground arith))

lower_starts : (s : Text) → starts_with_byte b'-' (to_ascii_lowercase s) ≡ starts_with_byte b'-' s
lower_starts [] = refl
lower_starts (b ∷ s) = ground arith

lower_ends : (s : Text) → ends_with_byte b'-' (to_ascii_lowercase s) ≡ ends_with_byte b'-' s
unfolding ends_with_byte
lower_ends [] = refl
lower_ends (b ∷ []) = ground arith
lower_ends (b ∷ c ∷ s) = lower_ends (c ∷ s)

bad_label-IsLabel : (s : Text) → bad_label s ≡ false → IsLabel (to_ascii_lowercase s)
unfolding bad_label
bad_label-IsLabel s h = record {
  least = ground (arith, length-lower s);
  most = ground (arith, length-lower s);
  no_hyphen_first = ground (arith, lower_starts s);
  no_hyphen_last = ground (arith, lower_ends s);
  bytes = lower_bytes s (ground arith);
}

labels_of : (ls : List Text) → any bad_label ls ≡ false → All IsLabel (map to_ascii_lowercase ls)
labels_of [] h = tt
labels_of (s ∷ ls) h = (bad_label-IsLabel s (ground arith), labels_of ls (ground arith))

-- A name that `normalize_name` accepts as a DNS name is returned as a host name: lower-case labels of 1
-- to 63 letters, digits and inner hyphens, between dots, 253 bytes at most; `to_ascii` is any function.
pub normalize_dns_name-IsHostName :
    (to_ascii : Text → Option Text) (name result : Text)
    → normalize_dns_name to_ascii name ≡ ok result
    → IsHostName result
unfolding normalize_dns_name
normalize_dns_name-IsHostName to_ascii name result h =
    let (ascii, a, rest) = >>=-eq-ok (ok_or (to_ascii name) (text "Invalid DNS name")) _ h in
    let trimmed = trim_end_matches b'.' ascii in
    let result_is : to_ascii_lowercase trimmed ≡ result = ground (arith, rest) in
    let checked : (any bad_label (split b'.' trimmed) ≡ false) × (length trimmed ≤ 253) =
      ground (arith, rest) in
    let (p, ps, e) = split_nonempty b'.' trimmed in
    record {
      labels = map to_ascii_lowercase (split b'.' trimmed);
      written =
          sym result_is
          ∙ ap to_ascii_lowercase (sym (split-intercalate b'.' trimmed))
          ∙ lower-intercalate (split b'.' trimmed);
      valid = labels_of (split b'.' trimmed) checked.0;
      some_label =
          λ none_left. absurd (ground (arith, sym (ap (map to_ascii_lowercase) e) ∙ none_left));
      size = ground (arith, checked.1, length-lower trimmed, ap length result_is);
    }
