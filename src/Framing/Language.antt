-- ===== src/Framing/Language.antt =====
-- `valid_message` of crates/core/src/framing.rs accepts the grammar, and nothing else.
use syslog_dtls_agent.Prelude.{
  ℕ, zero, suc, ◌+◌, ◌≤◌, ◌≡◌, ◌≢◌, refl, sym, ap, subst, ◌∙◌, ◌↔◌, inl, inr, true, false, some,
  List, [], ◌∷◌, ◌++◌, ◌==◌, within, length, take, drop, take-append, drop-append_cons, all, All,
  Bytes, Option-cases, arith,
}
use syslog_dtls_agent.Framing.Text.{position, is_digit}
use syslog_dtls_agent.Framing.Header.{fields, valid_field}
use syslog_dtls_agent.Framing.Grammar.{spaced, IsField}
use syslog_dtls_agent.Framing.Scan.{IsSplit, position-IsSplit, position-append}

abbrev pub IsUnspaced : Bytes → Type 0
IsUnspaced = All (λ b. (b == b' ') ≡ false)

-- The loop over the fields takes a text apart at its spaces.
pub fields-spaced :
    (fs : List Bytes) (rest : Bytes)
    → All IsUnspaced fs
    → fields (length fs) (spaced fs rest) ≡ some (fs, rest)
unfolding fields
fields-spaced [] rest a = refl
fields-spaced (f ∷ fs) rest a =
    rw
      (
        fields,
        position-append (λ b. b == b' ') f (spaced fs rest) b' ' a.0 refl,
        drop-append_cons f (spaced fs rest) b' ',
        fields-spaced fs rest a.1,
        take-append f (b' ' ∷ spaced fs rest),
      )
      refl

pub record IsFields (n : ℕ) (s : Bytes) (fs : List Bytes) (rest : Bytes) : Type 0 where
  pub shape : s ≡ spaced fs rest
  pub count : length fs ≡ n
  pub unspaced : All IsUnspaced fs

IsFields-step :
    (n k : ℕ) (s : Bytes) (fs others : List Bytes) (rest : Bytes)
    → IsSplit (λ b. b == b' ') s k
    → fs ≡ take k s ∷ others
    → IsFields n (drop (k + 1) s) others rest
    → IsFields (suc n) s fs rest
IsFields-step n k s fs others rest q e r =
    let space : q.found ≡ b' ' = ground (arith, q.hit) in
    let text : s ≡ q.before ++ b' ' ∷ q.after = q.text ∙ ap (λ c. q.before ++ c ∷ q.after) space in
    let taken : take k s ≡ q.before = rw (← q.long, text) (take-append q.before (b' ' ∷ q.after)) in
    let left : drop (k + 1) s ≡ q.after =
      rw (← q.long, text) (drop-append_cons q.before q.after b' ') in
    let whole : fs ≡ q.before ∷ others = e ∙ ap (λ f. f ∷ others) taken in
    record {
      shape =
          text
          ∙ ap (λ t. q.before ++ b' ' ∷ t) (sym left ∙ r.shape)
          ∙ ap (λ l. spaced l rest) (sym whole);
      count = ap length whole ∙ ap suc r.count;
      unspaced = subst (All IsUnspaced) (sym whole) (q.missed, r.unspaced);
    }

pub fields-IsFields :
    (n : ℕ) (s : Bytes) (fs : List Bytes) (rest : Bytes)
    → fields n s ≡ some (fs, rest)
    → IsFields n s fs rest
unfolding fields
fields-IsFields zero s fs rest h =
    let none_left : [] ≡ fs = ground (arith, h) in
    let same : s ≡ rest = ground (arith, h) in
    record {
      shape = same ∙ ap (λ l. spaced l rest) none_left;
      count = sym (ap length none_left);
      unspaced = subst (All IsUnspaced) none_left tt;
    }
fields-IsFields (suc n) s fs rest h = elim (Option-cases (position (λ b. b == b' ') s)) [
  | inl e ↦ absurd (ground arith)
  | inr (k, e) ↦ elim (Option-cases (fields n (drop (k + 1) s))) [
    | inl f ↦ absurd (ground arith)
    | inr ((others, end), f) ↦
        (let same : end ≡ rest = ground arith in
          IsFields-step n k s fs others rest (position-IsSplit (λ b. b == b' ') s k e)
            (ground arith)
            (fields-IsFields n (drop (k + 1) s) others rest (f ∙ ap (λ r. some (others, r)) same)))
  ]
]

printable_bytes : (s : Bytes) → (all (within 33 126) s ≡ true) ↔ All (λ b. (33 ≤ b) × (b ≤ 126)) s
printable_bytes [] = (λ h. tt, λ h. refl)
printable_bytes (b ∷ s) =
    (λ h. ground (arith, (printable_bytes s).0), λ h. ground (arith, (printable_bytes s).1 h.1))

pub valid_field-IsField : (limit : ℕ) (s : Bytes) → (valid_field s limit ≡ true) ↔ IsField limit s
unfolding valid_field
valid_field-IsField limit s = (
  λ h. ground (arith, (printable_bytes s).0),
  λ h. ground (arith, (printable_bytes s).1 h.printable, h.least, h.most),
)

pub unspaced_field :
    (s : Bytes) → All (λ b. (33 ≤ b) × (b ≤ 126)) s → All (λ b. (b == b' ') ≡ false) s
unspaced_field [] a = tt
unspaced_field (b ∷ s) a = (ground (arith, a.0), unspaced_field s a.1)

pub unspaced_bytes : (s : Bytes) → All (λ b. (b == b' ') ≡ false) s ↔ All (λ b. b ≢ b' ') s
unspaced_bytes [] = (λ h. tt, λ h. tt)
unspaced_bytes (b ∷ s) = (
  λ h. (ground (arith, h.0), (unspaced_bytes s).0 h.1),
  λ h. (ground (arith, h.0), (unspaced_bytes s).1 h.1),
)

pub digits_end : (s : Bytes) → all is_digit s ≡ true → All (λ b. (b == b'>') ≡ false) s
digits_end [] h = tt
digits_end (b ∷ s) h = (ground arith, digits_end s (ground arith))
