-- ===== src/Framing/Body.antt =====
-- What follows the header fields: `valid_body` and `valid_tail` accept the grammar, and nothing else.
use syslog_dtls_agent.Prelude.{
  ℕ, suc, ◌≡◌, ◌≢◌, refl, ap, ◌∙◌, inl, inr, true, false, List, [], ◌∷◌, length, drop, is_empty,
  Bytes, Bool-cases, Option-cases, arith,
}
use syslog_dtls_agent.Framing.Text.{starts_with_byte}
use syslog_dtls_agent.Framing.Data.{sd_elements}
use syslog_dtls_agent.Framing.Message.{has_bom, valid_tail, valid_body}
use syslog_dtls_agent.Framing.Grammar.{
  IsTail, IsElements, finished, element, IsBody, nil_data, elements,
}
use syslog_dtls_agent.Framing.Elements.{
  cons_of_start, sd_elements-IsElements, IsElements-sd_elements,
}

IsTail-cons : (b : ℕ) (msg : Bytes) → valid_tail (b ∷ msg) ≡ true → IsTail (b ∷ msg)
unfolding valid_tail
IsTail-cons b msg h = elim (Bool-cases (has_bom msg)) [
  | inl e ↦ inr (msg, ap (λ k. k ∷ msg) (ground arith), inr (ground arith))
  | inr e ↦ inr (msg, ap (λ k. k ∷ msg) (ground arith), inl e)
]

pub IsTail-valid_tail : (s : Bytes) → valid_tail s ≡ true → IsTail s
IsTail-valid_tail [] h = inl refl
IsTail-valid_tail (b ∷ msg) h = IsTail-cons b msg h

pub valid_tail-IsTail : (s : Bytes) → IsTail s → valid_tail s ≡ true
unfolding valid_tail
valid_tail-IsTail s (inl e) = rw e refl
valid_tail-IsTail s (inr (msg, e, inl h)) = ap valid_tail e ∙ ground (arith, h)
valid_tail-IsTail s (inr (msg, e, inr h)) = ap valid_tail e ∙ elim (Bool-cases (has_bom msg)) [
  | inl f ↦ ground (arith, h, f)
  | inr f ↦ ground (arith, h, f)
]

-- A tail opens no element.
tail_start : (s : Bytes) → IsTail s → starts_with_byte b'[' s ≡ false
tail_start s (inl e) = ap (starts_with_byte b'[') e
tail_start s (inr (msg, e, h)) = ap (starts_with_byte b'[') e

body_elements :
    (tail : Bytes) (ids : List Bytes) (s : Bytes)
    → ids ≢ []
    → IsElements tail [] ids s
    → IsTail tail
    → (starts_with_byte b'-' s ≡ false) × (is_empty ids ≡ false)
body_elements tail ids s n (finished e f) t = absurd (n f)
body_elements tail [] s n (element {params} {after} id e name fresh ps es) t = absurd (n refl)
body_elements tail (i ∷ ids) s n (element {params} {after} id e name fresh ps es) t =
    (ap (starts_with_byte b'-') e, refl)

pub valid_body-IsBody : (s : Bytes) → IsBody s → valid_body s ≡ true
unfolding valid_body
valid_body-IsBody s (nil_data tail e t) = ap valid_body e ∙ valid_tail-IsTail tail t
valid_body-IsBody s (elements tail ids n es t) =
    let shape = body_elements tail ids s n es t in
    rw
      (
        shape.0,
        sd_elements-IsElements (suc (length s)) tail [] ids s (tail_start tail t) es (omega arith),
        shape.1,
        valid_tail-IsTail tail t,
      )
      refl

nonempty : (ids : List Bytes) → is_empty ids ≡ false → ids ≢ []
nonempty [] h e = absurd (ground arith)
nonempty (i ∷ ids) h e = absurd (ground arith)

pub IsBody-valid_body : (s : Bytes) → valid_body s ≡ true → IsBody s
unfolding valid_body
IsBody-valid_body s h = elim (Bool-cases (starts_with_byte b'-' s)) [
  | inl e ↦
      nil_data (drop 1 s) (cons_of_start b'-' s e) (IsTail-valid_tail (drop 1 s) (ground arith))
  | inr e ↦ elim (Option-cases (sd_elements (suc (length s)) [] s)) [
    | inl f ↦ absurd (ground arith)
    | inr ((ids, after), f) ↦
        elements after ids (nonempty ids (ground arith))
          (IsElements-sd_elements (suc (length s)) after [] ids s f)
          (IsTail-valid_tail after (ground arith))
  ]
]
