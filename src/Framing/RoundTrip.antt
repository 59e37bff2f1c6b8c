-- ===== src/Framing/RoundTrip.antt =====
-- The octet-count frames of crates/core/src/framing.rs read back by the reader that RFC 6012 describes.
use mathlib.Core.WellFounded.{Acc}
use mathlib.Core.Logic.{dif_pos, dif_neg}
use native.Mathlib.Decide.{dec_lt}
use native.Mathlib.Bridge.{le_prop}
use syslog_dtls_agent.Prelude.{
  ℕ, ◌+◌, ◌-◌, ◌*◌, ◌/◌, ◌%◌, ◌<◌, ◌≡◌, refl, ap, ◌∙◌, true, Option, none, some, [], ◌∷◌, ◌++◌,
  append_assoc, leb, ◌==◌, if◌then◌else◌, length, length-append, take, drop, take-append,
  drop-append, drop-append_cons, all, Bytes, inl, inr, Bool-cases, arith,
}
use syslog_dtls_agent.Framing.Text.{is_digit, position}
use syslog_dtls_agent.Framing.Frame.{prepend_digits, decimal, frame, lt_wf}

-- The number that digits denote, continuing from one read already.
abbrev pub value : ℕ → Bytes → ℕ
value n [] = n
value n (b ∷ s) = value (n * 10 + (b - b'0')) s

-- MSG-LEN SP SYSLOG-MSG: the message, and what follows the frame.
unfoldable pub read_frame : Bytes → Option (Bytes × Bytes)
read_frame s = elim (position (λ b. b == b' ') s) [
  | none ↦ none
  | some k ↦
      let n = value 0 (take k s) in
      let body = drop (k + 1) s in
      if leb n (length body) then some (take n body, drop n body) else none
]

value-prepend_digits :
    (n : ℕ) (w : Acc ◌<◌ n) (out : Bytes) → value 0 (prepend_digits n w out) ≡ value n out
unfolding prepend_digits
value-prepend_digits n (Acc.intro _ smaller) out = elim (dec_lt 0 n) [
  | yes h ↦ rw (dif_pos (dec_lt 0 n) le_prop h) (
      value-prepend_digits (n / 10) (smaller (n / 10) (omega arith)) ((b'0' + n % 10) ∷ out)
      ∙ ap (λ k. value k out) (omega arith))
  | no h ↦ rw (dif_neg (dec_lt 0 n) h) (ap (λ k. value k out) (omega arith))
]

digits-prepend_digits :
    (n : ℕ) (w : Acc ◌<◌ n) (out : Bytes)
    → all is_digit out ≡ true
    → all is_digit (prepend_digits n w out) ≡ true
unfolding prepend_digits
digits-prepend_digits n (Acc.intro _ smaller) out d = elim (dec_lt 0 n) [
  | yes h ↦ rw (dif_pos (dec_lt 0 n) le_prop h) (
      digits-prepend_digits (n / 10) (smaller (n / 10) (omega arith)) ((b'0' + n % 10) ∷ out)
        (ground arith))
  | no h ↦ rw (dif_neg (dec_lt 0 n) h) d
]

pub value-decimal : (n : ℕ) → value 0 (decimal n) ≡ n
unfolding decimal
value-decimal n = elim (Bool-cases (n == 0)) [
  | inl e ↦ rw e (ground arith)
  | inr e ↦ rw e (value-prepend_digits n (lt_wf.apply n) [])
]

pub digits-decimal : (n : ℕ) → all is_digit (decimal n) ≡ true
unfolding decimal
digits-decimal n = elim (Bool-cases (n == 0)) [
  | inl e ↦ rw e refl
  | inr e ↦ rw e (digits-prepend_digits n (lt_wf.apply n) [] refl)
]

position-after_digits :
    (ds s : Bytes)
    → all is_digit ds ≡ true
    → position (λ b. b == b' ') (ds ++ b' ' ∷ s) ≡ some (length ds)
unfolding position
position-after_digits [] s h = refl
position-after_digits (d ∷ ds) s h = ground (arith, position-after_digits ds s)

read_frame-digits :
    (ds s : Bytes)
    → all is_digit ds ≡ true
    → read_frame (ds ++ b' ' ∷ s) ≡ (
        if leb (value 0 ds) (length s)
        then some (take (value 0 ds) s, drop (value 0 ds) s)
        else none)
unfolding read_frame
read_frame-digits ds s h =
    rw (position-after_digits ds s h, read_frame)
      (rw (take-append ds (b' ' ∷ s), drop-append_cons ds s b' '))

-- A frame followed by any bytes reads back as its message and those bytes.
pub read_frame-frame : (m rest : Bytes) → read_frame (frame m ++ rest) ≡ some (m, rest)
unfolding frame
read_frame-frame m rest = rw append_assoc (
    rw (
      read_frame-digits (decimal (length m)) (m ++ rest) (digits-decimal (length m)),
      value-decimal (length m),
      fits m rest,
      take-append m rest,
      drop-append m rest,
    ))
  where
    fits : (xs ys : Bytes) → leb (length xs) (length (xs ++ ys)) ≡ true
    fits xs ys = ground (arith, length-append xs ys)
