-- ===== src/Framing/Priority.antt =====
-- The priority between `<` and `>`: `valid_pri` accepts the decimal numerals of 0 to 191, and no other
-- text.
use syslog_dtls_agent.Prelude.{
  ℕ, zero, suc, ◌+◌, ◌-◌, ◌*◌, ◌/◌, ◌%◌, ◌<◌, ◌≤◌, ◌≡◌, refl, sym, ◌∙◌, inl, inr, Bool, true, ◌&&◌,
  [], ◌∷◌, ltb, ◌==◌, if◌then◌else◌, Bytes, bytes_eq, bytes_eq→eq, Bool-cases, arith,
}
use syslog_dtls_agent.Framing.Text.{is_utf8, parse_digits, parse_u16}
use syslog_dtls_agent.Framing.Frame.{decimal}
use syslog_dtls_agent.Framing.Header.{valid_pri}

abbrev all_below : ℕ → (ℕ → Bool) → Bool
all_below zero p = true
all_below (suc k) p = p k && all_below k p

all_below_holds : (k : ℕ) (p : ℕ → Bool) → all_below k p ≡ true → (n : ℕ) → n < k → p n ≡ true
all_below_holds zero p h n lt = absurd (omega (arith, lt))
all_below_holds (suc k) p h n lt = elim (Bool-cases (n == k)) [
  | inl e ↦ (let same : n ≡ k = ground (arith, e) in rw same (ground (arith, h)))
  | inr e ↦ all_below_holds k p (ground (arith, h)) n (ground (arith, e, lt))
]

-- The numerals of the numbers that a priority may have, digit by digit.
abbrev digits : ℕ → Bytes
digits n =
    if ltb n 10
    then (b'0' + n) ∷ []
    else if ltb n 100
    then (b'0' + n / 10) ∷ (b'0' + n % 10) ∷ []
    else b'1' ∷ (b'0' + (n - 100) / 10) ∷ (b'0' + n % 10) ∷ []

decimal_small : (n : ℕ) → n < 192 → bytes_eq (decimal n) (digits n) && valid_pri (decimal n) ≡ true
unfolding decimal valid_pri is_utf8 parse_u16
decimal_small =
    all_below_holds 192 (λ n. bytes_eq (decimal n) (digits n) && valid_pri (decimal n)) refl

pub valid_pri-decimal : (n : ℕ) → n ≤ 191 → valid_pri (decimal n) ≡ true
valid_pri-decimal n h = ground (arith, decimal_small n (omega (arith, h)))

decimal-digits : (n : ℕ) → n < 192 → decimal n ≡ digits n
decimal-digits n h = bytes_eq→eq (decimal n) (digits n) (ground (arith, decimal_small n h))

two_digits :
    (a b : ℕ)
    → (b'1' ≤ a) × (a ≤ b'9') × (b'0' ≤ b) × (b ≤ b'9')
    → digits ((a - b'0') * 10 + (b - b'0')) ≡ a ∷ b ∷ []
two_digits a b h = ground (arith, h)

three_digits :
    (a b c : ℕ)
    → ((a - b'0') * 10 + (b - b'0')) * 10 + (c - b'0') ≤ 191
    → (b'1' ≤ a) × (b'0' ≤ b) × (b ≤ b'9') × (b'0' ≤ c) × (c ≤ b'9')
    → digits (((a - b'0') * 10 + (b - b'0')) * 10 + (c - b'0')) ≡ a ∷ b ∷ c ∷ []
three_digits a b c small h = ground (arith, small, h)

pub decimal-valid_pri : (s : Bytes) → valid_pri s ≡ true → (n : ℕ) × (n ≤ 191) × (s ≡ decimal n)
unfolding valid_pri parse_u16 parse_digits
decimal-valid_pri [] h = absurd (ground arith)
decimal-valid_pri (a ∷ []) h =
    (a - b'0', ground arith, ground (arith, decimal-digits (a - b'0') (ground arith)))
decimal-valid_pri (a ∷ b ∷ []) h =
    let n = (a - b'0') * 10 + (b - b'0') in
    let small : n ≤ 191 = ground arith in
    let bounds : (b'1' ≤ a) × (a ≤ b'9') × (b'0' ≤ b) × (b ≤ b'9') = ground arith in
    (n, small, sym (decimal-digits n (omega (arith, small)) ∙ two_digits a b bounds))
decimal-valid_pri (a ∷ b ∷ c ∷ []) h =
    let n = ((a - b'0') * 10 + (b - b'0')) * 10 + (c - b'0') in
    let small : n ≤ 191 = ground arith in
    let bounds : (b'1' ≤ a) × (b'0' ≤ b) × (b ≤ b'9') × (b'0' ≤ c) × (c ≤ b'9') = ground arith in
    (n, small, sym (decimal-digits n (omega (arith, small)) ∙ three_digits a b c small bounds))
decimal-valid_pri (a ∷ b ∷ c ∷ d ∷ s) h = absurd (ground arith)
