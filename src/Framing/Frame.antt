-- ===== src/Framing/Frame.antt =====
-- `frame` of crates/core/src/framing.rs: the decimal length, a space, the message.
use mathlib.Core.Logic.{dite}
use mathlib.Core.WellFounded.{Acc, WellFounded}
use native.Mathlib.Decide.{dec_lt}
use syslog_dtls_agent.Prelude.{
  ℕ, zero, suc, ◌+◌, ◌/◌, ◌%◌, ◌<◌, [], ◌∷◌, ◌++◌, ◌==◌, if◌then◌else◌, length, Bytes, arith,
}

acc_below : (k n : ℕ) → n < k → Acc ◌<◌ n
acc_below zero n h = elim h [ ]
acc_below (suc k) n h = Acc.intro n λ m lt. acc_below k m (omega arith)

pub lt_wf : WellFounded ◌<◌
unfolding acc_below
lt_wf = record { apply = λ n. acc_below (suc n) n (omega arith) }

-- The digits of a positive number, before those that are there already.
unfoldable pub prepend_digits : (n : ℕ) → Acc ◌<◌ n → Bytes → Bytes
prepend_digits n (Acc.intro _ smaller) out =
    dite (dec_lt 0 n)
      (λ h. prepend_digits (n / 10) (smaller (n / 10) (omega arith)) ((b'0' + n % 10) ∷ out))
      (λ _. out)

-- `usize::to_string`.
unfoldable pub decimal : ℕ → Bytes
unfolding prepend_digits lt_wf dec_lt
decimal n = if n == 0 then b'0' ∷ [] else prepend_digits n (lt_wf.apply n) []

unfoldable pub frame : Bytes → Bytes
frame message = decimal (length message) ++ b' ' ∷ message
