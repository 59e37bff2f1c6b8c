-- ===== src/Dtls/Outcomes.antt =====
-- What `send` and `poll` of crates/dtls-openssl/src/lib.rs return, on every branch.
use syslog_dtls_agent.Prelude.{
  ℕ, ℤ, pos, negsuc, ◌≤◌, ◌≡◌, sym, ◌∙◌, ◌↔◌, true, false, [], ◌∷◌, length, Bytes, text, ok, err,
  Bool-cases, inl, inr, arith,
}
use syslog_dtls_agent.Relay.Sender.{sent, would_block}
use syslog_dtls_agent.Dtls.Session.{
  as_c_int, Answer, ssl_write, OpenSslSession, check_result, handle_timeout, over_budget, written,
  send, is_positive, is_negative, eq_int,
}
use syslog_dtls_agent.Dtls.Lifetime.{IsRetry}

-- A frame that one record can carry.
abbrev pub Fits : ℕ → Bytes → Type 0
Fits mtu frame = (1 ≤ length frame) × (length frame ≤ mtu)

-- OpenSSL took nothing and asks for a retry, and its timers ran.
abbrev pub IsBlocked : Answer → Type 0
IsBlocked a = (is_positive a.result ≡ false) × IsRetry a.error × (is_negative a.timeout ≡ false)

pub as_c_int_small : (n : ℕ) → n ≤ 16384 → as_c_int n ≡ pos n
unfolding as_c_int
as_c_int_small n h = ground arith

pub over_budget-Fits : (mtu : ℕ) (frame : Bytes) → over_budget mtu frame ≡ false → Fits mtu frame
over_budget-Fits mtu [] h = ground arith
over_budget-Fits mtu (b ∷ frame) h = ground arith

pub Fits-over_budget : (mtu : ℕ) (frame : Bytes) → Fits mtu frame → over_budget mtu frame ≡ false
Fits-over_budget mtu [] h = absurd (omega (arith, h))
Fits-over_budget mtu (b ∷ frame) h = ground (arith, h)

eq_int→eq : (a : ℤ) (n : ℕ) → eq_int a (pos n) ≡ true → a ≡ pos n
eq_int→eq (pos a) n h = ground arith
eq_int→eq (negsuc a) n h = ground arith

eq_int_self : (n : ℕ) → eq_int (pos n) (pos n) ≡ true
eq_int_self n = ground arith

written-sent :
    (frame : Bytes) (a : Answer)
    → length frame ≤ 16384
    → (written frame a ≡ ok sent) ↔ (a.result ≡ pos (length frame))
unfolding written
written-sent frame a h = (
  λ e. eq_int→eq a.result (length frame) (ground (arith, as_c_int_small (length frame) h)),
  λ e. ground (arith, e, as_c_int_small (length frame) h, eq_int_self (length frame)),
)

written-would_block :
    (frame : Bytes) (a : Answer)
    → 1 ≤ length frame
    → length frame ≤ 16384
    → (written frame a ≡ ok would_block) ↔ IsBlocked a
unfolding written check_result handle_timeout
written-would_block frame a l h = ground (arith, as_c_int_small (length frame) h)

send-over_budget :
    (s : OpenSslSession) (frame : Bytes) (a : Answer)
    → ((send s frame a).1 ≡ []) ↔ (over_budget s.mtu frame ≡ true)
unfolding send
send-over_budget s frame a = ground arith

send-written :
    (s : OpenSslSession) (frame : Bytes) (a : Answer)
    → ((send s frame a).1 ≡ ssl_write frame ∷ []) ↔ (over_budget s.mtu frame ≡ false)
unfolding send
send-written s frame a = ground arith

send-Fits :
    (s : OpenSslSession) (frame : Bytes) (a : Answer)
    → Fits s.mtu frame
    → (send s frame a).0 ≡ written frame a
unfolding send
send-Fits s frame a h = ground (arith, Fits-over_budget s.mtu frame h)

send_over :
    (s : OpenSslSession) (frame : Bytes) (a : Answer)
    → over_budget s.mtu frame ≡ true
    → (send s frame a).0 ≡ err (text "Frame exceeds the DTLS record budget")
unfolding send
send_over s frame a h = ground arith

-- The three outcomes of `send` on a session with a budget of at most 16384 bytes. It reports the frame
-- as sent exactly when the frame is not empty and within the budget and OpenSSL wrote all of it; as to
-- be retried exactly when such a frame was not written, OpenSSL asks for a retry and its timers ran;
-- and it fails in every other case. The one call on the association is the write of exactly this frame
-- when the frame is not empty and within the budget, and there is none otherwise.
pub send_outcomes :
    (s : OpenSslSession) (frame : Bytes) (a : Answer)
    → s.mtu ≤ 16384
    → (((send s frame a).0 ≡ ok sent) ↔ (Fits s.mtu frame × (a.result ≡ pos (length frame))))
      × (((send s frame a).0 ≡ ok would_block) ↔ (Fits s.mtu frame × IsBlocked a))
      × (((send s frame a).1 ≡ ssl_write frame ∷ []) ↔ Fits s.mtu frame)
      × (((send s frame a).1 ≡ []) ↔ (Fits s.mtu frame → ⊥))
send_outcomes s frame a limited = elim (Bool-cases (over_budget s.mtu frame)) [
  | inl over ↦
      let refused = send_over s frame a over in
      let unfit : Fits s.mtu frame → ⊥ =
        λ h. absurd (ground (arith, over, Fits-over_budget s.mtu frame h)) in
      (
        (λ e. absurd (ground (arith, e, refused)), λ h. absurd (unfit h.0)),
        (λ e. absurd (ground (arith, e, refused)), λ h. absurd (unfit h.0)),
        (λ e. absurd (ground (arith, over, (send-written s frame a).0 e)), λ h. absurd (unfit h)),
        (λ e. unfit, λ h. (send-over_budget s frame a).1 over),
      )
  | inr within ↦
      let h = over_budget-Fits s.mtu frame within in
      let same = send-Fits s frame a h in
      let whole = written-sent frame a (omega (arith, h)) in
      let blocked = written-would_block frame a h.0 (omega (arith, h)) in
      (
        (λ e. (h, whole.0 (sym same ∙ e)), λ k. same ∙ whole.1 k.1),
        (λ e. (h, blocked.0 (sym same ∙ e)), λ k. same ∙ blocked.1 k.1),
        (λ e. h, λ k. (send-written s frame a).1 within),
        (λ e. absurd (ground (arith, within, (send-over_budget s frame a).0 e)), λ k. absurd (k h)),
      )
]
