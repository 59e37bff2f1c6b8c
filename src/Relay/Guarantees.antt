-- ===== src/Relay/Guarantees.antt =====
-- What crates/core/src/relay.rs promises, for every schedule of its threads from `Relay::start` on.
use syslog_dtls_agent.Prelude.{
  ℕ, ◌+◌, ◌%◌, ◌^◌, ◌≤◌, ◌≡◌, ◌≢◌, Bool, true, List, [], ◌++◌, ap, subst, length, All, Bytes, Text,
  Result, arith,
}
use syslog_dtls_agent.Config.Schema.{Config}
use syslog_dtls_agent.Relay.State.{State, is_set}
use syslog_dtls_agent.Relay.Sender.{Place, stopped, crashed}
use syslog_dtls_agent.Relay.World.{Action, System}
use syslog_dtls_agent.Relay.Accounts.{IsLimited, IsAccounted, total}
use syslog_dtls_agent.Relay.Turns.{IsPaced, IsPlaced}
use syslog_dtls_agent.Relay.Effects.{frames_of, IsAdmissible}
use syslog_dtls_agent.Relay.Order.{IsSound, messages_of}
use syslog_dtls_agent.Relay.Reach.{run-IsSound, started-IsSound, reached}

empty_books :
    (cfg : Config) (s : State)
    → s.queue ≡ []
    → IsAccounted cfg s
    → (s.status.queue_depth ≡ 0)
      × (s.status.queue_bytes ≡ 0)
      × (s.status.messages_received % 2 ^ 64
          ≡ (s.status.messages_forwarded + s.status.messages_dropped) % 2 ^ 64)
unfolding total
empty_books cfg s e a = omega (arith, a, ap length e, ap total e)

module _ (rfc3339 : Bytes → Bool) (cfg : Config) (host : Result Text) (interval : ℕ → ℕ)
    (limited : IsLimited cfg) (paced : IsPaced cfg) (address destination fingerprint : Text)
    (now wall_ms : ℕ) (actions : List Action) where
  abbrev after : System
  after =
      reached rfc3339 cfg host interval limited paced address destination fingerprint now wall_ms
        actions

  sound : IsSound rfc3339 cfg after
  sound = run-IsSound rfc3339 cfg host interval limited paced _ actions (
      started-IsSound rfc3339 cfg host interval limited paced address destination fingerprint now
        wall_ms)

  -- After any schedule, for a configuration within the size and delay limits: datagrams received are
  -- those forwarded, dropped or queued, drops are the sum of their five reasons (modulo 2 ^ 64), queue
  -- depth and bytes are those of the queue, and neither passes its configured maximum.
  pub books_kept : IsAccounted cfg after.state
  books_kept = sound.in_step.accounted

  -- After any schedule, for a configuration within the limits: the messages queued so far are those
  -- settled followed by those in the queue, in order, the frames that sessions took are those of the
  -- settled messages marked as sent, in order, and their number is the forwarded counter modulo 2 ^ 64.
  pub delivery_in_order :
      (after.accepted ≡ messages_of after.settled ++ after.state.queue)
      × (after.wire ≡ frames_of after.settled)
      × (after.state.status.messages_forwarded % 2 ^ 64 ≡ length after.wire % 2 ^ 64)
  delivery_in_order = (sound.ordered.fifo, sound.ordered.on_wire, sound.ordered.wire_counted)

  -- After any schedule, for a configuration within the limits, every message that was queued came from
  -- an allowed source, is a valid RFC 5424 message, and is within the size limit.
  pub accepted-IsAdmissible : All (IsAdmissible rfc3339 cfg) after.accepted
  accepted-IsAdmissible = sound.admissible

  IsPlaced-not-crashed : (p : Place) → IsPlaced p after.sender after.state → p ≢ crashed
  IsPlaced-not-crashed p h e = subst (λ q. IsPlaced q after.sender after.state) e h

  -- After any schedule, for a configuration within the limits, the sender has not unwrapped a missing
  -- session nor indexed the addresses out of range, and its retry delay lies between the initial delay
  -- and the maximum.
  pub sender_never_crashes :
      (after.sender.place ≢ crashed)
      × (cfg.dtls.retry_initial_ms ≤ after.sender.delay)
      × (after.sender.delay ≤ cfg.dtls.retry_max_ms)
  sender_never_crashes = (
    IsPlaced-not-crashed after.sender.place sound.in_step.placed,
    sound.in_step.delay_least,
    sound.in_step.delay_most,
  )

  -- After any schedule, for a configuration within the limits, that leaves the sender's thread ended: a
  -- stop was requested, the queue and its figures are empty, and every datagram received was forwarded
  -- or dropped (modulo 2 ^ 64).
  pub stopped_settled :
      after.sender.place ≡ stopped
      → (is_set after.state.stop_at ≡ true)
        × (after.state.queue ≡ [])
        × (after.state.status.queue_depth ≡ 0)
        × (after.state.status.queue_bytes ≡ 0)
        × (after.state.status.messages_received % 2 ^ 64
            ≡ (after.state.status.messages_forwarded + after.state.status.messages_dropped)
              % 2 ^ 64)
  stopped_settled e =
      let p = subst (λ q. IsPlaced q after.sender after.state) e sound.in_step.placed in
      let b = empty_books cfg after.state p.1 sound.in_step.accounted in (p.0, p.1, b.0, b.1, b.2)
