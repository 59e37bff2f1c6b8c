-- ===== src/Relay/Backoff.antt =====
-- The retry delay of `send` of crates/core/src/relay.rs, over whole schedules.
use native.Mathlib.Nat.{pow-suc, mul-one, mul_assoc}
use syslog_dtls_agent.Prelude.{
  ℕ, suc, ◌*◌, ◌^◌, ◌≤◌, ◌≡◌, refl, sym, ap, ◌∙◌, min, Bool, Option, none, some, List, [], ◌∷◌,
  if◌then◌else◌, Bytes, Text, Result, ok, err, arith,
}
use syslog_dtls_agent.Config.Schema.{Config}
use syslog_dtls_agent.Relay.State.{State}
use syslog_dtls_agent.Relay.Sender.{
  Sender, Observed, Place, top, resolving, looking_up, resolved, connecting, connect_failed,
  retrying, polling, fetching, writing, failing, settling, pausing, closing, stopped, crashed,
  WriteOutcome, sent, would_block, new_sender, next_delay, at_top, start_lookup, await_lookup,
  choose, on_connect, on_connect_failed, retry, poll_session, fetch_front, fetch, write_pending,
  fail, settle, wait, step_at, sender_step,
}
use syslog_dtls_agent.Relay.Turns.{IsPaced}
use syslog_dtls_agent.Relay.World.{
  Action, datagram, socket_error, listener_check, sender_turn, stop_request, stop_join, System,
  frames_sent, nonempty, step, run, started,
}

-- One more failure when a connection could not be made or a session failed, and none once a session
-- has taken a frame.
abbrev pub counted : Place → Observed → Sender → ℕ → ℕ
counted (retrying e) o n k = suc k
counted (failing e) o n k = suc k
counted writing o n k = if nonempty (frames_sent writing o n) then 0 else k
counted place o n k = k

abbrev pub counted_by : System → Action → ℕ → ℕ
counted_by w (sender_turn o) k = counted w.sender.place o w.sender k
counted_by w action k = k

-- The failures in a row at the end of a schedule.
unfoldable pub failures_after :
    (Bytes → Bool) → Config → Result Text → (ℕ → ℕ) → System → List Action → ℕ → ℕ
failures_after rfc3339 cfg host interval w [] k = k
failures_after rfc3339 cfg host interval w (a ∷ actions) k =
    failures_after rfc3339 cfg host interval (step rfc3339 cfg host interval w a) actions
      (counted_by w a k)

doubled : (p m : ℕ) → m ≤ 300_000 → next_delay (min p m) m ≡ min (p * 2) m
unfolding next_delay
doubled p m h = ground (arith, h)

module _ (cfg : Config) (paced : IsPaced cfg) where
  -- The initial delay, doubled `k` times and cut off at the maximum.
  abbrev IsBackedOff : ℕ → ℕ → Type 0
  IsBackedOff k delay = delay ≡ min (cfg.dtls.retry_initial_ms * 2 ^ k) cfg.dtls.retry_max_ms

  initially : IsBackedOff 0 cfg.dtls.retry_initial_ms
  initially =
      let e : cfg.dtls.retry_initial_ms * 2 ^ 0 ≡ cfg.dtls.retry_initial_ms = mul-one _ in
      ground (arith, paced, e)

  next_delay-IsBackedOff :
      (k delay : ℕ)
      → IsBackedOff k delay
      → IsBackedOff (suc k) (next_delay delay cfg.dtls.retry_max_ms)
  next_delay-IsBackedOff k delay e =
      ap (λ d. next_delay d cfg.dtls.retry_max_ms) e
      ∙ doubled (cfg.dtls.retry_initial_ms * 2 ^ k) cfg.dtls.retry_max_ms paced.max_limited
      ∙ ap (λ d. min d cfg.dtls.retry_max_ms)
          (mul_assoc cfg.dtls.retry_initial_ms (2 ^ k) 2
            ∙ ap (λ q. cfg.dtls.retry_initial_ms * q) (sym (pow-suc 2 k)))

  module _ (host : Result Text) (interval : ℕ → ℕ) (o : Observed) (n : Sender) (s : State) where
    at_top_delay : (at_top o n s).0.delay ≡ n.delay
    unfolding at_top
    at_top_delay = ground arith

    start_lookup_delay : (start_lookup cfg host o n).delay ≡ n.delay
    unfolding start_lookup
    start_lookup_delay = ground arith

    await_lookup_delay : (until : ℕ) → (await_lookup until o n s).delay ≡ n.delay
    unfolding await_lookup
    await_lookup_delay until = ground arith

    choose_delay : (addresses : List Text) → (choose addresses n s).0.delay ≡ n.delay
    unfolding choose
    choose_delay addresses = ground arith

    on_connect_delay : (on_connect o n s).0.delay ≡ n.delay
    unfolding on_connect
    on_connect_delay = ground arith

    on_connect_failed_delay : (e : Text) → (on_connect_failed e o n s).delay ≡ n.delay
    unfolding on_connect_failed
    on_connect_failed_delay e = ground arith

    poll_session_delay : (poll_session o n).delay ≡ n.delay
    unfolding poll_session
    poll_session_delay = ground arith

    fetch_delay : (fetch o n s).0.delay ≡ n.delay
    unfolding fetch fetch_front
    fetch_delay = ground arith

    wait_delay : (until : ℕ) → (wait until o n s).delay ≡ n.delay
    unfolding wait
    wait_delay until = ground arith

    written-IsBackedOff :
        (k : ℕ) (p : Option Bytes) (r : Result WriteOutcome)
        → n.pending_frame ≡ p
        → o.write ≡ r
        → IsBackedOff k n.delay
        → IsBackedOff (counted writing o n k) (write_pending cfg interval o n s).0.delay
    unfolding write_pending
    written-IsBackedOff k none (err e) a b h = rw (write_pending, a, b) h
    written-IsBackedOff k none (ok sent) a b h = rw (write_pending, a, b) h
    written-IsBackedOff k none (ok would_block) a b h = rw (write_pending, a, b) h
    written-IsBackedOff k (some f) (err e) a b h = rw (write_pending, a, b) h
    written-IsBackedOff k (some f) (ok sent) a b h = rw (write_pending, a, b) initially
    written-IsBackedOff k (some f) (ok would_block) a b h = rw (write_pending, a, b) h

    write_pending-IsBackedOff :
        (k : ℕ)
        → IsBackedOff k n.delay
        → IsBackedOff (counted writing o n k) (write_pending cfg interval o n s).0.delay
    write_pending-IsBackedOff k h = written-IsBackedOff k n.pending_frame o.write refl refl h

    step_at-IsBackedOff :
        (place : Place) (k : ℕ)
        → IsBackedOff k n.delay
        → IsBackedOff (counted place o n k) (step_at cfg host interval place o n s).0.delay
    unfolding retry fail settle
    step_at-IsBackedOff top k h = at_top_delay ∙ h
    step_at-IsBackedOff resolving k h = start_lookup_delay ∙ h
    step_at-IsBackedOff (looking_up until) k h = await_lookup_delay until ∙ h
    step_at-IsBackedOff (resolved addresses) k h = choose_delay addresses ∙ h
    step_at-IsBackedOff (connecting remote) k h = on_connect_delay ∙ h
    step_at-IsBackedOff (connect_failed e) k h = on_connect_failed_delay e ∙ h
    step_at-IsBackedOff (retrying e) k h = next_delay-IsBackedOff k n.delay h
    step_at-IsBackedOff polling k h = poll_session_delay ∙ h
    step_at-IsBackedOff fetching k h = fetch_delay ∙ h
    step_at-IsBackedOff writing k h = write_pending-IsBackedOff k h
    step_at-IsBackedOff (failing e) k h = next_delay-IsBackedOff k n.delay h
    step_at-IsBackedOff settling k h = h
    step_at-IsBackedOff (pausing until) k h = wait_delay until ∙ h
    step_at-IsBackedOff closing k h = h
    step_at-IsBackedOff stopped k h = h
    step_at-IsBackedOff crashed k h = h

  module _ (rfc3339 : Bytes → Bool) (host : Result Text) (interval : ℕ → ℕ) where
    step-IsBackedOff :
        (w : System) (a : Action) (k : ℕ)
        → IsBackedOff k w.sender.delay
        → IsBackedOff (counted_by w a k) (step rfc3339 cfg host interval w a).sender.delay
    unfolding step sender_step
    step-IsBackedOff w (sender_turn o) k h =
        step_at-IsBackedOff host interval o w.sender w.state w.sender.place k h
    step-IsBackedOff w (datagram peer bytes wall_ms) k h = ground (arith, h)
    step-IsBackedOff w (socket_error e now) k h = ground (arith, h)
    step-IsBackedOff w listener_check k h = h
    step-IsBackedOff w (stop_request now) k h = h
    step-IsBackedOff w stop_join k h = ground (arith, h)

    run-IsBackedOff :
        (actions : List Action) (w : System) (k : ℕ)
        → IsBackedOff k w.sender.delay
        → IsBackedOff
            (failures_after rfc3339 cfg host interval w actions k)
            (run rfc3339 cfg host interval w actions).sender.delay
    unfolding run failures_after
    run-IsBackedOff [] w k h = h
    run-IsBackedOff (a ∷ actions) w k h =
        run-IsBackedOff actions (step rfc3339 cfg host interval w a) (counted_by w a k)
          (step-IsBackedOff w a k h)

    -- Exponential backoff: after any schedule, for a configuration within the delay limits, the
    -- sender's retry delay is the initial delay times 2 ^ k, cut off at the maximum, where `k` is the
    -- number of failed connections that a retry follows and of failed sessions since a session last
    -- took a frame.
    pub exponential_backoff :
        (address destination fingerprint : Text) (now wall_ms : ℕ) (actions : List Action)
        → (run rfc3339 cfg host interval
            (started cfg address destination fingerprint now wall_ms)
            actions).sender.delay
          ≡ min
              (cfg.dtls.retry_initial_ms
                * 2
                  ^ failures_after rfc3339 cfg host interval
                      (started cfg address destination fingerprint now wall_ms)
                      actions
                      0)
              cfg.dtls.retry_max_ms
    unfolding started new_sender
    exponential_backoff address destination fingerprint now wall_ms actions =
        run-IsBackedOff actions (started cfg address destination fingerprint now wall_ms) 0
          initially
