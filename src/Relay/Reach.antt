-- ===== src/Relay/Reach.antt =====
-- What holds of crates/core/src/relay.rs after any interleaving of the listener, the sender and `stop`.
use syslog_dtls_agent.Prelude.{
  ℕ, ◌≡◌, refl, sym, ◌∙◌, Bool, true, false, List, [], ◌∷◌, ◌++◌, append-nil, All, All-append,
  if_both, Bytes, Text, Result, arith,
}
use syslog_dtls_agent.Config.Schema.{Config}
use syslog_dtls_agent.Status.{default_status}
use syslog_dtls_agent.Relay.State.{State, is_set, millis}
use syslog_dtls_agent.Relay.Control.{initial_state, request_stop, mark_stopped}
use syslog_dtls_agent.Relay.Listener.{on_datagram, on_socket_error}
use syslog_dtls_agent.Relay.Sender.{Observed, sender_step, new_sender}
use syslog_dtls_agent.Relay.World.{
  Action, datagram, socket_error, listener_check, sender_turn, stop_request, stop_join, System,
  appended, frames_sent, step, run, started,
}
use syslog_dtls_agent.Relay.Accounts.{
  IsLimited, IsAccounted, on_datagram-IsAccounted, initial_state-IsAccounted,
}
use syslog_dtls_agent.Relay.Turns.{IsPaced, sender_step-IsInStep}
use syslog_dtls_agent.Relay.Effects.{
  frames_of, step_at-IsEffect, IsAdmissible, IsArrival, refused, queued, on_datagram-IsArrival,
  on_datagram_kept, appended_lem,
}
use syslog_dtls_agent.Relay.Order.{
  IsOrdered, IsSound, IsInStep-further, IsArrival-IsFurther, IsOrdered-turn, IsOrdered-arrival,
}

listening-IsOrdered : (w : System) (b : Bool) → IsOrdered w → IsOrdered (record w { listening = b })
listening-IsOrdered w b o = record {
  fifo = o.fifo;
  on_wire = o.on_wire;
  wire_counted = o.wire_counted;
}

module _ (rfc3339 : Bytes → Bool) (cfg : Config) (host : Result Text) (interval : ℕ → ℕ)
    (limited : IsLimited cfg) (paced : IsPaced cfg) where
  appended-IsAdmissible :
      (s t : State) → IsArrival rfc3339 cfg s t → All (IsAdmissible rfc3339 cfg) (appended s t)
  appended-IsAdmissible s t (refused e) = rw (appended_lem s t [] (e ∙ sym (append-nil s.queue))) tt
  appended-IsAdmissible s t (queued m e a open_) = rw (appended_lem s t (m ∷ []) e) (a, tt)

  arrival-IsSound :
      (w : System) (t : State)
      → IsArrival rfc3339 cfg w.state t
      → t.stop_at ≡ w.state.stop_at
      → t.status.messages_forwarded ≡ w.state.status.messages_forwarded
      → IsAccounted cfg t
      → IsSound rfc3339 cfg w
      → IsSound rfc3339 cfg (record w { state = t; accepted = w.accepted ++ appended w.state t })
  arrival-IsSound w t arr k fwd acc v =
      let further = IsArrival-IsFurther rfc3339 cfg w.state t arr k in
      record {
        in_step = IsInStep-further w.sender w.state t further cfg acc v.in_step;
        ordered = IsOrdered-arrival w t further fwd v.ordered;
        admissible =
            All-append (IsAdmissible rfc3339 cfg) w.accepted (appended w.state t) v.admissible
              (appended-IsAdmissible w.state t arr);
      }

  -- A change of the status texts and of `stop_at` alone, after which a stop stays set.
  touch-IsSound :
      (w : System) (t : State)
      → t.queue ≡ w.state.queue
      → (is_set w.state.stop_at ≡ true → is_set t.stop_at ≡ true)
      → t.status.messages_forwarded ≡ w.state.status.messages_forwarded
      → IsAccounted cfg t
      → IsSound rfc3339 cfg w
      → IsSound rfc3339 cfg (record w { state = t })
  touch-IsSound w t q k fwd acc v = record {
    in_step =
        IsInStep-further w.sender w.state t
          (record {
            back = [];
            grown = q ∙ sym (append-nil w.state.queue);
            stop_stays = λ h. (k h, refl);
          })
          cfg acc v.in_step;
    ordered = record {
      fifo = rw q v.ordered.fifo;
      on_wire = v.ordered.on_wire;
      wire_counted = rw fwd v.ordered.wire_counted;
    };
    admissible = v.admissible;
  }

  request_stop-IsSound :
      (w : System) (now : ℕ)
      → IsSound rfc3339 cfg w
      → IsSound rfc3339 cfg (step rfc3339 cfg host interval w (stop_request now))
  unfolding step request_stop
  request_stop-IsSound w now v =
      touch-IsSound w (request_stop (millis cfg.dtls.shutdown_drain_ms) now w.state) (ground arith)
        (λ h. ground arith) (ground arith) (ground (arith, v.in_step.accounted)) v

  turn-IsSound :
      (w : System) (o : Observed)
      → IsSound rfc3339 cfg w
      → IsSound rfc3339 cfg (step rfc3339 cfg host interval w (sender_turn o))
  unfolding step sender_step
  turn-IsSound w o v = record {
    in_step =
        sender_step-IsInStep cfg limited paced host interval o w.sender w.state w.sender.place refl
          v.in_step.placed v.in_step;
    ordered =
        IsOrdered-turn w _ _ (frames_sent w.sender.place o w.sender)
          (step_at-IsEffect cfg host interval w.sender.place o w.sender w.state v.in_step.held)
          v.ordered;
    admissible = v.admissible;
  }

  socket_error-IsSound :
      (w : System) (e : Text) (now : ℕ)
      → IsSound rfc3339 cfg w
      → IsSound rfc3339 cfg (record w { state = on_socket_error e now w.state; listening = false })
  unfolding on_socket_error
  socket_error-IsSound w e now v =
      let t =
        touch-IsSound w (on_socket_error e now w.state) refl (λ h. refl) refl
          (omega (arith, v.in_step.accounted)) v in
      record {
        in_step = t.in_step;
        ordered = listening-IsOrdered _ false t.ordered;
        admissible = t.admissible;
      }

  mark_stopped-IsSound :
      (w : System)
      → IsSound rfc3339 cfg w
      → IsSound rfc3339 cfg (record w { state = mark_stopped w.state })
  unfolding mark_stopped
  mark_stopped-IsSound w v =
      touch-IsSound w (mark_stopped w.state) refl (λ h. h) refl (omega (arith, v.in_step.accounted))
        v

  pub step-IsSound :
      (w : System) (a : Action)
      → IsSound rfc3339 cfg w
      → IsSound rfc3339 cfg (step rfc3339 cfg host interval w a)
  unfolding step
  step-IsSound w (datagram peer bytes wall_ms) v =
      let kept = on_datagram_kept rfc3339 cfg peer bytes wall_ms w.state in
      if_both (IsSound rfc3339 cfg) w.listening
        (arrival-IsSound w (on_datagram rfc3339 cfg peer bytes wall_ms w.state)
          (on_datagram-IsArrival rfc3339 cfg peer bytes wall_ms w.state) kept.0 kept.1
          (on_datagram-IsAccounted rfc3339 cfg limited peer bytes wall_ms w.state
            v.in_step.accounted)
          v)
        v
  step-IsSound w (socket_error e now) v =
      if_both (IsSound rfc3339 cfg) w.listening (socket_error-IsSound w e now v) v
  step-IsSound w listener_check v = record {
    in_step = v.in_step;
    ordered = listening-IsOrdered w _ v.ordered;
    admissible = v.admissible;
  }
  step-IsSound w (sender_turn o) v = turn-IsSound w o v
  step-IsSound w (stop_request now) v = request_stop-IsSound w now v
  step-IsSound w stop_join v = if_both (IsSound rfc3339 cfg) _ (mark_stopped-IsSound w v) v

  -- From any sound system, every schedule leads to sound systems.
  pub run-IsSound :
      (w : System) (actions : List Action)
      → IsSound rfc3339 cfg w
      → IsSound rfc3339 cfg (run rfc3339 cfg host interval w actions)
  unfolding run
  run-IsSound w [] v = v
  run-IsSound w (a ∷ actions) v =
      run-IsSound (step rfc3339 cfg host interval w a) actions (step-IsSound w a v)

  pub started-IsSound :
      (address destination fingerprint : Text) (now wall_ms : ℕ)
      → IsSound rfc3339 cfg (started cfg address destination fingerprint now wall_ms)
  unfolding started initial_state new_sender default_status frames_of
  started-IsSound address destination fingerprint now wall_ms = record {
    in_step = record {
      placed = tt;
      held = tt;
      accounted = initial_state-IsAccounted cfg address destination fingerprint now;
      delay_least = omega arith;
      delay_most = paced.initial_within;
    };
    ordered = record { fifo = refl; on_wire = refl; wire_counted = refl };
    admissible = tt;
  }

  -- What `Relay::start` sets going, after any schedule.
  abbrev pub reached : Text → Text → Text → ℕ → ℕ → List Action → System
  reached address destination fingerprint now wall_ms =
      run rfc3339 cfg host interval (started cfg address destination fingerprint now wall_ms)
