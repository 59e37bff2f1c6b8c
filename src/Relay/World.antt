-- ===== src/Relay/World.antt =====
-- The threads of crates/core/src/relay.rs together: the listener, the sender and the caller of `stop`
-- take turns at the shared state in any order, given as a list of actions. Beside the state stand three
-- records that the program does not keep, and that the theorems speak of.
use syslog_dtls_agent.Prelude.{
  ℕ, ◌-◌, Bool, true, false, not, ◌&&◌, Option, none, some, List, [], ◌∷◌, ◌++◌, map, if◌then◌else◌,
  length, take, drop, Bytes, Text, Result, ok, err,
}
use syslog_dtls_agent.Ip.{IpAddr}
use syslog_dtls_agent.Config.Schema.{Config}
use syslog_dtls_agent.Relay.State.{State, Message, is_set, millis}
use syslog_dtls_agent.Relay.Listener.{on_datagram, on_socket_error}
use syslog_dtls_agent.Relay.Sender.{
  Sender, Place, writing, stopped, WriteOutcome, sent, would_block, Observed, new_sender,
  sender_step,
}
use syslog_dtls_agent.Relay.Control.{initial_state, request_stop, mark_stopped}

pub data Action : Type 0 where
  -- a datagram: its peer, its bytes, the wall clock
  datagram : IpAddr → Bytes → ℕ → Action
  socket_error : Text → ℕ → Action
  -- the check of `stop_at` at the head of the listener's loop
  listener_check : Action
  sender_turn : Observed → Action
  -- the two blocks of `Relay::stop`
  stop_request : ℕ → Action
  stop_join : Action

-- `accepted`: the messages that were queued, in order. `settled`: those that left the queue, with
-- whether a session had taken their frame. `wire`: the frames that a session reported as sent.
pub record System : Type 0 where
  pub sender : Sender
  pub state : State
  pub listening : Bool
  pub accepted : List Message
  pub settled : List (Message × Bool)
  pub wire : List Bytes

-- What a change of the queue appended, and what it took from the front.
abbrev pub appended : State → State → List Message
appended s t = drop (length s.queue) t.queue

abbrev pub removed : State → State → List Message
removed s t = take (length s.queue - length t.queue) s.queue

abbrev pub sent_frame : Result WriteOutcome → Option Bytes → List Bytes
sent_frame (ok sent) (some f) = f ∷ []
sent_frame (ok sent) none = []
sent_frame (ok would_block) f = []
sent_frame (err e) f = []

-- The frame that the session takes in this turn, if any.
abbrev pub frames_sent : Place → Observed → Sender → List Bytes
frames_sent writing o n = sent_frame o.write n.pending_frame
frames_sent place o n = []

abbrev pub nonempty {ℓ} : {A : Type ℓ} → List A → Bool
nonempty [] = false
nonempty (x ∷ xs) = true

abbrev is_stopped : Place → Bool
is_stopped stopped = true
is_stopped place = false

module _ (rfc3339 : Bytes → Bool) (cfg : Config) (host : Result Text) (interval : ℕ → ℕ) where
  abbrev pub after_turn : Observed → System → State → Sender → System
  after_turn o w t n = record w {
    sender = n;
    state = t;
    settled =
        w.settled
        ++ map (λ m. (m, nonempty (frames_sent w.sender.place o w.sender))) (removed w.state t);
    wire = w.wire ++ frames_sent w.sender.place o w.sender;
  }

  abbrev pub after_arrival : System → State → System
  after_arrival w t = record w { state = t; accepted = w.accepted ++ appended w.state t }

  -- An action of a thread that has ended changes nothing.
  unfoldable pub step : System → Action → System
  step w (datagram peer bytes wall_ms) =
      if w.listening
      then after_arrival w (on_datagram rfc3339 cfg peer bytes wall_ms w.state)
      else w
  step w (socket_error e now) =
      if w.listening
      then record w { state = on_socket_error e now w.state; listening = false }
      else w
  step w listener_check = record w { listening = w.listening && not (is_set w.state.stop_at) }
  step w (sender_turn o) =
      let next = sender_step cfg host interval o w.sender w.state in after_turn o w next.1 next.0
  step w (stop_request now) = record w {
    state = request_stop (millis cfg.dtls.shutdown_drain_ms) now w.state;
  }
  step w stop_join =
      if not w.listening && is_stopped w.sender.place
      then record w { state = mark_stopped w.state }
      else w

  unfoldable pub run : System → List Action → System
  run w [] = w
  run w (a ∷ actions) = run (step w a) actions

-- What `Relay::start` sets going.
unfoldable pub started : Config → Text → Text → Text → ℕ → ℕ → System
started cfg address destination fingerprint now wall_ms = record {
  sender = new_sender cfg now wall_ms;
  state = initial_state address destination fingerprint now;
  listening = true;
  accepted = [];
  settled = [];
  wire = [];
}
