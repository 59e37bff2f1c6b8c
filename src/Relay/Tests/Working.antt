-- ===== src/Relay/Tests/Working.antt =====
-- The relay of crates/core/src/relay.rs over a session that works.
use syslog_dtls_agent.Prelude.{
  ℕ, zero, suc, ◌+◌, ◌*◌, ◌≤◌, ◌≡◌, refl, some, List, [], ◌∷◌, ◌++◌, length, codes, arith,
}
use syslog_dtls_agent.Framing.Text.{position, is_utf8, parse_u16, parse_digits}
use syslog_dtls_agent.Framing.Header.{valid_pri, fields, valid_timestamp, valid_fields, valid_field}
use syslog_dtls_agent.Framing.Message.{valid_message, valid_header, valid_body, valid_tail}
use syslog_dtls_agent.Config.Schema.{
  default_config, default_source_access, default_listener, default_queue, default_dtls, loopback,
}
use syslog_dtls_agent.Status.{default_status}
use syslog_dtls_agent.Relay.Control.{initial_state}
use syslog_dtls_agent.Relay.Sender.{stopped, sender_step, at_top, new_sender}
use syslog_dtls_agent.Relay.World.{Action, datagram, sender_turn, step, run, started}
use syslog_dtls_agent.Relay.Listener.{on_datagram, admit, source_allowed, count_arrival, enqueue}
use syslog_dtls_agent.Relay.Order.{messages_of}
use syslog_dtls_agent.Relay.Reach.{run-IsSound, started-IsSound}
use syslog_dtls_agent.Relay.Calls.{Phase, absent, conversation, obeys}
use syslog_dtls_agent.Relay.Contract.{session_contract}
use syslog_dtls_agent.Relay.Shutdown.{turns}
use syslog_dtls_agent.Relay.Progress.{IsHealthy}
use syslog_dtls_agent.Relay.Liveness.{IsSmooth, messages_settled}
use syslog_dtls_agent.Relay.State.{Message}
use syslog_dtls_agent.Relay.Tests.{
  any_time, host, interval, session, seen, greeting, stopping, reaches, default_config-IsLimited,
  default_config-IsPaced,
}

-- The calls of the schedule are a handshake's session, its polls and one frame.
session_contract_example :
    (next : Phase) × (obeys absent (
        conversation any_time default_config host interval
          (started default_config [] [] [] 0 1000)
          stopping)
      ≡ some next)
    × ((reaches stopping).sender.place ≡ stopped → next ≡ absent)
session_contract_example =
    session_contract any_time default_config host interval default_config-IsLimited
      default_config-IsPaced [] [] [] 0 1000 stopping

abbrev spacing : ℕ
spacing = 10_000_000

-- Turns of the sender, one spacing apart.
abbrev paced_turns : ℕ → ℕ → List Action
paced_turns zero last = []
paced_turns (suc count) last =
    sender_turn (seen (last + spacing)) ∷ paced_turns count (last + spacing)

paced_turns-IsSmooth : (count last : ℕ) → IsSmooth spacing last (paced_turns count last)
paced_turns-IsSmooth zero last = tt
paced_turns-IsSmooth (suc count) last = (
  record {
    later = omega arith;
    spawned = refl;
    address = codes "192.0.2.1:6514";
    others = [];
    found = refl;
    session = session;
    established = refl;
    polled = refl;
    written = refl;
  },
  paced_turns-IsSmooth count (last + spacing),
)

abbrev arrived : List Action
arrived = datagram loopback greeting 1000 ∷ []

arrived_once : length (reaches arrived).accepted ≡ 1
unfolding run started step on_datagram sender_step new_sender at_top admit source_allowed
    default_config default_source_access default_listener default_queue default_dtls count_arrival
    initial_state valid_message position valid_pri is_utf8 parse_u16 parse_digits fields
    valid_header valid_timestamp valid_fields valid_field valid_body valid_tail enqueue
    default_status
arrived_once = refl

arrived-IsHealthy : IsHealthy spacing 0 ((reaches arrived).sender, (reaches arrived).state)
unfolding run started step on_datagram sender_step new_sender at_top admit source_allowed
    default_config default_source_access default_listener default_queue default_dtls count_arrival
    initial_state valid_message position valid_pri is_utf8 parse_u16 parse_digits fields
    valid_header valid_timestamp valid_fields valid_field valid_body valid_tail enqueue
    default_status
arrived-IsHealthy = record { running = refl; timely = omega arith; fine = refl }

pace_short : interval default_config.dtls.messages_per_second ≤ spacing
unfolding default_config default_dtls
pace_short = omega arith

enough_turns : 11 * length (reaches arrived).accepted ≤ turns (paced_turns 11 0)
unfolding turns
enough_turns = omega (arith, arrived_once)

messages_settled_example :
    (later : List Message) × (messages_of
        (run any_time default_config host interval (reaches arrived) (paced_turns 11 0)).settled
      ≡ (reaches arrived).accepted ++ later)
messages_settled_example =
    messages_settled any_time default_config (codes "collector.example.com") interval
      default_config-IsLimited default_config-IsPaced spacing (omega arith) pace_short
      (reaches arrived) 0 (paced_turns 11 0)
      (run-IsSound any_time default_config host interval default_config-IsLimited
        default_config-IsPaced _ arrived
        (started-IsSound any_time default_config host interval default_config-IsLimited
          default_config-IsPaced [] [] [] 0 1000))
      arrived-IsHealthy (paced_turns-IsSmooth 11 0) enough_turns
