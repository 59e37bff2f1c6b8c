-- ===== src/Relay/Tests.antt =====
-- The relay of crates/core/src/relay.rs on concrete schedules.
mod Working
use syslog_dtls_agent.Prelude.{
  ℕ, ◌+◌, ◌*◌, ◌/◌, ◌%◌, ◌^◌, ◌≤◌, ◌≡◌, ◌≢◌, refl, min, Bool, true, some, List, [], ◌∷◌, ◌++◌,
  length, All, Bytes, codes, Text, Result, ok, arith, err,
}
use syslog_dtls_agent.Framing.Frame.{frame, decimal}
use syslog_dtls_agent.Framing.Text.{position, is_utf8, parse_u16, parse_digits}
use syslog_dtls_agent.Framing.Header.{valid_pri, fields, valid_timestamp, valid_fields, valid_field}
use syslog_dtls_agent.Framing.Message.{valid_message, valid_header, valid_body, valid_tail}
use syslog_dtls_agent.Config.Schema.{
  default_config, default_source_access, default_listener, default_queue, default_dtls, loopback,
}
use syslog_dtls_agent.Status.{default_status}
use syslog_dtls_agent.Relay.State.{
  is_set, expired, finish_front, pop_front, count_finished, count_drop,
}
use syslog_dtls_agent.Relay.Control.{initial_state, request_stop, drain, drop_all}
use syslog_dtls_agent.Relay.Sender.{
  Session, Observed, stopped, crashed, answered, sent, jittered, next_delay, sender_step, at_top,
  on_connect_failed, new_sender, stop_due, start_lookup, await_lookup, choose, on_connect,
  poll_session, fetch, fetch_front, write_pending, settle, wait,
}
use syslog_dtls_agent.Relay.World.{
  Action, datagram, sender_turn, listener_check, stop_request, System, step, run, started,
}
use syslog_dtls_agent.Relay.Accounts.{IsLimited, IsAccounted}
use syslog_dtls_agent.Relay.Turns.{IsPaced}
use syslog_dtls_agent.Relay.Effects.{frames_of, IsAdmissible, IsArrival, on_datagram-IsArrival}
use syslog_dtls_agent.Relay.Listener.{on_datagram, admit, source_allowed, count_arrival, enqueue}
use syslog_dtls_agent.Relay.Order.{IsSound, messages_of}
use syslog_dtls_agent.Relay.Reach.{run-IsSound, started-IsSound, reached}
use syslog_dtls_agent.Relay.Guarantees.{
  books_kept, delivery_in_order, accepted-IsAdmissible, sender_never_crashes, stopped_settled,
}
use syslog_dtls_agent.Relay.Pause.{jittered_bounds}
use syslog_dtls_agent.Relay.Backoff.{failures_after, exponential_backoff}
use syslog_dtls_agent.Relay.Shutdown.{IsAfter, turns, shutdown_bounded}

pub default_config-IsLimited : IsLimited default_config
unfolding default_config default_listener default_queue
default_config-IsLimited = record { message_limit = omega arith; queue_limit = omega arith }

pub default_config-IsPaced : IsPaced default_config
unfolding default_config default_dtls
default_config-IsPaced = record {
  initial_positive = omega arith;
  initial_within = omega arith;
  max_limited = omega arith;
}

abbrev pub any_time : Bytes → Bool
any_time ts = true

abbrev pub host : Result Text
host = ok (codes "collector.example.com")

abbrev pub interval : ℕ → ℕ
interval rate = 1_000_000_000 / rate

abbrev pub session : Session
session = record {
  max_plaintext = 1100;
  peer_info = record { fingerprint = codes "aa"; cipher = codes "c"; protocol = codes "DTLSv1.2" };
}

-- What the sender sees at an instant when everything works.
abbrev pub seen : ℕ → Observed
seen now = record {
  now = now;
  wall_ms = 1000;
  spawn = ok tt;
  recv = answered (ok (codes "192.0.2.1:6514" ∷ []));
  connect = ok session;
  poll = ok tt;
  write = ok sent;
}

abbrev pub greeting : Bytes
greeting = codes "<34>1 - host app - - - hello"

abbrev working : List Action
working =
    datagram loopback greeting 1000
    ∷ sender_turn (seen 1)
    ∷ sender_turn (seen 2)
    ∷ sender_turn (seen 3)
    ∷ sender_turn (seen 4)
    ∷ sender_turn (seen 5)
    ∷ sender_turn (seen 6)
    ∷ sender_turn (seen 7)
    ∷ sender_turn (seen 8)
    ∷ []

-- Nine turns after the deadline of a stop at instant 10.
abbrev late : Action
late = sender_turn (seen 5_000_000_000)

abbrev after_deadline : List Action
after_deadline = late ∷ late ∷ late ∷ late ∷ late ∷ late ∷ late ∷ late ∷ late ∷ []

abbrev pub stopping : List Action
stopping = working ++ stop_request 10 ∷ listener_check ∷ after_deadline

abbrev pub reaches : List Action → System
reaches =
    reached any_time default_config host interval default_config-IsLimited default_config-IsPaced []
      [] [] 0 1000

books_kept_example : IsAccounted default_config (reaches working).state
books_kept_example =
    books_kept any_time default_config host interval default_config-IsLimited default_config-IsPaced
      [] [] [] 0 1000 working

delivery_in_order_example :
    ((reaches working).accepted
      ≡ messages_of (reaches working).settled ++ (reaches working).state.queue)
    × ((reaches working).wire ≡ frames_of (reaches working).settled)
    × ((reaches working).state.status.messages_forwarded % 2 ^ 64
        ≡ length (reaches working).wire % 2 ^ 64)
delivery_in_order_example =
    delivery_in_order any_time default_config host interval default_config-IsLimited
      default_config-IsPaced [] [] [] 0 1000 working

accepted-IsAdmissible_example :
    All (IsAdmissible any_time default_config) (reaches working).accepted
accepted-IsAdmissible_example =
    accepted-IsAdmissible any_time default_config host interval default_config-IsLimited
      default_config-IsPaced [] [] [] 0 1000 working

sender_never_crashes_example :
    ((reaches working).sender.place ≢ crashed)
    × (default_config.dtls.retry_initial_ms ≤ (reaches working).sender.delay)
    × ((reaches working).sender.delay ≤ default_config.dtls.retry_max_ms)
sender_never_crashes_example =
    sender_never_crashes any_time default_config host interval default_config-IsLimited
      default_config-IsPaced [] [] [] 0 1000 working

-- The datagram of the schedule is queued, framed, sent and settled.
working_sends :
    ((reaches working).wire ≡ frame greeting ∷ []) × ((reaches working).state.queue ≡ [])
unfolding run started step on_datagram sender_step new_sender at_top admit source_allowed
    default_config default_source_access default_listener default_queue default_dtls count_arrival
    initial_state valid_message position valid_pri is_utf8 parse_u16 parse_digits fields
    valid_header valid_timestamp valid_fields valid_field valid_body valid_tail enqueue stop_due
    start_lookup await_lookup choose on_connect poll_session fetch fetch_front write_pending settle
    wait finish_front pop_front count_finished expired frame decimal request_stop drain drop_all
    count_drop default_status
working_sends = (refl, refl)

stopping-stopped : (reaches stopping).sender.place ≡ stopped
unfolding run started step on_datagram sender_step new_sender at_top admit source_allowed
    default_config default_source_access default_listener default_queue default_dtls count_arrival
    initial_state valid_message position valid_pri is_utf8 parse_u16 parse_digits fields
    valid_header valid_timestamp valid_fields valid_field valid_body valid_tail enqueue stop_due
    start_lookup await_lookup choose on_connect poll_session fetch fetch_front write_pending settle
    wait finish_front pop_front count_finished expired frame decimal request_stop drain drop_all
    count_drop default_status
stopping-stopped = refl

stopped_settled_example :
    (is_set (reaches stopping).state.stop_at ≡ true)
    × ((reaches stopping).state.queue ≡ [])
    × ((reaches stopping).state.status.queue_depth ≡ 0)
    × ((reaches stopping).state.status.queue_bytes ≡ 0)
    × ((reaches stopping).state.status.messages_received % 2 ^ 64
        ≡ ((reaches stopping).state.status.messages_forwarded
            + (reaches stopping).state.status.messages_dropped)
          % 2 ^ 64)
stopped_settled_example =
    stopped_settled any_time default_config host interval default_config-IsLimited
      default_config-IsPaced [] [] [] 0 1000 stopping stopping-stopped

abbrev asked_to_stop : List Action
asked_to_stop = working ++ stop_request 10 ∷ []

asked_to_stop-IsSound : IsSound any_time default_config (reaches asked_to_stop)
asked_to_stop-IsSound =
    run-IsSound any_time default_config host interval default_config-IsLimited
      default_config-IsPaced (started default_config [] [] [] 0 1000) asked_to_stop
      (started-IsSound any_time default_config host interval default_config-IsLimited
        default_config-IsPaced [] [] [] 0 1000)

asked_to_stop-deadline : (reaches asked_to_stop).state.stop_at ≡ some 2_000_000_010
unfolding run started step on_datagram sender_step new_sender at_top admit source_allowed
    default_config default_source_access default_listener default_queue default_dtls count_arrival
    initial_state valid_message position valid_pri is_utf8 parse_u16 parse_digits fields
    valid_header valid_timestamp valid_fields valid_field valid_body valid_tail enqueue stop_due
    start_lookup await_lookup choose on_connect poll_session fetch fetch_front write_pending settle
    wait finish_front pop_front count_finished expired frame decimal request_stop drain drop_all
    count_drop default_status
asked_to_stop-deadline = refl

late_actions : All (IsAfter 3_000_000_000) after_deadline
late_actions =
    let l : 3_000_000_000 ≤ 5_000_000_000 = omega arith in
    (l, (l, (l, (l, (l, (l, (l, (l, (l, tt)))))))))

default_delays :
    (default_config.dtls.retry_initial_ms ≤ 4000) × (4000 ≤ default_config.dtls.retry_max_ms)
unfolding default_config default_dtls
default_delays = (omega arith, omega arith)

shutdown_bounded_example :
    (run any_time default_config host interval (reaches asked_to_stop) after_deadline).sender.place
    ≡ stopped
unfolding turns
shutdown_bounded_example =
    shutdown_bounded any_time default_config host interval default_config-IsLimited
      default_config-IsPaced 3_000_000_000 (reaches asked_to_stop) 2_000_000_010 after_deadline
      asked_to_stop-IsSound asked_to_stop-deadline (omega arith) late_actions (omega arith)

on_datagram-IsArrival_example :
    IsArrival any_time default_config
      (initial_state [] [] [] 0)
      (on_datagram any_time default_config loopback greeting 1000 (initial_state [] [] [] 0))
on_datagram-IsArrival_example =
    on_datagram-IsArrival any_time default_config loopback greeting 1000 (initial_state [] [] [] 0)

jittered_bounds_example :
    (4000 * 3 / 4 ≤ jittered 4000 77 default_config.dtls.retry_max_ms)
    × (jittered 4000 77 default_config.dtls.retry_max_ms ≤ 4000 * 5 / 4)
    × (jittered 4000 77 default_config.dtls.retry_max_ms ≤ default_config.dtls.retry_max_ms)
    × (4000 ≤ next_delay 4000 default_config.dtls.retry_max_ms)
    × (next_delay 4000 default_config.dtls.retry_max_ms ≤ 4000 * 2)
    × (next_delay 4000 default_config.dtls.retry_max_ms ≤ default_config.dtls.retry_max_ms)
jittered_bounds_example =
    jittered_bounds default_config 4000 77 default_config-IsPaced default_delays.0 default_delays.1

abbrev failed_so_far : List Action → ℕ
failed_so_far actions =
    failures_after any_time default_config host interval (started default_config [] [] [] 0 1000)
      actions 0

-- A collector that cannot be reached: seven turns up to the first failure.
abbrev refuses : ℕ → Action
refuses now = sender_turn (record (seen now) { connect = err [] })

abbrev refused : List Action
refused = refuses 1 ∷ refuses 2 ∷ refuses 3 ∷ refuses 4 ∷ refuses 5 ∷ refuses 6 ∷ refuses 7 ∷ []

exponential_backoff_example :
    (reaches refused).sender.delay
    ≡ min
        (default_config.dtls.retry_initial_ms * 2 ^ failed_so_far refused)
        default_config.dtls.retry_max_ms
exponential_backoff_example =
    exponential_backoff default_config default_config-IsPaced any_time host interval [] [] [] 0 1000
      refused

one_failure : failed_so_far refused ≡ 1
unfolding failures_after step sender_step started new_sender at_top initial_state start_lookup
    await_lookup expired choose on_connect on_connect_failed
one_failure = refl
