-- ===== src/Relay/Listener.antt =====
-- `listen` of crates/core/src/relay.rs: what one turn of the loop does with a datagram or an error.
use syslog_dtls_agent.Prelude.{
  ℕ, Bool, true, not, ◌||◌, some, [], ◌∷◌, ◌++◌, map, any, if◌then◌else◌, ltb, leb, length, take,
  Bytes, Text, text, add64,
}
use syslog_dtls_agent.Ip.{IpAddr, ip_eq, canonical_ip}
use syslog_dtls_agent.Sources.{received}
use syslog_dtls_agent.Status.{Drops}
use syslog_dtls_agent.Config.Schema.{Config, SourceMode, SourceAccess}
use syslog_dtls_agent.Framing.Message.{valid_message}
use syslog_dtls_agent.Relay.State.{State, is_set, count_drop}

abbrev pub buffer_size : ℕ
buffer_size = 65_536

unfoldable pub source_allowed : SourceAccess → IpAddr → Bool
source_allowed access ip = elim access.mode [
  | SourceMode.any ↦ true
  | SourceMode.allowlist ↦ any (ip_eq ip) (map canonical_ip access.allowed_ips)
]

abbrev pub bump_denied : Drops → Drops
bump_denied d = record d { source_denied = add64 d.source_denied 1 }

abbrev pub bump_shutdown : Drops → Drops
bump_shutdown d = record d { shutdown = add64 d.shutdown 1 }

abbrev pub bump_oversized : Drops → Drops
bump_oversized d = record d { oversized = add64 d.oversized 1 }

abbrev pub bump_invalid : Drops → Drops
bump_invalid d = record d { invalid = add64 d.invalid 1 }

abbrev pub bump_queue_full : Drops → Drops
bump_queue_full d = record d { queue_full = add64 d.queue_full 1 }

-- The datagram is counted before anything is decided.
unfoldable pub count_arrival : IpAddr → Bool → ℕ → State → State
count_arrival ip allowed wall_ms s = record s {
  status = record s.status {
    messages_received = add64 s.status.messages_received 1;
    last_received_ms = some wall_ms;
  };
  sources = received s.sources ip allowed wall_ms;
}

unfoldable pub enqueue : IpAddr → Bytes → State → State
enqueue ip payload s = record s {
  queue = s.queue ++ record { payload = payload; source = ip } ∷ [];
  status = record s.status {
    queue_bytes = add64 s.status.queue_bytes (length payload);
    queue_depth = length (s.queue ++ record { payload = payload; source = ip } ∷ []);
  };
}

-- `s.queue.len() >= max_messages || s.status.queue_bytes + n > max_bytes`.
abbrev pub queue_full : Config → ℕ → State → Bool
queue_full cfg n s =
    leb cfg.queue.max_messages (length s.queue)
    || ltb cfg.queue.max_bytes (add64 s.status.queue_bytes n)

-- `rfc3339` is the timestamp parser of the crate `time`.
module _ (rfc3339 : Bytes → Bool) (cfg : Config) where
  -- The checks of the `Ok((n, peer))` arm, in their order.
  unfoldable pub admit : IpAddr → Bool → Bytes → State → State
  admit ip allowed payload s =
      if not allowed
      then count_drop bump_denied ip s
      else if is_set s.stop_at
      then count_drop bump_shutdown ip s
      else if ltb cfg.listener.max_message_bytes (length payload)
      then count_drop bump_oversized ip s
      else if not (valid_message rfc3339 payload)
      then count_drop bump_invalid ip s
      else if queue_full cfg (length payload) s
      then count_drop bump_queue_full ip s
      else enqueue ip payload s

  -- `recv_from` fills the buffer and cuts what does not fit.
  unfoldable pub on_datagram : IpAddr → Bytes → ℕ → State → State
  on_datagram peer datagram wall_ms s =
      let ip = canonical_ip peer in
      let allowed = source_allowed cfg.source_access ip in
      admit ip allowed (take buffer_size datagram) (count_arrival ip allowed wall_ms s)

-- The last arm: an error other than a timeout ends the loop and stops the relay.
unfoldable pub on_socket_error : Text → ℕ → State → State
on_socket_error e now s = record s {
  status = record s.status {
    listener_status = text "failed";
    last_error = some (text "UDP listener failed: " ++ e);
  };
  stop_at = some now;
}
