-- ===== src/Status.antt =====
-- crates/core/src/status.rs: the counters that the relay shows. The row of a source is in Sources.
use syslog_dtls_agent.Prelude.{ℕ, Bool, Option, none, List, [], Text, false}
use syslog_dtls_agent.Sources.{SourceStatus}

pub record Drops : Type 0 where
  pub invalid : ℕ
  pub oversized : ℕ
  pub queue_full : ℕ
  pub shutdown : ℕ
  pub source_denied : ℕ

pub record Status : Type 0 where
  pub running : Bool
  pub listener_status : Text
  pub listener_address : Text
  pub dtls_status : Text
  pub remote_destination : Text
  pub remote_address : Option Text
  pub messages_received : ℕ
  pub messages_forwarded : ℕ
  pub messages_dropped : ℕ
  pub drops : Drops
  pub queue_depth : ℕ
  pub queue_bytes : ℕ
  pub in_flight : Bool
  pub last_received_ms : Option ℕ
  pub last_forwarded_ms : Option ℕ
  pub last_handshake_ms : Option ℕ
  pub last_error : Option Text
  pub retry_attempts : ℕ
  pub peer_fingerprint : Option Text
  pub client_fingerprint : Option Text
  pub cipher : Option Text
  pub protocol : Option Text
  pub sources : List SourceStatus
  pub source_tracking_limit : ℕ
  pub untracked_source_messages : ℕ

-- `Drops::default()` and `Status::default()`.
abbrev pub no_drops : Drops
no_drops = record { invalid = 0; oversized = 0; queue_full = 0; shutdown = 0; source_denied = 0 }

unfoldable pub default_status : Status
default_status = record {
  running = false;
  listener_status = [];
  listener_address = [];
  dtls_status = [];
  remote_destination = [];
  remote_address = none;
  messages_received = 0;
  messages_forwarded = 0;
  messages_dropped = 0;
  drops = no_drops;
  queue_depth = 0;
  queue_bytes = 0;
  in_flight = false;
  last_received_ms = none;
  last_forwarded_ms = none;
  last_handshake_ms = none;
  last_error = none;
  retry_attempts = 0;
  peer_fingerprint = none;
  client_fingerprint = none;
  cipher = none;
  protocol = none;
  sources = [];
  source_tracking_limit = 0;
  untracked_source_messages = 0;
}
