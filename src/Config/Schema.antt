-- ===== src/Config/Schema.antt =====
-- The configuration records of crates/core/src/config.rs and their defaults. `PathBuf` and `String`
-- are byte strings.
use syslog_dtls_agent.Prelude.{ℕ, ◌*◌, ◌+◌, ◌^◌, Option, none, List, [], Text, text}
use syslog_dtls_agent.Ip.{IpAddr, v4}
use syslog_dtls_agent.Oidc.Settings.{Oidc, default_oidc}

pub record Http : Type 0 where
  pub oidc : Oidc
  pub address : IpAddr
  pub port : ℕ

pub data SourceMode : Type 0 where
  any allowlist : SourceMode

pub record SourceAccess : Type 0 where
  pub mode : SourceMode
  pub allowed_ips : List IpAddr

pub record Listener : Type 0 where
  pub address : IpAddr
  pub port : ℕ
  pub max_message_bytes : ℕ

pub record Remote : Type 0 where
  pub host : Text
  pub port : ℕ
  pub expected_server_name : Option Text

pub data Identity : Type 0 where
  pem : Text → Text → Identity

pub data Trust : Type 0 where
  pem_ca : Text → Trust

pub record Queue : Type 0 where
  pub max_messages : ℕ
  pub max_bytes : ℕ

pub record Dtls : Type 0 where
  pub handshake_timeout_ms : ℕ
  pub retry_initial_ms : ℕ
  pub retry_max_ms : ℕ
  pub datagram_bytes : ℕ
  pub messages_per_second : ℕ
  pub shutdown_drain_ms : ℕ

pub record Config : Type 0 where
  pub schema_version : ℕ
  pub listener : Listener
  pub http : Http
  pub remote : Remote
  pub identity : Identity
  pub trust : Trust
  pub source_access : SourceAccess
  pub queue : Queue
  pub dtls : Dtls

-- 127.0.0.1
abbrev pub loopback : IpAddr
loopback = v4 (127 * 2 ^ 24 + 1)

unfoldable pub default_http : Http
default_http = record { oidc = default_oidc; address = loopback; port = 1080 }

unfoldable pub default_source_access : SourceAccess
default_source_access = record { mode = SourceMode.any; allowed_ips = [] }

unfoldable pub default_listener : Listener
default_listener = record { address = loopback; port = 1514; max_message_bytes = 8192 }

abbrev pub remote_port : ℕ
remote_port = 6514

unfoldable pub default_queue : Queue
default_queue = record { max_messages = 10_000; max_bytes = 16 * 1024 * 1024 }

unfoldable pub default_dtls : Dtls
default_dtls = record {
  handshake_timeout_ms = 10_000;
  retry_initial_ms = 1000;
  retry_max_ms = 60_000;
  datagram_bytes = 1200;
  messages_per_second = 1000;
  shutdown_drain_ms = 2000;
}

-- `Config::default()`.
unfoldable pub default_config : Config
unfolding default_http default_source_access default_listener default_queue default_dtls
    default_oidc
default_config = record {
  schema_version = 1;
  listener = default_listener;
  http = default_http;
  remote = record { host = text "collector.example.com"; port = 6514; expected_server_name = none };
  identity = Identity.pem (text "client.pem") (text "client-key.pem");
  trust = Trust.pem_ca (text "ca.pem");
  queue = default_queue;
  source_access = default_source_access;
  dtls = default_dtls;
}
