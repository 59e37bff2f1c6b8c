-- ===== src/Config/Checks.antt =====
-- `resolve_paths`, `validate` and `parse` of crates/core/src/config.rs. `decode` is the crate `toml`
-- with the derived deserialisers, the other parameters are those of Config/Names.antt and
-- Oidc/Settings.antt. Paths are those of Unix.
use syslog_dtls_agent.Prelude.{
  Bool, not, ◌||◌, Option, List, [], ◌∷◌, ◌++◌, ltb, ◌==◌, if◌then◌else◌, within, length, is_empty,
  any, Text, text, Result, ok, ◌>>=◌, ◌>>◌, refuse_if, ok_or,
}
use syslog_dtls_agent.Framing.Text.{starts_with_byte, ends_with_byte}
use syslog_dtls_agent.Ip.{IpAddr}
use syslog_dtls_agent.Oidc.Settings.{Url, validate}
use syslog_dtls_agent.Config.Schema.{Config, Queue, Dtls, Identity, Trust, pem, pem_ca}
use syslog_dtls_agent.Config.Names.{normalize_name, server_name}

-- `Path::is_relative` and `Path::join` of a relative path.
abbrev pub is_relative : Text → Bool
is_relative path = not (starts_with_byte b'/' path)

abbrev pub join : Text → Text → Text
join base path =
    if is_empty base || ends_with_byte b'/' base then base ++ path else base ++ b'/' ∷ path

unfoldable pub resolve : Text → Text → Text
resolve base path = if is_relative path then join base path else path

abbrev pub resolve_identity : Text → Identity → Identity
resolve_identity base (pem chain key) = pem (resolve base chain) (resolve base key)

abbrev pub resolve_trust : Text → Trust → Trust
resolve_trust base (pem_ca bundle) = pem_ca (resolve base bundle)

-- `Config::resolve_paths`.
unfoldable pub resolve_paths : Text → Config → Config
resolve_paths base cfg = record cfg {
  identity = resolve_identity base cfg.identity;
  trust = resolve_trust base cfg.trust;
}

-- The paths that `validate` and `resolve_paths` loop over.
abbrev pub paths_of : Identity → Trust → List Text
paths_of (pem chain key) (pem_ca bundle) = chain ∷ key ∷ bundle ∷ []

unfoldable pub queue_out_of_range : Queue → Bool
queue_out_of_range q =
    not (within 1 1_000_000 q.max_messages) || not (within 1 1_073_741_824 q.max_bytes)

unfoldable pub dtls_out_of_range : Dtls → Bool
dtls_out_of_range d =
    not (within 100 120_000 d.handshake_timeout_ms)
    || not (within 100 60_000 d.retry_initial_ms)
    || ltb d.retry_max_ms d.retry_initial_ms
    || ltb 300_000 d.retry_max_ms
    || ltb 30_000 d.shutdown_drain_ms
    || not (within 1 100_000 d.messages_per_second)

module _ (parse_url : Text → Option Url) (parse_ip : Text → Option IpAddr) (show_ip : IpAddr → Text)
    (to_ascii : Text → Option Text) where
  -- `Config::validate`, each check in its place.
  unfoldable pub validate_config : Config → Result (Unit {0})
  validate_config cfg = do
    _ ← validate parse_url cfg.http.oidc
    refuse_if (not (cfg.schema_version == 1)) (text "Unsupported configuration schema version")
    refuse_if (ltb 4096 (length cfg.source_access.allowed_ips))
        (text "Allowlist supports at most 4096 IP addresses")
    refuse_if (cfg.listener.port == 0 || cfg.remote.port == 0 || cfg.http.port == 0)
        (text "Ports must be between 1 and 65535")
    _ ← normalize_name parse_ip show_ip to_ascii cfg.remote.host
    _ ← server_name parse_ip show_ip to_ascii cfg
    refuse_if (not (within 1 16_378 cfg.listener.max_message_bytes))
        (text "max_message_bytes must be 1..16378 (space for framing within one record)")
    refuse_if (queue_out_of_range cfg.queue)
        (text "Queue limits must be positive; maximum is 1,000,000 messages / 1 GiB")
    refuse_if (not (within 576 16_448 cfg.dtls.datagram_bytes))
        (text "datagram_bytes must be 576..16448")
    refuse_if (dtls_out_of_range cfg.dtls)
        (text "Invalid DTLS timeout, retry, rate, or shutdown limits")
    refuse_if (any is_empty (paths_of cfg.identity cfg.trust))
        (text "Credential paths cannot be empty")

  -- `Config::parse`.
  unfoldable pub parse : (Text → Option Config) → Text → Text → Result Config
  parse decode source base = do
    decoded ← ok_or (decode source) (text "Invalid TOML or unknown/missing configuration field")
    let cfg = resolve_paths base decoded
    _ ← validate_config cfg
    ok cfg
