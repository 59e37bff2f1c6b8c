-- ===== src/Config/Valid.antt =====
-- What `Config::validate` and `Config::parse` of crates/core/src/config.rs let through.
use syslog_dtls_agent.Prelude.{
  ℕ, ◌≤◌, ◌≡◌, ◌≢◌, ◌↔◌, refl, sym, ap, ap₂, subst, inl, inr, true, false, ◌||◌, Option, some, [],
  ◌∷◌, ◌++◌, length, is_empty, any, All, Text, text, Result, ok, err, is_ok, ok_or, >>=-eq-ok,
  Bool-cases, arith,
}
use syslog_dtls_agent.Framing.Text.{starts_with_byte, ends_with_byte}
use syslog_dtls_agent.Ip.{IpAddr}
use syslog_dtls_agent.Oidc.Settings.{Url, validate}
use syslog_dtls_agent.Config.Schema.{Config, Identity, Trust, pem, pem_ca}
use syslog_dtls_agent.Config.Names.{normalize_name, server_name}
use syslog_dtls_agent.Config.Checks.{
  is_relative, resolve, resolve_identity, resolve_trust, resolve_paths, paths_of,
  queue_out_of_range, dtls_out_of_range, validate_config, parse,
}
use syslog_dtls_agent.Relay.Accounts.{IsLimited}
use syslog_dtls_agent.Relay.Turns.{IsPaced}

-- The configurations that the agent runs with, field by field.
pub record IsValid (parse_url : Text → Option Url) (parse_ip : Text → Option IpAddr)
    (show_ip : IpAddr → Text) (to_ascii : Text → Option Text) (cfg : Config) : Type 0 where
  pub oidc_valid : validate parse_url cfg.http.oidc ≡ ok tt
  pub version : cfg.schema_version ≡ 1
  pub allowlist : length cfg.source_access.allowed_ips ≤ 4096
  pub listener_port : cfg.listener.port ≢ 0
  pub remote_port : cfg.remote.port ≢ 0
  pub http_port : cfg.http.port ≢ 0
  pub host_named : is_ok (normalize_name parse_ip show_ip to_ascii cfg.remote.host) ≡ true
  pub server_named : is_ok (server_name parse_ip show_ip to_ascii cfg) ≡ true
  pub message_least : 1 ≤ cfg.listener.max_message_bytes
  pub message_most : cfg.listener.max_message_bytes ≤ 16_378
  pub messages_least : 1 ≤ cfg.queue.max_messages
  pub messages_most : cfg.queue.max_messages ≤ 1_000_000
  pub bytes_least : 1 ≤ cfg.queue.max_bytes
  pub bytes_most : cfg.queue.max_bytes ≤ 1_073_741_824
  pub datagram_least : 576 ≤ cfg.dtls.datagram_bytes
  pub datagram_most : cfg.dtls.datagram_bytes ≤ 16_448
  pub handshake_least : 100 ≤ cfg.dtls.handshake_timeout_ms
  pub handshake_most : cfg.dtls.handshake_timeout_ms ≤ 120_000
  pub initial_least : 100 ≤ cfg.dtls.retry_initial_ms
  pub initial_most : cfg.dtls.retry_initial_ms ≤ 60_000
  pub retry_ordered : cfg.dtls.retry_initial_ms ≤ cfg.dtls.retry_max_ms
  pub retry_most : cfg.dtls.retry_max_ms ≤ 300_000
  pub drain_most : cfg.dtls.shutdown_drain_ms ≤ 30_000
  pub rate_least : 1 ≤ cfg.dtls.messages_per_second
  pub rate_most : cfg.dtls.messages_per_second ≤ 100_000
  pub paths_given : any is_empty (paths_of cfg.identity cfg.trust) ≡ false

is_ok-eq-ok {ℓ} : {A : Type ℓ} (r : Result A) → is_ok r ≡ true → (a : A) × (r ≡ ok a)
is_ok-eq-ok (ok a) h = (a, refl)
is_ok-eq-ok (err e) h = absurd (ground arith)

module _ (parse_url : Text → Option Url) (parse_ip : Text → Option IpAddr) (show_ip : IpAddr → Text)
    (to_ascii : Text → Option Text) where
  sound :
      (cfg : Config)
      → validate_config parse_url parse_ip show_ip to_ascii cfg ≡ ok tt
      → IsValid parse_url parse_ip show_ip to_ascii cfg
  unfolding validate_config queue_out_of_range dtls_out_of_range
  sound cfg h = ground (arith, h)

  complete :
      (cfg : Config)
      → IsValid parse_url parse_ip show_ip to_ascii cfg
      → validate_config parse_url parse_ip show_ip to_ascii cfg ≡ ok tt
  unfolding validate_config queue_out_of_range dtls_out_of_range
  complete cfg v =
      let (host, h) =
        is_ok-eq-ok (normalize_name parse_ip show_ip to_ascii cfg.remote.host) v.host_named in
      let (name, n) = is_ok-eq-ok (server_name parse_ip show_ip to_ascii cfg) v.server_named in
      ground (arith, v, h, n)

  -- `Config::validate` accepts a configuration exactly when its OIDC settings are valid, its version is
  -- 1, its allowlist has at most 4096 addresses, no port is zero, both names normalise, the sizes,
  -- delays and rates are within the bounds of `IsValid`, and no credential path is empty.
  pub validate_config-eq-ok :
      (cfg : Config)
      → (validate_config parse_url parse_ip show_ip to_ascii cfg ≡ ok tt)
        ↔ IsValid parse_url parse_ip show_ip to_ascii cfg
  validate_config-eq-ok cfg = (sound cfg, complete cfg)

-- Paths that are made absolute stay as they are.
starts-append :
    (c : ℕ) (s t : Text) → starts_with_byte c s ≡ true → starts_with_byte c (s ++ t) ≡ true
starts-append c [] t h = absurd (ground arith)
starts-append c (b ∷ s) t h = h

abbrev pub IsAbsolute : Text → Type 0
IsAbsolute path = starts_with_byte b'/' path ≡ true

pub resolve-IsAbsolute : (base path : Text) → IsAbsolute base → IsAbsolute (resolve base path)
unfolding resolve
resolve-IsAbsolute base path h = elim (Bool-cases (is_relative path)) [
  | inr e ↦ rw e (ground (arith, e))
  | inl e ↦ elim (Bool-cases (is_empty base || ends_with_byte b'/' base)) [
    | inl f ↦ rw (e, f) (starts-append b'/' base path h)
    | inr f ↦ rw (e, f) (starts-append b'/' base (b'/' ∷ path) h)
  ]
]

paths_resolved :
    (base : Text) (i : Identity) (t : Trust)
    → IsAbsolute base
    → All IsAbsolute (paths_of (resolve_identity base i) (resolve_trust base t))
paths_resolved base (pem chain key) (pem_ca bundle) h = (
  resolve-IsAbsolute base chain h,
  (resolve-IsAbsolute base key h, (resolve-IsAbsolute base bundle h, tt)),
)

resolve_absolute : (base path : Text) → IsAbsolute path → resolve base path ≡ path
unfolding resolve
resolve_absolute base path h = rw h refl

identity_kept :
    (base : Text) (i : Identity) (t : Trust)
    → All IsAbsolute (paths_of i t)
    → (resolve_identity base i ≡ i) × (resolve_trust base t ≡ t)
identity_kept base (pem chain key) (pem_ca bundle) (a, (b, (c, _))) = (
  ap₂ pem (resolve_absolute base chain a) (resolve_absolute base key b),
  ap pem_ca (resolve_absolute base bundle c),
)

module _ (cfg : Config) (base other : Text) (absolute : IsAbsolute base) where
  abbrev resolved : Config
  resolved = resolve_paths base cfg

  -- With an absolute base directory, `resolve_paths` makes the three credential paths absolute, and a
  -- second call, with any base, changes nothing.
  pub resolve_paths-resolve_paths :
      All IsAbsolute (paths_of (resolve_paths base cfg).identity (resolve_paths base cfg).trust)
      × (resolve_paths other (resolve_paths base cfg) ≡ resolve_paths base cfg)
  unfolding resolve_paths
  resolve_paths-resolve_paths =
      let all_absolute = paths_resolved base cfg.identity cfg.trust absolute in
      let kept =
        identity_kept other (resolve_identity base cfg.identity) (resolve_trust base cfg.trust)
          all_absolute in
      (all_absolute, ap₂ (λ i t. record cfg { identity = i; trust = t }) kept.0 kept.1)

module _ (parse_url : Text → Option Url) (parse_ip : Text → Option IpAddr) (show_ip : IpAddr → Text)
    (to_ascii : Text → Option Text) (decode : Text → Option Config) where
  -- A configuration that `Config::parse` returns is the decoded one with its paths resolved, it is
  -- valid, and its limits are those that the relay's guarantees ask for.
  pub parse-IsValid :
      (source base : Text) (cfg : Config)
      → parse parse_url parse_ip show_ip to_ascii decode source base ≡ ok cfg
      → ((decoded : Config) × (decode source ≡ some decoded) × (cfg ≡ resolve_paths base decoded))
        × IsValid parse_url parse_ip show_ip to_ascii cfg
        × IsLimited cfg
        × IsPaced cfg
  unfolding parse
  parse-IsValid source base cfg h =
      let (decoded, d, rest) =
        >>=-eq-ok
          (ok_or (decode source) (text "Invalid TOML or unknown/missing configuration field")) _
          h in
      let (done, v, e) =
        >>=-eq-ok (validate_config parse_url parse_ip show_ip to_ascii (resolve_paths base decoded))
          _ rest in
      let same : resolve_paths base decoded ≡ cfg = ground (arith, e) in
      let valid =
        subst (IsValid parse_url parse_ip show_ip to_ascii) same
          (sound parse_url parse_ip show_ip to_ascii (resolve_paths base decoded) v) in
      (
        (decoded, ground (arith, d), sym same),
        valid,
        record { message_limit = valid.message_most; queue_limit = valid.bytes_most },
        record {
          initial_positive = valid.initial_least;
          initial_within = valid.retry_ordered;
          max_limited = valid.retry_most;
        },
      )
