-- ===== src/Dtls/Tests.antt =====
-- The sample_connector and the session of crates/dtls-openssl/src/lib.rs on concrete answers.
use syslog_dtls_agent.Prelude.{
  ℕ, pos, negsuc, zero, suc, ◌+◌, ◌*◌, ◌/◌, ◌≤◌, ◌≡◌, ◌↔◌, refl, true, false, Option, none, some,
  List, [], ◌∷◌, length, Text, text, Bytes, codes, Result, ok, arith,
}
use syslog_dtls_agent.Framing.Text.{ends_with_byte}
use syslog_dtls_agent.Ip.{IpAddr, SocketAddr}
use syslog_dtls_agent.Oidc.Settings.{Url, validate, default_oidc, trim_end_matches}
use syslog_dtls_agent.Config.Schema.{
  default_config, default_http, default_source_access, default_listener, default_queue,
  default_dtls, loopback,
}
use syslog_dtls_agent.Config.Names.{
  split, bad_label, normalize_dns_name, normalize_name, server_name,
}
use syslog_dtls_agent.Config.Checks.{queue_out_of_range, dtls_out_of_range, validate_config}
use syslog_dtls_agent.Relay.State.{millis}
use syslog_dtls_agent.Relay.Sender.{sent, would_block}
use syslog_dtls_agent.Dtls.Session.{
  want_read, Answer, no_partial_wildcards, never_check_subject, ssl_write, check_result,
  handle_timeout, OpenSslSession, send,
}
use syslog_dtls_agent.Dtls.Lifetime.{
  op_send, op_poll, op_close, lifetime, shutdowns, due, shutdowns-lifetime,
}
use syslog_dtls_agent.Dtls.Outcomes.{Fits, IsBlocked, send_outcomes}
use syslog_dtls_agent.Dtls.Connect.{
  Environment, attempt, handshake, verify, expect_name, prepare, connect,
}
use syslog_dtls_agent.Dtls.Handshake.{IsVerified, connect_terminates, connect-IsVerified}
use syslog_dtls_agent.Dtls.Credentials.{
  Context, Library, dtls1_2, no_renegotiation, no_compression, no_query_mtu, suites,
  OpenSslConnector, fingerprint, configured, add_chain, load_chain, load_key, install, new,
  chain_path, key_path, ca_path,
}
use syslog_dtls_agent.Dtls.Configured.{IsConfigured, new-IsConfigured}

-- A write that OpenSSL takes whole, of two bytes.
abbrev took : Answer
took = record { result = pos 2; error = want_read; verify_result = none; timeout = pos 0 }

-- OpenSSL waits for the peer.
abbrev waits : Answer
waits = record { result = negsuc 0; error = want_read; verify_result = none; timeout = pos 0 }

-- `SSL_connect` that succeeds.
abbrev shakes : Answer
shakes = record { result = pos 1; error = want_read; verify_result = none; timeout = pos 0 }

abbrev opened : OpenSslSession
opened = record {
  ssl = record {
    hostflags = no_partial_wildcards ∷ never_check_subject ∷ [];
    host = some (codes "collector.example.com");
    ip = none;
    hostname = some (codes "collector.example.com");
    is_client = true;
    datagram = some 1200;
  };
  mtu = 1100;
  closed = false;
}

abbrev two_bytes : Bytes
two_bytes = codes "hi"

shutdowns-lifetime_example :
    shutdowns (lifetime opened (op_poll waits ∷ op_send two_bytes took ∷ op_close ∷ op_close ∷ []))
    ≡ due false
shutdowns-lifetime_example =
    shutdowns-lifetime opened (op_poll waits ∷ op_send two_bytes took ∷ op_close ∷ op_close ∷ [])

send_outcomes_example :
    (((send opened two_bytes took).0 ≡ ok sent)
      ↔ (Fits 1100 two_bytes × (took.result ≡ pos (length two_bytes))))
    × (((send opened two_bytes took).0 ≡ ok would_block) ↔ (Fits 1100 two_bytes × IsBlocked took))
    × (((send opened two_bytes took).1 ≡ ssl_write two_bytes ∷ []) ↔ Fits 1100 two_bytes)
    × (((send opened two_bytes took).1 ≡ []) ↔ (Fits 1100 two_bytes → ⊥))
send_outcomes_example = send_outcomes opened two_bytes took (omega arith)

abbrev no_url : Text → Option Url
no_url s = none

abbrev no_ip : Text → Option IpAddr
no_ip s = none

abbrev shown : IpAddr → Text
shown ip = []

abbrev same_name : Text → Option Text
same_name s = some s

abbrev first_waits : ℕ → Answer
first_waits zero = waits
first_waits (suc k) = shakes

-- Everything succeeds, and the handshake takes two rounds.
abbrev working : Environment
working = record {
  bind = λ address. ok tt;
  connect_socket = λ remote. ok tt;
  set_nonblocking = ok tt;
  new_ssl = true;
  set_ip = λ ip. true;
  set_host = λ name. true;
  set_hostname = λ name. true;
  set_mtu = λ bytes. true;
  new_bio = true;
  set_connected = λ remote. pos 1;
  before = 0;
  rounds = λ k. record { cancelled = false; answer = first_waits k; now = millis (10 * k) };
  verify_result = none;
  peer_certificate = true;
  data_mtu = 1100;
}

abbrev collector : SocketAddr
collector = record { ip = loopback; port = 6514 }

enough : default_config.dtls.handshake_timeout_ms / 10 + 2 ≤ 1002
unfolding default_config default_dtls
enough = omega arith

connect_terminates_example :
    (outcome : Result OpenSslSession) × (connect no_ip shown same_name working default_config
        collector 1002
      ≡ some outcome)
connect_terminates_example =
    connect_terminates no_ip shown same_name working default_config collector 1002
      (λ k. omega arith) enough

connected : connect no_ip shown same_name working default_config collector 2 ≡ some (ok opened)
unfolding connect prepare handshake attempt check_result handle_timeout verify expect_name
    server_name normalize_name normalize_dns_name trim_end_matches split bad_label ends_with_byte
    default_config default_dtls text
connected = refl

connect-IsVerified_example : IsVerified no_ip shown same_name working default_config opened
connect-IsVerified_example =
    connect-IsVerified no_ip shown same_name working default_config collector 2 opened connected

abbrev empty_context : Context ℕ ℕ
empty_context = record {
  min_version = none;
  max_version = none;
  verify_peer = false;
  verify_depth = 100;
  options = [];
  cipher_list = [];
  certificate = none;
  extra_chain = [];
  private_key = none;
  ca_files = [];
}

-- Certificates and keys are numbers, and a key is that of the certificate of the same number.
abbrev files : Library ℕ ℕ
files = record {
  dtls_client = some empty_context;
  fresh_empty = λ c e. (ground (arith, e), ground (arith, e));
  accepts = λ context setting. true;
  read = λ path. some path;
  stack_from_pem = λ bytes. some (1 ∷ 2 ∷ []);
  private_key_from_pem = λ bytes. some 1;
  public_eq = λ cert key. some true;
  digest = λ cert. some (cert ∷ 255 ∷ []);
}

abbrev connector_context : Context ℕ ℕ
connector_context = record empty_context {
  min_version = some dtls1_2;
  max_version = some dtls1_2;
  verify_peer = true;
  verify_depth = 8;
  options = no_renegotiation ∷ no_compression ∷ no_query_mtu ∷ [];
  cipher_list = suites;
  certificate = some 1;
  extra_chain = 2 ∷ [];
  private_key = some 1;
  ca_files = ca_path default_config.trust ∷ [];
}

abbrev sample_connector : OpenSslConnector ℕ ℕ
sample_connector = record { context = connector_context; fingerprint = codes "sha-256:01:FF" }

made : new files no_url no_ip shown same_name default_config ≡ ok sample_connector
unfolding new install configured add_chain load_chain load_key fingerprint validate_config validate
    default_config default_oidc default_http default_source_access default_listener default_queue
    default_dtls normalize_name normalize_dns_name server_name trim_end_matches split bad_label
    ends_with_byte queue_out_of_range dtls_out_of_range text
made = refl

new-IsConfigured_example :
    (validate_config no_url no_ip shown same_name default_config ≡ ok tt)
    × IsConfigured files
        (chain_path default_config.identity)
        (key_path default_config.identity)
        (ca_path default_config.trust)
        sample_connector
new-IsConfigured_example =
    new-IsConfigured files no_url no_ip shown same_name default_config sample_connector made

printed : fingerprint files 1 ≡ ok (codes "sha-256:01:FF")
unfolding fingerprint text
printed = refl

abbrev digest_one : List ℕ
digest_one = 1 ∷ 255 ∷ []
