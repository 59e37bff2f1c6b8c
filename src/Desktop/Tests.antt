-- ===== src/Desktop/Tests.antt =====
-- The desktop program of crates/desktop/src/main.rs on concrete calls.
use syslog_dtls_agent.Prelude.{
  ◌≡◌, refl, arith, true, false, Option, none, some, [], ◌∷◌, Text, text, codes, List, ok, err,
}
use syslog_dtls_agent.Ip.{IpAddr}
use syslog_dtls_agent.Oidc.Settings.{Url, validate, default_oidc, trim_end_matches}
use syslog_dtls_agent.Framing.Text.{ends_with_byte}
use syslog_dtls_agent.Config.Schema.{
  default_config, default_http, default_source_access, default_listener, default_queue,
  default_dtls,
}
use syslog_dtls_agent.Config.Names.{
  split, bad_label, normalize_dns_name, normalize_name, server_name,
}
use syslog_dtls_agent.Config.Checks.{
  resolve, resolve_paths, queue_out_of_range, dtls_out_of_range, validate_config,
}
use syslog_dtls_agent.Dtls.Credentials.{
  Context, Library, OpenSslConnector, fingerprint, configured, add_chain, load_chain, load_key,
  install, new,
}
use syslog_dtls_agent.Relay.State.{State, status_snapshot}
use syslog_dtls_agent.Relay.Control.{initial_state}
use syslog_dtls_agent.Web.Agent.{RelayApi}
use syslog_dtls_agent.Web.Snapshots.{snapshots_at}
use syslog_dtls_agent.Desktop.{
  AppState, default_state, is_running, take_relay, app_stop, launch, app_start,
  normalize_source_ip_command,
}
use syslog_dtls_agent.Desktop.Calls.{
  Call, start_call, run_calls, perform_call, IsKept, run_calls-IsKept,
}

abbrev empty_context : Context (Unit {0}) (Unit {0})
empty_context = record {
  min_version = none;
  max_version = none;
  verify_peer = false;
  verify_depth = 100;
  options = [];
  cipher_list = [];
  certificate = none;
  extra_chain = [];
  private_key = none;
  ca_files = [];
}

-- Every file reads, and every key matches.
abbrev files : Library (Unit {0}) (Unit {0})
files = record {
  dtls_client = some empty_context;
  fresh_empty = λ c e. (ground (arith, e), ground (arith, e));
  accepts = λ context setting. true;
  read = λ path. some path;
  stack_from_pem = λ bytes. some (tt ∷ []);
  private_key_from_pem = λ bytes. some tt;
  public_eq = λ cert key. some true;
  digest = λ cert. some (1 ∷ 255 ∷ []);
}

abbrev relay_api : RelayApi State (OpenSslConnector (Unit {0}) (Unit {0}))
relay_api = snapshots_at 0 (initial_state [] [] [] 0)

abbrev no_url : Text → Option Url
no_url s = none

abbrev no_ip : Text → Option IpAddr
no_ip s = none

abbrev shown : IpAddr → Text
shown ip = []

abbrev same_name : Text → Option Text
same_name s = some s

abbrev begun : List Call
begun = start_call (ok (codes "/home")) default_config ∷ []

abbrev after_start : AppState State
after_start = run_calls relay_api files no_url no_ip shown same_name begun default_state

-- The relay runs after the start.
runs : is_running relay_api after_start ≡ true
unfolding run_calls perform_call app_start is_running take_relay launch new install configured
    add_chain load_chain load_key fingerprint validate_config validate default_config default_oidc
    default_http default_source_access default_listener default_queue default_dtls normalize_name
    normalize_dns_name server_name trim_end_matches split bad_label ends_with_byte
    queue_out_of_range dtls_out_of_range text resolve_paths initial_state resolve status_snapshot
runs = refl

run_calls-IsKept_example :
    IsKept relay_api files no_url no_ip shown same_name after_start
    × (is_running relay_api after_start ≡ true
        → app_start relay_api files no_url no_ip shown same_name (err []) default_config after_start
          ≡ (after_start, err (text "Stop the relay before applying new settings")))
    × ((app_stop relay_api after_start).0.relay ≡ none)
    × ((app_stop relay_api after_start).1.running ≡ false)
run_calls-IsKept_example =
    run_calls-IsKept relay_api files no_url no_ip shown same_name begun (err []) default_config

refused :
    normalize_source_ip_command no_ip shown (codes "x")
    ≡ err (text "Enter an exact IPv4 or IPv6 address (no hostname, port, or CIDR range)")
unfolding normalize_source_ip_command
refused = refl
