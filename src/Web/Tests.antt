-- ===== src/Web/Tests.antt =====
-- The management interface of crates/cli/src/web.rs on concrete requests.
use syslog_dtls_agent.Prelude.{
  ◌≡◌, ◌⊎◌, refl, true, false, Option, none, some, [], ◌∷◌, Text, text, codes, Result, ok, err,
  arith,
}
use syslog_dtls_agent.Framing.Text.{ends_with_byte}
use syslog_dtls_agent.Ip.{IpAddr, SocketAddr}
use syslog_dtls_agent.Oidc.Settings.{Url, validate, default_oidc, trim_end_matches}
use syslog_dtls_agent.Status.{default_status}
use syslog_dtls_agent.Config.Schema.{
  Config, default_config, default_http, default_source_access, default_listener, default_queue,
  default_dtls, loopback,
}
use syslog_dtls_agent.Config.Names.{
  split, bad_label, normalize_dns_name, normalize_name, server_name,
}
use syslog_dtls_agent.Config.Checks.{queue_out_of_range, dtls_out_of_range, validate_config}
use syslog_dtls_agent.Config.Files.{Store}
use syslog_dtls_agent.Dtls.Credentials.{Library, OpenSslConnector}
use syslog_dtls_agent.Relay.State.{State}
use syslog_dtls_agent.Relay.Control.{initial_state}
use syslog_dtls_agent.Auth.Json.{Json, null}
use syslog_dtls_agent.Auth.State.{Auth, post, header, valid_request}
use syslog_dtls_agent.Auth.Handlers.{Answers}
use syslog_dtls_agent.Web.Agent.{
  RelayApi, Agent, Reply, get_status, default_config_command, normalize_source_ip, load_config,
  validate_only, save_config, unknown_command, start_relay, stop_relay, agent_status, agent_stop,
  command_of, command,
}
use syslog_dtls_agent.Web.Snapshots.{snapshots_at}
use syslog_dtls_agent.Web.Commands.{IsSettled, command-IsSettled}
use syslog_dtls_agent.Web.Hosts.{valid_host}
use syslog_dtls_agent.Framing.Frame.{decimal}
use syslog_dtls_agent.Web.Handle.{FullRequest, arguments, run_command, serve, handle}
use syslog_dtls_agent.Web.Authorized.{IsAuthorized, handle-IsAuthorized}

-- Certificates and keys are numbers here; nothing can be read.
abbrev empty_files : Library (Unit {0}) (Unit {0})
empty_files = record {
  dtls_client = none;
  fresh_empty = λ c e. absurd (ground (arith, e));
  accepts = λ context setting. false;
  read = λ path. none;
  stack_from_pem = λ bytes. none;
  private_key_from_pem = λ bytes. none;
  public_eq = λ cert key. none;
  digest = λ cert. none;
}

abbrev disk : Store
disk = record {
  absolute = λ path. ok path;
  read_to_string = λ path. err [];
  from_toml = λ source. none;
  to_string_pretty = λ cfg. none;
  open_file = λ path. false;
  restrict = λ path. false;
  rewrite = λ path content. false;
}

abbrev relay_api : RelayApi State (OpenSslConnector (Unit {0}) (Unit {0}))
relay_api = snapshots_at 0 (initial_state [] [] [] 0)

abbrev no_url : Text → Option Url
no_url s = none

abbrev no_ip : Text → Option IpAddr
no_ip s = none

abbrev shown : IpAddr → Text
shown ip = []

abbrev same_name : Text → Option Text
same_name s = some s

abbrev decoded : Json → Option Config
decoded args = some default_config

abbrev agent : Agent State
agent = record {
  config = default_config;
  path = codes "/etc/agent.toml";
  relay = some (initial_state [] [] [] 0);
  last = default_status;
}

agent-IsSettled : IsSettled relay_api empty_files disk no_url no_ip shown same_name decoded agent
unfolding validate_config validate default_config default_oidc default_http default_source_access
    default_listener default_queue default_dtls normalize_name normalize_dns_name server_name
    trim_end_matches split bad_label ends_with_byte queue_out_of_range dtls_out_of_range text
agent-IsSettled = record { valid = refl; rested = λ e. absurd (ground (arith, e)) }

command-IsSettled_example :
    IsSettled relay_api empty_files disk no_url no_ip shown same_name decoded
      (command relay_api empty_files disk no_url no_ip shown same_name decoded start_relay null
        agent).0
    × ((agent_status relay_api agent).running ≡ true
        → (start_relay ≡ stop_relay)
          ⊎ ((command relay_api empty_files disk no_url no_ip shown same_name decoded start_relay
                null agent).0
              ≡ agent))
    × ((agent_status relay_api
          (command relay_api empty_files disk no_url no_ip shown same_name decoded stop_relay null
            agent).0).running
        ≡ false)
command-IsSettled_example =
    command-IsSettled relay_api empty_files disk no_url no_ip shown same_name decoded start_relay
      null agent agent-IsSettled

abbrev here : SocketAddr
here = record { ip = loopback; port = 1080 }

abbrev no_addr : Text → Option SocketAddr
no_addr s = none

abbrev no_asset : Text → Text
no_asset path = []

abbrev parsed : Text → Option Json
parsed body = some null

abbrev rendered : Result Reply → Text
rendered reply = []

abbrev no_json : Text → Text → Text
no_json name value = []

abbrev observed : Answers (Unit {0})
observed = record { now = 50; fresh = codes "n"; begun = err []; finish = λ url f. err [] }

abbrev stop_request : FullRequest
stop_request = record {
  request = record {
    method = post;
    url = codes "/api/stop";
    headers =
        (codes "Host", codes "localhost:1080")
        ∷ (codes "X-Syslog-UI", codes "1")
        ∷ (codes "Content-Type", codes "application/json")
        ∷ [];
  };
  body_length = some 2;
  content = some (codes "{}");
}

abbrev no_login : Option (Auth (Unit {0}))
no_login = none

abbrev stopped_agent : Agent State
stopped_agent =
    (handle relay_api empty_files disk no_url no_ip shown same_name decoded no_addr no_asset parsed
      rendered no_json here observed stop_request agent no_login).agent

handle-IsAuthorized_example :
    (stopped_agent ≡ agent)
    ⊎ IsAuthorized relay_api empty_files disk no_url no_ip shown same_name decoded no_addr no_asset
        parsed rendered no_json here observed stop_request agent no_login stopped_agent
handle-IsAuthorized_example =
    handle-IsAuthorized relay_api empty_files disk no_url no_ip shown same_name decoded no_addr
      no_asset parsed rendered no_json here observed stop_request agent no_login

-- The command was reached, and the relay is gone.
relay_stopped : stopped_agent.relay ≡ none
unfolding handle serve run_command command agent_stop arguments command_of valid_host valid_request
    decimal header text
relay_stopped = refl

-- The names of the commands are those of the user interface.
dispatched :
    (command_of (codes "status") ≡ get_status)
    × (command_of (codes "default_config") ≡ default_config_command)
    × (command_of (codes "stop") ≡ stop_relay)
    × (command_of (codes "normalize_source_ip") ≡ normalize_source_ip)
    × (command_of (codes "load_config") ≡ load_config)
    × (command_of (codes "start") ≡ start_relay)
    × (command_of (codes "validate") ≡ validate_only)
    × (command_of (codes "save_config") ≡ save_config)
    × (command_of (codes "get_default_config") ≡ unknown_command)
unfolding command_of
dispatched = (refl, refl, refl, refl, refl, refl, refl, refl, refl)
