-- ===== src/Web/Agent.antt =====
-- `Agent` and its commands of crates/cli/src/web.rs. The relay is used through its interface: what it
-- reports, and what its start and its stop return.
use syslog_dtls_agent.Prelude.{
  false, ◌≡◌, Option, none, some, if◌then◌else◌, Text, text, codes, bytes_eq, Result, ok, err,
  ◌>>=◌, ok_or,
}
use syslog_dtls_agent.Ip.{IpAddr, canonical_ip}
use syslog_dtls_agent.Oidc.Settings.{Url}
use syslog_dtls_agent.Status.{Status}
use syslog_dtls_agent.Config.Schema.{Config}
use syslog_dtls_agent.Config.Checks.{resolve_paths, validate_config}
use syslog_dtls_agent.Config.Files.{Store, parent, load, save}
use syslog_dtls_agent.Dtls.Credentials.{Library, OpenSslConnector, new}
use syslog_dtls_agent.Auth.Json.{Json, null, object, text_of, field_of}

-- `Relay::status`, `stop` and `start`, for a connector of type `Connector`.
pub record RelayApi (Relay Connector : Type 0) : Type 0 where
  pub status : Relay → Status
  pub stop : Relay → Status
  pub start : Config → Connector → Result Relay
  pub stop_ends : (relay : Relay) → (stop relay).running ≡ false

pub record Agent (Relay : Type 0) : Type 0 where
  pub config : Config
  pub path : Text
  pub relay : Option Relay
  pub last : Status

-- The values that commands return, before they are rendered as JSON.
pub data Reply : Type 0 where
  status_reply : Status → Reply
  config_reply : Config → Reply
  text_reply : Text → Reply
  done_reply : Reply

pub data Command : Type 0 where
  get_status default_config_command stop_relay normalize_source_ip load_config : Command
  start_relay validate_only save_config unknown_command : Command

-- The arms of `match command`.
unfoldable pub command_of : Text → Command
command_of name =
    if bytes_eq name (codes "status")
    then get_status
    else if bytes_eq name (codes "default_config")
    then default_config_command
    else if bytes_eq name (codes "stop")
    then stop_relay
    else if bytes_eq name (codes "normalize_source_ip")
    then normalize_source_ip
    else if bytes_eq name (codes "load_config")
    then load_config
    else if bytes_eq name (codes "start")
    then start_relay
    else if bytes_eq name (codes "validate")
    then validate_only
    else if bytes_eq name (codes "save_config")
    then save_config
    else unknown_command

-- `args[key]`.
abbrev pub index : Text → Json → Json
index key (object fields) = elim (field_of key fields) [ none ↦ null | some value ↦ value ]
index key value = null

-- `as_str().unwrap_or("")`.
abbrev pub text_or_empty : Json → Text
text_or_empty (text_of s) = s
text_or_empty value = codes ""

module _ {Relay Cert Key : Type 0} (api : RelayApi Relay (OpenSslConnector Cert Key)) where
  -- `Agent::status` and `Agent::stop`.
  unfoldable pub agent_status : Agent Relay → Status
  agent_status a = elim a.relay [ none ↦ a.last | some relay ↦ api.status relay ]

  unfoldable pub agent_stop : Agent Relay → Agent Relay × Status
  agent_stop a = elim a.relay [
    | none ↦ (a, a.last)
    | some relay ↦ (record a { relay = none; last = api.stop relay }, api.stop relay)
  ]

  module _ (lib : Library Cert Key) (store : Store) (parse_url : Text → Option Url)
      (parse_ip : Text → Option IpAddr) (show_ip : IpAddr → Text) (to_ascii : Text → Option Text)
      (decode : Json → Option Config) where
    -- The configuration of the arguments, resolved and checked.
    unfoldable pub checked_config : Agent Relay → Json → Result Config
    checked_config a args = do
      decoded ← ok_or (decode (index (codes "config") args)) (text "Invalid configuration")
      let cfg = resolve_paths (parent a.path) decoded
      _ ← validate_config parse_url parse_ip show_ip to_ascii cfg
      ok cfg

    abbrev pub connector : Config → Result (OpenSslConnector Cert Key)
    connector = new lib parse_url parse_ip show_ip to_ascii

    abbrev pub when_built :
        Agent Relay → Config → Result (OpenSslConnector Cert Key) → Agent Relay × Result Reply
    when_built a cfg (err e) = (a, err e)
    when_built a cfg (ok connection) = elim (api.start cfg connection) [
      | err e ↦ ((agent_stop a).0, err e)
      | ok relay ↦ (
        record (agent_stop a).0 { relay = some relay; config = cfg },
        ok (status_reply (api.status relay)),
      )
    ]

    unfoldable pub start_with : Agent Relay → Config → Agent Relay × Result Reply
    unfolding agent_stop
    start_with a cfg = when_built a cfg (connector cfg)

    unfoldable pub save_with : Agent Relay → Config → Agent Relay × Result Reply
    save_with a cfg = elim (save store cfg a.path) [
      | err e ↦ (a, err e)
      | ok written ↦ (record a { config = cfg }, ok done_reply)
    ]

    -- `"start" | "validate" | "save_config"`, with what the first of them does at its end.
    abbrev pub with_config :
        Agent Relay
        → Result Config
        → (Config → Agent Relay × Result Reply)
        → Agent Relay × Result Reply
    with_config a (err e) act = (a, err e)
    with_config a (ok cfg) act = act cfg

    abbrev pub unless_running :
        Agent Relay → Text → Agent Relay × Result Reply → Agent Relay × Result Reply
    unless_running a e outcome = if (agent_status a).running then (a, err e) else outcome

    -- `Agent::command`.
    unfoldable pub command : Command → Json → Agent Relay → Agent Relay × Result Reply
    unfolding agent_status agent_stop
    command get_status args a = (a, ok (status_reply (agent_status a)))
    command default_config_command args a = (a, ok (config_reply a.config))
    command stop_relay args a = ((agent_stop a).0, ok (status_reply (agent_stop a).1))
    command normalize_source_ip args a = elim (parse_ip (text_or_empty (index (codes "ip") args))) [
      | none ↦ (a, err (text "Enter an exact IPv4 or IPv6 address"))
      | some ip ↦ (a, ok (text_reply (show_ip (canonical_ip ip))))
    ]
    command load_config args a =
        unless_running a (text "Stop the relay before loading settings")
          (elim (load store parse_url parse_ip show_ip to_ascii a.path) [
            | err e ↦ (a, err e)
            | ok cfg ↦ (a, ok (config_reply cfg))
          ])
    command validate_only args a = with_config a (checked_config a args) λ cfg.
        elim (connector cfg) [
          | err e ↦ (a, err e)
          | ok connection ↦ (
            a,
            ok (
                text_reply (
                  text
                    "Configuration and credentials valid. Connectivity is checked when the relay starts.")),
          )
        ]
    command save_config args a =
        with_config a (checked_config a args)
          λ cfg. unless_running a (text "Stop the relay before applying settings") (save_with a cfg)
    command start_relay args a =
        with_config a (checked_config a args) λ cfg.
          unless_running a (text "Stop the relay before applying settings") (start_with a cfg)
    command unknown_command args a = (a, err (text "Unknown management command"))
