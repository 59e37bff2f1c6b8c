-- ===== src/Desktop.antt =====
-- crates/desktop/src/main.rs: `AppState` and its commands. The dialogs and the working directory are
-- arguments: what the user picked, and the directory or why there is none.
pub mod Calls
mod Tests
use syslog_dtls_agent.Prelude.{
  Bool, true, false, Option, none, some, if◌then◌else◌, Text, text, Result, ok, err, ◌>>=◌, ◌>>◌,
  ◌++◌,
}
use syslog_dtls_agent.Ip.{IpAddr, canonical_ip}
use syslog_dtls_agent.Oidc.Settings.{Url}
use syslog_dtls_agent.Status.{Status, default_status}
use syslog_dtls_agent.Config.Schema.{Config}
use syslog_dtls_agent.Config.Checks.{resolve_paths, validate_config}
use syslog_dtls_agent.Config.Files.{Store, load, save}
use syslog_dtls_agent.Dtls.Credentials.{Library, OpenSslConnector, new}
use syslog_dtls_agent.Web.Agent.{RelayApi}

pub record AppState (Relay : Type 0) : Type 0 where
  pub relay : Option Relay
  pub last : Status

-- `Shared::default()`.
abbrev pub default_state : {Relay : Type 0} → AppState Relay
default_state = record { relay = none; last = default_status }

-- The command `normalize_source_ip`.
unfoldable pub normalize_source_ip_command :
    (Text → Option IpAddr) → (IpAddr → Text) → Text → Result Text
normalize_source_ip_command parse_ip show_ip ip = elim (parse_ip ip) [
  | none ↦ err (text "Enter an exact IPv4 or IPv6 address (no hostname, port, or CIDR range)")
  | some address ↦ ok (show_ip (canonical_ip address))
]

module _ {Relay Cert Key : Type 0} (api : RelayApi Relay (OpenSslConnector Cert Key)) where
  unfoldable pub app_status : AppState Relay → Status
  app_status s = elim s.relay [ none ↦ s.last | some relay ↦ api.status relay ]

  -- `s.relay.as_ref().is_some_and(|relay| relay.status().running)`.
  unfoldable pub is_running : AppState Relay → Bool
  is_running s = elim s.relay [ none ↦ false | some relay ↦ (api.status relay).running ]

  -- `if let Some(mut relay) = s.relay.take() { s.last = relay.stop(); }`.
  unfoldable pub take_relay : AppState Relay → AppState Relay
  take_relay s = elim s.relay [
    | none ↦ s
    | some relay ↦ record { relay = none; last = api.stop relay }
  ]

  unfoldable pub app_stop : AppState Relay → AppState Relay × Status
  app_stop s = (take_relay s, (take_relay s).last)

  -- The end of `main`: the relay is stopped, and its status not kept.
  unfoldable pub app_exit : AppState Relay → AppState Relay
  app_exit s = record s { relay = none }

  module _ (lib : Library Cert Key) (parse_url : Text → Option Url)
      (parse_ip : Text → Option IpAddr) (show_ip : IpAddr → Text)
      (to_ascii : Text → Option Text) where
    -- What a start makes of a directory and a configuration.
    unfoldable pub launch : Result Text → Config → Result Relay
    launch directory config = do
      base ← directory
      let cfg = resolve_paths base config
      connector ← new lib parse_url parse_ip show_ip to_ascii cfg
      api.start cfg connector

    abbrev pub launched : AppState Relay → Result Relay → AppState Relay × Result Status
    launched s (err e) = (s, err e)
    launched s (ok relay) = (record s { relay = some relay }, ok (api.status relay))

    unfoldable pub app_start :
        Result Text → Config → AppState Relay → AppState Relay × Result Status
    app_start directory config s =
        if is_running s
        then (s, err (text "Stop the relay before applying new settings"))
        else launched (take_relay s) (launch directory config)

    -- The command `validate`.
    unfoldable pub validate_command : Config → Result Text
    validate_command config = new lib parse_url parse_ip show_ip to_ascii config >>= λ connector.
        ok (
          text
            "Configuration and credentials valid. Connectivity is checked when the relay starts.")

    -- `load_config`, of the file picked if there is one.
    unfoldable pub load_picked : Store → Option Text → Result (Option Config)
    load_picked store none = ok none
    load_picked store (some path) =
        load store parse_url parse_ip show_ip to_ascii path >>= λ cfg. ok (some cfg)

    -- `format!("Cannot save configuration: {e}")`.
    abbrev pub save_outcome : Result Text → Result Bool
    save_outcome (err e) = err (text "Cannot save configuration: " ++ e)
    save_outcome (ok content) = ok true

    abbrev pub save_at : Store → Config → Option Text → Result Bool
    save_at store cfg none = ok false
    save_at store cfg (some path) = save_outcome (save store cfg path)

    -- `save_config`, with what the user picks.
    unfoldable pub save_picked : Store → Result Text → Option Text → Config → Result Bool
    save_picked store directory picked config = do
      base ← directory
      let cfg = resolve_paths base config
      validate_config parse_url parse_ip show_ip to_ascii cfg
      save_at store cfg picked
