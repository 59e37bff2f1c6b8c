-- ===== src/Desktop/Calls.antt =====
-- What any sequence of the commands of crates/desktop/src/main.rs leaves in its `AppState`.
use syslog_dtls_agent.Prelude.{
  true, false, ◌≡◌, refl, inl, inr, Option, none, some, List, [], ◌∷◌, Text, text, Result, ok, err,
  >>=-eq-ok, Option-cases, Bool-cases, arith,
}
use syslog_dtls_agent.Ip.{IpAddr}
use syslog_dtls_agent.Oidc.Settings.{Url}
use syslog_dtls_agent.Status.{default_status}
use syslog_dtls_agent.Config.Schema.{Config}
use syslog_dtls_agent.Config.Checks.{resolve_paths, validate_config}
use syslog_dtls_agent.Dtls.Credentials.{Library, OpenSslConnector, new}
use syslog_dtls_agent.Dtls.Configured.{new-IsConfigured}
use syslog_dtls_agent.Web.Agent.{RelayApi}
use syslog_dtls_agent.Desktop.{
  AppState, default_state, is_running, take_relay, app_stop, app_exit, launch, launched, app_start,
}

-- The commands that change the state, and the end of the program.
pub data Call : Type 0 where
  start_call : Result Text → Config → Call
  stop_call exit_call : Call

module _ {Relay Cert Key : Type 0} (api : RelayApi Relay (OpenSslConnector Cert Key))
    (lib : Library Cert Key) (parse_url : Text → Option Url) (parse_ip : Text → Option IpAddr)
    (show_ip : IpAddr → Text) (to_ascii : Text → Option Text) where
  unfoldable pub perform_call : Call → AppState Relay → AppState Relay
  perform_call (start_call directory config) s =
      (app_start api lib parse_url parse_ip show_ip to_ascii directory config s).0
  perform_call stop_call s = (app_stop api s).0
  perform_call exit_call s = app_exit api s

  unfoldable pub run_calls : List Call → AppState Relay → AppState Relay
  run_calls [] s = s
  run_calls (call ∷ calls) s = run_calls calls (perform_call call s)

  -- The relay was started with a valid configuration, resolved against the directory, and a connector
  -- that was made from it.
  pub record IsLaunched (relay : Relay) : Type 0 where
    base : Text
    config : Config
    made : OpenSslConnector Cert Key
    valid : validate_config parse_url parse_ip show_ip to_ascii (resolve_paths base config) ≡ ok tt
    built : new lib parse_url parse_ip show_ip to_ascii (resolve_paths base config) ≡ ok made
    begun : api.start (resolve_paths base config) made ≡ ok relay

  pub record IsKept (s : AppState Relay) : Type 0 where
    pub rested : s.last.running ≡ false
    pub launched_well : (relay : Relay) → s.relay ≡ some relay → IsLaunched relay

  launch-IsLaunched :
      (directory : Result Text) (config : Config) (relay : Relay)
      → launch api lib parse_url parse_ip show_ip to_ascii directory config ≡ ok relay
      → IsLaunched relay
  unfolding launch
  launch-IsLaunched directory config relay e =
      let (base, e0, r0) = >>=-eq-ok directory _ e in
      let (connector, e1, r1) =
        >>=-eq-ok (new lib parse_url parse_ip show_ip to_ascii (resolve_paths base config)) _ r0 in
      record {
        base = base;
        config = config;
        made = connector;
        valid =
            (new-IsConfigured lib parse_url parse_ip show_ip to_ascii (resolve_paths base config)
              connector e1).0;
        built = e1;
        begun = r1;
      }

  without : (s : AppState Relay) → s.relay ≡ none → s.last.running ≡ false → IsKept s
  without s e h = record { rested = h; launched_well = λ relay f. absurd (ground (arith, e, f)) }

  take_relay-IsKept :
      (s : AppState Relay)
      → IsKept s
      → IsKept (take_relay api s) × ((take_relay api s).relay ≡ none)
  unfolding take_relay
  take_relay-IsKept s k = elim (Option-cases s.relay) [
    | inl e ↦ rw (take_relay, e) (k, e)
    | inr (relay, e) ↦ rw (take_relay, e) (without _ refl (api.stop_ends relay), refl)
  ]

  launched-IsKept :
      (s : AppState Relay) (r : Result Relay)
      → IsKept s
      → ((relay : Relay) → r ≡ ok relay → IsLaunched relay)
      → IsKept (launched api lib parse_url parse_ip show_ip to_ascii s r).0
  launched-IsKept s (err e) k h = k
  launched-IsKept s (ok relay) k h = record {
    rested = k.rested;
    launched_well = λ other e. h other (ground (arith, e));
  }

  app_exit-IsKept : (s : AppState Relay) → IsKept s → IsKept (app_exit api s)
  unfolding app_exit
  app_exit-IsKept s k = without _ refl k.rested

  app_start-IsKept :
      (directory : Result Text) (config : Config) (s : AppState Relay)
      → IsKept s
      → IsKept (app_start api lib parse_url parse_ip show_ip to_ascii directory config s).0
  unfolding app_start
  app_start-IsKept directory config s k = elim (Bool-cases (is_running api s)) [
    | inl on ↦ rw (on) k
    | inr off ↦ rw (off) (
        launched-IsKept (take_relay api s)
          (launch api lib parse_url parse_ip show_ip to_ascii directory config)
          (take_relay-IsKept s k).0 (λ relay e. launch-IsLaunched directory config relay e))
  ]

  perform_call-IsKept : (call : Call) (s : AppState Relay) → IsKept s → IsKept (perform_call call s)
  unfolding perform_call app_stop
  perform_call-IsKept (start_call directory config) s k = app_start-IsKept directory config s k
  perform_call-IsKept stop_call s k = (take_relay-IsKept s k).0
  perform_call-IsKept exit_call s k = app_exit-IsKept s k

  calls_keep : (calls : List Call) (s : AppState Relay) → IsKept s → IsKept (run_calls calls s)
  unfolding run_calls
  calls_keep [] s k = k
  calls_keep (call ∷ calls) s k =
      calls_keep calls (perform_call call s) (perform_call-IsKept call s k)

  app_start_refused :
      (directory : Result Text) (config : Config) (s : AppState Relay)
      → is_running api s ≡ true
      → app_start api lib parse_url parse_ip show_ip to_ascii directory config s
        ≡ (s, err (text "Stop the relay before applying new settings"))
  unfolding app_start
  app_start_refused directory config s on = rw (on) refl

  default_state-IsKept : IsKept default_state
  unfolding default_status
  default_state-IsKept = record {
    rested = refl;
    launched_well = λ relay e. absurd (ground (arith, e));
  }

  -- Whatever commands are given from the start of the program: the relay that is held, if there is one, was
  -- started with a valid configuration and a connector made from it, the last status that is kept is that
  -- of a relay that ended, a start while the relay runs fails and changes nothing, and after a stop
  -- there is no relay, and what the stop returns says that none runs.
  pub run_calls-IsKept :
      (calls : List Call) (directory : Result Text) (config : Config)
      → IsKept (run_calls calls default_state)
        × (is_running api (run_calls calls default_state) ≡ true
            → app_start api lib parse_url parse_ip show_ip to_ascii directory config
                (run_calls calls default_state)
              ≡ (
                run_calls calls default_state,
                err (text "Stop the relay before applying new settings"),
              ))
        × ((app_stop api (run_calls calls default_state)).0.relay ≡ none)
        × ((app_stop api (run_calls calls default_state)).1.running ≡ false)
  unfolding app_stop
  run_calls-IsKept calls directory config =
      let kept = calls_keep calls default_state default_state-IsKept in
      let (rests, gone) = take_relay-IsKept (run_calls calls default_state) kept in
      (kept, app_start_refused directory config (run_calls calls default_state), gone, rests.rested)
