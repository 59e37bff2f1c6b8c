-- ===== src/Web/Commands.antt =====
-- What the commands of crates/cli/src/web.rs keep of the agent, and when they may change it.
use syslog_dtls_agent.Prelude.{
  Bool, true, false, ◌≡◌, refl, sym, subst, ◌⊎◌, inl, inr, Option, none, Text, codes, Result, ok,
  err, ok_or, >>=-eq-ok, Result-cases, Option-cases, Bool-cases, arith,
}
use syslog_dtls_agent.Ip.{IpAddr}
use syslog_dtls_agent.Oidc.Settings.{Url}
use syslog_dtls_agent.Config.Schema.{Config}
use syslog_dtls_agent.Config.Checks.{resolve_paths, validate_config}
use syslog_dtls_agent.Config.Files.{Store, parent, save}
use syslog_dtls_agent.Dtls.Credentials.{Library, OpenSslConnector}
use syslog_dtls_agent.Auth.Json.{Json}
use syslog_dtls_agent.Web.Agent.{
  RelayApi, Agent, Reply, Command, get_status, default_config_command, stop_relay,
  normalize_source_ip, load_config, start_relay, validate_only, save_config, unknown_command, index,
  agent_status, agent_stop, checked_config, when_built, start_with, save_with, with_config,
  unless_running, command,
}

module _ {Relay Cert Key : Type 0} (api : RelayApi Relay (OpenSslConnector Cert Key))
    (lib : Library Cert Key) (store : Store) (parse_url : Text → Option Url)
    (parse_ip : Text → Option IpAddr) (show_ip : IpAddr → Text) (to_ascii : Text → Option Text)
    (decode : Json → Option Config) where
  -- The agent's configuration is valid, and without a relay its last status is that of one that ended.
  pub record IsSettled (a : Agent Relay) : Type 0 where
    pub valid : validate_config parse_url parse_ip show_ip to_ascii a.config ≡ ok tt
    pub rested : a.relay ≡ none → a.last.running ≡ false

  checked_config-valid :
      (a : Agent Relay) (args : Json) (cfg : Config)
      → checked_config api lib store parse_url parse_ip show_ip to_ascii decode a args ≡ ok cfg
      → validate_config parse_url parse_ip show_ip to_ascii cfg ≡ ok tt
  unfolding checked_config
  checked_config-valid a args cfg e =
      let (decoded, d, rest) = >>=-eq-ok (ok_or (decode (index (codes "config") args)) _) _ e in
      let (done, valid, same) =
        >>=-eq-ok
          (validate_config parse_url parse_ip show_ip to_ascii
            (resolve_paths (parent a.path) decoded))
          _ rest in
      ground (arith, valid, same)

  agent_stop-IsSettled : (a : Agent Relay) → IsSettled a → IsSettled (agent_stop api a).0
  unfolding agent_stop
  agent_stop-IsSettled a v = elim (Option-cases a.relay) [
    | inl none_ ↦ rw (agent_stop, none_) v
    | inr (relay, some_) ↦
        rw (agent_stop, some_) (record { valid = v.valid; rested = λ e. api.stop_ends relay })
  ]

  agent_stop_config : (a : Agent Relay) → (agent_stop api a).0.config ≡ a.config
  unfolding agent_stop
  agent_stop_config a = ground arith

  -- What the agent reports of its relay.
  abbrev runs : Agent Relay → Bool
  runs a = (agent_status api a).running

  -- What a command makes of an agent.
  record IsChange (a : Agent Relay) (r : Agent Relay × Result Reply) : Type 0 where
    settled : IsSettled a → IsSettled r.0
    kept : runs a ≡ true → r.0 ≡ a

  unchanged : (a : Agent Relay) (r : Agent Relay × Result Reply) → r.0 ≡ a → IsChange a r
  unchanged a r e = record { settled = λ v. subst IsSettled (sym e) v; kept = λ h. e }

  unless_running-IsChange :
      (a : Agent Relay) (e : Text) (outcome : Agent Relay × Result Reply)
      → (IsSettled a → IsSettled outcome.0)
      → IsChange a
          (unless_running api lib store parse_url parse_ip show_ip to_ascii decode a e outcome)
  unless_running-IsChange a e outcome h = elim (Bool-cases (runs a)) [
    | inl on ↦ rw on (unchanged a (a, err e) refl)
    | inr off ↦ rw off (record { settled = h; kept = λ on. absurd (ground (arith, off, on)) })
  ]

  with_config-IsChange :
      (a : Agent Relay) (args : Json) (act : Config → Agent Relay × Result Reply)
      → ((cfg : Config)
          → validate_config parse_url parse_ip show_ip to_ascii cfg ≡ ok tt
          → IsChange a (act cfg))
      → IsChange a (
          with_config api lib store parse_url parse_ip show_ip to_ascii decode a
            (checked_config api lib store parse_url parse_ip show_ip to_ascii decode a args)
            act)
  with_config-IsChange a args act h =
      elim (Result-cases
        (checked_config api lib store parse_url parse_ip show_ip to_ascii decode a args)) [
          | inr (m, failed) ↦ rw failed (unchanged a (a, err m) refl)
          | inl (cfg, done) ↦ rw done (h cfg (checked_config-valid a args cfg done))
        ]

  save_with-IsSettled :
      (a : Agent Relay) (cfg : Config)
      → validate_config parse_url parse_ip show_ip to_ascii cfg ≡ ok tt
      → IsSettled a
      → IsSettled (save_with api lib store parse_url parse_ip show_ip to_ascii decode a cfg).0
  unfolding save_with
  save_with-IsSettled a cfg valid v = elim (Result-cases (save store cfg a.path)) [
    | inr (m, failed) ↦ rw (save_with, failed) v
    | inl (written, done) ↦ rw (save_with, done) (record { valid = valid; rested = v.rested })
  ]

  when_built-IsSettled :
      (a : Agent Relay) (cfg : Config) (built : Result (OpenSslConnector Cert Key))
      → validate_config parse_url parse_ip show_ip to_ascii cfg ≡ ok tt
      → IsSettled a
      → IsSettled
          (when_built api lib store parse_url parse_ip show_ip to_ascii decode a cfg built).0
  when_built-IsSettled a cfg (err e) valid v = v
  when_built-IsSettled a cfg (ok connection) valid v =
      elim (Result-cases (api.start cfg connection)) [
        | inr (m, failed) ↦ rw (when_built, failed) (agent_stop-IsSettled a v)
        | inl (relay, begun) ↦
            rw (when_built, begun)
              (record { valid = valid; rested = λ e. absurd (ground (arith, e)) })
      ]

  command-IsChange :
      (c : Command) (args : Json) (a : Agent Relay)
      → (c ≡ stop_relay → ⊥)
      → IsChange a (command api lib store parse_url parse_ip show_ip to_ascii decode c args a)
  unfolding command start_with
  command-IsChange get_status args a h = unchanged a _ refl
  command-IsChange default_config_command args a h = unchanged a _ refl
  command-IsChange stop_relay args a h = absurd (h refl)
  command-IsChange normalize_source_ip args a h = unchanged a _ (ground arith)
  command-IsChange load_config args a h = unchanged a _ (ground arith)
  command-IsChange validate_only args a h =
      with_config-IsChange a args _ λ cfg valid. unchanged a _ (ground arith)
  command-IsChange save_config args a h =
      with_config-IsChange a args _
        λ cfg valid. unless_running-IsChange a _ _ (save_with-IsSettled a cfg valid)
  command-IsChange start_relay args a h =
      with_config-IsChange a args _
        λ cfg valid. unless_running-IsChange a _ _ (when_built-IsSettled a cfg _ valid)
  command-IsChange unknown_command args a h = unchanged a _ refl

  stop_or_not : (c : Command) → (c ≡ stop_relay) ⊎ (c ≡ stop_relay → ⊥)
  stop_or_not stop_relay = inl refl
  stop_or_not get_status = inr λ e. absurd (ground (arith, e))
  stop_or_not default_config_command = inr λ e. absurd (ground (arith, e))
  stop_or_not normalize_source_ip = inr λ e. absurd (ground (arith, e))
  stop_or_not load_config = inr λ e. absurd (ground (arith, e))
  stop_or_not start_relay = inr λ e. absurd (ground (arith, e))
  stop_or_not validate_only = inr λ e. absurd (ground (arith, e))
  stop_or_not save_config = inr λ e. absurd (ground (arith, e))
  stop_or_not unknown_command = inr λ e. absurd (ground (arith, e))

  agent_stop-ends : (a : Agent Relay) → IsSettled a → runs (agent_stop api a).0 ≡ false
  unfolding agent_stop agent_status
  agent_stop-ends a v = elim (Option-cases a.relay) [
    | inl none_ ↦ rw (agent_stop, none_, agent_status, none_) (v.rested none_)
    | inr (relay, some_) ↦ rw (agent_stop, some_) (api.stop_ends relay)
  ]

  -- From an agent whose configuration is valid and whose last status is that of an ended relay if it has
  -- none: the same holds after every command, whatever the arguments and whether it fails; while the
  -- relay runs, no command but a stop changes the agent; and after a stop nothing runs.
  pub command-IsSettled :
      (c : Command) (args : Json) (a : Agent Relay)
      → IsSettled a
      → IsSettled (command api lib store parse_url parse_ip show_ip to_ascii decode c args a).0
        × (runs a ≡ true
            → (c ≡ stop_relay)
              ⊎ ((command api lib store parse_url parse_ip show_ip to_ascii decode c args a).0 ≡ a))
        × (runs
              (command api lib store parse_url parse_ip show_ip to_ascii decode stop_relay args a).0
            ≡ false)
  unfolding command
  command-IsSettled c args a v = elim (stop_or_not c) [
    | inl e ↦ (
      subst
          (λ d.
            IsSettled (command api lib store parse_url parse_ip show_ip to_ascii decode d args a).0)
          (sym e) (agent_stop-IsSettled a v),
      λ h. inl e,
      agent_stop-ends a v,
    )
    | inr other ↦
        (let change = command-IsChange c args a other in
          (change.settled v, λ h. inr (change.kept h), agent_stop-ends a v))
  ]
