-- ===== src/Web/Authorized.antt =====
-- Which requests of crates/cli/src/web.rs reach a command of the agent.
use syslog_dtls_agent.Prelude.{
  ℕ, ◌≤◌, ◌<◌, ◌≡◌, refl, ◌⊎◌, inl, inr, Bool, true, false, not, ◌||◌, Option, none, some, drop,
  ltb, if◌then◌else◌, length, Text, text, codes, Result, ok, err, arith,
}
use syslog_dtls_agent.Ip.{IpAddr, SocketAddr}
use syslog_dtls_agent.Oidc.Settings.{Url}
use syslog_dtls_agent.Config.Schema.{Config}
use syslog_dtls_agent.Config.Files.{Store}
use syslog_dtls_agent.Dtls.Credentials.{Library, OpenSslConnector}
use syslog_dtls_agent.Auth.Json.{Json}
use syslog_dtls_agent.Auth.Store.{find}
use syslog_dtls_agent.Auth.State.{Auth, Session, Request, is_get, is_post, prune}
use syslog_dtls_agent.Auth.Handlers.{Answers, Outcome, answered, passed, panicked, session_cookie}
use syslog_dtls_agent.Auth.Gate.{gate, starts_with}
use syslog_dtls_agent.Auth.Access.{gate-passed}
use syslog_dtls_agent.Web.Agent.{RelayApi, Agent, Reply, command_of, command}
use syslog_dtls_agent.Web.Handle.{
  FullRequest, Handled, is_header, too_large, arguments, perform, run_command, serve, behind_gate,
  admits, through, handle,
}

-- What holds of each branch, of which its test is known, holds of the conditional.
if_known :
    {A : Type 0} (P : A → Type 0) (b : Bool) {x y : A}
    → (b ≡ true → P x)
    → (b ≡ false → P y)
    → P (if b then x else y)
if_known P true h k = h refl
if_known P false h k = k refl

not-false : (b : Bool) → not b ≡ false → b ≡ true
not-false true h = refl
not-false false h = absurd (ground (arith, h))

-- The form of a command's request.
pub record IsCommand (full : FullRequest) : Type 0 where
  pub posted : is_post full.request.method ≡ true
  pub to_api : starts_with (codes "/api/") full.request.url ≡ true
  pub from_page : is_header full.request (text "X-Syslog-UI") (text "1") ≡ true
  pub with_json : is_header full.request (text "Content-Type") (text "application/json") ≡ true
  pub small : too_large full.body_length ≡ false

-- Without a login nothing is asked; with one, the cookie of a session that has not expired.
abbrev pub IsSignedIn : {Client : Type 0} → ℕ → Request → Option (Auth Client) → Type 0
IsSignedIn now request none = Unit {0}
IsSignedIn now request (some auth) =
    (key : Text) × (session : Session) × (session_cookie auth request ≡ some key)
    × (find key (prune now auth).sessions ≡ some session)
    × (now < session.expires)

module _ {Relay Cert Key : Type 0} (api : RelayApi Relay (OpenSslConnector Cert Key))
    (lib : Library Cert Key) (store : Store) (parse_url : Text → Option Url)
    (parse_ip : Text → Option IpAddr) (show_ip : IpAddr → Text) (to_ascii : Text → Option Text)
    (decode : Json → Option Config) (parse_json : Text → Option Json) where
  -- A command ran, and the agent is what it left.
  pub record IsRun (full : FullRequest) (a after : Agent Relay) : Type 0 where
    pub form : IsCommand full
    pub args : Json
    pub parsed : arguments parse_json full ≡ ok args
    pub outcome :
        after
        ≡ (command api lib store parse_url parse_ip show_ip to_ascii decode
            (command_of (drop 5 full.request.url))
            args
            a).0

  perform_lem :
      (full : FullRequest) (a : Agent Relay) (form : IsCommand full) (args : Result Json)
      → arguments parse_json full ≡ args
      → ((perform api lib store parse_url parse_ip show_ip to_ascii decode full.request.url args
            a).0
          ≡ a)
        ⊎ IsRun full a
            (perform api lib store parse_url parse_ip show_ip to_ascii decode full.request.url args
              a).0
  perform_lem full a form (err e) h = inl refl
  perform_lem full a form (ok args) h =
      inr (record { form = form; args = args; parsed = h; outcome = refl })

module _ {Client Relay Cert Key : Type 0} (api : RelayApi Relay (OpenSslConnector Cert Key))
    (lib : Library Cert Key) (store : Store) (parse_url : Text → Option Url)
    (parse_ip : Text → Option IpAddr) (show_ip : IpAddr → Text) (to_ascii : Text → Option Text)
    (decode : Json → Option Config) (parse_addr : Text → Option SocketAddr) (asset : Text → Text)
    (parse_json : Text → Option Json) (render : Result Reply → Text)
    (json : Text → Text → Text) where
  module _ (full : FullRequest) (a : Agent Relay) where
    abbrev IsServed : Handled Client Relay → Type 0
    IsServed r =
        (r.agent ≡ a)
        ⊎ IsRun api lib store parse_url parse_ip show_ip to_ascii decode parse_json full a r.agent

    serve-IsServed :
        (auth : Option (Auth Client))
        → IsServed (
            serve api lib store parse_url parse_ip show_ip to_ascii decode parse_addr asset
              parse_json render json full a auth)
    unfolding serve run_command
    serve-IsServed auth =
        let r = full.request in
        if_known IsServed (is_get r.method) (λ g. inl refl)
          λ g.
            if_known IsServed (not (is_post r.method) || not (starts_with (codes "/api/") r.url))
              (λ m. inl refl)
              λ m.
                if_known IsServed
                  (not (is_header r (text "X-Syslog-UI") (text "1"))
                    || not (is_header r (text "Content-Type") (text "application/json")))
                  (λ h. inl refl)
                  λ h.
                    if_known IsServed (too_large full.body_length) (λ t. inl refl)
                      λ t.
                        perform_lem api lib store parse_url parse_ip show_ip to_ascii decode
                          parse_json full a
                          (record {
                            posted = ground (arith, m);
                            to_api = ground (arith, m);
                            from_page = ground (arith, h);
                            with_json = ground (arith, h);
                            small = t;
                          })
                          _ refl

  abbrev handled :
      SocketAddr
      → Answers Client
      → FullRequest
      → Agent Relay
      → Option (Auth Client)
      → Handled Client Relay
  handled =
      handle api lib store parse_url parse_ip show_ip to_ascii decode parse_addr asset parse_json
        render json

  module _ (address : SocketAddr) (o : Answers Client) (full : FullRequest) (a : Agent Relay) where
    -- The agent is as before, or a request that may do so ran a command.
    pub record IsAuthorized (auth : Option (Auth Client)) (after : Agent Relay) : Type 0 where
      short : length full.request.url ≤ 8192
      admitted :
          admits api lib store parse_url parse_ip show_ip to_ascii decode parse_addr asset
            parse_json render json address full.request auth
          ≡ true
      signed_in : IsSignedIn o.now full.request auth
      run : IsRun api lib store parse_url parse_ip show_ip to_ascii decode parse_json full a after

    abbrev IsGuarded : Option (Auth Client) → Handled Client Relay → Type 0
    IsGuarded auth r = (r.agent ≡ a) ⊎ IsAuthorized auth r.agent

    -- What is left once the request is admitted.
    abbrev IsLet : Option (Auth Client) → Handled Client Relay → Type 0
    IsLet auth r =
        (r.agent ≡ a)
        ⊎ (IsSignedIn o.now full.request auth
            × IsRun api lib store parse_url parse_ip show_ip to_ascii decode parse_json full a
                r.agent)

    abbrev served : Option (Auth Client) → Handled Client Relay
    served =
        serve api lib store parse_url parse_ip show_ip to_ascii decode parse_addr asset parse_json
          render json full a

    signed_run :
        (auth : Option (Auth Client)) (r : Handled Client Relay)
        → IsSignedIn o.now full.request auth
        → IsServed full a r
        → IsLet auth r
    signed_run auth r signed (inl e) = inl e
    signed_run auth r signed (inr run) = inr (signed, run)

    behind_gate-IsLet :
        (auth after : Auth Client) (outcome : Outcome)
        → (gate parse_url json o full.request auth).1 ≡ outcome
        → IsLet (some auth) (
            behind_gate api lib store parse_url parse_ip show_ip to_ascii decode parse_addr asset
              parse_json render json full a
              (after, outcome))
    behind_gate-IsLet auth after (answered r) e = inl refl
    behind_gate-IsLet auth after panicked e = inl refl
    behind_gate-IsLet auth after passed e =
        let (key, session, named, found, live, same) =
          gate-passed parse_url json o full.request auth e in
        signed_run (some auth) (served (some after)) (key, session, named, found, live)
          (serve-IsServed full a (some after))

    abbrev entered : Option (Auth Client) → Handled Client Relay
    entered =
        through api lib store parse_url parse_ip show_ip to_ascii decode parse_addr asset parse_json
          render json o full a

    through-IsLet : (auth : Option (Auth Client)) → IsLet auth (entered auth)
    through-IsLet none = signed_run none (served none) tt (serve-IsServed full a none)
    through-IsLet (some auth) =
        let g = gate parse_url json o full.request auth in behind_gate-IsLet auth g.0 g.1 refl

    authorize :
        (auth : Option (Auth Client)) (r : Handled Client Relay)
        → length full.request.url ≤ 8192
        → admits api lib store parse_url parse_ip show_ip to_ascii decode parse_addr asset
            parse_json render json address full.request auth
          ≡ true
        → IsLet auth r
        → IsGuarded auth r
    authorize auth r short admitted (inl e) = inl e
    authorize auth r short admitted (inr (signed, run)) =
        inr (record { short = short; admitted = admitted; signed_in = signed; run = run })

    -- A request leaves the agent as it was unless it ran a command; and then its URL is at most 8192 bytes
    -- long, its Host and Origin are the interface's own, it carries, if there is a login, the cookie of a
    -- session that has not expired, and it is a POST to the API with the page's header, a JSON type,
    -- an announced length of at most 65536 bytes and a body that parses; and the agent is what that
    -- command made of it.
    pub handle-IsAuthorized :
        (auth : Option (Auth Client))
        → ((handled address o full a auth).agent ≡ a)
          ⊎ IsAuthorized auth (handled address o full a auth).agent
    unfolding handle
    handle-IsAuthorized auth =
        if_known (IsGuarded auth) (ltb 8192 (length full.request.url)) (λ h. inl refl)
          λ short.
            if_known (IsGuarded auth)
              (not (
                admits api lib store parse_url parse_ip show_ip to_ascii decode parse_addr asset
                  parse_json render json address full.request auth))
              (λ h. inl refl)
              λ admitted.
                authorize auth (entered auth) (ground (arith, short)) (not-false _ admitted)
                  (through-IsLet auth)
