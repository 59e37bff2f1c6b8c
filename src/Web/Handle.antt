-- ===== src/Web/Handle.antt =====
-- `handle` of crates/cli/src/web.rs: one request, from its guards to its answer. `asset` gives the files
-- built into the program, `parse_json` and `render` are the crate serde_json.
use syslog_dtls_agent.Prelude.{
  ℕ, Bool, true, false, not, ◌&&◌, ◌||◌, Option, none, some, List, [], ◌∷◌, ◌++◌, drop, ltb,
  if◌then◌else◌, length, Text, text, codes, bytes_eq, Result, ok, err, ◌>>=◌, ok_or,
}
use syslog_dtls_agent.Ip.{IpAddr, SocketAddr}
use syslog_dtls_agent.Oidc.Settings.{Url}
use syslog_dtls_agent.Config.Schema.{Config}
use syslog_dtls_agent.Config.Files.{Store}
use syslog_dtls_agent.Dtls.Credentials.{Library, OpenSslConnector}
use syslog_dtls_agent.Auth.Json.{Json}
use syslog_dtls_agent.Auth.State.{Auth, Request, Response, is_get, is_post, header, valid_request}
use syslog_dtls_agent.Auth.Handlers.{Answers, Outcome, answered, passed, panicked, plain}
use syslog_dtls_agent.Auth.Gate.{gate, starts_with}
use syslog_dtls_agent.Web.Agent.{RelayApi, Agent, Reply, command_of, command}
use syslog_dtls_agent.Web.Hosts.{valid_host}

-- A request with what follows its headers: the announced length, and the text if it can be read.
pub record FullRequest : Type 0 where
  pub request : Request
  pub body_length : Option ℕ
  pub content : Option Text

-- The headers of every answer.
abbrev pub fixed_headers : Text → List (Text × Text)
fixed_headers mime =
    (text "Referrer-Policy", text "no-referrer")
    ∷ (text "Content-Type", mime)
    ∷ (text "Cache-Control", text "no-store")
    ∷ (text "X-Content-Type-Options", text "nosniff")
    ∷ (
      text "Content-Security-Policy",
      text
          "default-src 'self'; script-src 'self'; style-src 'self'; img-src 'self' data:; connect-src 'self'; frame-ancestors 'none'; object-src 'none'; base-uri 'none'",
    )
    ∷ []

-- `respond_with`, and `respond`, which has no headers to add.
unfoldable pub respond_with : Response → Response
respond_with r = record r { headers = fixed_headers r.kind ++ r.headers }

abbrev pub sent_outcome : Outcome → Outcome
sent_outcome (answered r) = answered (respond_with r)
sent_outcome passed = passed
sent_outcome panicked = panicked

-- `o == format!("http://{host}")`, if there is an `Origin`.
abbrev pub is_own_origin : Option Text → Text → Bool
is_own_origin none host = true
is_own_origin (some o) host = bytes_eq o (codes "http://" ++ host)

abbrev pub text_or_nothing : Option Text → Text
text_or_nothing none = codes ""
text_or_nothing (some s) = s

abbrev pub is_header : Request → Text → Text → Bool
is_header request name value = elim (header request.headers name) [
  | none ↦ false
  | some found ↦ bytes_eq found value
]

-- `request.body_length().is_none_or(|n| n > 65536)`.
abbrev pub too_large : Option ℕ → Bool
too_large none = true
too_large (some n) = ltb 65_536 n

-- `if auth.is_some() { … } else { … }`.
abbrev mode_script : {A : Type 0} → Option A → Text
mode_script none = text "window.__SYSLOG_HTTP__ = true;"
mode_script (some auth) = text "window.__SYSLOG_HTTP__ = true; window.__SYSLOG_OIDC__ = true;"

-- The table of assets: the type and the bytes of each, where `asset` gives those of a file of the
-- program's `ui` directory.
unfoldable pub asset_at :
    {Client : Type 0} → (Text → Text) → Option (Auth Client) → Text → Option (Text × Text)
asset_at asset auth path =
    if bytes_eq path (codes "/") || bytes_eq path (codes "/index.html")
    then some (text "text/html; charset=utf-8", asset (codes "index.html"))
    else if bytes_eq path (codes "/app.js")
    then some (text "text/javascript", asset (codes "app.js"))
    else if bytes_eq path (codes "/style.css")
    then some (text "text/css", asset (codes "style.css"))
    else if bytes_eq path (codes "/icon.svg")
    then some (text "image/svg+xml", asset (codes "icon.svg"))
    else if bytes_eq path (codes "/agent-mode.js")
    then some (text "text/javascript", mode_script auth)
    else none

-- The answer to a `GET`.
unfoldable pub asset_response :
    {Client : Type 0} → (Text → Text) → Option (Auth Client) → Text → Response
unfolding asset_at
asset_response asset auth path = elim (asset_at asset auth path) [
  | none ↦ plain 404 (text "Not found")
  | some (mime, body) ↦ record { code = 200; kind = mime; body = body; headers = [] }
]

-- What one request makes of the agent and of the login's state.
pub record Handled (Client Relay : Type 0) : Type 0 where
  pub agent : Agent Relay
  pub auth : Option (Auth Client)
  pub outcome : Outcome

abbrev pub refuse_with :
    {Client Relay : Type 0} → Agent Relay → Option (Auth Client) → ℕ → Text → Handled Client Relay
refuse_with a auth code message = record {
  agent = a;
  auth = auth;
  outcome = answered (respond_with (plain code message));
}

-- The arguments of a command.
unfoldable pub arguments : (Text → Option Json) → FullRequest → Result Json
arguments parse_json full = do
  body ← ok_or full.content (text "Cannot read request")
  ok_or (parse_json body) (text "Invalid JSON")

abbrev pub reply_response : (Result Reply → Text) → Result Reply → Response
reply_response render (ok reply) = record {
  code = 200;
  kind = text "application/json";
  body = render (ok reply);
  headers = [];
}
reply_response render (err e) = record {
  code = 400;
  kind = text "application/json";
  body = render (err e);
  headers = [];
}

module _ {Relay Cert Key : Type 0} (api : RelayApi Relay (OpenSslConnector Cert Key))
    (lib : Library Cert Key) (store : Store) (parse_url : Text → Option Url)
    (parse_ip : Text → Option IpAddr) (show_ip : IpAddr → Text) (to_ascii : Text → Option Text)
    (decode : Json → Option Config) where
  -- `.and_then(|args| agent.command(&path[5..], args))`.
  abbrev pub perform : Text → Result Json → Agent Relay → Agent Relay × Result Reply
  perform path (err e) a = (a, err e)
  perform path (ok args) a =
      command api lib store parse_url parse_ip show_ip to_ascii decode (command_of (drop 5 path))
        args a

module _ {Client Relay Cert Key : Type 0} (api : RelayApi Relay (OpenSslConnector Cert Key))
    (lib : Library Cert Key) (store : Store) (parse_url : Text → Option Url)
    (parse_ip : Text → Option IpAddr) (show_ip : IpAddr → Text) (to_ascii : Text → Option Text)
    (decode : Json → Option Config) (parse_addr : Text → Option SocketAddr) (asset : Text → Text)
    (parse_json : Text → Option Json) (render : Result Reply → Text)
    (json : Text → Text → Text) where
  unfoldable pub run_command :
      FullRequest → Agent Relay → Option (Auth Client) → Handled Client Relay
  unfolding arguments
  run_command full a auth =
      let done =
        perform api lib store parse_url parse_ip show_ip to_ascii decode full.request.url
          (arguments parse_json full) a in
      record {
        agent = done.0;
        auth = auth;
        outcome = answered (respond_with (reply_response render done.1));
      }

  -- `handle` after the gate.
  unfoldable pub serve : FullRequest → Agent Relay → Option (Auth Client) → Handled Client Relay
  unfolding asset_response run_command
  serve full a auth =
      let request = full.request in
      if is_get request.method
      then record {
        agent = a;
        auth = auth;
        outcome = answered (respond_with (asset_response asset auth request.url));
      }
      else if not (is_post request.method) || not (starts_with (codes "/api/") request.url)
      then refuse_with a auth 405 (text "Method not allowed")
      else if not (is_header request (text "X-Syslog-UI") (text "1"))
          || not (is_header request (text "Content-Type") (text "application/json"))
      then refuse_with a auth 403 (text "Forbidden request")
      else if too_large full.body_length
      then refuse_with a auth 413 (text "Request too large or missing length")
      else run_command full a auth

  -- `auth.gate(request)`: the request goes on only if the gate passed it.
  abbrev pub behind_gate : FullRequest → Agent Relay → Auth Client × Outcome → Handled Client Relay
  behind_gate full a (auth, passed) = serve full a (some auth)
  behind_gate full a (auth, answered r) = record {
    agent = a;
    auth = some auth;
    outcome = answered (respond_with r);
  }
  behind_gate full a (auth, panicked) = record { agent = a; auth = some auth; outcome = panicked }

  abbrev pub admits : SocketAddr → Request → Option (Auth Client) → Bool
  admits address request (some auth) = valid_request auth request
  admits address request none =
      let host = text_or_nothing (header request.headers (text "Host")) in
      valid_host parse_addr host address
      && is_own_origin (header request.headers (text "Origin")) host

  abbrev pub through :
      Answers Client → FullRequest → Agent Relay → Option (Auth Client) → Handled Client Relay
  through o full a none = serve full a none
  through o full a (some auth) = behind_gate full a (gate parse_url json o full.request auth)

  unfoldable pub handle :
      SocketAddr
      → Answers Client
      → FullRequest
      → Agent Relay
      → Option (Auth Client)
      → Handled Client Relay
  unfolding serve
  handle address o full a auth =
      if ltb 8192 (length full.request.url)
      then refuse_with a auth 414 (text "Request URL too long")
      else if not (admits address full.request auth)
      then refuse_with a auth 403 (text "Forbidden origin")
      else through o full a auth
