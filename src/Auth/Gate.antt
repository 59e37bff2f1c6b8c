-- ===== src/Auth/Gate.antt =====
-- `Auth::gate` of crates/cli/src/auth.rs, which every request of the web interface passes.
use syslog_dtls_agent.Prelude.{
  Bool, false, not, ◌&&◌, ◌||◌, Option, none, some, [], if◌then◌else◌, Text, text, bytes_eq, take,
  length,
}
use syslog_dtls_agent.Oidc.Settings.{Url}
use syslog_dtls_agent.Auth.Store.{find}
use syslog_dtls_agent.Auth.State.{
  Session, Auth, Request, Response, is_get, is_post, header, path_of, prune,
}
use syslog_dtls_agent.Auth.Handlers.{
  Answers, Outcome, answered, passed, plain, redirect_to, login_error, session_cookie, login,
  callback, end_session, sign_out,
}

-- `s.starts_with(prefix)`.
abbrev pub starts_with : Text → Text → Bool
starts_with prefix s = bytes_eq (take (length prefix) s) prefix

-- `header(&request, "X-Syslog-UI") == Some("1")`.
abbrev pub from_ui : Option Text → Bool
from_ui none = false
from_ui (some value) = bytes_eq value (text "1")

-- The answer to a request without a session.
unfoldable pub sign_in_required : Request → Response
sign_in_required request =
    if bytes_eq (path_of request) (text "/auth/session")
      || starts_with (text "/api/") request.url
      || not (is_get request.method)
    then record {
      code = 401;
      kind = text "application/json";
      body = text "{\"error\":\"Sign in required\"}";
      headers = [];
    }
    else redirect_to (text "/auth/login") []

-- The answers of `gate` to a request without a session.
unfoldable pub unknown_response : Request → Response
unknown_response request =
    let path = path_of request in
    if bytes_eq path (text "/auth/logout") && is_post request.method
    then plain 403 (text "Forbidden")
    else if is_get request.method && bytes_eq path (text "/auth/signed-out")
    then login_error 200 (text "You are signed out of this agent.")
    else sign_in_required request

-- And to one with a session, unless it is a logout.
unfoldable pub known_outcome : (Text → Text → Text) → Request → Session → Outcome
known_outcome json request session =
    let path = path_of request in
    if is_get request.method && bytes_eq path (text "/auth/signed-out")
    then answered (login_error 200 (text "You are signed out of this agent."))
    else if bytes_eq path (text "/auth/session") && is_get request.method
    then answered (record {
      code = 200;
      kind = text "application/json";
      body = json (text "username") session.username;
      headers = [];
    })
    else passed

-- `request.method() == &Method::Get && path == …`.
abbrev pub gets : Request → Text → Bool
gets request path = is_get request.method && bytes_eq (path_of request) path

abbrev pub is_logout : Request → Bool
is_logout request = bytes_eq (path_of request) (text "/auth/logout") && is_post request.method

abbrev pub is_from_ui : Request → Bool
is_from_ui request = from_ui (header request.headers (text "X-Syslog-UI"))

module _ {Client : Type 0} (parse_url : Text → Option Url) (json : Text → Text → Text) where
  -- What `gate` does with a request whose cookie names a session.
  unfoldable pub gate_known :
      Answers Client → Request → Text → Session → Auth Client → Auth Client × Outcome
  gate_known o request key session a =
      if is_logout request
      then (if not (is_from_ui request)
          then (a, answered (plain 403 (text "Forbidden")))
          else sign_out json o request key session.provider_logout a)
      else (a, known_outcome json request session)

  -- `session.as_ref().is_some_and(|key| self.sessions.contains_key(key))`.
  unfoldable pub gate_session :
      Answers Client → Request → Option Text → Auth Client → Auth Client × Outcome
  gate_session o request none a = (a, answered (unknown_response request))
  gate_session o request (some key) a = elim (find key a.sessions) [
    | none ↦ (a, answered (unknown_response request))
    | some session ↦ gate_known o request key session a
  ]

  -- `gate` after its `prune`.
  unfoldable pub gate_pruned : Answers Client → Request → Auth Client → Auth Client × Outcome
  gate_pruned o request a =
      if gets request (text "/auth/login")
      then login o request a
      else if gets request (text "/auth/callback")
      then callback o request a
      else if gets request (text "/auth/end-session")
      then end_session parse_url request a
      else if gets request (text "/auth/logout.js")
      then (
        a,
        answered (record {
          code = 200;
          kind = text "text/javascript";
          body = text "document.getElementById('provider-logout').submit();";
          headers = [];
        }),
      )
      else gate_session o request (session_cookie a request) a

  unfoldable pub gate : Answers Client → Request → Auth Client → Auth Client × Outcome
  gate o request a = gate_pruned o request (prune o.now a)
