-- ===== src/Auth/Handlers.antt =====
-- The handlers of crates/cli/src/auth.rs. What the identity provider, the clock and the random generator
-- answer is read from an `Answers`; `json` renders an object of one string field (the crate serde_json).
use syslog_dtls_agent.Prelude.{
  ℕ, ◌+◌, ◌*◌, Option, none, some, List, [], ◌∷◌, ◌++◌, ltb, leb, if◌then◌else◌, length, Text, text,
  Result, ok, err,
}
use syslog_dtls_agent.Oidc.Settings.{Url, http_url}
use syslog_dtls_agent.Auth.Store.{find, remove, insert}
use syslog_dtls_agent.Auth.Escape.{html_attribute}
use syslog_dtls_agent.Auth.State.{
  Flow, ProviderLogout, PendingLogout, Login, Auth, Request, Response, cookie_value, cookie_name,
  cookie,
}

pub record Answers (Client : Type 0) : Type 0 where
  pub now : ℕ
  -- `CsrfToken::new_random()`
  pub fresh : Text
  -- what `begin_login` returns, and `finish_login` for a URL and a flow
  pub begun : Result (Text × Text × Flow Client)
  pub finish : Text → Flow Client → Result Login

-- What becomes of a request: an answer, its passing on, or a panic at an `unwrap`.
pub data Outcome : Type 0 where
  answered : Response → Outcome
  passed panicked : Outcome

abbrev pub plain : ℕ → Text → Response
plain code body = record { code = code; kind = text "text/plain"; body = body; headers = [] }

abbrev pub redirect_to : Text → List (Text × Text) → Response
redirect_to location cookies = record {
  code = 303;
  kind = text "text/plain";
  body = [];
  headers = (text "Location", location) ∷ cookies;
}

-- `login_error`.
unfoldable pub login_error : ℕ → Text → Response
login_error code message = record {
  code = code;
  kind = text "text/html; charset=utf-8";
  body =
      text "<!doctype html><html lang=\"en\"><meta charset=\"utf-8\"><title>Syslog DTLS Agent "
      ++ 0xe2 ∷ 0x80 ∷ 0x94 ∷ text " Login</title><h1>Syslog DTLS Agent</h1><p>"
      ++ message
      ++ text "</p><a href=\"/auth/login\">Sign in</a></html>";
  headers = [];
}

abbrev pub seconds : ℕ → ℕ
seconds n = n * 1_000_000_000

-- `if let Some(old) = … { m.remove(&old); }`.
abbrev pub remove_old : {A : Type 0} → Option Text → List (Text × A) → List (Text × A)
remove_old none m = m
remove_old (some old) m = remove old m

abbrev pub take_out : {A : Type 0} → Option Text → List (Text × A) → Option A
take_out none m = none
take_out (some key) m = find key m

-- The body of the logout request: a JSON object with one field, and the cookies.
abbrev pub signed_out : (Text → Text → Text) → Text → List (Text × Text) → Response
signed_out json location cookies = record {
  code = 200;
  kind = text "application/json";
  body = json (text "redirect") location;
  headers = cookies;
}

module _ {Client : Type 0} where
  abbrev pub flow_cookie : Auth Client → Request → Option Text
  flow_cookie a request = cookie_value request (cookie_name a (text "flow"))

  abbrev pub session_cookie : Auth Client → Request → Option Text
  session_cookie a request = cookie_value request (cookie_name a (text "session"))

  abbrev pub logout_cookie : Auth Client → Request → Option Text
  logout_cookie a request = cookie_value request (cookie_name a (text "logout"))

  -- `Auth::login`.
  unfoldable pub login : Answers Client → Request → Auth Client → Auth Client × Outcome
  login o request a =
      if leb 64 (length a.flows)
      then (a, answered (plain 503 (text "Too many pending logins. Try again later.")))
      else elim o.begun [
        | err reason ↦ (
          a,
          answered (login_error 503 (text "Identity provider is unavailable or misconfigured.")),
        )
        | ok (url, key, flow) ↦ (
          record a { flows = insert key flow (remove_old (flow_cookie a request) a.flows) },
          answered (redirect_to url ((text "Set-Cookie", cookie a (text "flow") key 300) ∷ [])),
        )
      ]

  -- The arms of `callback` on the result of the login.
  unfoldable pub accept :
      Answers Client → Request → Result Login → Auth Client → Auth Client × Outcome
  accept o request (err reason) a = (
    a,
    answered (
        login_error 403 (
          text
            "Login denied. Check your group membership and the provider configuration, then try again.")),
  )
  accept o request (ok login) a =
      if ltb (length a.sessions) 128
      then (
        record a {
          sessions =
              insert o.fresh
                (record {
                  expires = o.now + seconds login.lifetime;
                  username = login.username;
                  provider_logout = login.provider_logout;
                })
                (remove_old (session_cookie a request) a.sessions);
        },
        answered (
            redirect_to (text "/") (
              (text "Set-Cookie", cookie a (text "session") o.fresh login.lifetime)
              ∷ (text "Set-Cookie", cookie a (text "flow") [] 0)
              ∷ [])),
      )
      else (a, answered (login_error 503 (text "Session limit reached. Try again later.")))

  -- `flow.ok_or(…).and_then(|flow| self.finish_login(request.url(), flow))`.
  abbrev pub finish_flow : Answers Client → Text → Option (Flow Client) → Result Login
  finish_flow o url none = err (text "Login expired or not initiated in this browser")
  finish_flow o url (some flow) = o.finish url flow

  -- `Auth::callback`: the flow is taken out whatever comes of it.
  unfoldable pub callback : Answers Client → Request → Auth Client → Auth Client × Outcome
  callback o request a =
      accept o request (finish_flow o request.url (take_out (flow_cookie a request) a.flows))
        (record a { flows = remove_old (flow_cookie a request) a.flows })

  -- The page of `end_session`, a form that the browser submits to the provider.
  unfoldable pub end_page : Auth Client → ProviderLogout → Text
  end_page a provider =
      text
        "<!doctype html><html lang=\"en\"><meta charset=\"utf-8\"><meta name=\"viewport\" content=\"width=device-width,initial-scale=1\"><title>Signing out "
      ++ 0xe2
        ∷ 0x80
        ∷ 0x94
        ∷ text
            " Syslog DTLS Agent</title><h1>Signing out</h1><form id=\"provider-logout\" method=\"post\" action=\""
      ++ html_attribute provider.endpoint
      ++ text "\"><input type=\"hidden\" name=\"id_token_hint\" value=\""
      ++ html_attribute provider.id_token
      ++ text "\"><input type=\"hidden\" name=\"client_id\" value=\""
      ++ html_attribute a.config.client_id
      ++ text "\"><input type=\"hidden\" name=\"post_logout_redirect_uri\" value=\""
      ++ html_attribute (a.origin ++ text "/auth/signed-out")
      ++ text
          "\"><button type=\"submit\">Continue signing out at your identity provider</button></form><script src=\"/auth/logout.js\"></script></html>"

  abbrev pub end_response : Auth Client → ProviderLogout → Url → Response
  end_response a provider url = record {
    code = 200;
    kind = text "text/html; charset=utf-8";
    body = end_page a provider;
    headers =
        (text "Set-Cookie", cookie a (text "logout") [] 0)
        ∷ (
          text "Content-Security-Policy",
          text "form-action 'self' " ++ url.origin ++ text "; frame-ancestors 'none'",
        )
        ∷ [];
  }

  abbrev pub submit_logout : (Text → Option Url) → Option PendingLogout → Auth Client → Outcome
  submit_logout parse_url none a = answered (
      login_error 200 (
        text
          "You are signed out of this agent. The provider logout request has expired or was already used."))
  submit_logout parse_url (some logout) a = elim (http_url parse_url logout.provider.endpoint) [
    | err e ↦ panicked
    | ok url ↦ answered (end_response a logout.provider url)
  ]

  -- `Auth::end_session`.
  unfoldable pub end_session : (Text → Option Url) → Request → Auth Client → Auth Client × Outcome
  end_session parse_url request a = (
    record a { logouts = remove_old (logout_cookie a request) a.logouts },
    submit_logout parse_url (take_out (logout_cookie a request) a.logouts) a,
  )

  -- `POST /auth/logout` of an authenticated session: the session ends, and if the provider has a logout
  -- and there is room, a pending logout is left for the next request.
  unfoldable pub sign_out :
      (Text → Text → Text)
      → Answers Client
      → Request
      → Text
      → Option ProviderLogout
      → Auth Client
      → Auth Client × Outcome
  sign_out json o request key none a = (
    record a { sessions = remove key a.sessions },
    answered (
        signed_out json (text "/auth/signed-out")
          ((text "Set-Cookie", cookie a (text "session") [] 0) ∷ [])),
  )
  sign_out json o request key (some provider) a =
      if ltb (length a.logouts) 128
      then (
        record a {
          sessions = remove key a.sessions;
          logouts =
              insert o.fresh (record { expires = o.now + seconds 60; provider = provider })
                (remove_old (logout_cookie a request) a.logouts);
        },
        answered (
            signed_out json (text "/auth/end-session") (
              (text "Set-Cookie", cookie a (text "session") [] 0)
              ∷ (text "Set-Cookie", cookie a (text "logout") o.fresh 60)
              ∷ [])),
      )
      else (
        record a { sessions = remove key a.sessions },
        answered (
            signed_out json (text "/auth/signed-out")
              ((text "Set-Cookie", cookie a (text "session") [] 0) ∷ [])),
      )
