-- ===== src/Auth/Tests/Login.antt =====
-- A login of crates/cli/src/auth.rs that begins.
use syslog_dtls_agent.Prelude.{
  ◌≡◌, ◌≢◌, refl, true, false, Option, none, some, inl, [], ◌∷◌, bytes_eq, Text, text, codes, ok,
  err, if◌then◌else◌,
}
use syslog_dtls_agent.Oidc.Settings.{Url, default_oidc, http_url}
use syslog_dtls_agent.Auth.Json.{text_of, object, field, no_field, field_of}
use syslog_dtls_agent.Auth.State.{Flow, Auth, get, Request, prune}
use syslog_dtls_agent.Auth.Handlers.{Answers, panicked}
use syslog_dtls_agent.Auth.Gate.{gate}
use syslog_dtls_agent.Auth.Finish.{Provider, another_error}
use syslog_dtls_agent.Auth.Begin.{
  Discovery, added_scopes, provider_request, logout_endpoint, discover, connect_client, begin_login,
}
use syslog_dtls_agent.Auth.Order.{rank_in, place_in, order_authorization_parameters}
use syslog_dtls_agent.Auth.Endpoints.{HasEndpoints}
use syslog_dtls_agent.Auth.Unwraps.{own_answers, gate-IsSafe}

-- Everything but `x` is a URL.
abbrev usable_url : Text → Option Url
usable_url s =
    if bytes_eq s (codes "x")
    then none
    else some (record {
      scheme = codes "https";
      username = [];
      password = none;
      host = some (codes "id");
      path = codes "/";
      query = none;
      fragment = none;
      origin = codes "https://id";
    })

-- The document names a logout endpoint, the keys are found, and there is one scope to add.
abbrev discovered : Text → Discovery (Unit {0}) (Unit {0})
discovered endpoint = record {
  request_uri = λ uri. some uri;
  execute = λ uri. some (record { status = 200; body = some (codes "body") });
  parse_json =
      λ body. some (object (field (codes "end_session_endpoint") (text_of endpoint) no_field));
  parse_metadata = λ body. some (record {
    issuer = codes "i";
    authorization_endpoint = codes "a";
    token_endpoint = some (codes "t");
    jwks_uri = codes "k";
  });
  parse_keys = λ answer. some tt;
  valid_redirect = λ s. true;
  make_client = λ metadata keys id secret redirect. tt;
  authorize =
      λ client state nonce challenge scopes. (codes "a", (codes "scope", codes "openid") ∷ []);
  show_url = λ before pairs. before;
  key = codes "f";
  state = codes "s";
  nonce = codes "n";
  pkce = codes "v";
  challenge = codes "c";
  now = 5;
}

abbrev state : Auth (Unit {0})
state = record {
  config = default_oidc;
  origin = codes "http://o";
  authority = codes "o";
  secure = false;
  flows = [];
  sessions =
      (
        codes "k",
        record {
          expires = 90;
          username = codes "ann";
          provider_logout = some (record { endpoint = codes "e"; id_token = codes "t" });
        },
      )
      ∷ [];
  logouts = [];
}

abbrev flow : Option Text → Flow (Unit {0})
flow endpoint = record {
  logout_endpoint = endpoint;
  issuer = codes "i";
  client = tt;
  state = codes "s";
  nonce = codes "n";
  pkce = codes "v";
  expires = 300_000_000_005;
}

-- A usable endpoint is kept.
kept :
    begin_login (discovered (codes "e")) usable_url state
    ≡ ok (codes "a", codes "f", flow (some (codes "e")))
unfolding begin_login discover connect_client logout_endpoint field_of provider_request http_url
    order_authorization_parameters added_scopes place_in rank_in default_oidc text
kept = refl

-- Another is forgotten.
forgotten :
    begin_login (discovered (codes "x")) usable_url state ≡ ok (codes "a", codes "f", flow none)
unfolding begin_login discover connect_client logout_endpoint field_of provider_request http_url
    order_authorization_parameters added_scopes place_in rank_in default_oidc text
forgotten = refl

abbrev provider : Provider (Unit {0}) (Unit {0}) Text
provider = record {
  now = 5;
  wall = none;
  parse_query = λ query. [];
  can_exchange = λ client. true;
  exchange = λ client code verifier. none;
  id_token = λ tokens. none;
  parse_token = λ raw. none;
  claims = λ client token nonce. inl another_error;
  token_hash = λ client tokens token. err [];
  show_token = λ token. token;
}

abbrev request : Request
request = record { method = get; url = codes "/auth/login"; headers = [] }

abbrev observed : Answers (Unit {0})
observed = record { now = 5; fresh = codes "n"; begun = err []; finish = λ url f. err [] }

usable : HasEndpoints usable_url state
unfolding http_url text
usable = record { of_flows = tt; of_sessions = (refl, tt); of_logouts = tt }

abbrev answers : Answers (Unit {0})
answers =
    own_answers (discovered (codes "e")) provider usable_url (λ name value. []) observed request
      (prune 5 state)

gate-IsSafe_example :
    HasEndpoints usable_url (gate usable_url (λ name value. []) answers request state).0
    × ((gate usable_url (λ name value. []) answers request state).1 ≢ panicked)
gate-IsSafe_example =
    gate-IsSafe (discovered (codes "e")) provider usable_url (λ name value. []) observed request
      state usable
