-- ===== src/Auth/Tests/Callback.antt =====
-- A login of crates/cli/src/auth.rs that succeeds, and what its diagnostics show.
use syslog_dtls_agent.Prelude.{
  pos, ◌≡◌, ◌⊎◌, inl, inr, refl, true, false, Option, none, some, List, [], ◌∷◌, Text, text, codes,
  err,
}
use syslog_dtls_agent.Oidc.Settings.{Oidc, Url, default_oidc, is_blank}
use syslog_dtls_agent.Config.Names.{split}
use syslog_dtls_agent.Auth.Strings.{trim, trim_start, trim_end, split_once}
use syslog_dtls_agent.Auth.Store.{find, retain, insert, remove}
use syslog_dtls_agent.Auth.Groups.{has_group, string_has_group}
use syslog_dtls_agent.Auth.Json.{
  Json, text_of, object, items, item, no_item, field, no_field, field_of, diagnostic_claims,
}
use syslog_dtls_agent.Auth.Redaction.{IsRedacted, diagnostic_claims-IsRedacted}
use syslog_dtls_agent.Auth.State.{
  Flow, Session, Auth, get, Request, cookie_value, cookie_values, named_values, cookie_name,
  path_of, prune,
}
use syslog_dtls_agent.Auth.Handlers.{Answers, callback, accept}
use syslog_dtls_agent.Auth.Gate.{gate, gate_pruned}
use syslog_dtls_agent.Auth.Finish.{
  Claims, Provider, collect, check_params, check_claims, group_claim, lifetime_of, username_of,
  redeem, parameters, finish_login,
}
use syslog_dtls_agent.Auth.Earned.{IsIn, IsFresh, with_login, gate-IsFresh}
use syslog_dtls_agent.Auth.Order.{
  rank_in, place_in, order_authorization_parameters, by_names, order_authorization_parameters-eq,
}

abbrev no_url : Text → Option Url
no_url s = none

abbrev no_json : Text → Text → Text
no_json name value = []

abbrev config : Oidc
config = record default_oidc { client_id = codes "agent"; required_group = codes "ops" }

abbrev flow : Flow (Unit {0})
flow = record {
  logout_endpoint = none;
  issuer = codes "https://id";
  client = tt;
  state = codes "s";
  nonce = codes "nonce";
  pkce = codes "pkce";
  expires = 100;
}

abbrev claims : Claims
claims = record {
  access_token_hash = none;
  additional = field (codes "groups") (text_of (codes "dev, ops")) no_field;
  authorized_party = some (codes "agent");
  issue_time = pos 1000;
  expiration = pos 1600;
  preferred_username = some (codes "ann");
  email = none;
  subject = codes "1";
}

abbrev provider : Provider (Unit {0}) (Unit {0}) Text
provider = record {
  now = 50;
  wall = some 1000;
  parse_query = λ query.
      (codes "state", codes "s")
      ∷ (codes "code", codes "c")
      ∷ (codes "iss", codes "https://id")
      ∷ [];
  can_exchange = λ client. true;
  exchange = λ client code verifier. some tt;
  id_token = λ tokens. some (codes "token");
  parse_token = λ raw. some raw;
  claims = λ client token nonce. inr claims;
  token_hash = λ client tokens token. err [];
  show_token = λ token. token;
}

abbrev state : Auth (Unit {0})
state = record {
  config = config;
  origin = codes "http://127.0.0.1:1080";
  authority = codes "127.0.0.1:1080";
  secure = false;
  flows = (codes "f", flow) ∷ [];
  sessions = [];
  logouts = [];
}

abbrev observed : Answers (Unit {0})
observed = record { now = 50; fresh = codes "n"; begun = err []; finish = λ url f. err [] }

abbrev returning : Request
returning = record {
  method = get;
  url = codes "/auth/callback?x";
  headers = (codes "Cookie", codes "syslog_flow=f") ∷ [];
}

abbrev entry : Text × Session
entry = (
  codes "n",
  record { expires = 600_000_000_050; username = codes "ann"; provider_logout = none },
)

admitted :
    IsIn entry
      (gate no_url no_json
        (with_login provider no_url no_json observed returning config)
        returning
        state).0.sessions
unfolding gate gate_pruned callback accept prune retain find insert remove cookie_value
    cookie_values named_values cookie_name path_of split split_once trim trim_start trim_end
    is_blank text default_oidc collect check_params check_claims group_claim lifetime_of username_of
    redeem parameters finish_login has_group string_has_group field_of
admitted = inl refl

gate-IsFresh_example :
    IsIn entry state.sessions
    ⊎ IsFresh provider no_url no_json observed returning (prune 50 state) entry
gate-IsFresh_example = gate-IsFresh provider no_url no_json observed returning state entry admitted

-- Nested fields, of which two are hidden.
abbrev shown : Json
shown = object (
    field (codes "email") (text_of (codes "a@b")) (
      field (codes "Nonce") (text_of (codes "n")) (
        field (codes "list")
          (items
            (item (object (field (codes "access_token") (text_of (codes "t")) no_field)) no_item))
          no_field)))

diagnostic_claims-IsRedacted_example :
    IsRedacted (diagnostic_claims (some shown))
    × (IsRedacted shown → diagnostic_claims (some shown) ≡ shown)
diagnostic_claims-IsRedacted_example = diagnostic_claims-IsRedacted shown

abbrev pairs : List (Text × Text)
pairs =
    (codes "scope", codes "openid")
    ∷ (codes "x", codes "1")
    ∷ (codes "response_type", codes "code")
    ∷ (codes "x", codes "2")
    ∷ []

order_authorization_parameters-eq_example :
    order_authorization_parameters pairs
    ≡ by_names
        (codes "response_type"
          ∷ codes "client_id"
          ∷ codes "redirect_uri"
          ∷ codes "state"
          ∷ codes "code_challenge"
          ∷ codes "code_challenge_method"
          ∷ codes "nonce"
          ∷ codes "scope"
          ∷ [])
        pairs
order_authorization_parameters-eq_example = order_authorization_parameters-eq pairs

reordered :
    order_authorization_parameters pairs
    ≡ (codes "response_type", codes "code")
      ∷ (codes "scope", codes "openid")
      ∷ (codes "x", codes "1")
      ∷ (codes "x", codes "2")
      ∷ []
unfolding order_authorization_parameters place_in rank_in
reordered = refl
