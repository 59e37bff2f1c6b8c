-- ===== src/Auth/Tests.antt =====
-- The login of crates/cli/src/auth.rs on concrete requests.
mod Callback
mod Login
use syslog_dtls_agent.Prelude.{
  ◌<◌, ◌≡◌, ◌↔◌, refl, true, false, Option, none, some, [], ◌∷◌, All, Text, text, codes, err, arith,
}
use syslog_dtls_agent.Oidc.Settings.{Url, default_oidc, is_blank}
use syslog_dtls_agent.Config.Names.{split}
use syslog_dtls_agent.Auth.Strings.{trim, trim_start, trim_end, split_once}
use syslog_dtls_agent.Auth.Store.{find, retain}
use syslog_dtls_agent.Auth.Escape.{html_attribute, escaped, IsInert, html_attribute-eq}
use syslog_dtls_agent.Auth.Groups.{
  string, has_group, string_has_group, group_check, is_match, matched_string,
}
use syslog_dtls_agent.Auth.Membership.{IsMember, has_group-eq-true, is_match-group_check}
use syslog_dtls_agent.Auth.State.{
  Flow, Session, Auth, get, post, Request, header, cookie_value, cookie_values, named_values,
  cookie_name, path_of, prune,
}
use syslog_dtls_agent.Auth.Handlers.{Answers, passed, flow_cookie, session_cookie, callback}
use syslog_dtls_agent.Auth.Gate.{
  is_logout, is_from_ui, gate, gate_pruned, gate_session, gate_known, known_outcome,
}
use syslog_dtls_agent.Auth.Guard.{IsBounded}
use syslog_dtls_agent.Auth.Access.{gate-IsBounded, gate-passed}
use syslog_dtls_agent.Auth.Once.{find-callback, find-gate_logout}

html_attribute-eq_example :
    (html_attribute (codes "a&<b>'\"") ≡ escaped (codes "a&<b>'\""))
    × All IsInert (html_attribute (codes "a&<b>'\""))
html_attribute-eq_example = html_attribute-eq (codes "a&<b>'\"")

has_group-eq-true_example :
    (has_group (some (string (codes "dev, ops"))) (codes "ops") ≡ true)
    ↔ IsMember (some (string (codes "dev, ops"))) (codes "ops")
has_group-eq-true_example = has_group-eq-true (some (string (codes "dev, ops"))) (codes "ops")

is_match-group_check_example :
    is_match (group_check (some (string (codes "dev, ops"))) (codes "ops"))
    ≡ has_group (some (string (codes "dev, ops"))) (codes "ops")
is_match-group_check_example =
    is_match-group_check (some (string (codes "dev, ops"))) (codes "ops") refl refl

-- A required group with a comma: the diagnosis reports a match where the login is denied.
comma_disagrees :
    (group_check (some (string (codes "a,b"))) (codes "a,b") ≡ matched_string)
    × (has_group (some (string (codes "a,b"))) (codes "a,b") ≡ false)
unfolding group_check has_group string_has_group split trim trim_start trim_end is_blank
comma_disagrees = (refl, refl)

abbrev no_url : Text → Option Url
no_url s = none

abbrev no_json : Text → Text → Text
no_json field value = []

abbrev session : Session
session = record { expires = 100; username = codes "ann"; provider_logout = none }

abbrev flow : Flow (Unit {0})
flow = record {
  logout_endpoint = none;
  issuer = [];
  client = tt;
  state = [];
  nonce = [];
  pkce = [];
  expires = 100;
}

abbrev state : Auth (Unit {0})
state = record {
  config = default_oidc;
  origin = codes "http://127.0.0.1:1080";
  authority = codes "127.0.0.1:1080";
  secure = false;
  flows = (codes "f", flow) ∷ [];
  sessions = (codes "k", session) ∷ [];
  logouts = [];
}

abbrev observed : Answers (Unit {0})
observed = record { now = 50; fresh = codes "n"; begun = err []; finish = λ url f. err [] }

abbrev page : Request
page = record {
  method = get;
  url = codes "/?x";
  headers = (codes "Cookie", codes "a=b; syslog_session=k; syslog_flow=f") ∷ [];
}

abbrev logout : Request
logout = record {
  method = post;
  url = codes "/auth/logout";
  headers = (codes "Cookie", codes "syslog_session=k") ∷ (codes "X-Syslog-UI", codes "1") ∷ [];
}

state-IsBounded : IsBounded state
state-IsBounded = record {
  few_flows = omega arith;
  few_sessions = omega arith;
  few_logouts = omega arith;
}

gate-IsBounded_example : IsBounded (gate no_url no_json observed page state).0
gate-IsBounded_example = gate-IsBounded no_url no_json observed page state state-IsBounded

page_passes : (gate no_url no_json observed page state).1 ≡ passed
unfolding gate gate_pruned gate_session gate_known known_outcome prune retain find cookie_value
    cookie_values named_values cookie_name path_of split split_once trim trim_start trim_end
    is_blank text
page_passes = refl

gate-passed_example :
    (key : Text) × (s : Session) × (session_cookie state page ≡ some key)
    × (find key (prune 50 state).sessions ≡ some s)
    × (50 < s.expires)
    × ((gate no_url no_json observed page state).0 ≡ prune 50 state)
gate-passed_example = gate-passed no_url no_json observed page state page_passes

page_flow : flow_cookie state page ≡ some (codes "f")
unfolding cookie_value cookie_values named_values cookie_name split split_once trim trim_start
    trim_end is_blank text
page_flow = refl

find-callback_example : find (codes "f") (callback observed page state).0.flows ≡ none
find-callback_example = find-callback observed page state (codes "f") page_flow

logout_request :
    (is_logout logout ≡ true)
    × (is_from_ui logout ≡ true)
    × (session_cookie state logout ≡ some (codes "k"))
unfolding header path_of cookie_value cookie_values named_values cookie_name split split_once trim
    trim_start trim_end is_blank text
logout_request = (refl, refl, refl)

find-gate_logout_example :
    find (codes "k") (gate no_url no_json observed logout state).0.sessions ≡ none
find-gate_logout_example =
    find-gate_logout no_url no_json observed logout state (codes "k") logout_request.0
      logout_request.1 logout_request.2
