-- ===== src/Oidc/Tests.antt =====
-- The settings of crates/core/src/oidc.rs on concrete values.
use syslog_dtls_agent.Prelude.{
  ◌≡◌, ◌↔◌, ◌⊎◌, ◌++◌, refl, true, false, Option, none, some, [], ◌∷◌, Text, text, codes, ok,
}
use syslog_dtls_agent.Oidc.Settings.{
  Oidc, Url, default_oidc, try_from, trim_end_matches, http_url, is_blank, validate,
}
use syslog_dtls_agent.Oidc.Valid.{IsUsable, validate-eq-ok}

abbrev web_url : Text → Option Url
web_url s = some (record {
  scheme = text "https";
  username = [];
  password = none;
  host = some s;
  path = text "/";
  query = none;
  fragment = none;
  origin = s;
})

abbrev login_settings : Oidc
login_settings = record {
  enabled = true;
  discovery_uri = codes "https://id.example/.well-known/openid-configuration";
  client_id = codes "agent";
  client_secret = [];
  public_url = codes "https://agent.example";
  groups_claim = codes "groups";
  required_group = codes "ops";
  scopes = codes "profile" ∷ [];
}

login_settings_accepted : validate web_url login_settings ≡ ok tt
unfolding validate http_url is_blank text
login_settings_accepted = refl

validate-eq-ok_example :
    (validate web_url login_settings ≡ ok tt)
    ↔ ((login_settings.enabled ≡ false) ⊎ IsUsable web_url login_settings)
validate-eq-ok_example = validate-eq-ok web_url login_settings

blanks :
    (is_blank (codes " \t" ++ 0xe3 ∷ 0x80 ∷ 0x80 ∷ []) ≡ true) × (is_blank (codes " a") ≡ false)
unfolding is_blank
blanks = (refl, refl)

abbrev issuer : Text
issuer = codes "https://id.example"

-- The two slashes at the end of the issuer are dropped.
from_old :
    try_from (record {
      issuer_url = some (codes "https://id.example//");
      client_secret_env = none;
      settings = default_oidc;
    })
    ≡ ok
        (record default_oidc { discovery_uri = issuer ++ text "/.well-known/openid-configuration" })
unfolding try_from trim_end_matches default_oidc text
from_old = refl
