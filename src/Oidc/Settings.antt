-- ===== src/Oidc/Settings.antt =====
-- The settings of crates/core/src/oidc.rs, their checks and the migration of old configurations. The
-- crate `url` is the parameter `parse_url`: what `Url::parse` returns, read through its accessors.
use syslog_dtls_agent.Prelude.{
  ℕ, Bool, true, false, not, ◌&&◌, ◌||◌, Option, none, some, List, [], ◌∷◌, ◌++◌, ltb, ◌==◌,
  if◌then◌else◌, within, length, is_empty, all, any, Text, text, bytes_eq, Result, ok, err, ◌>>=◌,
  ◌>>◌, refuse_if, ok_or,
}

pub record Oidc : Type 0 where
  pub enabled : Bool
  pub discovery_uri : Text
  pub client_id : Text
  pub client_secret : Text
  pub public_url : Text
  pub groups_claim : Text
  pub required_group : Text
  pub scopes : List Text

unfoldable pub default_oidc : Oidc
default_oidc = record {
  enabled = false;
  discovery_uri = [];
  client_id = [];
  client_secret = [];
  public_url = [];
  groups_claim = text "groups";
  required_group = [];
  scopes = [];
}

-- A parsed `url::Url`, through the accessors that the code calls.
pub record Url : Type 0 where
  pub scheme : Text
  pub username : Text
  pub password : Option Text
  pub host : Option Text
  pub path : Text
  pub query : Option Text
  pub fragment : Option Text
  -- `origin().ascii_serialization()`
  pub origin : Text

abbrev pub present {ℓ} : {A : Type ℓ} → Option A → Bool
present none = false
present (some a) = true

-- The characters of `char::is_whitespace`, by the number of bytes that they take in UTF-8.
abbrev pub is_space : ℕ → Bool
is_space b = within 9 13 b || b == b' '

abbrev pub is_space_pair : ℕ → ℕ → Bool
is_space_pair b c = b == 0xc2 && (c == 0x85 || c == 0xa0)

abbrev pub is_space_triple : ℕ → ℕ → ℕ → Bool
is_space_triple b c d =
    (b == 0xe1 && c == 0x9a && d == 0x80)
    || (b == 0xe2 && c == 0x80 && (within 0x80 0x8a d || d == 0xa8 || d == 0xa9 || d == 0xaf))
    || (b == 0xe2 && c == 0x81 && d == 0x9f)
    || (b == 0xe3 && c == 0x80 && d == 0x80)

-- `s.trim().is_empty()`: nothing but whitespace.
unfoldable pub is_blank : Text → Bool
is_blank [] = true
is_blank (b ∷ []) = is_space b
is_blank (b ∷ c ∷ []) = let one = is_blank (c ∷ []) in if is_space b then one else is_space_pair b c
is_blank (b ∷ c ∷ d ∷ s) =
    let one = is_blank (c ∷ d ∷ s) in
    let two = is_blank (d ∷ s) in
    let three = is_blank s in
    if is_space b then one else if is_space_pair b c then two else is_space_triple b c d && three

-- A byte of an OAuth scope name.
abbrev pub is_scope_byte : ℕ → Bool
is_scope_byte c = c == 0x21 || within 0x23 0x5b c || within 0x5d 0x7e c

-- `s.trim_end_matches(c)` for one byte.
unfoldable pub trim_end_matches : ℕ → Text → Text
trim_end_matches c [] = []
trim_end_matches c (b ∷ s) =
    let rest = trim_end_matches c s in if is_empty rest && b == c then [] else b ∷ rest

-- `OidcInput`: the fields that a configuration file may hold, two of them from old versions.
pub record OidcInput : Type 0 where
  pub issuer_url : Option Text
  pub client_secret_env : Option Text
  pub settings : Oidc

abbrev pub nonempty : Option Text → Bool
nonempty none = false
nonempty (some s) = not (is_empty s)

abbrev pub from_issuer : Option Text → Text
from_issuer none = []
from_issuer (some issuer) =
    if is_empty issuer
    then issuer
    else trim_end_matches b'/' issuer ++ text "/.well-known/openid-configuration"

-- `impl TryFrom<OidcInput> for Oidc`.
unfoldable pub try_from : OidcInput → Result Oidc
try_from value =
    let s = value.settings in
    if s.enabled && is_empty s.client_secret && nonempty value.client_secret_env
    then err (text "Replace client_secret_env with client_secret in the OIDC configuration")
    else ok (record s {
      discovery_uri =
          if is_empty s.discovery_uri then from_issuer value.issuer_url else s.discovery_uri;
    })

module _ (parse_url : Text → Option Url) where
  unfoldable pub http_url : Text → Result Url
  http_url value = do
    url ← ok_or (parse_url value) (text "Invalid OIDC URL")
    refuse_if
        (not (is_empty url.username)
          || present url.password
          || present url.fragment
          || not (present url.host)
          || not (bytes_eq url.scheme (text "https") || bytes_eq url.scheme (text "http")))
        (text "OIDC URLs require HTTP or HTTPS, without credentials or fragment")
    ok url

  -- `Oidc::validate`.
  unfoldable pub validate : Oidc → Result (Unit {0})
  validate o = if not o.enabled then ok tt else do
    _ ← http_url o.discovery_uri
    public ← http_url o.public_url
    refuse_if (not (bytes_eq public.path (text "/")) || present public.query)
        (text "OIDC public URL must be an origin without a path or query")
    refuse_if (is_blank o.client_id || is_blank o.groups_claim || is_blank o.required_group)
        (text "OIDC requires a client ID, group claim and required group")
    refuse_if
        (ltb 32 (length o.scopes) || any (λ s. is_empty s || not (all is_scope_byte s)) o.scopes)
        (text "OIDC scopes must be nonempty OAuth scope names (at most 32)")
