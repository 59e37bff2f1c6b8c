-- ===== src/Auth/Begin.antt =====
-- `begin_login` and `provider_request` of crates/cli/src/auth.rs. The HTTP client, the OIDC library and
-- the random generator are a `Discovery`; `Client` and `Keys` are types of the library.
use syslog_dtls_agent.Prelude.{
  ℕ, ◌+◌, Bool, not, Option, none, some, List, [], ◌∷◌, ◌++◌, if◌then◌else◌, ltb, ◌==◌, length,
  take, is_empty, bytes_eq, is_ok, Bytes, Text, text, codes, Result, ok, err, ◌>>=◌, ◌>>◌,
  refuse_if, ok_or,
}
use syslog_dtls_agent.Oidc.Settings.{Oidc, Url, http_url, present}
use syslog_dtls_agent.Auth.Json.{Json, object, text_of, field_of}
use syslog_dtls_agent.Auth.State.{Flow, Auth}
use syslog_dtls_agent.Auth.Handlers.{seconds}
use syslog_dtls_agent.Auth.Order.{order_authorization_parameters}

-- The answer to one HTTP request: its status, and its body unless reading fails.
pub record HttpResponse : Type 0 where
  pub status : ℕ
  pub body : Option Bytes

-- `CoreProviderMetadata`, through its accessors.
pub record Metadata : Type 0 where
  pub issuer : Text
  pub authorization_endpoint : Text
  pub token_endpoint : Option Text
  pub jwks_uri : Text

pub record Discovery (Client Keys : Type 0) : Type 0 where
  -- the address of the request that is built for a URL, if it can be
  pub request_uri : Text → Option Text
  -- a request for an address, if it can be made and is answered
  pub execute : Text → Option HttpResponse
  pub parse_json : Bytes → Option Json
  pub parse_metadata : Bytes → Option Metadata
  -- `CoreJsonWebKeySet::fetch`, on the answer to its request
  pub parse_keys : ℕ × Bytes → Option Keys
  -- `RedirectUrl::new`, and the client of a provider with its identifier, secret and redirection
  pub valid_redirect : Text → Bool
  pub make_client : Metadata → Keys → Text → Option Text → Text → Client
  -- the authorization URL of a client, a state, a nonce, a challenge and the scopes to add: what
  -- stands before the query, and its pairs; and the two put together
  pub authorize : Client → Text → Text → Text → List Text → Text × List (Text × Text)
  pub show_url : Text → List (Text × Text) → Text
  -- fresh values: the flow's key, its state, nonce, verifier and challenge
  pub key : Text
  pub state : Text
  pub nonce : Text
  pub pkce : Text
  pub challenge : Text
  pub now : ℕ

-- `config.client_secret`, unless it is empty.
abbrev secret_of : Oidc → Option Text
secret_of config = if is_empty config.client_secret then none else some config.client_secret

-- The scopes but `openid`, which the library adds.
unfoldable pub added_scopes : List Text → List Text
added_scopes [] = []
added_scopes (scope ∷ scopes) =
    let rest = added_scopes scopes in if bytes_eq scope (codes "openid") then rest else scope ∷ rest

-- `map_err(|_| e)`.
abbrev pub or_text : {A : Type 0} → Text → Result A → Result A
or_text e (ok a) = ok a
or_text e (err message) = err e

module _ (parse_url : Text → Option Url) where
  -- `.filter(|url| http_url(url).is_ok())`.
  abbrev pub if_url : Text → Option Text
  if_url s = if is_ok (http_url parse_url s) then some s else none

  abbrev pub url_text : Option Json → Option Text
  url_text (some (text_of s)) = if_url s
  url_text value = none

  -- The endpoint for logouts, if the document names a usable one.
  unfoldable pub logout_endpoint : Json → Option Text
  logout_endpoint (object fields) = url_text (field_of (codes "end_session_endpoint") fields)
  logout_endpoint value = none

module _ {Client Keys : Type 0} (d : Discovery Client Keys) (parse_url : Text → Option Url) where
  -- At most 1 MiB of a body is accepted, of which one more byte is read.
  unfoldable pub provider_request : Text → Result (ℕ × Bytes)
  provider_request uri = do
    _ ← or_text (text "OIDC provider request failed") (http_url parse_url uri)
    response ← ok_or (d.execute uri) (text "OIDC provider request failed")
    whole ← ok_or response.body (text "OIDC provider request failed")
    let body = take 1_048_577 whole
    refuse_if (ltb 1_048_576 (length body)) (text "OIDC provider request failed")
    ok (response.status, body)

  -- The discovery, up to the metadata.
  unfoldable pub discover : Oidc → Result (Option Text × Metadata)
  discover config = do
    uri ← ok_or (d.request_uri config.discovery_uri) (text "discovery request")
    response ← or_text (text "discovery") (provider_request uri)
    refuse_if (not (response.0 == 200)) (text "discovery failed")
    document ← ok_or (d.parse_json response.1) (text "discovery metadata")
    metadata ← ok_or (d.parse_metadata response.1) (text "discovery metadata")
    issuer ← http_url parse_url metadata.issuer
    refuse_if (present issuer.query) (text "Invalid issuer")
    ok (logout_endpoint parse_url document, metadata)

  -- The client of a provider, with its keys.
  unfoldable pub connect_client : Oidc → Text → Metadata → Result Client
  connect_client config origin metadata = do
    answer ←
        or_text (text "JWKS response invalid or unavailable") (provider_request metadata.jwks_uri)
    keys ← ok_or (d.parse_keys answer) (text "JWKS response invalid or unavailable")
    _ ← http_url parse_url metadata.authorization_endpoint
    token_url ← ok_or metadata.token_endpoint (text "Missing token endpoint")
    _ ← http_url parse_url token_url
    refuse_if (not (d.valid_redirect (origin ++ codes "/auth/callback"))) (text "redirect")
    ok (
        d.make_client metadata keys config.client_id (secret_of config)
          (origin ++ codes "/auth/callback"))

  unfoldable pub begin_login : Auth Client → Result (Text × Text × Flow Client)
  begin_login a = do
    found ← discover a.config
    client ← connect_client a.config a.origin found.1
    let url = d.authorize client d.state d.nonce d.challenge (added_scopes a.config.scopes)
    ok (
      d.show_url url.0 (order_authorization_parameters url.1),
      d.key,
      record {
        logout_endpoint = found.0;
        issuer = found.1.issuer;
        client = client;
        state = d.state;
        nonce = d.nonce;
        pkce = d.pkce;
        expires = d.now + seconds 300;
      },
    )
