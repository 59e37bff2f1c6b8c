-- ===== src/Auth/State.antt =====
-- The records of crates/cli/src/auth.rs, and the requests and responses that it handles. `Client` is the
-- type of the OIDC library's client. Instants are nanoseconds.
use syslog_dtls_agent.Prelude.{
  ℕ, Bool, true, false, ◌&&◌, Option, none, some, List, [], ◌∷◌, ◌++◌, ltb, if◌then◌else◌, length,
  Text, text, bytes_eq,
}
use syslog_dtls_agent.Framing.Frame.{decimal}
use syslog_dtls_agent.Oidc.Settings.{Oidc}
use syslog_dtls_agent.Config.Names.{split}
use syslog_dtls_agent.Auth.Strings.{trim, split_once, eq_ignore_ascii_case}
use syslog_dtls_agent.Auth.Store.{retain}

pub record Flow (Client : Type 0) : Type 0 where
  pub logout_endpoint : Option Text
  pub issuer : Text
  pub client : Client
  pub state : Text
  pub nonce : Text
  pub pkce : Text
  pub expires : ℕ

pub record ProviderLogout : Type 0 where
  pub endpoint : Text
  pub id_token : Text

pub record Session : Type 0 where
  pub expires : ℕ
  pub username : Text
  pub provider_logout : Option ProviderLogout

pub record PendingLogout : Type 0 where
  pub expires : ℕ
  pub provider : ProviderLogout

pub record Login : Type 0 where
  pub lifetime : ℕ
  pub username : Text
  pub provider_logout : Option ProviderLogout

-- The HTTP client and the wrapped secret are the libraries' and stay out.
pub record Auth (Client : Type 0) : Type 0 where
  pub config : Oidc
  pub origin : Text
  pub authority : Text
  pub secure : Bool
  pub flows : List (Text × Flow Client)
  pub sessions : List (Text × Session)
  pub logouts : List (Text × PendingLogout)

pub data Method : Type 0 where
  get post another : Method

pub record Request : Type 0 where
  pub method : Method
  pub url : Text
  pub headers : List (Text × Text)

pub record Response : Type 0 where
  pub code : ℕ
  pub kind : Text
  pub body : Text
  pub headers : List (Text × Text)

abbrev pub is_get : Method → Bool
is_get get = true
is_get post = false
is_get another = false

abbrev pub is_post : Method → Bool
is_post post = true
is_post get = false
is_post another = false

-- `header` of crates/cli/src/web.rs.
unfoldable pub header : List (Text × Text) → Text → Option Text
header [] name = none
header ((field, value) ∷ headers) name =
    let rest = header headers name in if eq_ignore_ascii_case field name then some value else rest

-- The values that one `Cookie` header gives a name.
unfoldable pub named_values : Text → List Text → List Text
named_values name [] = []
named_values name (part ∷ parts) =
    let rest = named_values name parts in
    elim (split_once b'=' (trim part)) [
      | none ↦ rest
      | some (key, value) ↦ if bytes_eq key name then value ∷ rest else rest
    ]

unfoldable pub cookie_values : Text → List (Text × Text) → List Text
cookie_values name [] = []
cookie_values name ((field, value) ∷ headers) =
    let rest = cookie_values name headers in
    if eq_ignore_ascii_case field (text "cookie")
    then named_values name (split b';' value) ++ rest
    else rest

abbrev pub only_short : List Text → Option Text
only_short [] = none
only_short (value ∷ []) = if ltb 128 (length value) then none else some value
only_short (value ∷ other ∷ values) = none

-- `cookie_value`: the one value of a cookie, at most 128 bytes long.
unfoldable pub cookie_value : Request → Text → Option Text
cookie_value request name = only_short (cookie_values name request.headers)

-- `request.url().split('?').next().unwrap_or("")`.
abbrev pub first_piece : List Text → Text
first_piece [] = []
first_piece (piece ∷ pieces) = piece

unfoldable pub path_of : Request → Text
path_of request = first_piece (split b'?' request.url)

module _ {Client : Type 0} where
  -- `Auth::valid_request`.
  unfoldable pub valid_request : Auth Client → Request → Bool
  valid_request a request =
      elim (header request.headers (text "Host")) [
        | none ↦ false
        | some host ↦ bytes_eq host a.authority
      ]
      && elim (header request.headers (text "Origin")) [
        | none ↦ true
        | some o ↦ bytes_eq o a.origin
      ]

  unfoldable pub cookie_name : Auth Client → Text → Text
  cookie_name a kind = (if a.secure then text "__Host-" else []) ++ text "syslog_" ++ kind

  unfoldable pub cookie : Auth Client → Text → Text → ℕ → Text
  cookie a kind value age =
      cookie_name a kind
      ++ text "="
      ++ value
      ++ text "; Path=/; HttpOnly; SameSite=Lax; Max-Age="
      ++ decimal age
      ++ (if a.secure then text "; Secure" else [])

  -- `Auth::prune`.
  unfoldable pub prune : ℕ → Auth Client → Auth Client
  prune now a = record a {
    flows = retain (λ f. ltb now f.expires) a.flows;
    sessions = retain (λ s. ltb now s.expires) a.sessions;
    logouts = retain (λ l. ltb now l.expires) a.logouts;
  }
