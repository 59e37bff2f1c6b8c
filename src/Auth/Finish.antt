-- ===== src/Auth/Finish.antt =====
-- `finish_login` of crates/cli/src/auth.rs. What the OIDC library and the clocks answer is a `Provider`;
-- `Client` is the type of the library's client, `Tokens` and `Token` those of what it returns.
use syslog_dtls_agent.Prelude.{
  ℕ, ℤ, pos, negsuc, ◌+◌, ◌-◌, min, Bool, true, false, not, ◌||◌, Option, none, some, List, [], ◌∷◌,
  ◌++◌, if◌then◌else◌, ltb, leb, ◌==◌, is_empty, bytes_eq, Text, text, codes, Result, ok, err,
  ◌>>=◌, ◌>>◌, refuse_if, ok_or, ◌⊎◌, inl, inr,
}
use syslog_dtls_agent.Sources.{is_some}
use syslog_dtls_agent.Oidc.Settings.{Oidc}
use syslog_dtls_agent.Auth.Strings.{split_once}
use syslog_dtls_agent.Auth.Store.{find, insert}
use syslog_dtls_agent.Auth.Groups.{
  Value, has_group, group_check, Verdict, claim_absent, matched_list, matched_string,
  matched_member, list_differs_in_case, list_without_group, string_differs_in_case, string_differs,
  not_all_strings, empty_array, member_differs_in_case, array_without_group, unsupported_type,
}
use syslog_dtls_agent.Auth.Json.{Json, Fields, field_of, group_value, as_i64}
use syslog_dtls_agent.Auth.State.{Flow, ProviderLogout, Login}

-- `ClaimsVerificationError`, as far as the code tells its variants apart.
pub data ClaimsError : Type 0 where
  expired invalid_audience invalid_issuer invalid_nonce bad_signature invalid_subject : ClaimsError
  another_error : ClaimsError

unfoldable pub claims_failure : ClaimsError → Text
claims_failure expired = text "ID token expired"
claims_failure invalid_audience = text "ID token audience mismatch"
claims_failure invalid_issuer = text "ID token issuer mismatch"
claims_failure invalid_nonce = text "ID token nonce mismatch"
claims_failure bad_signature = text "ID token signature/key/algorithm verification failed"
claims_failure invalid_subject = text "ID token subject invalid"
claims_failure another_error = text "ID token claims validation failed"

-- The message of a verdict of `group_check`.
abbrev pub message_of : Verdict → Text
message_of claim_absent = text "configured claim absent from ID token"
message_of matched_list = text "matched comma-separated group"
message_of matched_string = text "matched string"
message_of matched_member = text "matched string-array member"
message_of list_differs_in_case =
    text "comma-separated group differs in letter case (matching is case-sensitive)"
message_of list_without_group = text "required group not found in comma-separated string"
message_of string_differs_in_case =
    text "string differs in letter case (matching is case-sensitive)"
message_of string_differs = text "string does not equal required group"
message_of not_all_strings = text "claim array contains non-string values"
message_of empty_array = text "claim array is empty"
message_of member_differs_in_case =
    text "array member differs in letter case (matching is case-sensitive)"
message_of array_without_group = text "required group not found in string array"
message_of unsupported_type = text "claim has unsupported type (expected string or string array)"

-- The verified claims that the code reads. Times are seconds since the epoch.
pub record Claims : Type 0 where
  pub access_token_hash : Option Text
  pub additional : Fields
  pub authorized_party : Option Text
  pub issue_time : ℤ
  pub expiration : ℤ
  pub preferred_username : Option Text
  pub email : Option Text
  pub subject : Text

pub record Provider (Client Tokens Token : Type 0) : Type 0 where
  -- `Instant::now()`, and the seconds of the wall clock unless it is before the epoch
  pub now : ℕ
  pub wall : Option ℕ
  -- `form_urlencoded::parse`
  pub parse_query : Text → List (Text × Text)
  -- `exchange_code`, and the request of a code with its verifier
  pub can_exchange : Client → Bool
  pub exchange : Client → Text → Text → Option Tokens
  pub id_token : Tokens → Option Text
  pub parse_token : Text → Option Token
  -- the verified claims of a token, for a client and a nonce
  pub claims : Client → Token → Text → ClaimsError ⊎ Claims
  -- `AccessTokenHash::from_token`, or the message of the step that failed
  pub token_hash : Client → Tokens → Token → Result Text
  -- `token.to_string()`
  pub show_token : Token → Text

-- The loop over the parameters: each may come once.
unfoldable pub collect : List (Text × Text) → List (Text × Text) → Result (List (Text × Text))
collect [] params = ok params
collect ((key, value) ∷ pairs) params =
    let more = collect pairs (insert key value params) in
    if is_some (find key params) then err (text "Duplicate callback parameter") else more

abbrev pub after_mark : Option (Text × Text) → Option Text
after_mark none = none
after_mark (some (before, query)) = some query

abbrev pub nonempty_text : Option Text → Option Text
nonempty_text none = none
nonempty_text (some s) = if is_empty s then none else some s

abbrev pub is_text : Option Text → Text → Bool
is_text none s = false
is_text (some t) s = bytes_eq t s

-- A value that is there and differs.
abbrev pub differs : Option Text → Text → Bool
differs none s = false
differs (some t) s = not (bytes_eq t s)

-- `value > limit`.
abbrev pub exceeds : ℤ → ℕ → Bool
exceeds (pos n) limit = ltb limit n
exceeds (negsuc n) limit = false

-- `nbf.as_i64().is_none_or(|value| value > now + 60)`, if the claim is there.
abbrev pub not_yet : Option Json → ℕ → Bool
not_yet none limit = false
not_yet (some value) limit = elim (as_i64 value) [ none ↦ true | some n ↦ exceeds n limit ]

-- `(expiration - now).clamp(0, 3600)`.
unfoldable pub lifetime_of : ℤ → ℕ → ℕ
lifetime_of (pos expiration) now = min (expiration - now) 3600
lifetime_of (negsuc expiration) now = 0

unfoldable pub username_of : Claims → Text
username_of c = elim (nonempty_text c.preferred_username) [
  | some name ↦ name
  | none ↦ elim (nonempty_text c.email) [ some address ↦ address | none ↦ c.subject ]
]

abbrev pub same_hash : Option Text → Result Text → Result (Unit {0})
same_hash none actual = ok tt
same_hash (some expected) actual =
    actual >>= λ hash. refuse_if (not (bytes_eq hash expected)) (text "Invalid access token hash")

abbrev pub verified : ClaimsError ⊎ Claims → Result Claims
verified (inl error) = err (claims_failure error)
verified (inr claims) = ok claims

-- `additional.get(&self.config.groups_claim)`.
unfoldable pub group_claim : Oidc → Claims → Option Value
group_claim config c = elim (field_of config.groups_claim c.additional) [
  | none ↦ none
  | some value ↦ some (group_value value)
]

-- The checks of the callback's parameters, up to the code.
unfoldable pub check_params : {Client : Type 0} → ℕ → Flow Client → List (Text × Text) → Result Text
check_params now flow params = do
  refuse_if (leb flow.expires now || not (is_text (find (codes "state") params) flow.state))
      (text "Invalid state")
  refuse_if (is_some (find (codes "error") params)) (text "Provider rejected authorization")
  refuse_if (differs (find (codes "iss") params) flow.issuer) (text "Invalid callback issuer")
  ok_or (nonempty_text (find (codes "code") params)) (text "Missing code")

-- The checks of the verified claims, from the groups on.
unfoldable pub check_claims : Oidc → Option ℕ → Claims → Result ℕ
check_claims config wall c = do
  refuse_if (not (has_group (group_claim config c) config.required_group)) (
      text "Required group missing: "
      ++ message_of (group_check (group_claim config c) config.required_group))
  now ← ok_or wall (text "clock")
  refuse_if (differs c.authorized_party config.client_id || exceeds c.issue_time (now + 60))
      (text "Invalid token claims")
  refuse_if (not_yet (field_of (codes "nbf") c.additional) (now + 60)) (text "Token not yet valid")
  refuse_if (lifetime_of c.expiration now == 0) (text "Expired token")
  ok (lifetime_of c.expiration now)

module _ {Client Tokens Token : Type 0} (p : Provider Client Tokens Token) where
  -- From a code to the tokens and the ID token.
  unfoldable pub redeem : Flow Client → Text → Result (Tokens × Token)
  redeem flow code = do
    refuse_if (not (p.can_exchange flow.client)) (text "exchange")
    tokens ← ok_or (p.exchange flow.client code flow.pkce) (text "token exchange")
    raw ← ok_or (p.id_token tokens) (text "Missing ID token")
    token ← ok_or (p.parse_token raw) (text "Invalid ID token")
    ok (tokens, token)

  unfoldable pub parameters : Text → Result (List (Text × Text))
  parameters path = do
    query ← ok_or (after_mark (split_once b'?' path)) (text "Missing callback")
    collect (p.parse_query query) []

  abbrev pub logout_of : Option Text → Token → Option ProviderLogout
  logout_of none token = none
  logout_of (some endpoint) token =
      some (record { endpoint = endpoint; id_token = p.show_token token })

  unfoldable pub finish_login : Oidc → Text → Flow Client → Result Login
  finish_login config path flow = do
    params ← parameters path
    code ← check_params p.now flow params
    redeemed ← redeem flow code
    claims ← verified (p.claims flow.client redeemed.1 flow.nonce)
    same_hash claims.access_token_hash (p.token_hash flow.client redeemed.0 redeemed.1)
    seconds ← check_claims config p.wall claims
    ok (record {
      lifetime = seconds;
      username = username_of claims;
      provider_logout = logout_of flow.logout_endpoint redeemed.1;
    })
