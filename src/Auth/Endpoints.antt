-- ===== src/Auth/Endpoints.antt =====
-- The logout endpoints that crates/cli/src/auth.rs keeps are URLs that it can use, so that no `unwrap` of
-- the gate fails.
use syslog_dtls_agent.Prelude.{
  ◌≡◌, sym, subst, ◌∙◌, inl, inr, not, Bool, true, Option, none, some, List, [], ◌∷◌, if_both,
  is_ok, All, Text, text, codes, bytes_eq, ok, >>=-eq-ok, refuse_if, ok_or, ◌==◌, Bool-cases, arith,
}
use syslog_dtls_agent.Oidc.Settings.{Url, Oidc, http_url}
use syslog_dtls_agent.Auth.Store.{find, insert, remove, retain}
use syslog_dtls_agent.Auth.Json.{Json, null, bool, number, object, text_of, items, field_of}
use syslog_dtls_agent.Auth.State.{Flow, ProviderLogout, Session, PendingLogout, Login, Auth}
use syslog_dtls_agent.Auth.Handlers.{remove_old}
use syslog_dtls_agent.Auth.Finish.{
  Provider, logout_of, parameters, check_params, redeem, verified, same_hash, check_claims,
  finish_login,
}
use syslog_dtls_agent.Auth.Begin.{
  Discovery, Metadata, url_text, if_url, logout_endpoint, or_text, provider_request, discover,
  connect_client, begin_login,
}

module _ {A : Type 0} (P : Text × A → Type 0) where
  pub All-remove : (key : Text) (m : List (Text × A)) → All P m → All P (remove key m)
  unfolding remove
  All-remove key [] h = tt
  All-remove key (x ∷ m) h =
      if_both (All P) (bytes_eq x.0 key) (All-remove key m h.1) (h.0, All-remove key m h.1)

  pub All-remove_old :
      (key : Option Text) (m : List (Text × A)) → All P m → All P (remove_old key m)
  All-remove_old none m h = h
  All-remove_old (some key) m h = All-remove key m h

  pub All-retain : (keep : A → Bool) (m : List (Text × A)) → All P m → All P (retain keep m)
  unfolding retain
  All-retain keep [] h = tt
  All-retain keep (x ∷ m) h =
      if_both (All P) (keep x.1) (h.0, All-retain keep m h.1) (All-retain keep m h.1)

  pub All-insert :
      (key : Text) (a : A) (m : List (Text × A)) → P (key, a) → All P m → All P (insert key a m)
  unfolding insert
  All-insert key a m p h = (p, All-remove key m h)

  pub find-All :
      (key : Text) (m : List (Text × A)) (a : A)
      → All P m
      → find key m ≡ some a
      → (k : Text) × P (k, a)
  unfolding find
  find-All key [] a h e = absurd (ground (arith, e))
  find-All key (x ∷ m) a h e = elim (Bool-cases (bytes_eq x.0 key)) [
    | inl here ↦ (x.0, subst (λ b. P (x.0, b)) (ground (arith, e, here)) h.0)
    | inr there ↦ find-All key m a h.1 (ground (arith, e, there))
  ]

module _ (parse_url : Text → Option Url) where
  abbrev pub IsUsable : Text → Type 0
  IsUsable endpoint = is_ok (http_url parse_url endpoint) ≡ true

  abbrev pub IsAbsentOrUsable : Option Text → Type 0
  IsAbsentOrUsable none = Unit {0}
  IsAbsentOrUsable (some endpoint) = IsUsable endpoint

  abbrev pub HasUsable : Option ProviderLogout → Type 0
  HasUsable none = Unit {0}
  HasUsable (some provider) = IsUsable provider.endpoint

  -- Every endpoint that the state keeps is usable.
  pub record HasEndpoints {Client : Type 0} (a : Auth Client) : Type 0 where
    pub of_flows : All (λ (e : Text × Flow Client). IsAbsentOrUsable e.1.logout_endpoint) a.flows
    pub of_sessions : All (λ (e : Text × Session). HasUsable e.1.provider_logout) a.sessions
    pub of_logouts : All (λ (e : Text × PendingLogout). IsUsable e.1.provider.endpoint) a.logouts

  if_url-IsAbsentOrUsable : (s : Text) → IsAbsentOrUsable (if_url parse_url s)
  if_url-IsAbsentOrUsable s = elim (Bool-cases (is_ok (http_url parse_url s))) [
    | inl e ↦ rw (e) e
    | inr e ↦ rw (e) tt
  ]

  url_text-IsAbsentOrUsable : (value : Option Json) → IsAbsentOrUsable (url_text parse_url value)
  url_text-IsAbsentOrUsable none = tt
  url_text-IsAbsentOrUsable (some (text_of s)) = if_url-IsAbsentOrUsable s
  url_text-IsAbsentOrUsable (some null) = tt
  url_text-IsAbsentOrUsable (some (bool b)) = tt
  url_text-IsAbsentOrUsable (some (number n)) = tt
  url_text-IsAbsentOrUsable (some (items values)) = tt
  url_text-IsAbsentOrUsable (some (object fields)) = tt

  logout_endpoint-IsAbsentOrUsable : (d : Json) → IsAbsentOrUsable (logout_endpoint parse_url d)
  unfolding logout_endpoint
  logout_endpoint-IsAbsentOrUsable (object fields) =
      url_text-IsAbsentOrUsable (field_of (codes "end_session_endpoint") fields)
  logout_endpoint-IsAbsentOrUsable null = tt
  logout_endpoint-IsAbsentOrUsable (bool b) = tt
  logout_endpoint-IsAbsentOrUsable (number n) = tt
  logout_endpoint-IsAbsentOrUsable (text_of s) = tt
  logout_endpoint-IsAbsentOrUsable (items values) = tt

  module _ {Client Keys : Type 0} (d : Discovery Client Keys) where
    discover-eq-ok :
        (config : Oidc) (endpoint : Option Text) (metadata : Metadata)
        → discover d parse_url config ≡ ok (endpoint, metadata)
        → (document : Json) × (endpoint ≡ logout_endpoint parse_url document)
    unfolding discover
    discover-eq-ok config endpoint metadata e =
        let (uri, e5, r5) =
          >>=-eq-ok (ok_or (d.request_uri config.discovery_uri) (text "discovery request")) _ e in
        let (response, e0, r0) =
          >>=-eq-ok (or_text (text "discovery") (provider_request d parse_url uri)) _ r5 in
        let (status, e1, r1) =
          >>=-eq-ok (refuse_if (not (response.0 == 200)) (text "discovery failed")) _ r0 in
        let (document, e2, r2) =
          >>=-eq-ok (ok_or (d.parse_json response.1) (text "discovery metadata")) _ r1 in
        let (m, e3, r3) =
          >>=-eq-ok (ok_or (d.parse_metadata response.1) (text "discovery metadata")) _ r2 in
        let (issuer, e4, r4) = >>=-eq-ok (http_url parse_url m.issuer) _ r3 in
        (document, ground (arith, r4))

    pub begin_login-IsAbsentOrUsable :
        (a : Auth Client) (url key : Text) (flow : Flow Client)
        → begin_login d parse_url a ≡ ok (url, key, flow)
        → IsAbsentOrUsable flow.logout_endpoint
    unfolding begin_login
    begin_login-IsAbsentOrUsable a url key flow e =
        let (found, e0, r0) = >>=-eq-ok (discover d parse_url a.config) _ e in
        let (client, e1, r1) =
          >>=-eq-ok (connect_client d parse_url a.config a.origin found.1) _ r0 in
        let (document, same) = discover-eq-ok a.config found.0 found.1 e0 in
        let kept : logout_endpoint parse_url document ≡ flow.logout_endpoint =
          sym same ∙ ground (arith, r1) in
        subst IsAbsentOrUsable kept (logout_endpoint-IsAbsentOrUsable document)

  module _ {Client Tokens Token : Type 0} (p : Provider Client Tokens Token) where
    logout_of-HasUsable :
        (endpoint : Option Text) (token : Token)
        → IsAbsentOrUsable endpoint
        → HasUsable (logout_of p endpoint token)
    logout_of-HasUsable none token h = tt
    logout_of-HasUsable (some endpoint) token h = h

    pub finish_login-HasUsable :
        (config : Oidc) (path : Text) (flow : Flow Client) (l : Login)
        → IsAbsentOrUsable flow.logout_endpoint
        → finish_login p config path flow ≡ ok l
        → HasUsable l.provider_logout
    unfolding finish_login
    finish_login-HasUsable config path flow l h e =
        let (params, e0, r0) = >>=-eq-ok (parameters p path) _ e in
        let (code, e1, r1) = >>=-eq-ok (check_params p.now flow params) _ r0 in
        let (redeemed, e2, r2) = >>=-eq-ok (redeem p flow code) _ r1 in
        let (claims, e3, r3) =
          >>=-eq-ok (verified (p.claims flow.client redeemed.1 flow.nonce)) _ r2 in
        let (hash, e4, r4) = >>=-eq-ok (same_hash claims.access_token_hash _) _ r3 in
        let (seconds, e5, r5) = >>=-eq-ok (check_claims config p.wall claims) _ r4 in
        let same : logout_of p flow.logout_endpoint redeemed.1 ≡ l.provider_logout =
          ground (arith, r5) in
        subst HasUsable same (logout_of-HasUsable flow.logout_endpoint redeemed.1 h)
