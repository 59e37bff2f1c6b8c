-- ===== src/Auth/Admission.antt =====
-- Whom `finish_login` of crates/cli/src/auth.rs lets in.
use syslog_dtls_agent.Prelude.{
  ℕ, ◌+◌, ◌≤◌, ◌≡◌, refl, sym, ap, subst, ◌∙◌, [], ◌⊎◌, true, false, Option, none, some, List, Text,
  codes, ok, >>=-eq-ok, Option-cases, inl, inr, arith,
}
use syslog_dtls_agent.Oidc.Settings.{Oidc}
use syslog_dtls_agent.Auth.Strings.{split_once}
use syslog_dtls_agent.Auth.Groups.{has_group}
use syslog_dtls_agent.Auth.Json.{field_of}
use syslog_dtls_agent.Auth.State.{Flow, Login}
use syslog_dtls_agent.Auth.Finish.{
  Claims, ClaimsError, Provider, collect, after_mark, differs, exceeds, not_yet, lifetime_of,
  username_of, same_hash, verified, group_claim, check_params, check_claims, redeem, parameters,
  finish_login,
}
use syslog_dtls_agent.Auth.Parameters.{AreExpected, check_params-AreExpected}

-- What the verified claims have to be, and the lifetime that they give.
pub record AreAdmissible (config : Oidc) (wall : Option ℕ) (c : Claims) (seconds : ℕ) : Type 0 where
  pub now : ℕ
  pub clock : wall ≡ some now
  pub member : has_group (group_claim config c) config.required_group ≡ true
  pub party : differs c.authorized_party config.client_id ≡ false
  pub issued : exceeds c.issue_time (now + 60) ≡ false
  pub valid_yet : not_yet (field_of (codes "nbf") c.additional) (now + 60) ≡ false
  pub lifetime : seconds ≡ lifetime_of c.expiration now
  pub lifetime_least : 1 ≤ seconds
  pub lifetime_most : seconds ≤ 3600

check_claims-eq-ok :
    (config : Oidc) (wall : Option ℕ) (c : Claims) (now seconds : ℕ)
    → wall ≡ some now
    → check_claims config wall c ≡ ok seconds
    → (has_group (group_claim config c) config.required_group ≡ true)
      × (differs c.authorized_party config.client_id ≡ false)
      × (exceeds c.issue_time (now + 60) ≡ false)
      × (not_yet (field_of (codes "nbf") c.additional) (now + 60) ≡ false)
      × (seconds ≡ lifetime_of c.expiration now)
      × (1 ≤ seconds)
unfolding check_claims
check_claims-eq-ok config wall c now seconds h e = ground (arith, h, e)

check_claims-no_clock :
    (config : Oidc) (c : Claims) (seconds : ℕ) → check_claims config none c ≡ ok seconds → ⊥
unfolding check_claims
check_claims-no_clock config c seconds e = absurd (ground (arith, e))

lifetime_of-le : (config : Oidc) (c : Claims) (now : ℕ) → lifetime_of c.expiration now ≤ 3600
unfolding lifetime_of
lifetime_of-le config c now = ground arith

check_claims-AreAdmissible :
    (config : Oidc) (wall : Option ℕ) (c : Claims) (seconds : ℕ)
    → check_claims config wall c ≡ ok seconds
    → AreAdmissible config wall c seconds
check_claims-AreAdmissible config none c seconds e =
    absurd (check_claims-no_clock config c seconds e)
check_claims-AreAdmissible config (some now) c seconds e =
    let (member, party, issued, valid_yet, lifetime, least) =
      check_claims-eq-ok config (some now) c now seconds refl e in
    record {
      now = now;
      clock = refl;
      member = member;
      party = party;
      issued = issued;
      valid_yet = valid_yet;
      lifetime = lifetime;
      lifetime_least = least;
      lifetime_most = omega (arith, lifetime, lifetime_of-le config c now);
    }

module _ {Client Tokens Token : Type 0} (p : Provider Client Tokens Token) where
  -- A login that was earned: how the callback, the provider and the claims led to it.
  pub record IsEarned (config : Oidc) (path : Text) (flow : Flow Client) (login : Login)
      : Type 0 where
    query : Text
    asked : after_mark (split_once b'?' path) ≡ some query
    code : Text
    expected : AreExpected p.now flow (p.parse_query query) code
    tokens : Tokens
    exchanged : p.exchange flow.client code flow.pkce ≡ some tokens
    raw : Text
    with_id : p.id_token tokens ≡ some raw
    token : Token
    parsed : p.parse_token raw ≡ some token
    claims : Claims
    signed : p.claims flow.client token flow.nonce ≡ inr claims
    hashed : same_hash claims.access_token_hash (p.token_hash flow.client tokens token) ≡ ok tt
    admissible : AreAdmissible config p.wall claims login.lifetime
    named : login.username ≡ username_of claims

  parameters-eq-ok :
      (path : Text) (params : List (Text × Text))
      → parameters p path ≡ ok params
      → (query : Text) × (after_mark (split_once b'?' path) ≡ some query)
        × (collect (p.parse_query query) [] ≡ ok params)
  unfolding parameters
  parameters-eq-ok path params e = elim (Option-cases (after_mark (split_once b'?' path))) [
    | inl none_ ↦ absurd (ground (arith, e, none_))
    | inr (query, some_) ↦ (query, some_, ground (arith, e, some_))
  ]

  redeem-eq-ok :
      (flow : Flow Client) (code : Text) (tokens : Tokens) (token : Token)
      → redeem p flow code ≡ ok (tokens, token)
      → (p.exchange flow.client code flow.pkce ≡ some tokens)
        × ((raw : Text) × (p.id_token tokens ≡ some raw) × (p.parse_token raw ≡ some token))
  unfolding redeem
  redeem-eq-ok flow code tokens token e =
      elim (Option-cases (p.exchange flow.client code flow.pkce)) [
        | inl refused ↦ absurd (ground (arith, e, refused))
        | inr (given, granted) ↦ elim (Option-cases (p.id_token given)) [
          | inl missing ↦ absurd (ground (arith, e, granted, missing))
          | inr (raw, found) ↦ elim (Option-cases (p.parse_token raw)) [
            | inl bad ↦ absurd (ground (arith, e, granted, found, bad))
            | inr (parsed, good) ↦
                (let same : (given ≡ tokens) × (parsed ≡ token) = (
                  ground (arith, e, granted, found, good),
                  ground (arith, e, granted, found, good),
                ) in
                  (
                    granted ∙ ap some same.0,
                    (raw, ap p.id_token (sym same.0) ∙ found, good ∙ ap some same.1),
                  ))
          ]
        ]
      ]

  verified-eq-ok : (r : ClaimsError ⊎ Claims) (c : Claims) → verified r ≡ ok c → r ≡ inr c
  verified-eq-ok (inl error) c e = absurd (ground (arith, e))
  verified-eq-ok (inr claims) c e = ground (arith, e)

  -- A login that `finish_login` grants: the flow was not expired and the callback carried, once each, its
  -- state and a code, at most once its issuer, and no error; the code and the flow's own verifier were
  -- exchanged for the tokens; the claims are those that the library verified for the flow's nonce, with
  -- the hash of the access token right if there is one; they hold the required group, this client as
  -- the authorized party if there is one, and times that admit now; and the session lasts from one
  -- second to an hour and no longer than the token.
  pub finish_login-IsEarned :
      (config : Oidc) (path : Text) (flow : Flow Client) (login : Login)
      → finish_login p config path flow ≡ ok login
      → IsEarned config path flow login
  unfolding finish_login
  finish_login-IsEarned config path flow login e =
      let (params, e0, r0) = >>=-eq-ok (parameters p path) _ e in
      let (code, e1, r1) = >>=-eq-ok (check_params p.now flow params) _ r0 in
      let (redeemed, e2, r2) = >>=-eq-ok (redeem p flow code) _ r1 in
      let (claims, e3, r3) =
        >>=-eq-ok (verified (p.claims flow.client redeemed.1 flow.nonce)) _ r2 in
      let (hash, e4, r4) =
        >>=-eq-ok
          (same_hash claims.access_token_hash (p.token_hash flow.client redeemed.0 redeemed.1)) _
          r3 in
      let (seconds, e5, r5) = >>=-eq-ok (check_claims config p.wall claims) _ r4 in
      let (query, asked, collected) = parameters-eq-ok path params e0 in
      let (exchanged, (raw, with_id, parsed)) = redeem-eq-ok flow code redeemed.0 redeemed.1 e2 in
      let whole : (login.lifetime ≡ seconds) × (login.username ≡ username_of claims) =
        (ground (arith, r5), ground (arith, r5)) in
      record {
        query = query;
        asked = asked;
        code = code;
        expected =
            check_params-AreExpected p.now flow (p.parse_query query) params code collected e1;
        tokens = redeemed.0;
        exchanged = exchanged;
        raw = raw;
        with_id = with_id;
        token = redeemed.1;
        parsed = parsed;
        claims = claims;
        signed = verified-eq-ok _ claims e3;
        hashed = e4;
        admissible =
            subst (AreAdmissible config p.wall claims) (sym whole.0)
              (check_claims-AreAdmissible config p.wall claims seconds e5);
        named = whole.1;
      }
