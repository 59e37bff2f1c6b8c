-- ===== src/Oidc/Valid.antt =====
-- What `Oidc::validate` and `OidcInput` of crates/core/src/oidc.rs let through.
use syslog_dtls_agent.Prelude.{
  ℕ, zero, suc, ◌≤◌, ◌≡◌, ◌≢◌, ◌↔◌, ◌⊎◌, refl, ap, ◌∙◌, inl, inr, true, false, not, ◌&&◌, ◌||◌,
  Option, none, some, List, [], ◌∷◌, ◌++◌, length, is_empty, all, any, All, Text, text, bytes_eq,
  bytes_eq→eq, bytes_eq_self, ok, Result-cases, replicate, Bool-cases, Option-cases, arith,
}
use syslog_dtls_agent.Framing.Text.{ends_with_byte}
use syslog_dtls_agent.Oidc.Settings.{
  Oidc, Url, present, nonempty, is_blank, is_scope_byte, trim_end_matches, try_from, http_url,
  validate,
}

-- The URLs that a login may use.
pub record IsHttpUrl (parse_url : Text → Option Url) (value : Text) (url : Url) : Type 0 where
  pub parsed : parse_url value ≡ some url
  pub no_username : url.username ≡ []
  pub no_password : url.password ≡ none
  pub no_fragment : url.fragment ≡ none
  pub host : Text
  pub hosted : url.host ≡ some host
  pub web : (url.scheme ≡ text "https") ⊎ (url.scheme ≡ text "http")

pub record IsScope (s : Text) : Type 0 where
  pub given : s ≢ []
  pub bytes : all is_scope_byte s ≡ true

-- Settings that a login can work with.
pub record IsUsable (parse_url : Text → Option Url) (o : Oidc) : Type 0 where
  pub discovery : Url
  pub discovery_url : IsHttpUrl parse_url o.discovery_uri discovery
  pub public : Url
  pub public_origin : IsHttpUrl parse_url o.public_url public
  pub no_path : public.path ≡ text "/"
  pub no_query : public.query ≡ none
  pub client : is_blank o.client_id ≡ false
  pub claim : is_blank o.groups_claim ≡ false
  pub group : is_blank o.required_group ≡ false
  pub few_scopes : length o.scopes ≤ 32
  pub scopes_valid : All IsScope o.scopes

empty_text : (s : Text) → is_empty s ≡ true → s ≡ []
empty_text [] h = refl
empty_text (b ∷ s) h = absurd (ground arith)

present-none {ℓ} : {A : Type ℓ} (o : Option A) → present o ≡ false → o ≡ none
present-none none h = refl
present-none (some a) h = absurd (ground arith)

present-some {ℓ} : {A : Type ℓ} (o : Option A) → present o ≡ true → (a : A) × (o ≡ some a)
present-some none h = absurd (ground arith)
present-some (some a) h = (a, refl)

web_scheme :
    (s : Text)
    → (s ≡ text "https") ⊎ (s ≡ text "http")
    → bytes_eq s (text "https") || bytes_eq s (text "http") ≡ true
web_scheme s (inl e) =
    ground (arith, ap (λ t. bytes_eq t (text "https")) e, bytes_eq_self (text "https"))
web_scheme s (inr e) = elim (Bool-cases (bytes_eq s (text "https"))) [
  | inl f ↦ rw f refl
  | inr f ↦ ground (arith, f, ap (λ t. bytes_eq t (text "http")) e, bytes_eq_self (text "http"))
]

module _ (parse_url : Text → Option Url) where
  http_url_sound :
      (value : Text) (url : Url) → http_url parse_url value ≡ ok url → IsHttpUrl parse_url value url
  unfolding http_url
  http_url_sound value url h = elim (Option-cases (parse_url value)) [
    | inl e ↦ absurd (ground (arith, h))
    | inr (u, e) ↦
        (let checks : (u ≡ url)
              × (is_empty url.username ≡ true)
              × (present url.password ≡ false)
              × (present url.fragment ≡ false)
              × (present url.host ≡ true)
              × (bytes_eq url.scheme (text "https") || bytes_eq url.scheme (text "http") ≡ true) =
            ground (arith, h) in
          let (host, hosted) = present-some url.host checks.4 in
          record {
            parsed = e ∙ ap some checks.0;
            no_username = empty_text url.username checks.1;
            no_password = present-none url.password checks.2;
            no_fragment = present-none url.fragment checks.3;
            host = host;
            hosted = hosted;
            web = elim (Bool-cases (bytes_eq url.scheme (text "https"))) [
              | inl f ↦ inl (bytes_eq→eq url.scheme (text "https") f)
              | inr f ↦ inr (bytes_eq→eq url.scheme (text "http") (ground (arith, f, checks.5)))
            ];
          })
  ]

  http_url_complete :
      (value : Text) (url : Url) → IsHttpUrl parse_url value url → http_url parse_url value ≡ ok url
  unfolding http_url
  http_url_complete value url q =
      let web : bytes_eq url.scheme (text "https") || bytes_eq url.scheme (text "http") ≡ true =
        web_scheme url.scheme q.web in
      ground (
        arith,
        q,
        web,
        ap is_empty q.no_username,
        ap present q.no_password,
        ap present q.no_fragment,
        ap present q.hosted,
      )

scopes_sound :
    (ss : List Text)
    → any (λ s. is_empty s || not (all is_scope_byte s)) ss ≡ false
    → All IsScope ss
scopes_sound [] h = tt
scopes_sound ([] ∷ ss) h = absurd (ground arith)
scopes_sound ((b ∷ s) ∷ ss) h = (
  record { given = λ e. absurd (ground arith); bytes = ground arith },
  scopes_sound ss (ground arith),
)

scopes_complete :
    (ss : List Text)
    → All IsScope ss
    → any (λ s. is_empty s || not (all is_scope_byte s)) ss ≡ false
scopes_complete [] a = refl
scopes_complete ([] ∷ ss) a = absurd (a.0.given refl)
scopes_complete ((b ∷ s) ∷ ss) a = ground (arith, a.0.bytes, scopes_complete ss a.1)

module _ (parse_url : Text → Option Url) (o : Oidc) where
  validate_sound : validate parse_url o ≡ ok tt → (o.enabled ≡ false) ⊎ IsUsable parse_url o
  unfolding validate
  validate_sound h = elim (Bool-cases o.enabled) [
    | inr e ↦ inl e
    | inl e ↦ elim (Result-cases (http_url parse_url o.discovery_uri)) [
      | inr (w, f) ↦ absurd (ground (arith, e, f, h))
      | inl (discovery, d) ↦ elim (Result-cases (http_url parse_url o.public_url)) [
        | inr (w, f) ↦ absurd (ground (arith, e, d, f, h))
        | inl (public, p) ↦
            (let checks : (bytes_eq public.path (text "/") ≡ true)
                  × (present public.query ≡ false)
                  × (is_blank o.client_id ≡ false)
                  × (is_blank o.groups_claim ≡ false)
                  × (is_blank o.required_group ≡ false)
                  × (length o.scopes ≤ 32)
                  × (any (λ s. is_empty s || not (all is_scope_byte s)) o.scopes ≡ false) =
                ground (arith, e, d, p, h) in
              inr (record {
                discovery = discovery;
                discovery_url = http_url_sound parse_url o.discovery_uri discovery d;
                public = public;
                public_origin = http_url_sound parse_url o.public_url public p;
                no_path = bytes_eq→eq public.path (text "/") checks.0;
                no_query = present-none public.query checks.1;
                client = checks.2;
                claim = checks.3;
                group = checks.4;
                few_scopes = checks.5;
                scopes_valid = scopes_sound o.scopes checks.6;
              }))
      ]
    ]
  ]

  validate_complete : (o.enabled ≡ false) ⊎ IsUsable parse_url o → validate parse_url o ≡ ok tt
  unfolding validate
  validate_complete (inl e) = rw e refl
  validate_complete (inr q) = ground (
    arith,
    q,
    http_url_complete parse_url o.discovery_uri q.discovery q.discovery_url,
    http_url_complete parse_url o.public_url q.public q.public_origin,
    ap (λ t. bytes_eq t (text "/")) q.no_path,
    bytes_eq_self (text "/"),
    ap present q.no_query,
    scopes_complete o.scopes q.scopes_valid,
  )

  -- The settings are accepted exactly when the login is off, or both URLs are HTTP(S) without credentials
  -- or fragment, the public one an origin, the three names not blank, and the scopes, at most 32, valid
  -- OAuth scope names. `parse_url` is any URL parser.
  pub validate-eq-ok : (validate parse_url o ≡ ok tt) ↔ ((o.enabled ≡ false) ⊎ IsUsable parse_url o)
  validate-eq-ok = (validate_sound, validate_complete)

-- `trim_end_matches` takes away what was put behind.
abbrev pub slashes : ℕ → Text
slashes n = replicate n b'/'

trim-slashes : (n : ℕ) → trim_end_matches b'/' (slashes n) ≡ []
unfolding trim_end_matches
trim-slashes zero = refl
trim-slashes (suc n) = rw (trim-slashes n) refl

trim-append :
    (s : Text) (n : ℕ) → ends_with_byte b'/' s ≡ false → trim_end_matches b'/' (s ++ slashes n) ≡ s
unfolding trim_end_matches ends_with_byte
trim-append [] n h = trim-slashes n
trim-append (b ∷ []) n h = rw (trim-slashes n) (ground (arith, h))
trim-append (b ∷ c ∷ s) n h = rw (trim-append (c ∷ s) n h) refl

-- An old configuration with an issuer and no discovery address, whose secret is not left in the
-- environment: the discovery address is the issuer's, with `/.well-known/openid-configuration` behind
-- it, however many slashes the issuer ends with; the other settings are kept.
pub try_from-issuer :
    (s : Oidc) (env : Option Text) (issuer : Text) (n : ℕ)
    → issuer ≢ []
    → ends_with_byte b'/' issuer ≡ false
    → s.discovery_uri ≡ []
    → s.enabled && is_empty s.client_secret && nonempty env ≡ false
    → try_from
        (record { issuer_url = some (issuer ++ slashes n); client_secret_env = env; settings = s })
      ≡ ok (record s { discovery_uri = issuer ++ text "/.well-known/openid-configuration" })
unfolding try_from
try_from-issuer s env [] n given h d k = absurd (given refl)
try_from-issuer s env (b ∷ issuer) n given h d k =
    rw (k, ap is_empty d, trim-append (b ∷ issuer) n h) refl
