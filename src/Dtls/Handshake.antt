-- ===== src/Dtls/Handshake.antt =====
-- The handshake of crates/dtls-openssl/src/lib.rs ends in time, and what its success means.
use syslog_dtls_agent.Prelude.{
  ℕ, pos, zero, suc, ◌+◌, ◌*◌, ◌/◌, ◌≤◌, ◌<◌, ◌≡◌, refl, sym, subst, ◌⊎◌, ◌∙◌, ap, inl, inr, Bool,
  true, false, Option, none, some, [], ◌∷◌, Text, Result, ok, err, Result-cases, Option-cases,
  Bool-cases, ◌>>◌, arith,
}
use syslog_dtls_agent.Ip.{IpAddr, SocketAddr}
use syslog_dtls_agent.Config.Schema.{Config}
use syslog_dtls_agent.Config.Names.{server_name}
use syslog_dtls_agent.Relay.State.{millis}
use syslog_dtls_agent.Dtls.Session.{
  Ssl, no_partial_wildcards, never_check_subject, OpenSslSession, eq_int,
}
use syslog_dtls_agent.Dtls.Connect.{
  fresh_ssl, Round, Environment, attempt, handshake, verify, expect_name, prepare, connect,
}

lt_or_eq : (i j : ℕ) → i ≤ j → (suc i ≤ j) ⊎ (i ≡ j)
lt_or_eq i j h = ground arith

-- The round ends at the deadline or later, so that there is no other.
attempt_late : (until : ℕ) (r : Round) → attempt until r ≡ ok false → r.now < until
unfolding attempt
attempt_late until r h = ground arith

handshake-suc :
    (rounds : ℕ → Round) (until fuel k : ℕ)
    → attempt until (rounds k) ≡ ok false
    → handshake rounds until (suc fuel) k ≡ handshake rounds until fuel (suc k)
unfolding handshake
handshake-suc rounds until fuel k h = ground arith

handshake-last :
    (rounds : ℕ → Round) (until fuel k : ℕ) (r : Result Bool)
    → attempt until (rounds k) ≡ r
    → (r ≡ ok false)
      ⊎ ((outcome : Result (Unit {0})) × (handshake rounds until (suc fuel) k ≡ some outcome))
unfolding handshake
handshake-last rounds until fuel k (err e) h = inr (err e, ground arith)
handshake-last rounds until fuel k (ok true) h = inr (ok tt, ground arith)
handshake-last rounds until fuel k (ok false) h = inl refl

-- Fuel for the rounds up to the first one that ends past the deadline is enough.
handshake-some :
    (rounds : ℕ → Round) (until last fuel k : ℕ)
    → until ≤ (rounds last).now
    → k ≤ last
    → last < k + fuel
    → (outcome : Result (Unit {0})) × (handshake rounds until fuel k ≡ some outcome)
handshake-some rounds until last zero k late from_ room = absurd (omega arith)
handshake-some rounds until last (suc fuel) k late from_ room =
    elim (handshake-last rounds until fuel k (attempt until (rounds k)) refl) [
      | inr found ↦ found
      | inl again ↦
          let before = attempt_late until (rounds k) again in
          let below = below_last rounds k last until from_ before late in
          let (outcome, e) =
            handshake-some rounds until last fuel (suc k) late below (omega (arith, room)) in
          (outcome, handshake-suc rounds until fuel k again ∙ e)
    ]
  where
    below_last : (rs : ℕ → Round) (i j u : ℕ) → i ≤ j → (rs i).now < u → u ≤ (rs j).now → suc i ≤ j
    below_last rs i j u h b l = elim (lt_or_eq i j h) [
      | inl lt ↦ lt
      | inr e ↦ absurd (omega (arith, subst (λ x. (rs x).now < u) e b, l))
    ]

handshake-eq-ok :
    (rounds : ℕ → Round) (until fuel k : ℕ)
    → handshake rounds until fuel k ≡ some (ok tt)
    → (j : ℕ) × (attempt until (rounds j) ≡ ok true)
unfolding handshake
handshake-eq-ok rounds until zero k e = absurd (ground (arith, e))
handshake-eq-ok rounds until (suc fuel) k e = elim (Result-cases (attempt until (rounds k))) [
  | inr (m, failed) ↦ absurd (ground (arith, e, failed))
  | inl (done, same) ↦ elim (Bool-cases done) [
    | inl over ↦ (k, same ∙ ap ok over)
    | inr again ↦
        handshake-eq-ok rounds until fuel (suc k)
          (sym (handshake-suc rounds until fuel k (same ∙ ap ok again)) ∙ e)
  ]
]

-- A round that ends the loop: not cancelled, and `SSL_connect` returned 1.
attempt-done :
    (until : ℕ) (r : Round)
    → attempt until r ≡ ok true
    → (r.cancelled ≡ false) × (eq_int r.answer.result (pos 1) ≡ true)
unfolding attempt
attempt-done until r h = ground arith

-- The peer's certificate has to carry this name: an address as such, and any other as a host name, which
-- the server is told as well.
abbrev pub IsExpected : (Text → Option IpAddr) → Text → Ssl → Type 0
IsExpected parse_ip name ssl =
    ((address : IpAddr) × (parse_ip name ≡ some address)
      × (ssl.ip ≡ some address)
      × (ssl.host ≡ none))
    ⊎ ((parse_ip name ≡ none)
        × (ssl.host ≡ some name)
        × (ssl.hostname ≡ some name)
        × (ssl.ip ≡ none))

-- What a session promises, and what was asked of OpenSSL before it.
pub record IsVerified (parse_ip : Text → Option IpAddr) (show_ip : IpAddr → Text)
    (to_ascii : Text → Option Text) (env : Environment) (cfg : Config) (s : OpenSslSession)
    : Type 0 where
  pub name : Text
  pub configured : server_name parse_ip show_ip to_ascii cfg ≡ ok name
  -- OpenSSL has to match the configured name, and nothing else
  pub expected : IsExpected parse_ip name s.ssl
  pub strict : s.ssl.hostflags ≡ no_partial_wildcards ∷ never_check_subject ∷ []
  pub client : s.ssl.is_client ≡ true
  pub datagram : s.ssl.datagram ≡ some cfg.dtls.datagram_bytes
  pub connected :
      (k : ℕ) × ((env.rounds k).cancelled ≡ false)
      × (eq_int (env.rounds k).answer.result (pos 1) ≡ true)
  pub certified : env.peer_certificate ≡ true
  pub accepted : env.verify_result ≡ none
  pub budget_least : 1 ≤ s.mtu
  pub budget_most : s.mtu ≤ 16_384
  pub budget_within : s.mtu ≤ env.data_mtu
  pub fresh : s.closed ≡ false

verify-eq-ok :
    (env : Environment) (ssl : Ssl) (s : OpenSslSession)
    → verify env ssl ≡ ok s
    → (s.ssl ≡ ssl)
      × (env.peer_certificate ≡ true)
      × (env.verify_result ≡ none)
      × (1 ≤ s.mtu)
      × (s.mtu ≤ 16_384)
      × (s.mtu ≤ env.data_mtu)
      × (s.closed ≡ false)
unfolding verify
verify-eq-ok env ssl s e = ground arith

module _ (parse_ip : Text → Option IpAddr) (show_ip : IpAddr → Text) (to_ascii : Text → Option Text)
    (env : Environment) (cfg : Config) (remote : SocketAddr) (fuel : ℕ) where
  -- If every round of the handshake ends ten milliseconds or more after the one before, then `connect`
  -- returns: the configured timeout in milliseconds divided by ten, and two more, rounds are enough.
  pub connect_terminates :
      ((k : ℕ) → env.before + millis (10 * k) ≤ (env.rounds k).now)
      → cfg.dtls.handshake_timeout_ms / 10 + 2 ≤ fuel
      → (outcome : Result OpenSslSession) × (connect parse_ip show_ip to_ascii env cfg remote fuel
          ≡ some outcome)
  unfolding connect
  connect_terminates clock enough =
      elim (Result-cases (prepare parse_ip show_ip to_ascii env cfg remote)) [
        | inr (m, failed) ↦ (err m, ground arith)
        | inl (ready, e) ↦
            (let last = cfg.dtls.handshake_timeout_ms / 10 + 1 in
              let (outcome, found) =
                handshake-some env.rounds (env.before + millis cfg.dtls.handshake_timeout_ms) last
                  fuel 0 (omega (arith, clock last)) (omega arith) (omega arith) in
              (outcome >> verify env ready, ground arith))
      ]

  abbrev strict_ssl : Ssl
  strict_ssl = record fresh_ssl { hostflags = no_partial_wildcards ∷ never_check_subject ∷ [] }

  abbrev ready_ssl : Ssl → Ssl
  ready_ssl ssl = record ssl { is_client = true; datagram = some cfg.dtls.datagram_bytes }

  expect_name-IsExpected :
      (name : Text) (ssl prepared : Ssl)
      → ssl.host ≡ none
      → ssl.ip ≡ none
      → expect_name parse_ip show_ip to_ascii env name ssl ≡ ok prepared
      → IsExpected parse_ip name prepared × (prepared.hostflags ≡ ssl.hostflags)
  unfolding expect_name
  expect_name-IsExpected name ssl prepared h i e = elim (Option-cases (parse_ip name)) [
    | inl n ↦ (
      inr (n, ground (arith, e, n), ground (arith, e, n), ground (arith, e, n, i)),
      ground (arith, e, n),
    )
    | inr (address, found) ↦ (
      inl (address, found, ground (arith, e, found), ground (arith, e, found, h)),
      ground (arith, e, found),
    )
  ]

  prepare-eq-ok :
      (ssl : Ssl)
      → prepare parse_ip show_ip to_ascii env cfg remote ≡ ok ssl
      → (name : Text) × (server_name parse_ip show_ip to_ascii cfg ≡ ok name)
        × IsExpected parse_ip name ssl
        × (ssl.hostflags ≡ no_partial_wildcards ∷ never_check_subject ∷ [])
        × (ssl.is_client ≡ true)
        × (ssl.datagram ≡ some cfg.dtls.datagram_bytes)
  unfolding prepare
  prepare-eq-ok ssl e = elim (Result-cases (server_name parse_ip show_ip to_ascii cfg)) [
    | inr (m, failed) ↦ absurd (ground (arith, e, failed))
    | inl (name, named) ↦
        elim (Result-cases (expect_name parse_ip show_ip to_ascii env name strict_ssl)) [
          | inr (m, failed) ↦ absurd (ground (arith, e, named, failed))
          | inl (given, made) ↦
              (let same : ready_ssl given ≡ ssl = ground (arith, e, named, made) in
                let (matched, flags) =
                  expect_name-IsExpected name strict_ssl given refl refl made in
                (
                  name,
                  named,
                  subst (IsExpected parse_ip name) same matched,
                  ap (λ (x : Ssl). x.hostflags) (sym same) ∙ flags,
                  ap (λ (x : Ssl). x.is_client) (sym same),
                  ap (λ (x : Ssl). x.datagram) (sym same),
                ))
        ]
  ]

  -- A session that `connect` returns: OpenSSL was told to match the configured server name, as an address
  -- if it is one and as a host name that is sent to the server otherwise, without partial wildcards or
  -- the certificate's subject; it is a client with the configured datagram size; a round of the
  -- handshake that was not cancelled succeeded, the peer sent a certificate and its verification was
  -- OK, the budget is from 1 to 16384 bytes and within what OpenSSL offers, and it is not closed.
  pub connect-IsVerified :
      (s : OpenSslSession)
      → connect parse_ip show_ip to_ascii env cfg remote fuel ≡ some (ok s)
      → IsVerified parse_ip show_ip to_ascii env cfg s
  unfolding connect
  connect-IsVerified s e = elim (Result-cases (prepare parse_ip show_ip to_ascii env cfg remote)) [
    | inr (m, failed) ↦ absurd (ground (arith, e, failed))
    | inl (ready, prepared) ↦
        elim (Option-cases
          (handshake env.rounds (env.before + millis cfg.dtls.handshake_timeout_ms) fuel 0)) [
            | inl spent ↦ absurd (ground (arith, e, prepared, spent))
            | inr (err m, found) ↦ absurd (ground (arith, e, prepared, found))
            | inr (ok done, found) ↦
                (let (name, configured, expected, strict, client, datagram) =
                    prepare-eq-ok ready prepared in
                  let (k, over) = handshake-eq-ok env.rounds _ fuel 0 found in
                  let done_ = attempt-done _ (env.rounds k) over in
                  let (same, certified, accepted, least, most, within, fresh) =
                    verify-eq-ok env ready s (ground (arith, e, prepared, found)) in
                  record {
                    name = name;
                    configured = configured;
                    expected = subst (IsExpected parse_ip name) (sym same) expected;
                    strict = ap (λ (x : Ssl). x.hostflags) same ∙ strict;
                    client = ap (λ (x : Ssl). x.is_client) same ∙ client;
                    datagram = ap (λ (x : Ssl). x.datagram) same ∙ datagram;
                    connected = (k, done_.0, done_.1);
                    certified = certified;
                    accepted = accepted;
                    budget_least = least;
                    budget_most = most;
                    budget_within = within;
                    fresh = fresh;
                  })
          ]
  ]
