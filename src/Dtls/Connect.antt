-- ===== src/Dtls/Connect.antt =====
-- `Connector::connect` of crates/dtls-openssl/src/lib.rs. Sockets, OpenSSL and the clock are an
-- `Environment`: a field that takes an argument is a call, and tells whether it succeeds.
use syslog_dtls_agent.Prelude.{
  ℕ, ℤ, pos, zero, suc, ◌+◌, ◌||◌, min, Bool, true, false, not, Option, none, some, [], ◌∷◌, ◌++◌,
  if◌then◌else◌, leb, ◌==◌, Text, text, Result, ok, err, ◌>>◌, ◌>>=◌, refuse_if,
}
use syslog_dtls_agent.Ip.{IpAddr, SocketAddr, is_ipv4}
use syslog_dtls_agent.Config.Schema.{Config}
use syslog_dtls_agent.Config.Names.{server_name}
use syslog_dtls_agent.Relay.State.{millis}
use syslog_dtls_agent.Dtls.Session.{
  Answer, Ssl, no_partial_wildcards, never_check_subject, OpenSslSession, check_result,
  handle_timeout, eq_int, is_positive,
}

-- One round of the handshake: whether it is cancelled, what OpenSSL answers, the clock at its end.
pub record Round : Type 0 where
  pub cancelled : Bool
  pub answer : Answer
  pub now : ℕ

pub record Environment : Type 0 where
  pub bind : Text → Result (Unit {0})
  pub connect_socket : SocketAddr → Result (Unit {0})
  pub set_nonblocking : Result (Unit {0})
  -- `Ssl::new` of the connector's context, on which no name is set
  pub new_ssl : Bool
  pub set_ip : IpAddr → Bool
  pub set_host : Text → Bool
  pub set_hostname : Text → Bool
  pub set_mtu : ℕ → Bool
  pub new_bio : Bool
  pub set_connected : SocketAddr → ℤ
  -- the clock before the loop, and its rounds
  pub before : ℕ
  pub rounds : ℕ → Round
  -- after the handshake: the text of a verification result other than OK
  pub verify_result : Option Text
  pub peer_certificate : Bool
  pub data_mtu : ℕ

-- `map_err(crypto_error)`.
abbrev pub crypto : Bool → Result (Unit {0})
crypto true = ok tt
crypto false = err (text "OpenSSL could not initialize security settings")

-- `map_err(io_error)`.
abbrev pub socket : Result (Unit {0}) → Result (Unit {0})
socket (err e) = err (text "DTLS socket error: " ++ e)
socket (ok done) = ok done

-- One round of the loop: `true` for its `break`, `false` for another round after 10 ms.
unfoldable pub attempt : ℕ → Round → Result Bool
attempt until r =
    if r.cancelled
    then err (text "DTLS handshake cancelled")
    else if eq_int r.answer.result (pos 1)
    then ok true
    else check_result r.answer
      >> handle_timeout r.answer
      >> (if leb until r.now then err (text "DTLS handshake timed out") else ok false)

-- The loop from one of its rounds on; `none` when the fuel is spent.
unfoldable pub handshake : (ℕ → Round) → ℕ → ℕ → ℕ → Option (Result (Unit {0}))
handshake rounds until zero k = none
handshake rounds until (suc fuel) k = elim (attempt until (rounds k)) [
  | err e ↦ some (err e)
  | ok done ↦ elim done [ true ↦ some (ok tt) | false ↦ handshake rounds until fuel (suc k) ]
]

abbrev is_rejected : Option Text → Bool
is_rejected none = false
is_rejected (some reason) = true

-- The checks after the handshake, and the session's budget.
unfoldable pub verify : Environment → Ssl → Result OpenSslSession
verify env ssl =
    if is_rejected env.verify_result || not env.peer_certificate
    then err (text "Server certificate verification failed")
    else (let mtu = min env.data_mtu 16_384 in
        if mtu == 0
        then err (text "OpenSSL returned no DTLS payload budget")
        else ok (record { ssl = ssl; mtu = mtu; closed = false }))

-- An `Ssl` on which nothing is set yet.
abbrev pub fresh_ssl : Ssl
fresh_ssl = record {
  hostflags = [];
  host = none;
  ip = none;
  hostname = none;
  is_client = false;
  datagram = none;
}

module _ (parse_ip : Text → Option IpAddr) (show_ip : IpAddr → Text)
    (to_ascii : Text → Option Text) where
  -- The name that the certificate has to carry.
  unfoldable pub expect_name : Environment → Text → Ssl → Result Ssl
  expect_name env name ssl = elim (parse_ip name) [
    | some ip ↦ crypto (env.set_ip ip) >> ok (record ssl { ip = some ip })
    | none ↦
        crypto (env.set_host name)
        >> (crypto (env.set_hostname name)
            >> ok (record ssl { host = some name; hostname = some name }))
  ]

  -- All that comes before the handshake.
  unfoldable pub prepare : Environment → Config → SocketAddr → Result Ssl
  prepare env cfg remote = do
    socket (env.bind (if is_ipv4 remote.ip then text "0.0.0.0:0" else text "[::]:0"))
    socket (env.connect_socket remote)
    socket env.set_nonblocking
    crypto env.new_ssl
    name ← server_name parse_ip show_ip to_ascii cfg
    ssl ←
        expect_name env name
          (record fresh_ssl { hostflags = no_partial_wildcards ∷ never_check_subject ∷ [] })
    crypto (env.set_mtu cfg.dtls.datagram_bytes)
    refuse_if (not env.new_bio) (text "Cannot create DTLS datagram BIO")
    refuse_if (not (is_positive (env.set_connected remote))) (text "Cannot connect datagram BIO")
    ok (record ssl { is_client = true; datagram = some cfg.dtls.datagram_bytes })

  unfoldable pub connect : Environment → Config → SocketAddr → ℕ → Option (Result OpenSslSession)
  connect env cfg remote fuel = elim (prepare env cfg remote) [
    | err e ↦ some (err e)
    | ok ssl ↦
        elim (handshake env.rounds (env.before + millis cfg.dtls.handshake_timeout_ms) fuel 0) [
          | none ↦ none
          | some outcome ↦ some (outcome >> verify env ssl)
        ]
  ]
