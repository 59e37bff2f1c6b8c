-- ===== src/Dtls/Session.antt =====
-- `OpenSslSession` of crates/dtls-openssl/src/lib.rs. The `Ssl` and its socket belong to OpenSSL: what
-- it answers to one operation is an `Answer`, and each operation lists the calls that it makes.
use syslog_dtls_agent.Prelude.{
  ℕ, ℤ, pos, negsuc, ◌-◌, ◌%◌, ◌^◌, Bool, true, false, ◌||◌, not, Option, none, some, List, [], ◌∷◌,
  ◌++◌, if◌then◌else◌, ltb, ◌==◌, length, is_empty, Bytes, Text, text, Result, ok, err, ◌>>◌,
}
use syslog_dtls_agent.Framing.Frame.{decimal}
use syslog_dtls_agent.Ip.{IpAddr}
use syslog_dtls_agent.Relay.Sender.{WriteOutcome, sent, would_block}

-- `n as c_int`.
unfoldable pub as_c_int : ℕ → ℤ
as_c_int n =
    let word = n % 2 ^ 32 in if ltb word (2 ^ 31) then pos word else negsuc (2 ^ 32 - 1 - word)

abbrev pub eq_int : ℤ → ℤ → Bool
eq_int (pos a) (pos b) = a == b
eq_int (pos a) (negsuc b) = false
eq_int (negsuc a) (pos b) = false
eq_int (negsuc a) (negsuc b) = a == b

-- `n > 0` and `n < 0`.
abbrev pub is_positive : ℤ → Bool
is_positive (pos n) = ltb 0 n
is_positive (negsuc n) = false

abbrev pub is_negative : ℤ → Bool
is_negative (pos n) = false
is_negative (negsuc n) = true

-- The constants of `SSL_get_error` that the code names, and the rest.
pub data SslError : Type 0 where
  want_read want_write zero_return : SslError
  other : ℕ → SslError

-- What OpenSSL answers during one operation: the result of `SSL_connect`, `SSL_write` or `SSL_read`,
-- `SSL_get_error` of it, the text of a verification result other than OK, and the result of
-- `DTLSv1_handle_timeout`.
pub record Answer : Type 0 where
  pub result : ℤ
  pub error : SslError
  pub verify_result : Option Text
  pub timeout : ℤ

-- The calls that act on the association.
pub data SslCall : Type 0 where
  ssl_write : Bytes → SslCall
  ssl_read ssl_shutdown : SslCall

-- The `X509CheckFlags` that the code names.
pub data HostFlag : Type 0 where
  no_partial_wildcards never_check_subject : HostFlag

-- What `connect` sets of an `Ssl`: how the peer's certificate is matched, the name or address that it
-- has to carry, the name sent to the server, the role, and the size of a datagram.
pub record Ssl : Type 0 where
  pub hostflags : List HostFlag
  pub host : Option Text
  pub ip : Option IpAddr
  pub hostname : Option Text
  pub is_client : Bool
  pub datagram : Option ℕ

pub record OpenSslSession : Type 0 where
  pub ssl : Ssl
  pub mtu : ℕ
  pub closed : Bool

unfoldable pub check_result : Answer → Result (Unit {0})
check_result a = elim a.error [
  | want_read ↦ ok tt
  | want_write ↦ ok tt
  | zero_return ↦ err (text "Collector closed the DTLS association")
  | other category ↦ elim a.verify_result [
    | some reason ↦ err (text "Server certificate rejected: " ++ reason)
    | none ↦ err (
        text "DTLS operation failed (OpenSSL category "
        ++ decimal category
        ++ text "); check collector, client identity, and network")
  ]
]

unfoldable pub handle_timeout : Answer → Result (Unit {0})
handle_timeout a =
    if is_negative a.timeout then err (text "DTLS timer processing failed") else ok tt

-- `frame.len() > self.mtu || frame.is_empty()`.
abbrev pub over_budget : ℕ → Bytes → Bool
over_budget mtu frame = ltb mtu (length frame) || is_empty frame

-- `send` from the return of `SSL_write` on.
unfoldable pub written : Bytes → Answer → Result WriteOutcome
unfolding check_result handle_timeout as_c_int
written frame a =
    if eq_int a.result (as_c_int (length frame))
    then ok sent
    else if is_positive a.result
    then err (text "Unexpected partial DTLS write")
    else check_result a >> handle_timeout a >> ok would_block

unfoldable pub send : OpenSslSession → Bytes → Answer → Result WriteOutcome × List SslCall
unfolding written
send s frame a =
    if over_budget s.mtu frame
    then (err (text "Frame exceeds the DTLS record budget"), [])
    else (written frame a, ssl_write frame ∷ [])

unfoldable pub poll : OpenSslSession → Answer → Result (Unit {0}) × List SslCall
unfolding check_result handle_timeout
poll s a =
    ((if is_positive a.result then ok tt else check_result a) >> handle_timeout a, ssl_read ∷ [])

unfoldable pub close : OpenSslSession → OpenSslSession × List SslCall
close s = if not s.closed then (record s { closed = true }, ssl_shutdown ∷ []) else (s, [])

-- `Drop`.
unfoldable pub drop_session : OpenSslSession → OpenSslSession × List SslCall
unfolding close
drop_session s = close s
