-- ===== src/Dtls/Lifetime.antt =====
-- The operations of crates/dtls-openssl/src/lib.rs on one session, from its handshake to its drop.
use syslog_dtls_agent.Prelude.{
  ℕ, ◌+◌, ◌≡◌, ◌↔◌, Bool, true, false, List, [], ◌∷◌, ◌++◌, Bytes, ok, arith,
}
use syslog_dtls_agent.Dtls.Session.{
  SslError, want_read, want_write, zero_return, other, Answer, SslCall, ssl_write, ssl_read,
  ssl_shutdown, OpenSslSession, check_result, send, poll, close, drop_session,
}

-- The calls of `Session` that its owner may make.
pub data SessionOp : Type 0 where
  op_send : Bytes → Answer → SessionOp
  op_poll : Answer → SessionOp
  op_close : SessionOp

unfoldable pub apply : OpenSslSession → SessionOp → OpenSslSession × List SslCall
unfolding send poll close
apply s (op_send frame a) = (s, (send s frame a).1)
apply s (op_poll a) = (s, (poll s a).1)
apply s op_close = close s

-- The calls of OpenSSL that a session makes until it is dropped.
unfoldable pub lifetime : OpenSslSession → List SessionOp → List SslCall
unfolding apply drop_session
lifetime s [] = (drop_session s).1
lifetime s (op ∷ ops) = let next = apply s op in next.1 ++ lifetime next.0 ops

-- The calls of `SSL_shutdown` in a list.
abbrev pub shutdowns : List SslCall → ℕ
shutdowns [] = 0
shutdowns (ssl_shutdown ∷ calls) = 1 + shutdowns calls
shutdowns (ssl_read ∷ calls) = shutdowns calls
shutdowns (ssl_write frame ∷ calls) = shutdowns calls

-- Those still due.
abbrev pub due : Bool → ℕ
due true = 0
due false = 1

shutdowns-append : (xs ys : List SslCall) → shutdowns (xs ++ ys) ≡ shutdowns xs + shutdowns ys
shutdowns-append [] ys = omega arith
shutdowns-append (ssl_shutdown ∷ xs) ys = omega (arith, shutdowns-append xs ys)
shutdowns-append (ssl_read ∷ xs) ys = shutdowns-append xs ys
shutdowns-append (ssl_write frame ∷ xs) ys = shutdowns-append xs ys

apply-due :
    (s : OpenSslSession) (op : SessionOp)
    → due s.closed ≡ shutdowns (apply s op).1 + due (apply s op).0.closed
unfolding apply send poll close
apply-due s (op_send frame a) = ground arith
apply-due s (op_poll a) = ground arith
apply-due s op_close = ground arith

-- Whatever is done with a session and however often it is closed, the calls it makes until it is
-- dropped contain exactly one `SSL_shutdown`, and none if it was closed before.
pub shutdowns-lifetime :
    (s : OpenSslSession) (ops : List SessionOp) → shutdowns (lifetime s ops) ≡ due s.closed
unfolding lifetime drop_session close
shutdowns-lifetime s [] = ground arith
shutdowns-lifetime s (op ∷ ops) = omega (
  arith,
  shutdowns-append (apply s op).1 (lifetime (apply s op).0 ops),
  shutdowns-lifetime (apply s op).0 ops,
  apply-due s op,
)

-- OpenSSL asks for a retry.
abbrev pub IsRetry : SslError → Type 0
IsRetry want_read = Unit {0}
IsRetry want_write = Unit {0}
IsRetry zero_return = ⊥
IsRetry (other category) = ⊥

pub check_result-eq-ok : (a : Answer) → (check_result a ≡ ok tt) ↔ IsRetry a.error
unfolding check_result
check_result-eq-ok a = ground arith
