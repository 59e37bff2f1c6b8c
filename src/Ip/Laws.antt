-- ===== src/Ip/Laws.antt =====
-- The order and the equality of addresses, and what `canonical_ip` of crates/core/src/config.rs
-- identifies.
use syslog_dtls_agent.Prelude.{
  ◌+◌, ◌*◌, ◌^◌, ◌<◌, ◌≡◌, refl, ap, ◌↔◌, ◌⊎◌, inl, inr, true, false, arith,
}
use syslog_dtls_agent.Ip.{IpAddr, v4, v6, ip_eq, ip_lt, canonical_ip}

pub ip_eq→eq : (a b : IpAddr) → ip_eq a b ≡ true → a ≡ b
unfolding ip_eq
ip_eq→eq (v4 a) (v4 b) h = ground arith
ip_eq→eq (v6 a) (v6 b) h = ground arith
ip_eq→eq (v4 a) (v6 b) h = ground arith
ip_eq→eq (v6 a) (v4 b) h = ground arith

pub ip_eq_self : (a : IpAddr) → ip_eq a a ≡ true
unfolding ip_eq
ip_eq_self (v4 a) = ground arith
ip_eq_self (v6 a) = ground arith

pub ip_lt_trans : (a b c : IpAddr) → ip_lt a b ≡ true → ip_lt b c ≡ true → ip_lt a c ≡ true
unfolding ip_lt
ip_lt_trans (v4 a) (v4 b) (v4 c) h k = ground arith
ip_lt_trans (v4 a) (v4 b) (v6 c) h k = refl
ip_lt_trans (v4 a) (v6 b) (v4 c) h k = ground arith
ip_lt_trans (v4 a) (v6 b) (v6 c) h k = refl
ip_lt_trans (v6 a) (v4 b) c h k = ground arith
ip_lt_trans (v6 a) (v6 b) (v4 c) h k = ground arith
ip_lt_trans (v6 a) (v6 b) (v6 c) h k = ground arith

pub ip_lt_irrefl : (a : IpAddr) → ip_lt a a ≡ false
unfolding ip_lt
ip_lt_irrefl (v4 a) = ground arith
ip_lt_irrefl (v6 a) = ground arith

-- Two addresses that are not equal are ordered.
pub ip_lt_total : (a b : IpAddr) → ip_eq a b ≡ false → ip_lt a b ≡ false → ip_lt b a ≡ true
unfolding ip_eq ip_lt
ip_lt_total (v4 a) (v4 b) h k = ground arith
ip_lt_total (v4 a) (v6 b) h k = ground arith
ip_lt_total (v6 a) (v4 b) h k = refl
ip_lt_total (v6 a) (v6 b) h k = ground arith

-- The bits of an address fit its version.
abbrev pub IsAddress : IpAddr → Type 0
IsAddress (v4 a) = a < 2 ^ 32
IsAddress (v6 a) = a < 2 ^ 128

-- The second address is `::ffff:a.b.c.d`, for the IPv4 address that comes first.
abbrev pub IsMappedForm : IpAddr → IpAddr → Type 0
IsMappedForm (v4 a) (v6 b) = b ≡ 0xffff * 2 ^ 32 + a
IsMappedForm _ _ = ⊥

abbrev pub IsSameSource : IpAddr → IpAddr → Type 0
IsSameSource a b = (a ≡ b) ⊎ IsMappedForm a b ⊎ IsMappedForm b a

pub canonical_ip-canonical_ip : (a : IpAddr) → canonical_ip (canonical_ip a) ≡ canonical_ip a
unfolding canonical_ip
canonical_ip-canonical_ip (v4 a) = refl
canonical_ip-canonical_ip (v6 a) = ground arith

same_of_canonical :
    (a b : IpAddr) → IsAddress a → IsAddress b → canonical_ip a ≡ canonical_ip b → IsSameSource a b
unfolding canonical_ip
same_of_canonical (v4 a) (v4 b) ha hb e = inl (ground arith)
same_of_canonical (v4 a) (v6 b) ha hb e = inr (inl (ground arith))
same_of_canonical (v6 a) (v4 b) ha hb e = inr (inr (ground arith))
same_of_canonical (v6 a) (v6 b) ha hb e = inl (ground arith)

canonical_of_same :
    (a b : IpAddr) → IsAddress a → IsAddress b → IsSameSource a b → canonical_ip a ≡ canonical_ip b
unfolding canonical_ip
canonical_of_same a b ha hb (inl e) = ap canonical_ip e
canonical_of_same (v4 a) (v6 b) ha hb (inr (inl e)) = ground arith
canonical_of_same (v6 a) (v4 b) ha hb (inr (inr e)) = ground arith
canonical_of_same (v4 a) (v4 b) ha hb (inr (inl e)) = absurd e
canonical_of_same (v6 a) (v6 b) ha hb (inr (inl e)) = absurd e
canonical_of_same (v6 a) (v4 b) ha hb (inr (inl e)) = absurd e
canonical_of_same (v4 a) (v4 b) ha hb (inr (inr e)) = absurd e
canonical_of_same (v6 a) (v6 b) ha hb (inr (inr e)) = absurd e
canonical_of_same (v4 a) (v6 b) ha hb (inr (inr e)) = absurd e

-- Of two addresses whose bits fit their version, the canonical forms are equal exactly when the
-- addresses are, or one is the IPv4-mapped IPv6 form of the other.
pub canonical_ip-eq :
    (a b : IpAddr)
    → IsAddress a
    → IsAddress b
    → (canonical_ip a ≡ canonical_ip b) ↔ IsSameSource a b
canonical_ip-eq a b ha hb = (same_of_canonical a b ha hb, canonical_of_same a b ha hb)
