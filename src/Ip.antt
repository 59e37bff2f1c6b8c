-- ===== src/Ip.antt =====
-- `std::net::IpAddr` with its order, and `canonical_ip` of crates/core/src/config.rs.
pub mod Laws
mod Tests
use syslog_dtls_agent.Prelude.{ℕ, ◌/◌, ◌%◌, ◌^◌, Bool, true, false, ltb, ◌==◌, if◌then◌else◌}

-- An address as the number that its bits make, 32 of them or 128.
pub data IpAddr : Type 0 where
  v4 : ℕ → IpAddr
  v6 : ℕ → IpAddr

unfoldable pub ip_eq : IpAddr → IpAddr → Bool
ip_eq (v4 a) (v4 b) = a == b
ip_eq (v6 a) (v6 b) = a == b
ip_eq _ _ = false

-- The derived order: all of IPv4 before all of IPv6.
unfoldable pub ip_lt : IpAddr → IpAddr → Bool
ip_lt (v4 a) (v4 b) = ltb a b
ip_lt (v4 a) (v6 b) = true
ip_lt (v6 a) (v4 b) = false
ip_lt (v6 a) (v6 b) = ltb a b

-- `Ipv6Addr::to_ipv4_mapped` recognises `::ffff:a.b.c.d`.
unfoldable pub canonical_ip : IpAddr → IpAddr
canonical_ip (v4 a) = v4 a
canonical_ip (v6 a) = if a / 2 ^ 32 == 0xffff then v4 (a % 2 ^ 32) else v6 a

-- `std::net::SocketAddr`, through the accessors that the code calls.
pub record SocketAddr : Type 0 where
  pub ip : IpAddr
  pub port : ℕ

abbrev pub is_ipv4 : IpAddr → Bool
is_ipv4 (v4 a) = true
is_ipv4 (v6 a) = false

-- 127.0.0.0/8 and ::1, 0.0.0.0 and ::.
abbrev pub is_loopback : IpAddr → Bool
is_loopback (v4 a) = a / 2 ^ 24 == 127
is_loopback (v6 a) = a == 1

abbrev pub is_unspecified : IpAddr → Bool
is_unspecified (v4 a) = a == 0
is_unspecified (v6 a) = a == 0
