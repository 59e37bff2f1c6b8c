-- ===== src/Ip/Tests.antt =====
-- `canonical_ip` of crates/core/src/config.rs on concrete addresses.
use syslog_dtls_agent.Prelude.{◌+◌, ◌*◌, ◌^◌, ◌≡◌, refl, ◌↔◌, arith}
use syslog_dtls_agent.Ip.{v4, v6, canonical_ip}
use syslog_dtls_agent.Ip.Laws.{IsSameSource, canonical_ip-eq}

mapped_loopback : canonical_ip (v6 (0xffff * 2 ^ 32 + 0x7f000001)) ≡ v4 0x7f000001
unfolding canonical_ip
mapped_loopback = refl

canonical_ip-eq_example :
    (canonical_ip (v4 0x7f000001) ≡ canonical_ip (v6 (0xffff * 2 ^ 32 + 0x7f000001)))
    ↔ IsSameSource (v4 0x7f000001) (v6 (0xffff * 2 ^ 32 + 0x7f000001))
canonical_ip-eq_example =
    canonical_ip-eq (v4 0x7f000001) (v6 (0xffff * 2 ^ 32 + 0x7f000001)) (omega arith) (omega arith)
