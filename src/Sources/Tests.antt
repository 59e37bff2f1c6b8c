-- ===== src/Sources/Tests.antt =====
-- The table of crates/core/src/sources.rs on concrete calls.
use mathlib.Core.Option
use syslog_dtls_agent.Prelude.{◌≡◌, refl, true, none, some, List, [], ◌∷◌, arith}
use syslog_dtls_agent.Ip.{IpAddr, v4, ip_eq}
use syslog_dtls_agent.Sources.{no_sources, lookup, received, source_rates}
use syslog_dtls_agent.Sources.Table.{IsValid, no_sources-IsValid}
use syslog_dtls_agent.Sources.Windows.{IsRising}
use syslog_dtls_agent.Sources.History.{
  Event, receive, discard, forward, run, forwards, row_spec, snapshot_row,
}
use syslog_dtls_agent.Sources.Bounded.{run-IsValid}

abbrev peer : IpAddr
peer = v4 0x7f000001

abbrev other : IpAddr
other = v4 0x7f000002

abbrev calls : List Event
calls =
    forward peer 3
    ∷ receive other true 10
    ∷ discard other
    ∷ receive peer true 20
    ∷ forward peer 59
    ∷ []

run-IsValid_example : IsValid (run no_sources (receive peer true 5 ∷ calls))
run-IsValid_example = run-IsValid no_sources (receive peer true 5 ∷ calls) no_sources-IsValid

no_peer : lookup peer no_sources.entries ≡ none
unfolding lookup
no_peer = refl

calls-IsRising : IsRising 60 0 (forwards peer calls)
unfolding forwards ip_eq
calls-IsRising = (omega arith, (omega arith, omega arith))

snapshot_row_example :
    Option.map (source_rates 60) (lookup peer (run (received no_sources peer true 5) calls).entries)
    ≡ some (row_spec peer true 5 calls 60)
snapshot_row_example =
    snapshot_row no_sources peer true 5 calls 60 no_peer (omega arith) calls-IsRising
