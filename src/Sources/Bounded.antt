-- ===== src/Sources/Bounded.antt =====
-- The table of crates/core/src/sources.rs stays sorted and small.
use syslog_dtls_agent.Prelude.{List, [], ◌∷◌}
use syslog_dtls_agent.Sources.{Sources}
use syslog_dtls_agent.Sources.Table.{IsValid, received-IsValid, dropped-IsValid, forwarded-IsValid}
use syslog_dtls_agent.Sources.History.{Event, receive, discard, forward, apply, run}

apply-IsValid : (s : Sources) (e : Event) → IsValid s → IsValid (apply s e)
unfolding apply
apply-IsValid s (receive ip allowed wall_ms) v = received-IsValid s ip allowed wall_ms v
apply-IsValid s (discard ip) v = dropped-IsValid s ip v
apply-IsValid s (forward ip second) v = forwarded-IsValid s ip v second

-- Whatever is recorded, and in whatever order, a table with rows in strict order of their addresses, at
-- most 256 of them, remains one.
pub run-IsValid : (s : Sources) (es : List Event) → IsValid s → IsValid (run s es)
unfolding run
run-IsValid s [] v = v
run-IsValid s (e ∷ es) v = run-IsValid (apply s e) es (apply-IsValid s e v)
