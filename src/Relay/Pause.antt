-- ===== src/Relay/Pause.antt =====
-- The pauses between connection attempts: the delay, its doubling and its jitter in `send` of
-- crates/core/src/relay.rs.
use native.Mathlib.Nat.{mod-lt}
use syslog_dtls_agent.Prelude.{ℕ, ◌+◌, ◌*◌, ◌/◌, ◌%◌, ◌≤◌, arith}
use syslog_dtls_agent.Config.Schema.{Config}
use syslog_dtls_agent.Relay.Sender.{jittered, next_delay}
use syslog_dtls_agent.Relay.Turns.{IsPaced}

-- For a configuration within the delay limits and a delay in its range, whatever the jitter: the pause
-- lies between three quarters and five quarters of the delay, and within the maximum; the delay after
-- it has not shrunk, has at most doubled, and is in the range again.
pub jittered_bounds :
    (cfg : Config) (delay jitter : ℕ)
    → IsPaced cfg
    → cfg.dtls.retry_initial_ms ≤ delay
    → delay ≤ cfg.dtls.retry_max_ms
    → (delay * 3 / 4 ≤ jittered delay jitter cfg.dtls.retry_max_ms)
      × (jittered delay jitter cfg.dtls.retry_max_ms ≤ delay * 5 / 4)
      × (jittered delay jitter cfg.dtls.retry_max_ms ≤ cfg.dtls.retry_max_ms)
      × (delay ≤ next_delay delay cfg.dtls.retry_max_ms)
      × (next_delay delay cfg.dtls.retry_max_ms ≤ delay * 2)
      × (next_delay delay cfg.dtls.retry_max_ms ≤ cfg.dtls.retry_max_ms)
unfolding jittered next_delay
jittered_bounds cfg delay jitter p least most =
    let small : jitter % (delay / 2 + 1) ≤ delay / 2 =
      omega (arith, mod-lt jitter {m = delay / 2 + 1} (omega arith)) in
    ground (arith, p, least, most, small)
