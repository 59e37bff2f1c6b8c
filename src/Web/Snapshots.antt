-- ===== src/Web/Snapshots.antt =====
-- The interface of the relay that crates/cli/src/web.rs uses, filled by crates/core/src/relay.rs.
use syslog_dtls_agent.Prelude.{ℕ, ◌≡◌, refl, false, ok}
use syslog_dtls_agent.Dtls.Credentials.{OpenSslConnector}
use syslog_dtls_agent.Relay.State.{State, status_snapshot}
use syslog_dtls_agent.Relay.Control.{mark_stopped}
use syslog_dtls_agent.Web.Agent.{RelayApi}

pub mark_stopped_ends :
    (s : State) (now : ℕ) → (status_snapshot (mark_stopped s) now).running ≡ false
unfolding status_snapshot mark_stopped
mark_stopped_ends s now = refl

-- The snapshots of one instant, with a start that leaves this state; `stop` is its last block.
abbrev pub snapshots_at :
    {Cert Key : Type 0} → ℕ → State → RelayApi State (OpenSslConnector Cert Key)
snapshots_at now started = record {
  status = λ s. status_snapshot s now;
  stop = λ s. status_snapshot (mark_stopped s) now;
  start = λ cfg connection. ok started;
  stop_ends = λ s. mark_stopped_ends s now;
}
