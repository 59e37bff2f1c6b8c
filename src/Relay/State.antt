-- ===== src/Relay/State.antt =====
-- The state that the workers of crates/core/src/relay.rs share behind one lock, and the functions
-- that several of them call on it. Each definition here and in Listener, Sender and Control that
-- takes a State to a State is what happens while the lock is held once.
use syslog_dtls_agent.Prelude.{
  ℕ, ◌-◌, ◌/◌, ◌*◌, Bool, true, false, Option, none, some, List, [], ◌∷◌, if◌then◌else◌, leb,
  length, Bytes, add64, sub64,
}
use syslog_dtls_agent.Ip.{IpAddr}
use syslog_dtls_agent.Sources.{Sources, source_limit, dropped, forwarded, snapshot}
use syslog_dtls_agent.Status.{Status, Drops}

pub record Message : Type 0 where
  pub payload : Bytes
  pub source : IpAddr

-- Instants are nanoseconds of one monotonic clock.
pub record State : Type 0 where
  pub status : Status
  pub queue : List Message
  pub sources : Sources
  pub started : ℕ
  pub stop_at : Option ℕ

abbrev pub millis : ℕ → ℕ
millis d = d * 1_000_000

-- `s.started.elapsed().as_secs()` at the instant `now`.
abbrev pub uptime : State → ℕ → ℕ
uptime s now = (now - s.started) / 1_000_000_000

abbrev pub is_set : Option ℕ → Bool
is_set none = false
is_set (some at) = true

-- `stop_at.is_some_and(|at| now >= at)`.
unfoldable pub expired : State → ℕ → Bool
expired s now = elim s.stop_at [ none ↦ false | some at ↦ leb at now ]

-- The three lines of every refusal: a reason, the total, the row of the source.
unfoldable pub count_drop : (Drops → Drops) → IpAddr → State → State
count_drop bump ip s = record s {
  status = record s.status {
    drops = bump s.status.drops;
    messages_dropped = add64 s.status.messages_dropped 1;
  };
  sources = dropped s.sources ip;
}

-- `if let Some(m) = s.queue.pop_front() { … }` of `finish_front`.
unfoldable pub pop_front : State → List Message → Bool → ℕ → State
pop_front s [] was_sent now = s
pop_front s (m ∷ rest) was_sent now = record s {
  queue = rest;
  status = record s.status { queue_bytes = sub64 s.status.queue_bytes (length m.payload) };
  sources =
      if was_sent then forwarded s.sources m.source (uptime s now) else dropped s.sources m.source;
}

-- The counters of `finish_front`, after the pop.
unfoldable pub count_finished : State → Bool → ℕ → State
count_finished s was_sent wall_ms =
    let settled = record s.status { queue_depth = length s.queue; in_flight = false } in
    record s {
      status =
          if was_sent
          then record settled {
            messages_forwarded = add64 settled.messages_forwarded 1;
            last_forwarded_ms = some wall_ms;
          }
          else record settled {
            messages_dropped = add64 settled.messages_dropped 1;
            drops = record settled.drops { oversized = add64 settled.drops.oversized 1 };
          };
    }

unfoldable pub finish_front : State → Bool → ℕ → ℕ → State
unfolding pop_front count_finished
finish_front s was_sent now wall_ms =
    count_finished (pop_front s s.queue was_sent now) was_sent wall_ms

-- The public snapshot: the status with the rows of the sources.
unfoldable pub status_snapshot : State → ℕ → Status
status_snapshot s now = record s.status {
  sources = snapshot s.sources (uptime s now);
  source_tracking_limit = source_limit;
  untracked_source_messages = s.sources.untracked_messages;
}
