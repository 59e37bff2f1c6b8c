-- ===== src/Relay/Control.antt =====
-- `Relay::start` and `Relay::stop` of crates/core/src/relay.rs, and the end of the sender's thread.
use syslog_dtls_agent.Prelude.{
  ℕ, ◌+◌, true, false, none, some, List, [], ◌∷◌, length, Text, text, add64,
}
use syslog_dtls_agent.Sources.{Sources, no_sources, dropped}
use syslog_dtls_agent.Status.{default_status}
use syslog_dtls_agent.Relay.State.{State, Message}

-- The state that `start` builds: the texts are the bound address, the destination and the connector's
-- fingerprint.
unfoldable pub initial_state : Text → Text → Text → ℕ → State
initial_state address destination fingerprint now = record {
  status = record default_status {
    running = true;
    listener_status = text "listening";
    listener_address = address;
    dtls_status = text "resolving";
    remote_destination = destination;
    client_fingerprint = some fingerprint;
  };
  queue = [];
  sources = no_sources;
  started = now;
  stop_at = none;
}

-- The first block of `stop`: a deadline, if none is set.
unfoldable pub request_stop : ℕ → ℕ → State → State
request_stop drain now s = elim s.stop_at [
  | none ↦ record s { stop_at = some (now + drain) }
  | some at ↦ s
]

-- Its last block, after both threads are joined.
unfoldable pub mark_stopped : State → State
mark_stopped s = record s {
  status = record s.status {
    running = false;
    listener_status = text "stopped";
    dtls_status = text "stopped";
    in_flight = false;
  };
}

-- `while let Some(m) = s.queue.pop_front() { s.sources.dropped(m.source) }`.
unfoldable pub drop_all : List Message → Sources → Sources
drop_all [] sources = sources
drop_all (m ∷ queue) sources = drop_all queue (dropped sources m.source)

-- The block at the end of `send`.
unfoldable pub drain : State → State
drain s = record s {
  queue = [];
  sources = drop_all s.queue s.sources;
  status = record s.status {
    messages_dropped = add64 s.status.messages_dropped (length s.queue);
    drops = record s.status.drops { shutdown = add64 s.status.drops.shutdown (length s.queue) };
    queue_depth = 0;
    queue_bytes = 0;
    in_flight = false;
    dtls_status = text "stopped";
    running = false;
  };
}
