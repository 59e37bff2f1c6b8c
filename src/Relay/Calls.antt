-- ===== src/Relay/Calls.antt =====
-- The calls that `send` of crates/core/src/relay.rs makes on a `Session` of crates/core/src/transport.rs,
-- and the order in which a session over OpenSSL may be called.
use syslog_dtls_agent.Prelude.{
  ℕ, Bool, Option, none, some, List, [], ◌∷◌, ◌++◌, if◌then◌else◌, bytes_eq, Bytes, Text, Result,
  ok, err,
}
use syslog_dtls_agent.Config.Schema.{Config}
use syslog_dtls_agent.Dtls.Session.{over_budget}
use syslog_dtls_agent.Relay.Sender.{
  Sender, Session, Observed, WriteOutcome, sent, would_block, Place, connecting, polling, writing,
  failing, closing,
}
use syslog_dtls_agent.Relay.World.{Action, sender_turn, System, step}

pub data SessionCall : Type 0 where
  -- `connect` returned a session of this record budget
  connected : ℕ → SessionCall
  called_poll : Result (Unit {0}) → SessionCall
  called_send : Bytes → Result WriteOutcome → SessionCall
  called_close : SessionCall

abbrev opened : Result Session → List SessionCall
opened (err e) = []
opened (ok session) = connected session.max_plaintext ∷ []

abbrev polled : Option Bytes → Result (Unit {0}) → List SessionCall
polled none result = called_poll result ∷ []
polled (some f) result = []

abbrev offered : Option Bytes → Result WriteOutcome → List SessionCall
offered none outcome = []
offered (some f) outcome = called_send f outcome ∷ []

abbrev closed : Option Session → List SessionCall
closed none = []
closed (some session) = called_close ∷ []

-- The calls of one turn of the sender.
abbrev pub calls_at : Place → Observed → Sender → List SessionCall
calls_at (connecting remote) o n = opened o.connect
calls_at polling o n = polled n.pending_frame o.poll
calls_at writing o n = offered n.pending_frame o.write
calls_at (failing e) o n = closed n.session
calls_at closing o n = closed n.session
calls_at place o n = []

abbrev pub calls_of : Action → System → List SessionCall
calls_of (sender_turn o) w = calls_at w.sender.place o w.sender
calls_of action w = []

module _ (rfc3339 : Bytes → Bool) (cfg : Config) (host : Result Text) (interval : ℕ → ℕ) where
  -- The calls of a whole schedule.
  unfoldable pub conversation : System → List Action → List SessionCall
  conversation w [] = []
  conversation w (a ∷ actions) =
      calls_of a w ++ conversation (step rfc3339 cfg host interval w a) actions

-- Where a conversation stands: no session, one that waits for any call, one that has to be offered the
-- same frame again, one that failed and has to be closed.
pub data Phase : Type 0 where
  absent : Phase
  idle : ℕ → Phase
  retrying : ℕ → Bytes → Phase
  broken : Phase

abbrev pub after_poll : ℕ → Result (Unit {0}) → Phase
after_poll budget (ok done) = idle budget
after_poll budget (err e) = broken

abbrev pub after_send : ℕ → Bytes → Result WriteOutcome → Phase
after_send budget f (ok sent) = idle budget
after_send budget f (ok would_block) = retrying budget f
after_send budget f (err e) = broken

-- What may be called, and where it leads. A frame has to fit the budget; a frame that would block has
-- to be offered again before anything is read; a closed session is not called.
abbrev pub allowed : Phase → SessionCall → Option Phase
allowed absent (connected budget) = some (idle budget)
allowed absent (called_poll result) = none
allowed absent (called_send f outcome) = none
allowed absent called_close = none
allowed (idle budget) (connected other) = none
allowed (idle budget) (called_poll result) = some (after_poll budget result)
allowed (idle budget) (called_send f outcome) =
    if over_budget budget f then none else some (after_send budget f outcome)
allowed (idle budget) called_close = some absent
allowed (retrying budget f) (connected other) = none
allowed (retrying budget f) (called_poll result) = none
allowed (retrying budget f) (called_send g outcome) =
    if bytes_eq f g then some (after_send budget f outcome) else none
allowed (retrying budget f) called_close = some absent
allowed broken (connected budget) = none
allowed broken (called_poll result) = none
allowed broken (called_send f outcome) = none
allowed broken called_close = some absent

abbrev pub obeys : Phase → List SessionCall → Option Phase
obeys phase [] = some phase
obeys phase (call ∷ calls) = elim (allowed phase call) [
  | none ↦ none
  | some next ↦ obeys next calls
]
