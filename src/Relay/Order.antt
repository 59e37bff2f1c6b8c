-- ===== src/Relay/Order.antt =====
-- Every schedule of the threads of crates/core/src/relay.rs: the books, the order of delivery, and what
-- may reach the wire.
use syslog_dtls_agent.Prelude.{
  ◌%◌, ◌^◌, ◌≡◌, refl, sym, ap, ap₂, ◌∙◌, Bool, true, Option, none, some, List, [], ◌∷◌, ◌++◌, map,
  append-nil, append_assoc, length, length-append, All, Bytes, arith,
}
use syslog_dtls_agent.Config.Schema.{Config}
use syslog_dtls_agent.Relay.State.{State, Message, is_set}
use syslog_dtls_agent.Relay.Sender.{Sender, Session, Place, stopped, closing, top}
use syslog_dtls_agent.Relay.World.{System, appended, removed, nonempty}
use syslog_dtls_agent.Relay.Accounts.{IsAccounted}
use syslog_dtls_agent.Relay.Turns.{IsHeld, IsPlaced, IsInStep}
use syslog_dtls_agent.Relay.Effects.{
  frames_of, frames_of-append, removed_lem, appended_lem, IsEffect, IsAdmissible, IsArrival,
  refused, queued,
}

abbrev pub messages_of : List (Message × Bool) → List Message
messages_of = map (λ entry. entry.0)

-- The records beside the state agree with it: first in, first out.
pub record IsOrdered (w : System) : Type 0 where
  pub fifo : w.accepted ≡ messages_of w.settled ++ w.state.queue
  pub on_wire : w.wire ≡ frames_of w.settled
  pub wire_counted : w.state.status.messages_forwarded % 2 ^ 64 ≡ length w.wire % 2 ^ 64

pub record IsSound (rfc3339 : Bytes → Bool) (cfg : Config) (w : System) : Type 0 where
  pub in_step : IsInStep cfg (w.sender, w.state)
  pub ordered : IsOrdered w
  pub admissible : All (IsAdmissible rfc3339 cfg) w.accepted

IsHeld-append :
    (frame : Option Bytes) (session : Option Session) (queue back : List Message)
    → IsHeld frame session queue
    → IsHeld frame session (queue ++ back)
IsHeld-append none session queue back h = tt
IsHeld-append (some f) none queue back h = absurd h
IsHeld-append (some f) (some session) [] back h = absurd h
IsHeld-append (some f) (some session) (m ∷ queue) back h = h

-- What the other threads may change of the state: a stop stays, and after one the queue does not grow.
pub record IsFurther (s t : State) : Type 0 where
  pub back : List Message
  pub grown : t.queue ≡ s.queue ++ back
  pub stop_stays : is_set s.stop_at ≡ true → (is_set t.stop_at ≡ true) × (back ≡ [])

module _ (n : Sender) (s t : State) (f : IsFurther s t) where
  queue_stays : is_set s.stop_at ≡ true → t.queue ≡ s.queue
  queue_stays h = f.grown ∙ rw ((f.stop_stays h).1) (append-nil s.queue)

  IsPlaced-further : (p : Place) → IsPlaced p n s → IsPlaced p n t
  IsPlaced-further top h = tt
  IsPlaced-further Place.resolving h = h
  IsPlaced-further (Place.looking_up until) h = h
  IsPlaced-further (Place.resolved []) h = h
  IsPlaced-further (Place.resolved (a ∷ rest)) h = h
  IsPlaced-further (Place.connecting remote) h = h
  IsPlaced-further (Place.connect_failed e) h = h
  IsPlaced-further (Place.retrying e) h = h
  IsPlaced-further Place.polling h = h
  IsPlaced-further Place.fetching h = h
  IsPlaced-further Place.writing h = h
  IsPlaced-further (Place.failing e) h = h
  IsPlaced-further Place.settling h = h
  IsPlaced-further (Place.pausing until) h = tt
  IsPlaced-further closing h = (f.stop_stays h).0
  IsPlaced-further stopped h = ((f.stop_stays h.0).0, queue_stays h.0 ∙ h.1, h.2, h.3)
  IsPlaced-further Place.crashed h = h

  pub IsInStep-further :
      (cfg : Config) → IsAccounted cfg t → IsInStep cfg (n, s) → IsInStep cfg (n, t)
  IsInStep-further cfg a v = record {
    placed = IsPlaced-further n.place v.placed;
    held = rw f.grown (IsHeld-append n.pending_frame n.session s.queue f.back v.held);
    accounted = a;
    delay_least = v.delay_least;
    delay_most = v.delay_most;
  }

pub IsArrival-IsFurther :
    (rfc3339 : Bytes → Bool) (cfg : Config) (s t : State)
    → IsArrival rfc3339 cfg s t
    → t.stop_at ≡ s.stop_at
    → IsFurther s t
IsArrival-IsFurther rfc3339 cfg s t (refused e) k = record {
  back = [];
  grown = e ∙ sym (append-nil s.queue);
  stop_stays = λ h. (rw k h, refl);
}
IsArrival-IsFurther rfc3339 cfg s t (queued m e a open_) k = record {
  back = m ∷ [];
  grown = e;
  stop_stays = λ h. absurd (ground (arith, h));
}

messages_of-flagged :
    (flag : Bool) (front : List Message) → messages_of (map (λ m. (m, flag)) front) ≡ front
messages_of-flagged flag [] = refl
messages_of-flagged flag (m ∷ front) = ap (λ l. m ∷ l) (messages_of-flagged flag front)

messages_of-append :
    (xs ys : List (Message × Bool)) → messages_of (xs ++ ys) ≡ messages_of xs ++ messages_of ys
messages_of-append [] ys = refl
messages_of-append (x ∷ xs) ys = ap (λ l. x.0 ∷ l) (messages_of-append xs ys)

-- A turn of the sender moves messages from the queue to the settled ones.
pub IsOrdered-turn :
    (w : System) (n : Sender) (t : State) (frames : List Bytes)
    → IsEffect w.state t frames
    → IsOrdered w
    → IsOrdered (record w {
      sender = n;
      state = t;
      settled = w.settled ++ map (λ m. (m, nonempty frames)) (removed w.state t);
      wire = w.wire ++ frames;
    })
IsOrdered-turn w n t frames e o = record {
  fifo =
      rw
        (
          removed_lem w.state t e.front e.taken,
          messages_of-append w.settled (map (λ m. (m, nonempty frames)) e.front),
          messages_of-flagged (nonempty frames) e.front,
          append_assoc,
        )
        (o.fifo ∙ ap (λ q. messages_of w.settled ++ q) e.taken);
  on_wire =
      rw
        (
          removed_lem w.state t e.front e.taken,
          frames_of-append w.settled (map (λ m. (m, nonempty frames)) e.front),
        )
        (ap₂ (λ a b. a ++ b) o.on_wire e.framed);
  wire_counted = omega (arith, e.counted, o.wire_counted, length-append w.wire frames);
}

-- An arrival extends the accepted messages and the queue alike.
pub IsOrdered-arrival :
    (w : System) (t : State) (f : IsFurther w.state t)
    → t.status.messages_forwarded ≡ w.state.status.messages_forwarded
    → IsOrdered w
    → IsOrdered (record w { state = t; accepted = w.accepted ++ appended w.state t })
IsOrdered-arrival w t f k o = record {
  fifo =
      rw (appended_lem w.state t f.back f.grown, f.grown, o.fifo)
        (append_assoc (messages_of w.settled) w.state.queue f.back);
  on_wire = o.on_wire;
  wire_counted = rw k o.wire_counted;
}
