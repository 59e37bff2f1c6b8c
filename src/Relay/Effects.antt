-- ===== src/Relay/Effects.antt =====
-- What each turn of the threads of crates/core/src/relay.rs does to the queue.
use syslog_dtls_agent.Prelude.{
  ℕ, ◌+◌, ◌-◌, ◌%◌, ◌^◌, ◌≤◌, ◌≡◌, refl, sym, ap, ◌∙◌, ◌⊎◌, inl, inr, Bool, true, false, Option,
  none, some, List, [], ◌∷◌, ◌++◌, map, append-nil, if◌then◌else◌, ltb, length, length-append, take,
  take-append, drop-append, Bytes, Text, Result, ok, err, Bool-cases, Option-cases, arith,
}
use syslog_dtls_agent.Ip.{IpAddr, canonical_ip}
use syslog_dtls_agent.Config.Schema.{Config}
use syslog_dtls_agent.Framing.Frame.{frame}
use syslog_dtls_agent.Framing.Message.{valid_message}
use syslog_dtls_agent.Relay.State.{State, Message, is_set, finish_front, count_drop}
use syslog_dtls_agent.Relay.Control.{drain}
use syslog_dtls_agent.Relay.Listener.{
  buffer_size, source_allowed, count_arrival, enqueue, queue_full, admit, on_datagram,
}
use syslog_dtls_agent.Relay.Sender.{
  Sender, Session, Observed, WriteOutcome, sent, would_block, Place, top, resolved, connecting,
  retrying, fetching, writing, failing, closing, at_top, choose, on_connect, retry, fetch_front,
  fetch, write_pending, fail, step_at,
}
use syslog_dtls_agent.Relay.World.{appended, removed, frames_sent, sent_frame, nonempty}
use syslog_dtls_agent.Relay.Turns.{IsHeld, IsHeld-front}

-- The frames of the settled messages that a session took.
unfoldable pub frames_of : List (Message × Bool) → List Bytes
frames_of [] = []
frames_of ((m, true) ∷ rest) = frame m.payload ∷ frames_of rest
frames_of ((m, false) ∷ rest) = frames_of rest

pub frames_of-append :
    (xs ys : List (Message × Bool)) → frames_of (xs ++ ys) ≡ frames_of xs ++ frames_of ys
unfolding frames_of
frames_of-append [] ys = refl
frames_of-append ((m, true) ∷ xs) ys = ap (λ l. frame m.payload ∷ l) (frames_of-append xs ys)
frames_of-append ((m, false) ∷ xs) ys = frames_of-append xs ys

pub frames_of-none : (front : List Message) → frames_of (map (λ m. (m, false)) front) ≡ []
unfolding frames_of
frames_of-none [] = refl
frames_of-none (m ∷ front) = frames_of-none front

pub removed_lem :
    (s t : State) (front : List Message) → s.queue ≡ front ++ t.queue → removed s t ≡ front
removed_lem s t front e =
    rw (e, length-append front t.queue, add-sub (length front) (length t.queue))
      (take-append front t.queue)
  where
    add-sub : (a b : ℕ) → a + b - b ≡ a
    add-sub a b = omega arith

pub appended_lem :
    (s t : State) (back : List Message) → t.queue ≡ s.queue ++ back → appended s t ≡ back
appended_lem s t back e = rw e (drop-append s.queue back)

-- A turn of the sender takes a part of the queue's front, and the session takes the frames of it if it
-- takes any.
pub record IsEffect (s t : State) (frames : List Bytes) : Type 0 where
  pub front : List Message
  pub taken : s.queue ≡ front ++ t.queue
  pub framed : frames ≡ frames_of (map (λ m. (m, nonempty frames)) front)
  pub counted :
      t.status.messages_forwarded % 2 ^ 64 ≡ (s.status.messages_forwarded + length frames) % 2 ^ 64

abbrev IsQuiet : State → State → Type 0
IsQuiet s t = (t.queue ≡ s.queue) × (t.status.messages_forwarded ≡ s.status.messages_forwarded)

quiet : (s t : State) → IsQuiet s t → IsEffect s t []
unfolding frames_of
quiet s t q = record { front = []; taken = sym q.0; framed = refl; counted = ground arith }

at_top-IsQuiet : (o : Observed) (n : Sender) (s : State) → IsQuiet s (at_top o n s).1
unfolding at_top
at_top-IsQuiet o n s = ground arith

choose-IsQuiet :
    (addresses : List Text) (n : Sender) (s : State) → IsQuiet s (choose addresses n s).1
unfolding choose
choose-IsQuiet addresses n s = ground arith

on_connect-IsQuiet : (o : Observed) (n : Sender) (s : State) → IsQuiet s (on_connect o n s).1
unfolding on_connect
on_connect-IsQuiet o n s = ground arith

retry-IsEffect :
    (cfg : Config) (e : Text) (o : Observed) (n : Sender) (s : State)
    → IsEffect s (retry cfg e o n s).1 []
unfolding retry
retry-IsEffect cfg e o n s = quiet s _ (refl, refl)

fail-IsEffect :
    (cfg : Config) (e : Text) (o : Observed) (n : Sender) (s : State)
    → IsEffect s (fail cfg e o n s).1 []
unfolding fail
fail-IsEffect cfg e o n s = quiet s _ (refl, refl)

-- `finish_front` pops the front and counts the message as forwarded or dropped.
finish_front-IsEffect :
    (s : State) (m : Message) (rest : List Message) (was_sent : Bool) (now wall_ms : ℕ)
    → s.queue ≡ m ∷ rest
    → IsEffect s
        (finish_front s was_sent now wall_ms)
        (if was_sent then frame m.payload ∷ [] else [])
unfolding finish_front frames_of
finish_front-IsEffect s m rest true now wall_ms e = record {
  front = m ∷ [];
  taken = ground arith;
  framed = refl;
  counted = ground arith;
}
finish_front-IsEffect s m rest false now wall_ms e = record {
  front = m ∷ [];
  taken = ground arith;
  framed = refl;
  counted = ground arith;
}

fetch_front-IsEffect :
    (queue : List Message) (session : Session) (o : Observed) (n : Sender) (s : State)
    → s.queue ≡ queue
    → IsEffect s (fetch_front queue session o n s).1 []
unfolding fetch_front
fetch_front-IsEffect [] session o n s e = quiet s s (refl, refl)
fetch_front-IsEffect (m ∷ rest) session o n s e =
    elim (Bool-cases (ltb session.max_plaintext (length (frame m.payload)))) [
      | inl h ↦ rw h (finish_front-IsEffect s m rest false o.now o.wall_ms e)
      | inr h ↦ rw h (quiet s _ (refl, refl))
    ]

fetch-IsEffect : (o : Observed) (n : Sender) (s : State) → IsEffect s (fetch o n s).1 []
unfolding fetch
fetch-IsEffect o n s = elim (Option-cases n.session) [
  | inl e ↦ rw (e, fetch) (quiet s s (refl, refl))
  | inr (session, e) ↦ rw (e, fetch) (fetch_front-IsEffect s.queue session o n s refl)
]

write_pending-IsQuiet :
    (cfg : Config) (interval : ℕ → ℕ) (o : Observed) (n : Sender) (s : State)
    → (n.pending_frame ≡ none) ⊎ (o.write ≡ ok would_block) ⊎ ((e : Text) × (o.write ≡ err e))
    → IsQuiet s (write_pending cfg interval o n s).1
unfolding write_pending
write_pending-IsQuiet cfg interval o n s h = ground arith

module _ (cfg : Config) (interval : ℕ → ℕ) (o : Observed) (n : Sender) (s : State) where
  write_pending-sent :
      (f : Bytes) (m : Message) (rest : List Message)
      → n.pending_frame ≡ some f
      → o.write ≡ ok sent
      → s.queue ≡ m ∷ rest
      → f ≡ frame m.payload
      → IsEffect s (write_pending cfg interval o n s).1 (f ∷ [])
  unfolding write_pending
  write_pending-sent f m rest p w e same =
      rw (p, w, same) (finish_front-IsEffect s m rest true o.now o.wall_ms e)

  write_pending-IsEffect :
      (pending : Option Bytes) (w : Result WriteOutcome)
      → n.pending_frame ≡ pending
      → o.write ≡ w
      → IsHeld pending n.session s.queue
      → IsEffect s (write_pending cfg interval o n s).1 (sent_frame w pending)
  write_pending-IsEffect none (ok sent) p w h =
      quiet s _ (write_pending-IsQuiet cfg interval o n s (inl p))
  write_pending-IsEffect none (ok would_block) p w h =
      quiet s _ (write_pending-IsQuiet cfg interval o n s (inl p))
  write_pending-IsEffect none (err e) p w h =
      quiet s _ (write_pending-IsQuiet cfg interval o n s (inl p))
  write_pending-IsEffect (some f) (ok would_block) p w h =
      quiet s _ (write_pending-IsQuiet cfg interval o n s (inr (inl w)))
  write_pending-IsEffect (some f) (err e) p w h =
      quiet s _ (write_pending-IsQuiet cfg interval o n s (inr (inr (e, w))))
  write_pending-IsEffect (some f) (ok sent) p w h =
      let (m, rest, front, same) = IsHeld-front f n.session s.queue h in
      write_pending-sent f m rest p w front same

drain-IsEffect : (s : State) → IsEffect s (drain s) []
unfolding drain
drain-IsEffect s = record {
  front = s.queue;
  taken = sym (append-nil s.queue);
  framed = sym (frames_of-none s.queue);
  counted = omega arith;
}

-- Each turn of the sender is such an effect, with the frames that `frames_sent` says.
pub step_at-IsEffect :
    (cfg : Config) (host : Result Text) (interval : ℕ → ℕ) (p : Place) (o : Observed) (n : Sender)
    (s : State)
    → IsHeld n.pending_frame n.session s.queue
    → IsEffect s (step_at cfg host interval p o n s).1 (frames_sent p o n)
step_at-IsEffect cfg host interval top o n s h = quiet s _ (at_top-IsQuiet o n s)
step_at-IsEffect cfg host interval (resolved addresses) o n s h =
    quiet s _ (choose-IsQuiet addresses n s)
step_at-IsEffect cfg host interval (connecting remote) o n s h =
    quiet s _ (on_connect-IsQuiet o n s)
step_at-IsEffect cfg host interval (retrying e) o n s h = retry-IsEffect cfg e o n s
step_at-IsEffect cfg host interval fetching o n s h = fetch-IsEffect o n s
step_at-IsEffect cfg host interval writing o n s h =
    write_pending-IsEffect cfg interval o n s n.pending_frame o.write refl refl h
step_at-IsEffect cfg host interval (failing e) o n s h = fail-IsEffect cfg e o n s
step_at-IsEffect cfg host interval closing o n s h = drain-IsEffect s
step_at-IsEffect cfg host interval p o n s h = quiet s _ (refl, refl)

-- What the listener queues: an allowed source, a valid message, within the size limit.
pub record IsAdmissible (rfc3339 : Bytes → Bool) (cfg : Config) (m : Message) : Type 0 where
  pub from_allowed : source_allowed cfg.source_access m.source ≡ true
  pub well_formed : valid_message rfc3339 m.payload ≡ true
  pub sized : length m.payload ≤ cfg.listener.max_message_bytes

-- The listener leaves the queue alone, or, while no stop is requested, appends an admissible message.
pub data IsArrival (rfc3339 : Bytes → Bool) (cfg : Config) (s t : State) : Type 0 where
  refused : t.queue ≡ s.queue → IsArrival rfc3339 cfg s t
  queued :
      (m : Message)
      → t.queue ≡ s.queue ++ m ∷ []
      → IsAdmissible rfc3339 cfg m
      → s.stop_at ≡ none
      → IsArrival rfc3339 cfg s t

is_set-false : (o : Option ℕ) → is_set o ≡ false → o ≡ none
is_set-false none h = refl
is_set-false (some a) h = absurd (ground arith)

module _ (rfc3339 : Bytes → Bool) (cfg : Config) where
  admit-IsArrival :
      (ip : IpAddr) (allowed : Bool) (payload : Bytes) (s : State)
      → allowed ≡ source_allowed cfg.source_access ip
      → IsArrival rfc3339 cfg s (admit rfc3339 cfg ip allowed payload s)
  unfolding admit count_drop enqueue
  admit-IsArrival ip allowed payload s e = elim (Bool-cases allowed) [
    | inr h ↦ rw h (refused refl)
    | inl allow ↦ rw allow (elim (Bool-cases (is_set s.stop_at)) [
      | inl h ↦ rw h (refused refl)
      | inr open_ ↦
          rw open_ (elim (Bool-cases (ltb cfg.listener.max_message_bytes (length payload))) [
            | inl h ↦ rw h (refused refl)
            | inr small ↦ rw small (elim (Bool-cases (valid_message rfc3339 payload)) [
              | inr h ↦ rw h (refused refl)
              | inl good ↦ rw good (elim (Bool-cases (queue_full cfg (length payload) s)) [
                | inl h ↦ rw h (refused refl)
                | inr room ↦ rw room (
                    queued (record { payload = payload; source = ip }) refl
                      (record {
                        from_allowed = sym e ∙ allow;
                        well_formed = good;
                        sized = ground arith;
                      })
                      (is_set-false s.stop_at open_))
              ])
            ])
          ])
    ])
  ]

  IsArrival-rebase :
      (r s t : State)
      → s.queue ≡ r.queue
      → s.stop_at ≡ r.stop_at
      → IsArrival rfc3339 cfg s t
      → IsArrival rfc3339 cfg r t
  IsArrival-rebase r s t h k (refused e) = refused (e ∙ h)
  IsArrival-rebase r s t h k (queued m e a open_) =
      queued m (e ∙ ap (λ q. q ++ m ∷ []) h) a (sym k ∙ open_)

  -- Whatever arrives, the listener leaves the queue as it is, or, only while no stop is requested, appends
  -- one message that came from an allowed source, is valid and is within the size limit.
  pub on_datagram-IsArrival :
      (peer : IpAddr) (bytes : Bytes) (wall_ms : ℕ) (s : State)
      → IsArrival rfc3339 cfg s (on_datagram rfc3339 cfg peer bytes wall_ms s)
  unfolding on_datagram count_arrival
  on_datagram-IsArrival peer bytes wall_ms s =
      IsArrival-rebase s (count_arrival (canonical_ip peer) _ wall_ms s) _ refl refl
        (admit-IsArrival (canonical_ip peer) _ (take buffer_size bytes) _ refl)

  admit_kept :
      (ip : IpAddr) (allowed : Bool) (payload : Bytes) (s : State)
      → ((admit rfc3339 cfg ip allowed payload s).stop_at ≡ s.stop_at)
        × ((admit rfc3339 cfg ip allowed payload s).status.messages_forwarded
            ≡ s.status.messages_forwarded)
  unfolding admit count_drop enqueue
  admit_kept ip allowed payload s = ground arith

  pub on_datagram_kept :
      (peer : IpAddr) (bytes : Bytes) (wall_ms : ℕ) (s : State)
      → ((on_datagram rfc3339 cfg peer bytes wall_ms s).stop_at ≡ s.stop_at)
        × ((on_datagram rfc3339 cfg peer bytes wall_ms s).status.messages_forwarded
            ≡ s.status.messages_forwarded)
  unfolding on_datagram count_arrival
  on_datagram_kept peer bytes wall_ms s =
      admit_kept (canonical_ip peer) _ (take buffer_size bytes) _
