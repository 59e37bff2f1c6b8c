-- ===== src/Relay/Turns.antt =====
-- The sender of crates/core/src/relay.rs keeps its variables and the shared state in step: a frame that
-- waits is that of the message at the front, and each place of the loop finds what it unwraps.
use syslog_dtls_agent.Prelude.{
  ℕ, suc, ◌%◌, ◌≤◌, ◌≡◌, refl, true, false, Option, none, some, List, [], ◌∷◌, length,
  get_elem?-in_bounds, Bytes, Text, Result, Option-cases, inl, inr, arith,
}
use syslog_dtls_agent.Config.Schema.{Config}
use syslog_dtls_agent.Framing.Frame.{frame}
use syslog_dtls_agent.Sources.{is_some}
use syslog_dtls_agent.Relay.State.{State, Message, is_set, expired}
use syslog_dtls_agent.Relay.Control.{drain}
use syslog_dtls_agent.Relay.Accounts.{
  IsLimited, IsAccounted, finish_front-IsAccounted, drain-IsAccounted,
}
use syslog_dtls_agent.Relay.Sender.{
  Sender, Session, World, Observed, Place, top, resolving, looking_up, resolved, connecting,
  connect_failed, retrying, polling, fetching, writing, failing, settling, pausing, closing,
  stopped, crashed, next_delay, at_top, start_lookup, await_lookup, choose, on_connect,
  on_connect_failed, retry, poll_session, fetch_front, fetch, write_pending, fail, settle, wait,
  step_at,
}

-- A waiting frame is the frame of the message at the front, and fits the session.
abbrev pub IsHeld : Option Bytes → Option Session → List Message → Type 0
IsHeld none session queue = Unit {0}
IsHeld (some f) none queue = ⊥
IsHeld (some f) (some session) [] = ⊥
IsHeld (some f) (some session) (m ∷ queue) =
    (f ≡ frame m.payload) × (length f ≤ session.max_plaintext)

-- What each place relies on. No step leads to `crashed`.
abbrev pub IsPlaced : Place → Sender → State → Type 0
IsPlaced top n s = Unit {0}
IsPlaced resolving n s = n.session ≡ none
IsPlaced (looking_up until) n s = n.session ≡ none
IsPlaced (resolved []) n s = ⊥
IsPlaced (resolved (a ∷ rest)) n s = n.session ≡ none
IsPlaced (connecting remote) n s = n.session ≡ none
IsPlaced (connect_failed e) n s = n.session ≡ none
IsPlaced (retrying e) n s = n.session ≡ none
IsPlaced polling n s = is_some n.session ≡ true
IsPlaced fetching n s = (is_some n.session ≡ true) × (n.pending_frame ≡ none)
IsPlaced writing n s = is_some n.session ≡ true
IsPlaced (failing e) n s = is_some n.session ≡ true
IsPlaced settling n s = is_some n.session ≡ true
IsPlaced (pausing until) n s = Unit {0}
IsPlaced closing n s = is_set s.stop_at ≡ true
IsPlaced stopped n s =
    (is_set s.stop_at ≡ true) × (s.queue ≡ []) × (n.session ≡ none) × (n.pending_frame ≡ none)
IsPlaced crashed n s = ⊥

-- The limits that `Config::validate` puts on the retry delays.
pub record IsPaced (cfg : Config) : Type 0 where
  pub initial_positive : 100 ≤ cfg.dtls.retry_initial_ms
  pub initial_within : cfg.dtls.retry_initial_ms ≤ cfg.dtls.retry_max_ms
  pub max_limited : cfg.dtls.retry_max_ms ≤ 300_000

pub record IsInStep (cfg : Config) (w : World) : Type 0 where
  pub placed : IsPlaced w.0.place w.0 w.1
  pub held : IsHeld w.0.pending_frame w.0.session w.1.queue
  pub accounted : IsAccounted cfg w.1
  pub delay_least : cfg.dtls.retry_initial_ms ≤ w.0.delay
  pub delay_most : w.0.delay ≤ cfg.dtls.retry_max_ms

pub IsHeld-front :
    (f : Bytes) (session : Option Session) (queue : List Message)
    → IsHeld (some f) session queue
    → (m : Message) × (rest : List Message) × (queue ≡ m ∷ rest) × (f ≡ frame m.payload)
IsHeld-front f none queue h = absurd h
IsHeld-front f (some session) [] h = absurd h
IsHeld-front f (some session) (m ∷ rest) h = (m, rest, refl, h.0)

module _ (cfg : Config) (limited : IsLimited cfg) (paced : IsPaced cfg) where
  at_top-IsInStep :
      (o : Observed) (n : Sender) (s : State) → IsInStep cfg (n, s) → IsInStep cfg (at_top o n s)
  unfolding at_top
  at_top-IsInStep o n s v = ground (arith, v)

  start_lookup-IsInStep :
      (host : Result Text) (o : Observed) (n : Sender) (s : State)
      → n.session ≡ none
      → IsInStep cfg (n, s)
      → IsInStep cfg (start_lookup cfg host o n, s)
  unfolding start_lookup
  start_lookup-IsInStep host o n s e v = ground (arith, v)

  await_lookup-IsInStep :
      (until : ℕ) (o : Observed) (n : Sender) (s : State)
      → n.session ≡ none
      → IsInStep cfg (n, s)
      → IsInStep cfg (await_lookup until o n s, s)
  unfolding await_lookup
  await_lookup-IsInStep until o n s e v = ground (arith, v)

  on_connect-IsInStep :
      (o : Observed) (n : Sender) (s : State)
      → n.session ≡ none
      → IsInStep cfg (n, s)
      → IsInStep cfg (on_connect o n s)
  unfolding on_connect
  on_connect-IsInStep o n s e v = ground (arith, v)

  on_connect_failed-IsInStep :
      (e : Text) (o : Observed) (n : Sender) (s : State)
      → n.session ≡ none
      → IsInStep cfg (n, s)
      → IsInStep cfg (on_connect_failed e o n s, s)
  unfolding on_connect_failed expired
  on_connect_failed-IsInStep e o n s h v = ground (arith, v)

  retry-IsInStep :
      (e : Text) (o : Observed) (n : Sender) (s : State)
      → n.session ≡ none
      → IsInStep cfg (n, s)
      → IsInStep cfg (retry cfg e o n s)
  unfolding retry next_delay
  retry-IsInStep e o n s h v = ground (arith, v, paced)

  poll_session-IsInStep :
      (o : Observed) (n : Sender) (s : State)
      → is_some n.session ≡ true
      → IsInStep cfg (n, s)
      → IsInStep cfg (poll_session o n, s)
  unfolding poll_session
  poll_session-IsInStep o n s h v = ground (arith, v)

  fail-IsInStep :
      (e : Text) (o : Observed) (n : Sender) (s : State)
      → IsInStep cfg (n, s)
      → IsInStep cfg (fail cfg e o n s)
  unfolding fail next_delay
  fail-IsInStep e o n s v = ground (arith, v, paced)

  settle-IsInStep :
      (o : Observed) (n : Sender) (s : State) → IsInStep cfg (n, s) → IsInStep cfg (settle o n s, s)
  unfolding settle
  settle-IsInStep o n s v = ground (arith, v)

  wait-IsInStep :
      (until : ℕ) (o : Observed) (n : Sender) (s : State)
      → IsPlaced n.place n s
      → IsInStep cfg (n, s)
      → IsInStep cfg (wait until o n s, s)
  unfolding wait
  wait-IsInStep until o n s p v = ground (arith, v)

  drain-IsInStep :
      (n : Sender) (s : State)
      → is_set s.stop_at ≡ true
      → IsInStep cfg (n, s)
      → IsInStep cfg (record n { place = stopped; session = none; pending_frame = none }, drain s)
  unfolding drain
  drain-IsInStep n s h v = record {
    placed = (h, refl, refl, refl);
    held = tt;
    accounted = drain-IsAccounted cfg s v.accounted;
    delay_least = v.delay_least;
    delay_most = v.delay_most;
  }

  choose-IsInStep :
      (a : Text) (rest : List Text) (n : Sender) (s : State)
      → n.session ≡ none
      → IsInStep cfg (n, s)
      → IsInStep cfg (choose (a ∷ rest) n s)
  unfolding choose
  choose-IsInStep a rest n s e v =
      ground (arith, v, get_elem?-in_bounds (a ∷ rest) (n.attempts % suc (length rest)))

  fetch_front-IsInStep :
      (queue : List Message) (session : Session) (o : Observed) (n : Sender) (s : State)
      → s.queue ≡ queue
      → n.session ≡ some session
      → n.pending_frame ≡ none
      → IsInStep cfg (n, s)
      → IsInStep cfg (fetch_front queue session o n s)
  unfolding fetch_front
  fetch_front-IsInStep [] session o n s e f g v = ground (arith, v)
  fetch_front-IsInStep (m ∷ rest) session o n s e f g v =
      ground (arith, v, finish_front-IsAccounted cfg s m rest false o.now o.wall_ms limited e)

  fetch-IsInStep :
      (o : Observed) (n : Sender) (s : State)
      → is_some n.session ≡ true
      → n.pending_frame ≡ none
      → IsInStep cfg (n, s)
      → IsInStep cfg (fetch o n s)
  unfolding fetch
  fetch-IsInStep o n s h g v = elim (Option-cases n.session) [
    | inl e ↦ absurd (ground arith)
    | inr (session, e) ↦ ground (arith, fetch_front-IsInStep s.queue session o n s refl e g v)
  ]

  write_pending-IsInStep :
      (interval : ℕ → ℕ) (o : Observed) (n : Sender) (s : State)
      → is_some n.session ≡ true
      → IsInStep cfg (n, s)
      → IsInStep cfg (write_pending cfg interval o n s)
  unfolding write_pending
  write_pending-IsInStep interval o n s h v = elim (Option-cases n.pending_frame) [
    | inl e ↦ ground (arith, v)
    | inr (f, e) ↦
        (let (m, rest, front, same) = IsHeld-front f n.session s.queue (rw e at v.held) in
          ground (
            arith,
            v,
            paced,
            finish_front-IsAccounted cfg s m rest true o.now o.wall_ms limited front,
          ))
  ]

  -- Each turn of the sender keeps all of it.
  pub sender_step-IsInStep :
      (host : Result Text) (interval : ℕ → ℕ) (o : Observed) (n : Sender) (s : State) (p : Place)
      → n.place ≡ p
      → IsPlaced p n s
      → IsInStep cfg (n, s)
      → IsInStep cfg (step_at cfg host interval p o n s)
  sender_step-IsInStep host interval o n s top e p v = at_top-IsInStep o n s v
  sender_step-IsInStep host interval o n s resolving e p v =
      ground (arith, start_lookup-IsInStep host o n s p v)
  sender_step-IsInStep host interval o n s (looking_up until) e p v =
      await_lookup-IsInStep until o n s p v
  sender_step-IsInStep host interval o n s (resolved []) e p v = absurd p
  sender_step-IsInStep host interval o n s (resolved (a ∷ rest)) e p v =
      choose-IsInStep a rest n s p v
  sender_step-IsInStep host interval o n s (connecting remote) e p v = on_connect-IsInStep o n s p v
  sender_step-IsInStep host interval o n s (connect_failed t) e p v =
      on_connect_failed-IsInStep t o n s p v
  sender_step-IsInStep host interval o n s (retrying t) e p v = retry-IsInStep t o n s p v
  sender_step-IsInStep host interval o n s polling e p v = poll_session-IsInStep o n s p v
  sender_step-IsInStep host interval o n s fetching e p v = fetch-IsInStep o n s p.0 p.1 v
  sender_step-IsInStep host interval o n s writing e p v = write_pending-IsInStep interval o n s p v
  sender_step-IsInStep host interval o n s (failing t) e p v = fail-IsInStep t o n s v
  sender_step-IsInStep host interval o n s settling e p v = settle-IsInStep o n s v
  sender_step-IsInStep host interval o n s (pausing until) e p v =
      wait-IsInStep until o n s v.placed v
  sender_step-IsInStep host interval o n s closing e p v = drain-IsInStep n s p v
  sender_step-IsInStep host interval o n s stopped e p v = v
  sender_step-IsInStep host interval o n s crashed e p v = absurd p
