-- ===== src/Relay/Progress.antt =====
-- Under a working connection each turn of the sender of crates/core/src/relay.rs brings the message at
-- the front of the queue nearer to its end.
use syslog_dtls_agent.Prelude.{
  ℕ, suc, ◌+◌, ◌*◌, ◌≤◌, ◌<◌, ◌≡◌, refl, true, Option, none, some, List, [], ◌∷◌, length, Text, ok,
  Bytes, Option-cases, inl, inr, arith, get_elem?-in_bounds, ◌%◌,
}
use syslog_dtls_agent.Config.Schema.{Config}
use syslog_dtls_agent.Sources.{is_some}
use syslog_dtls_agent.Relay.State.{
  State, Message, millis, expired, pop_front, count_finished, finish_front,
}
use syslog_dtls_agent.Relay.Sender.{
  Sender, Session, World, Observed, answered, sent, Place, top, resolving, looking_up, resolved,
  connecting, polling, fetching, writing, settling, pausing, mark_resolving, at_top, start_lookup,
  await_lookup, choose, on_connect, poll_session, fetch_front, fetch, write_pending, settle, wait,
  step_at,
}
use syslog_dtls_agent.Relay.Turns.{IsPlaced, IsHeld, IsHeld-front}

-- How far a place is on the way to the end of a message.
abbrev pub stage : Place → Option Bytes → ℕ
stage writing none = 0
stage writing (some f) = 10
stage settling p = 1
stage (pausing until) p = 2
stage top p = 3
stage resolving p = 4
stage (looking_up until) p = 5
stage (resolved addresses) p = 6
stage (connecting remote) p = 7
stage polling p = 8
stage fetching p = 9
stage place p = 0

-- The surroundings work, and the time since the turn at `last` is long enough.
pub record IsWorking (spacing last : ℕ) (o : Observed) : Type 0 where
  pub later : last + spacing ≤ o.now
  pub spawned : o.spawn ≡ ok tt
  pub address : Text
  pub others : List Text
  pub found : o.recv ≡ answered (ok (address ∷ others))
  pub session : Session
  pub established : o.connect ≡ ok session
  pub polled : o.poll ≡ ok tt
  pub written : o.write ≡ ok sent

-- No place of a failure, and nothing pending but what is being written.
abbrev pub IsFine : ℕ → Place → Option Bytes → Type 0
IsFine horizon top p = p ≡ none
IsFine horizon resolving p = p ≡ none
IsFine horizon (looking_up until) p = p ≡ none
IsFine horizon (resolved addresses) p = p ≡ none
IsFine horizon (connecting remote) p = p ≡ none
IsFine horizon polling p = p ≡ none
IsFine horizon fetching p = p ≡ none
IsFine horizon writing p = Unit {0}
IsFine horizon settling p = p ≡ none
IsFine horizon (pausing until) p = (p ≡ none) × (until ≤ horizon)
IsFine horizon place p = ⊥

-- The sender after a turn at `last`.
pub record IsHealthy (spacing last : ℕ) (w : World) : Type 0 where
  pub running : w.1.stop_at ≡ none
  pub timely : w.0.next_send ≤ last + spacing
  pub fine : IsFine (last + spacing) w.0.place w.0.pending_frame

-- Messages taken from the queue weigh more than all stages together.
abbrev pub IsNearer : Place → Option Bytes → State → World → Type 0
IsNearer place pending s w =
    11 * length w.1.queue + stage place pending
    < 11 * length s.queue + stage w.0.place w.0.pending_frame

abbrev pub IsAdvanced : ℕ → Observed → Place → Option Bytes → State → World → Type 0
IsAdvanced spacing o place pending s w =
    IsHealthy spacing o.now w
    × (length w.1.queue ≤ length s.queue)
    × (0 < length s.queue → IsNearer place pending s w)

module _ (cfg : Config) (name : Text) (interval : ℕ → ℕ) (spacing last : ℕ)
    (pause_short : millis 10 ≤ spacing)
    (pace_short : interval cfg.dtls.messages_per_second ≤ spacing) (o : Observed)
    (works : IsWorking spacing last o) (n : Sender) (s : State)
    (healthy : IsHealthy spacing last (n, s)) where
  at_top-IsAdvanced :
      n.place ≡ top → n.pending_frame ≡ none → IsAdvanced spacing o top none s (at_top o n s)
  unfolding at_top
  at_top-IsAdvanced e f = ground (arith, works, healthy)

  start_lookup-IsAdvanced :
      n.pending_frame ≡ none
      → IsAdvanced spacing o resolving none s (start_lookup cfg (ok name) o n, mark_resolving s)
  unfolding start_lookup
  start_lookup-IsAdvanced f = ground (arith, works, healthy)

  await_lookup-IsAdvanced :
      (until : ℕ)
      → n.pending_frame ≡ none
      → IsAdvanced spacing o (looking_up until) none s (await_lookup until o n s, s)
  unfolding await_lookup expired
  await_lookup-IsAdvanced until f = ground (arith, works, healthy)

  choose-IsAdvanced :
      (a : Text) (rest : List Text)
      → n.pending_frame ≡ none
      → IsAdvanced spacing o (resolved (a ∷ rest)) none s (choose (a ∷ rest) n s)
  unfolding choose
  choose-IsAdvanced a rest f =
      ground
        (arith, works, healthy, get_elem?-in_bounds (a ∷ rest) (n.attempts % suc (length rest)))

  on_connect-IsAdvanced :
      (remote : Text)
      → n.pending_frame ≡ none
      → IsAdvanced spacing o (connecting remote) none s (on_connect o n s)
  unfolding on_connect
  on_connect-IsAdvanced remote f = ground (arith, works, healthy)

  poll_session-IsAdvanced :
      n.pending_frame ≡ none → IsAdvanced spacing o polling none s (poll_session o n, s)
  unfolding poll_session
  poll_session-IsAdvanced f = ground (arith, works, healthy)

  fetch_front-IsAdvanced :
      (queue : List Message) (session : Session)
      → s.queue ≡ queue
      → n.pending_frame ≡ none
      → IsAdvanced spacing o fetching none s (fetch_front queue session o n s)
  unfolding fetch_front finish_front pop_front count_finished
  fetch_front-IsAdvanced [] session e f = ground (arith, works, healthy)
  fetch_front-IsAdvanced (m ∷ rest) session e f = ground (arith, works, healthy)

  fetch-IsAdvanced :
      n.pending_frame ≡ none
      → is_some n.session ≡ true
      → IsAdvanced spacing o fetching none s (fetch o n s)
  unfolding fetch
  fetch-IsAdvanced f h = elim (Option-cases n.session) [
    | inl e ↦ absurd (ground arith)
    | inr (session, e) ↦ ground (arith, fetch_front-IsAdvanced s.queue session refl f)
  ]

  write_pending-IsAdvanced :
      (p : Option Bytes)
      → n.pending_frame ≡ p
      → IsHeld p n.session s.queue
      → IsAdvanced spacing o writing p s (write_pending cfg interval o n s)
  unfolding write_pending finish_front pop_front count_finished
  write_pending-IsAdvanced none e h = ground (arith, works, healthy)
  write_pending-IsAdvanced (some f) e h =
      (let (m, rest, front, same) = IsHeld-front f n.session s.queue h in
        ground (arith, works, healthy))

  settle-IsAdvanced :
      n.pending_frame ≡ none → IsAdvanced spacing o settling none s (settle o n s, s)
  unfolding settle
  settle-IsAdvanced f = ground (arith, works, healthy)

  wait-IsAdvanced :
      (until : ℕ)
      → n.pending_frame ≡ none
      → until ≤ last + spacing
      → IsAdvanced spacing o (pausing until) none s (wait until o n s, s)
  unfolding wait
  wait-IsAdvanced until f h = ground (arith, works, healthy)

  -- Each turn advances the message at the front.
  pub step_at-IsAdvanced :
      (place : Place) (pending : Option Bytes)
      → n.place ≡ place
      → n.pending_frame ≡ pending
      → IsPlaced place n s
      → IsHeld pending n.session s.queue
      → IsFine (last + spacing) place pending
      → IsAdvanced spacing o place pending s (step_at cfg (ok name) interval place o n s)
  step_at-IsAdvanced top none e f p h g = at_top-IsAdvanced e f
  step_at-IsAdvanced resolving none e f p h g = start_lookup-IsAdvanced f
  step_at-IsAdvanced (looking_up until) none e f p h g = await_lookup-IsAdvanced until f
  step_at-IsAdvanced (resolved []) none e f p h g = absurd p
  step_at-IsAdvanced (resolved (a ∷ rest)) none e f p h g = choose-IsAdvanced a rest f
  step_at-IsAdvanced (connecting remote) none e f p h g = on_connect-IsAdvanced remote f
  step_at-IsAdvanced polling none e f p h g = poll_session-IsAdvanced f
  step_at-IsAdvanced fetching none e f p h g = fetch-IsAdvanced f p.0
  step_at-IsAdvanced writing pending e f p h g = write_pending-IsAdvanced pending f h
  step_at-IsAdvanced settling none e f p h g = settle-IsAdvanced f
  step_at-IsAdvanced (pausing until) none e f p h g = wait-IsAdvanced until f g.1
  step_at-IsAdvanced place pending e f p h g = absurd (ground (arith, g))
