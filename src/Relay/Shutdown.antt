-- ===== src/Relay/Shutdown.antt =====
-- The end of the sender's loop in crates/core/src/relay.rs: how soon it comes after the deadline.
use native.Mathlib.Nat.{le_trans}
use syslog_dtls_agent.Prelude.{
  ℕ, zero, suc, ◌≤◌, ◌<◌, ◌≡◌, ◌≢◌, refl, ap, subst, ◌⊎◌, inl, inr, Bool, true, false, some, List,
  [], ◌∷◌, All, if_both, ◌∙◌, sym, ◌-◌, Text, Result, Bytes, arith,
}
use syslog_dtls_agent.Config.Schema.{Config}
use syslog_dtls_agent.Relay.State.{State, expired, finish_front}
use syslog_dtls_agent.Relay.Control.{drain, request_stop, mark_stopped}
use syslog_dtls_agent.Relay.Sender.{
  Sender, Observed, World, Place, top, resolving, looking_up, resolved, connecting, connect_failed,
  retrying, polling, fetching, writing, failing, settling, pausing, closing, stopped, crashed,
  at_top, start_lookup, await_lookup, choose, on_connect, on_connect_failed, retry, poll_session,
  fetch, write_pending, fail, settle, wait, step_at, sender_step,
}
use syslog_dtls_agent.Relay.World.{
  System, Action, datagram, socket_error, listener_check, sender_turn, stop_request, stop_join,
  step, run,
}
use syslog_dtls_agent.Relay.Order.{IsSound}
use syslog_dtls_agent.Relay.Reach.{step-IsSound}
use syslog_dtls_agent.Relay.Effects.{on_datagram_kept}
use syslog_dtls_agent.Relay.Listener.{on_socket_error}
use syslog_dtls_agent.Relay.Accounts.{IsLimited}
use syslog_dtls_agent.Relay.Turns.{IsPlaced, IsPaced}

-- The turns left at most, once the deadline has passed.
rank : Place → ℕ
rank stopped = 0
rank crashed = 0
rank closing = 1
rank top = 2
rank (connect_failed e) = 2
rank (pausing until) = 3
rank (looking_up until) = 3
rank resolving = 4
rank (retrying e) = 4
rank (failing e) = 4
rank settling = 4
rank writing = 5
rank fetching = 6
rank polling = 7
rank (connecting remote) = 8
rank (resolved addresses) = 9

-- A turn at a place keeps the deadline and lowers the rank.
abbrev IsNearer : ℕ → State → World → Type 0
IsNearer r s w = (w.1.stop_at ≡ s.stop_at) × (rank w.0.place < r)

module _ (o : Observed) (n : Sender) (s : State) (at : ℕ) (set : s.stop_at ≡ some at)
    (late : at ≤ o.now) where
  at_top-IsNearer : IsNearer 2 s (at_top o n s)
  unfolding at_top rank
  at_top-IsNearer = ground arith

  await_lookup-IsNearer : (until : ℕ) → IsNearer 3 s (await_lookup until o n s, s)
  unfolding await_lookup rank expired
  await_lookup-IsNearer until = ground arith

  on_connect_failed-IsNearer : (e : Text) → IsNearer 2 s (on_connect_failed e o n s, s)
  unfolding on_connect_failed rank expired
  on_connect_failed-IsNearer e = ground arith

  wait-IsNearer : (until : ℕ) → IsNearer 3 s (wait until o n s, s)
  unfolding wait rank expired
  wait-IsNearer until = ground arith

module _ (o : Observed) (n : Sender) (s : State) (cfg : Config) where
  start_lookup-IsNearer : (host : Result Text) → rank (start_lookup cfg host o n).place < 4
  unfolding start_lookup rank
  start_lookup-IsNearer host = ground arith

  choose-IsNearer : (addresses : List Text) → IsNearer 9 s (choose addresses n s)
  unfolding choose rank
  choose-IsNearer addresses = ground arith

  on_connect-IsNearer : IsNearer 8 s (on_connect o n s)
  unfolding on_connect rank
  on_connect-IsNearer = ground arith

  poll_session-IsNearer : rank (poll_session o n).place < 7
  unfolding poll_session rank
  poll_session-IsNearer = ground arith

  finish_front_stop_at :
      (was_sent : Bool) (now wall_ms : ℕ)
      → (finish_front s was_sent now wall_ms).stop_at ≡ s.stop_at
  unfolding finish_front
  finish_front_stop_at was_sent now wall_ms = ground arith

  fetch-IsNearer : IsNearer 6 s (fetch o n s)
  unfolding fetch rank
  fetch-IsNearer = ground (arith, finish_front_stop_at false o.now o.wall_ms)

  write_pending-IsNearer : (interval : ℕ → ℕ) → IsNearer 5 s (write_pending cfg interval o n s)
  unfolding write_pending rank
  write_pending-IsNearer interval = ground (arith, finish_front_stop_at true o.now o.wall_ms)

step_at-IsNearer :
    (cfg : Config) (host : Result Text) (interval : ℕ → ℕ) (p : Place) (o : Observed) (n : Sender)
    (s : State) (at : ℕ)
    → s.stop_at ≡ some at
    → at ≤ o.now
    → p ≢ stopped
    → p ≢ crashed
    → IsNearer (rank p) s (step_at cfg host interval p o n s)
unfolding rank retry fail settle drain
step_at-IsNearer cfg host interval top o n s at e late x y = at_top-IsNearer o n s at e late
step_at-IsNearer cfg host interval resolving o n s at e late x y =
    (refl, start_lookup-IsNearer o n s cfg host)
step_at-IsNearer cfg host interval (looking_up until) o n s at e late x y =
    await_lookup-IsNearer o n s at e late until
step_at-IsNearer cfg host interval (resolved addresses) o n s at e late x y =
    choose-IsNearer o n s cfg addresses
step_at-IsNearer cfg host interval (connecting remote) o n s at e late x y =
    on_connect-IsNearer o n s cfg
step_at-IsNearer cfg host interval (connect_failed t) o n s at e late x y =
    on_connect_failed-IsNearer o n s at e late t
step_at-IsNearer cfg host interval (retrying t) o n s at e late x y = (refl, omega arith)
step_at-IsNearer cfg host interval polling o n s at e late x y =
    (refl, poll_session-IsNearer o n s cfg)
step_at-IsNearer cfg host interval fetching o n s at e late x y = fetch-IsNearer o n s cfg
step_at-IsNearer cfg host interval writing o n s at e late x y =
    write_pending-IsNearer o n s cfg interval
step_at-IsNearer cfg host interval (failing t) o n s at e late x y = (refl, omega arith)
step_at-IsNearer cfg host interval settling o n s at e late x y = (refl, omega arith)
step_at-IsNearer cfg host interval (pausing until) o n s at e late x y =
    wait-IsNearer o n s at e late until
step_at-IsNearer cfg host interval closing o n s at e late x y = (refl, omega arith)
step_at-IsNearer cfg host interval stopped o n s at e late x y = absurd (x refl)
step_at-IsNearer cfg host interval crashed o n s at e late x y = absurd (y refl)

rank_zero : (p : Place) → rank p ≡ 0 → p ≢ crashed → p ≡ stopped
unfolding rank
rank_zero p h c = ground arith

rank_stopped : (p : Place) → p ≡ stopped → 0 < rank p → ⊥
unfolding rank
rank_stopped p e h = subst (λ q. 0 < rank q → ⊥) (sym e) (λ k. elim k [ ]) h

rank-le : (p : Place) → rank p ≤ 9
unfolding rank
rank-le p = ground arith

zero_or_pos : (k : ℕ) → (k ≡ 0) ⊎ (0 < k)
zero_or_pos zero = inl refl
zero_or_pos (suc k) = inr (omega arith)

-- A stop is requested, for a deadline no later than `at`.
abbrev HasDeadline : ℕ → State → Type 0
HasDeadline at s = (d : ℕ) × (s.stop_at ≡ some d) × (d ≤ at)

-- Turns of the sender come after `at`, and an error of the socket before it.
abbrev pub IsAfter : ℕ → Action → Type 0
IsAfter at (sender_turn o) = at ≤ o.now
IsAfter at (socket_error e now) = now ≤ at
IsAfter at a = Unit {0}

unfoldable pub turns : List Action → ℕ
turns [] = 0
turns (sender_turn o ∷ actions) = suc (turns actions)
turns (a ∷ actions) = turns actions

abbrev IsRest : Action → Type 0
IsRest (sender_turn o) = ⊥
IsRest a = Unit {0}

module _ (rfc3339 : Bytes → Bool) (cfg : Config) (host : Result Text) (interval : ℕ → ℕ) where
  abbrev next : System → Action → System
  next = step rfc3339 cfg host interval

  other_place : (w : System) (a : Action) → IsRest a → (next w a).sender ≡ w.sender
  unfolding step
  other_place w (datagram peer bytes wall_ms) h =
      if_both (λ (v : System). v.sender ≡ w.sender) w.listening refl refl
  other_place w (socket_error e now) h =
      if_both (λ (v : System). v.sender ≡ w.sender) w.listening refl refl
  other_place w listener_check h = refl
  other_place w (sender_turn o) h = absurd h
  other_place w (stop_request now) h = refl
  other_place w stop_join h = if_both (λ (v : System). v.sender ≡ w.sender) _ refl refl

  other_deadline :
      (w : System) (at : ℕ) (a : Action)
      → IsRest a
      → IsAfter at a
      → HasDeadline at w.state
      → HasDeadline at (next w a).state
  unfolding step on_socket_error request_stop mark_stopped
  other_deadline w at (datagram peer bytes wall_ms) h l d =
      if_both (λ (v : System). HasDeadline at v.state) w.listening
        (d.0, (on_datagram_kept rfc3339 cfg peer bytes wall_ms w.state).0 ∙ d.1, d.2) d
  other_deadline w at (socket_error e now) h l d =
      if_both (λ (v : System). HasDeadline at v.state) w.listening (now, refl, l) d
  other_deadline w at listener_check h l d = d
  other_deadline w at (sender_turn o) h l d = absurd h
  other_deadline w at (stop_request now) h l d = (d.0, ground arith, d.2)
  other_deadline w at stop_join h l d = if_both (λ (v : System). HasDeadline at v.state) _ d d

  module _ (limited : IsLimited cfg) (paced : IsPaced cfg) (at : ℕ) where
    not_crashed : (w : System) → IsSound rfc3339 cfg w → w.sender.place ≢ crashed
    not_crashed w v e = subst (λ p. IsPlaced p w.sender w.state) e v.in_step.placed

    turn_moving :
        (w : System) (o : Observed)
        → IsSound rfc3339 cfg w
        → HasDeadline at w.state
        → at ≤ o.now
        → 0 < rank w.sender.place
        → HasDeadline at (next w (sender_turn o)).state
          × (rank (next w (sender_turn o)).sender.place < rank w.sender.place)
    unfolding step sender_step
    turn_moving w o v d late pos =
        let near =
          step_at-IsNearer cfg host interval w.sender.place o w.sender w.state d.0 d.1
            (le_trans d.2 late) (λ e. rank_stopped w.sender.place e pos) (not_crashed w v) in
        ((d.0, near.0 ∙ d.1, d.2), near.1)

    turn_done :
        (w : System) (o : Observed)
        → w.sender.place ≡ stopped
        → ((next w (sender_turn o)).state ≡ w.state) × ((next w (sender_turn o)).sender ≡ w.sender)
    unfolding step sender_step
    turn_done w o e = (ap (λ (x : World). x.1) (stays e), ap (λ (x : World). x.0) (stays e))
      where
        stays :
            w.sender.place ≡ stopped
            → step_at cfg host interval w.sender.place o w.sender w.state ≡ (w.sender, w.state)
        stays h =
            subst (λ p. step_at cfg host interval p o w.sender w.state ≡ (w.sender, w.state))
              (sym h) refl

    turn_kept :
        (w : System) (o : Observed)
        → IsSound rfc3339 cfg w
        → HasDeadline at w.state
        → at ≤ o.now
        → HasDeadline at (next w (sender_turn o)).state
          × (rank (next w (sender_turn o)).sender.place ≤ rank w.sender.place - 1)
    turn_kept w o v d late = elim (zero_or_pos (rank w.sender.place)) [
      | inl z ↦
          (let e = turn_done w o (rank_zero w.sender.place z (not_crashed w v)) in
            (rw e.0 d, rw (e.1, z) (omega arith)))
      | inr pos ↦ (let m = turn_moving w o v d late pos in (m.0, omega (arith, m.1)))
    ]

    run_stops :
        (w : System) (actions : List Action)
        → IsSound rfc3339 cfg w
        → HasDeadline at w.state
        → All (IsAfter at) actions
        → rank w.sender.place ≤ turns actions
        → (run rfc3339 cfg host interval w actions).sender.place ≡ stopped
    unfolding run turns
    run_stops w [] v d l r = rank_zero w.sender.place (omega arith) (not_crashed w v)
    run_stops w (sender_turn o ∷ actions) v d l r =
        let k = turn_kept w o v d l.0 in
        run_stops (next w (sender_turn o)) actions
          (step-IsSound rfc3339 cfg host interval limited paced w (sender_turn o) v) k.0 l.1
          (omega (arith, k.1))
    run_stops w (a ∷ actions) v d l r =
        run_stops (next w a) actions (step-IsSound rfc3339 cfg host interval limited paced w a v)
          (other_deadline w at a tt l.0 d) l.1 (rw (other_place w a tt) r)

    -- Once a stop is requested for an instant no later than `at`, with the configuration within the
    -- limits: in any schedule whose turns of the sender come after `at`, whatever they observe, and whose
    -- socket errors come before it, nine turns of the sender end its thread.
    pub shutdown_bounded :
        (w : System) (d : ℕ) (actions : List Action)
        → IsSound rfc3339 cfg w
        → w.state.stop_at ≡ some d
        → d ≤ at
        → All (IsAfter at) actions
        → 9 ≤ turns actions
        → (run rfc3339 cfg host interval w actions).sender.place ≡ stopped
    shutdown_bounded w d actions v e h l k =
        run_stops w actions v (d, e, h) l (omega (arith, rank-le w.sender.place))
