-- ===== src/Relay/Liveness.antt =====
-- Messages that crates/core/src/relay.rs has queued are settled, when the connection works.
use syslog_dtls_agent.Prelude.{
  ℕ, zero, suc, ◌+◌, ◌*◌, ◌≤◌, ◌<◌, ◌≡◌, refl, sym, ap, ap₂, ◌∙◌, ◌⊎◌, inl, inr, Bool, Option, List,
  [], ◌∷◌, ◌++◌, map, length, length-append, append_assoc, append-nil, Text, ok, Bytes, if_both,
  arith,
}
use syslog_dtls_agent.Ip.{IpAddr}
use syslog_dtls_agent.Config.Schema.{Config}
use syslog_dtls_agent.Relay.State.{Message, millis}
use syslog_dtls_agent.Relay.Sender.{Observed, Place, sender_step}
use syslog_dtls_agent.Relay.World.{
  Action, datagram, socket_error, listener_check, sender_turn, stop_request, stop_join, System,
  step, run, appended,
}
use syslog_dtls_agent.Relay.Listener.{on_datagram}
use syslog_dtls_agent.Relay.Accounts.{IsLimited}
use syslog_dtls_agent.Relay.Turns.{IsPaced}
use syslog_dtls_agent.Relay.Effects.{on_datagram_kept}
use syslog_dtls_agent.Relay.Order.{IsSound, messages_of}
use syslog_dtls_agent.Relay.Reach.{step-IsSound, run-IsSound}
use syslog_dtls_agent.Relay.Shutdown.{turns}
use syslog_dtls_agent.Relay.Progress.{stage, IsWorking, IsHealthy, IsAdvanced, step_at-IsAdvanced}

-- No stop and no socket error, and every turn of the sender finds its surroundings working, this long
-- or longer after the one before.
abbrev pub IsSmooth : ℕ → ℕ → List Action → Type 0
IsSmooth spacing last [] = Unit {0}
IsSmooth spacing last (datagram peer bytes wall_ms ∷ actions) = IsSmooth spacing last actions
IsSmooth spacing last (listener_check ∷ actions) = IsSmooth spacing last actions
IsSmooth spacing last (sender_turn o ∷ actions) =
    IsWorking spacing last o × IsSmooth spacing o.now actions
IsSmooth spacing last (socket_error e now ∷ actions) = ⊥
IsSmooth spacing last (stop_request now ∷ actions) = ⊥
IsSmooth spacing last (stop_join ∷ actions) = ⊥

length-map : {A B : Type 0} (f : A → B) (xs : List A) → length (map f xs) ≡ length xs
length-map f [] = refl
length-map f (x ∷ xs) = ap suc (length-map f xs)

-- How far a system is: eleven for each settled message, and the stage of the next one.
abbrev progress : System → ℕ
progress w = 11 * length w.settled + stage w.sender.place w.sender.pending_frame

stage-le : (place : Place) (p : Option Bytes) → stage place p ≤ 10
stage-le place p = ground arith

-- One turn of the sender in figures: eleven for each settled message, and the stage.
nearer :
    (target accepted settled queue settled' queue' reached reached' count : ℕ)
    → accepted ≡ settled + queue
    → accepted ≡ settled' + queue'
    → queue' ≤ queue
    → (0 < queue → 11 * queue' + reached < 11 * queue + reached')
    → target ≤ accepted
    → (target ≤ settled) ⊎ (11 * target ≤ 11 * settled + reached + suc count)
    → (target ≤ settled') ⊎ (11 * target ≤ 11 * settled' + reached' + count)
nearer target accepted settled zero settled' queue' reached reached' count e f l h q n =
    inl (omega arith)
nearer target accepted settled (suc queue) settled' queue' reached reached' count e f l h q
      (inl n) =
    inl (omega arith)
nearer target accepted settled (suc queue) settled' queue' reached reached' count e f l h q
      (inr n) =
    inr (omega (arith, h (omega arith)))

settled_all :
    (target settled reached : ℕ)
    → reached ≤ 10
    → (target ≤ settled) ⊎ (11 * target ≤ 11 * settled + reached + 0)
    → target ≤ settled
settled_all target settled reached h (inl n) = n
settled_all target settled reached h (inr n) = omega arith

abbrev IsGrown : System → System → Type 0
IsGrown w u = (more : List Message) × (u.accepted ≡ w.accepted ++ more)

IsGrown-self : (w : System) → IsGrown w w
IsGrown-self w = ([], sym (append-nil w.accepted))

-- Two ways to cut one list.
prefix_of :
    (xs ys us vs : List Message)
    → xs ++ ys ≡ us ++ vs
    → length xs ≤ length us
    → (later : List Message) × (us ≡ xs ++ later)
prefix_of [] ys us vs e h = (us, refl)
prefix_of (x ∷ xs) ys [] vs e h = absurd (omega (arith, h))
prefix_of (x ∷ xs) ys (u ∷ us) vs e h =
    let (later, f) = prefix_of xs ys us vs (ground (arith, e)) (omega (arith, h)) in
    (later, ap₂ (λ a b. a ∷ b) (ground (arith, e)) f)

module _ (rfc3339 : Bytes → Bool) (cfg : Config) (name : Text) (interval : ℕ → ℕ)
    (limited : IsLimited cfg) (paced : IsPaced cfg) (spacing : ℕ)
    (pause_short : millis 10 ≤ spacing)
    (pace_short : interval cfg.dtls.messages_per_second ≤ spacing) where
  abbrev next : System → Action → System
  next = step rfc3339 cfg (ok name) interval

  -- A turn settles what it takes from the queue.
  turn_settles :
      (w : System) (o : Observed) (last : ℕ)
      → IsSound rfc3339 cfg w
      → IsHealthy spacing last (w.sender, w.state)
      → IsWorking spacing last o
      → IsAdvanced spacing o w.sender.place w.sender.pending_frame w.state
          (sender_step cfg (ok name) interval o w.sender w.state)
  unfolding sender_step
  turn_settles w o last v h works =
      step_at-IsAdvanced cfg name interval spacing last pause_short pace_short o works w.sender
        w.state h w.sender.place w.sender.pending_frame refl refl v.in_step.placed v.in_step.held
        h.fine

  balance :
      (w : System)
      → IsSound rfc3339 cfg w
      → length w.accepted ≡ length w.settled + length w.state.queue
  balance w v =
      ap length v.ordered.fifo
      ∙ length-append (messages_of w.settled) w.state.queue
      ∙ ap (λ k. k + length w.state.queue) (length-map (λ entry. entry.0) w.settled)

  -- What a step leaves in place, whoever takes it.
  record IsOnward (target last : ℕ) (w : System) (count : ℕ) : Type 0 where
    healthy : IsHealthy spacing last (w.sender, w.state)
    queued : target ≤ length w.accepted
    near : (target ≤ length w.settled) ⊎ (11 * target ≤ progress w + count)

  turn-IsOnward :
      (target last : ℕ) (w : System) (o : Observed) (count : ℕ)
      → IsWorking spacing last o
      → IsSound rfc3339 cfg w
      → IsOnward target last w (suc count)
      → IsOnward target o.now (next w (sender_turn o)) count
  unfolding step sender_step
  turn-IsOnward target last w o count works sound v =
      let t = turn_settles w o last sound v.healthy works in
      let u = next w (sender_turn o) in
      let kept =
        step-IsSound rfc3339 cfg (ok name) interval limited paced w (sender_turn o) sound in
      record {
        healthy = t.0;
        queued = v.queued;
        near =
            nearer target (length w.accepted) (length w.settled) (length w.state.queue)
              (length u.settled) (length u.state.queue) _ _ count (balance w sound) (balance u kept)
              t.1 t.2 v.queued v.near;
      }

  arrival-IsOnward :
      (target last : ℕ) (w : System) (peer : IpAddr) (bytes : Bytes) (wall_ms count : ℕ)
      → IsOnward target last w count
      → IsOnward target last (next w (datagram peer bytes wall_ms)) count
  unfolding step
  arrival-IsOnward target last w peer bytes wall_ms count v =
      let t = on_datagram rfc3339 cfg peer bytes wall_ms w.state in
      if_both (λ (u : System). IsOnward target last u count) w.listening
        (record {
          healthy = record {
            running =
                (on_datagram_kept rfc3339 cfg peer bytes wall_ms w.state).0 ∙ v.healthy.running;
            timely = v.healthy.timely;
            fine = v.healthy.fine;
          };
          queued = omega (arith, length-append w.accepted (appended w.state t), v.queued);
          near = v.near;
        })
        v

  check-IsOnward :
      (target last : ℕ) (w : System) (count : ℕ)
      → IsOnward target last w count
      → IsOnward target last (next w listener_check) count
  unfolding step
  check-IsOnward target last w count v = record {
    healthy = v.healthy;
    queued = v.queued;
    near = v.near;
  }

  run_settles :
      (target last : ℕ) (w : System) (actions : List Action)
      → IsSmooth spacing last actions
      → IsSound rfc3339 cfg w
      → IsOnward target last w (turns actions)
      → target ≤ length (run rfc3339 cfg (ok name) interval w actions).settled
  unfolding run turns
  run_settles target last w [] smooth sound v =
      settled_all target (length w.settled) _ (stage-le w.sender.place w.sender.pending_frame)
        v.near
  run_settles target last w (sender_turn o ∷ actions) smooth sound v =
      run_settles target o.now (next w (sender_turn o)) actions smooth.1
        (step-IsSound rfc3339 cfg (ok name) interval limited paced w (sender_turn o) sound)
        (turn-IsOnward target last w o (turns actions) smooth.0 sound v)
  run_settles target last w (datagram peer bytes wall_ms ∷ actions) smooth sound v =
      run_settles target last (next w (datagram peer bytes wall_ms)) actions smooth
        (step-IsSound rfc3339 cfg (ok name) interval limited paced w (datagram peer bytes wall_ms)
          sound)
        (arrival-IsOnward target last w peer bytes wall_ms (turns actions) v)
  run_settles target last w (listener_check ∷ actions) smooth sound v =
      run_settles target last (next w listener_check) actions smooth
        (step-IsSound rfc3339 cfg (ok name) interval limited paced w listener_check sound)
        (check-IsOnward target last w (turns actions) v)
  run_settles target last w (socket_error e now ∷ actions) smooth sound v = absurd smooth
  run_settles target last w (stop_request now ∷ actions) smooth sound v = absurd smooth
  run_settles target last w (stop_join ∷ actions) smooth sound v = absurd smooth

  -- Whatever happens, what was queued stays on record.
  step_accepted : (w : System) (a : Action) → IsGrown w (next w a)
  unfolding step
  step_accepted w (datagram peer bytes wall_ms) =
      if_both (IsGrown w) w.listening
        (appended w.state (on_datagram rfc3339 cfg peer bytes wall_ms w.state), refl)
        (IsGrown-self w)
  step_accepted w (socket_error e now) =
      if_both (IsGrown w) w.listening (IsGrown-self w) (IsGrown-self w)
  step_accepted w listener_check = IsGrown-self w
  step_accepted w (sender_turn o) = IsGrown-self w
  step_accepted w (stop_request now) = IsGrown-self w
  step_accepted w stop_join = if_both (IsGrown w) _ (IsGrown-self w) (IsGrown-self w)

  run_accepted :
      (w : System) (actions : List Action)
      → IsGrown w (run rfc3339 cfg (ok name) interval w actions)
  unfolding run
  run_accepted w [] = IsGrown-self w
  run_accepted w (a ∷ actions) =
      let (first, e) = step_accepted w a in
      let (others, f) = run_accepted (next w a) actions in
      (first ++ others, f ∙ ap (λ l. l ++ others) e ∙ append_assoc w.accepted first others)

  -- With a configuration within the limits, a host that has a name, pauses and pacing no longer than
  -- the spacing of the sender's turns, and a sender at none of the places of a failure: in a schedule
  -- without a stop or a socket error, whose turns of the sender find name server, collector and session
  -- working and come at least the spacing apart, eleven turns of the sender for each message queued so
  -- far are enough to settle all of them, in the order in which they were queued.
  pub messages_settled :
      (w : System) (last : ℕ) (actions : List Action)
      → IsSound rfc3339 cfg w
      → IsHealthy spacing last (w.sender, w.state)
      → IsSmooth spacing last actions
      → 11 * length w.accepted ≤ turns actions
      → (later : List Message) × (messages_of (run rfc3339 cfg (ok name) interval w actions).settled
          ≡ w.accepted ++ later)
  messages_settled w last actions sound healthy smooth enough =
      let settled =
        run_settles (length w.accepted) last w actions smooth sound (record {
          healthy = healthy;
          queued = omega arith;
          near = inr (omega (arith, enough));
        }) in
      let end = run rfc3339 cfg (ok name) interval w actions in
      let after = run-IsSound rfc3339 cfg (ok name) interval limited paced w actions sound in
      let (more, e) = run_accepted w actions in
      prefix_of w.accepted more (messages_of end.settled) end.state.queue
        (sym e ∙ after.ordered.fifo)
        (rw (length-map (λ (entry : Message × Bool). entry.0) end.settled) settled)
