-- ===== src/Relay/Contract.antt =====
-- The sender of crates/core/src/relay.rs keeps to the order of calls that a session allows.
use syslog_dtls_agent.Prelude.{
  ℕ, ◌≡◌, refl, subst, ◌∙◌, Bool, true, false, Option, none, some, List, [], ◌∷◌, ◌++◌, is_empty,
  bytes_eq_self, Bytes, Text, Result, arith, Option-cases, inl, inr,
}
use syslog_dtls_agent.Config.Schema.{Config}
use syslog_dtls_agent.Framing.Frame.{frame, decimal}
use syslog_dtls_agent.Sources.{is_some}
use syslog_dtls_agent.Dtls.Session.{over_budget}
use syslog_dtls_agent.Relay.State.{State, Message}
use syslog_dtls_agent.Relay.Sender.{
  Sender, Session, Observed, Place, top, resolving, looking_up, resolved, connecting,
  connect_failed, polling, fetching, writing, failing, settling, pausing, closing, stopped, crashed,
  at_top, start_lookup, await_lookup, choose, on_connect, on_connect_failed, retry, poll_session,
  fetch_front, fetch, write_pending, fail, settle, wait, step_at, sender_step, new_sender,
}
use syslog_dtls_agent.Relay.World.{
  Action, datagram, socket_error, listener_check, sender_turn, stop_request, stop_join, System,
  step, run, started,
}
use syslog_dtls_agent.Relay.Accounts.{IsLimited}
use syslog_dtls_agent.Relay.Turns.{IsPaced, IsPlaced}
use syslog_dtls_agent.Relay.Order.{IsSound}
use syslog_dtls_agent.Relay.Reach.{step-IsSound, run-IsSound, started-IsSound}
use syslog_dtls_agent.Relay.Calls.{
  SessionCall, Phase, absent, idle, broken, calls_at, calls_of, conversation, obeys, allowed,
}

abbrev is_failing : Place → Bool
is_failing (failing e) = true
is_failing place = false

-- A waiting frame fits the session.
abbrev IsFitting : Option Bytes → Option Session → Type 0
IsFitting none session = Unit {0}
IsFitting (some f) none = ⊥
IsFitting (some f) (some session) = over_budget session.max_plaintext f ≡ false

abbrev HasBudget : ℕ → Option Session → Type 0
HasBudget budget none = ⊥
HasBudget budget (some session) = session.max_plaintext ≡ budget

-- The variables of the sender are those of a conversation in this phase.
abbrev IsAligned : Phase → Sender → Type 0
IsAligned absent n = n.session ≡ none
IsAligned (idle budget) n = HasBudget budget n.session × IsFitting n.pending_frame n.session
IsAligned (Phase.retrying budget f) n =
    HasBudget budget n.session × (n.pending_frame ≡ some f) × (over_budget budget f ≡ false)
IsAligned broken n = (is_some n.session ≡ true) × (is_failing n.place ≡ true)

abbrev Leads : Option Phase → Sender → Type 0
Leads none n = ⊥
Leads (some phase) n = IsAligned phase n

-- These calls are allowed, and lead to a phase of these variables.
abbrev IsAllowed : Phase → List SessionCall → Sender → Type 0
IsAllowed phase calls n = Leads (obeys phase calls) n

-- A turn that leaves the session and the frame alone.
IsAligned-kept :
    (phase : Phase) (n t : Sender)
    → t.session ≡ n.session
    → t.pending_frame ≡ n.pending_frame
    → is_failing n.place ≡ false
    → IsAligned phase n
    → IsAligned phase t
IsAligned-kept absent n t s f fine v = s ∙ v
IsAligned-kept (idle budget) n t s f fine v = rw (s, f) v
IsAligned-kept (Phase.retrying budget g) n t s f fine v = rw (s, f) v
IsAligned-kept broken n t s f fine v = absurd (ground (arith, v))

append_cons-is_empty : (xs : Bytes) (y : ℕ) (ys : Bytes) → is_empty (xs ++ y ∷ ys) ≡ false
append_cons-is_empty [] y ys = refl
append_cons-is_empty (x ∷ xs) y ys = refl

frame-is_empty : (payload : Bytes) → is_empty (frame payload) ≡ false
unfolding frame
frame-is_empty payload = append_cons-is_empty (decimal _) b' ' payload

module _ (o : Observed) (n : Sender) (s : State) where
  on_connect-IsAllowed :
      (phase : Phase) (remote : Text)
      → n.session ≡ none
      → IsAligned phase n
      → IsAllowed phase (calls_at (connecting remote) o n) (on_connect o n s).0
  unfolding on_connect
  on_connect-IsAllowed absent remote e v = ground (arith, v)
  on_connect-IsAllowed (idle budget) remote e v = ground (arith, v)
  on_connect-IsAllowed (Phase.retrying budget f) remote e v = ground (arith, v)
  on_connect-IsAllowed broken remote e v = ground (arith, v)

  poll_session-IsAllowed :
      (phase : Phase)
      → is_failing n.place ≡ false
      → is_some n.session ≡ true
      → IsAligned phase n
      → IsAllowed phase (calls_at polling o n) (poll_session o n)
  unfolding poll_session
  poll_session-IsAllowed absent fine open_ v = ground (arith, v)
  poll_session-IsAllowed (idle budget) fine open_ v = ground (arith, v)
  poll_session-IsAllowed (Phase.retrying budget f) fine open_ v = ground (arith, v)
  poll_session-IsAllowed broken fine open_ v = ground (arith, v)

  fetch_front-IsAligned :
      (budget : ℕ) (queue : List Message) (session : Session)
      → n.session ≡ some session
      → n.pending_frame ≡ none
      → session.max_plaintext ≡ budget
      → IsAligned (idle budget) (fetch_front queue session o n s).0
  unfolding fetch_front
  fetch_front-IsAligned budget [] session e f b = ground arith
  fetch_front-IsAligned budget (m ∷ rest) session e f b = ground (arith, frame-is_empty m.payload)

  fetch-IsAllowed :
      (phase : Phase)
      → is_failing n.place ≡ false
      → n.pending_frame ≡ none
      → IsAligned phase n
      → IsAllowed phase [] (fetch o n s).0
  unfolding fetch fetch_front
  fetch-IsAllowed absent fine e v = ground (arith, v)
  fetch-IsAllowed (idle budget) fine e v = elim (Option-cases n.session) [
    | inl none_ ↦ ground (arith, v)
    | inr (session, some_) ↦
        ground (arith, v, fetch_front-IsAligned budget s.queue session some_ e (rw some_ at v.0))
  ]
  fetch-IsAllowed (Phase.retrying budget f) fine e v = ground (arith, v)
  fetch-IsAllowed broken fine e v = ground (arith, v)

  write_pending-IsAllowed :
      (cfg : Config) (interval : ℕ → ℕ) (phase : Phase)
      → is_failing n.place ≡ false
      → is_some n.session ≡ true
      → IsAligned phase n
      → IsAllowed phase (calls_at writing o n) (write_pending cfg interval o n s).0
  unfolding write_pending
  write_pending-IsAllowed cfg interval absent fine open_ v = ground (arith, v)
  write_pending-IsAllowed cfg interval (idle budget) fine open_ v = ground (arith, v)
  write_pending-IsAllowed cfg interval (Phase.retrying budget f) fine open_ v =
      ground (arith, v, bytes_eq_self f)
  write_pending-IsAllowed cfg interval broken fine open_ v = ground (arith, v)

  close-IsAllowed :
      (phase : Phase) (t : Sender) (e : Text)
      → t.session ≡ none
      → IsAligned phase n
      → IsAllowed phase (calls_at (failing e) o n) t
  close-IsAllowed absent t e gone v = ground (arith, v)
  close-IsAllowed (idle budget) t e gone v = ground (arith, v)
  close-IsAllowed (Phase.retrying budget f) t e gone v = ground (arith, v)
  close-IsAllowed broken t e gone v = ground (arith, v)

module _ (cfg : Config) (host : Result Text) (interval : ℕ → ℕ) (o : Observed) (n : Sender)
    (s : State) where
  -- One turn of the sender calls what its phase allows.
  step_at-IsAllowed :
      (p : Place) (phase : Phase)
      → n.place ≡ p
      → IsPlaced p n s
      → IsAligned phase n
      → IsAllowed phase (calls_at p o n) (step_at cfg host interval p o n s).0
  unfolding at_top start_lookup await_lookup choose on_connect_failed retry settle wait fail
  step_at-IsAllowed top phase e p v =
      IsAligned-kept phase n _ (ground arith) (ground arith) (ground (arith, e)) v
  step_at-IsAllowed resolving phase e p v =
      IsAligned-kept phase n _ (ground arith) (ground arith) (ground (arith, e)) v
  step_at-IsAllowed (looking_up until) phase e p v =
      IsAligned-kept phase n _ (ground arith) (ground arith) (ground (arith, e)) v
  step_at-IsAllowed (resolved addresses) phase e p v =
      IsAligned-kept phase n _ (ground arith) (ground arith) (ground (arith, e)) v
  step_at-IsAllowed (connecting remote) phase e p v = on_connect-IsAllowed o n s phase remote p v
  step_at-IsAllowed (connect_failed t) phase e p v =
      IsAligned-kept phase n _ (ground arith) (ground arith) (ground (arith, e)) v
  step_at-IsAllowed (Place.retrying t) phase e p v =
      IsAligned-kept phase n _ refl refl (ground (arith, e)) v
  step_at-IsAllowed polling phase e p v = poll_session-IsAllowed o n s phase (ground (arith, e)) p v
  step_at-IsAllowed fetching phase e p v = fetch-IsAllowed o n s phase (ground (arith, e)) p.1 v
  step_at-IsAllowed writing phase e p v =
      write_pending-IsAllowed o n s cfg interval phase (ground (arith, e)) p v
  step_at-IsAllowed (failing t) phase e p v = close-IsAllowed o n s phase _ t refl v
  step_at-IsAllowed settling phase e p v = IsAligned-kept phase n _ refl refl (ground (arith, e)) v
  step_at-IsAllowed (pausing until) phase e p v =
      IsAligned-kept phase n _ (ground arith) (ground arith) (ground (arith, e)) v
  step_at-IsAllowed closing phase e p v = close-IsAllowed o n s phase _ [] refl v
  step_at-IsAllowed stopped phase e p v = v
  step_at-IsAllowed crashed phase e p v = v

Leads-some :
    (o : Option Phase) (n : Sender)
    → Leads o n
    → (next : Phase) × (o ≡ some next) × IsAligned next n
Leads-some none n h = absurd h
Leads-some (some next) n h = (next, refl, h)

-- Without a session there is no conversation.
IsAligned-absent :
    (phase : Phase) (n : Sender) → n.session ≡ none → IsAligned phase n → phase ≡ absent
IsAligned-absent absent n e v = refl
IsAligned-absent (idle budget) n e v = absurd (ground (arith, v))
IsAligned-absent (Phase.retrying budget f) n e v = absurd (ground (arith, v))
IsAligned-absent broken n e v = absurd (ground (arith, v))

obeys-append :
    (phase next : Phase) (xs ys : List SessionCall)
    → obeys phase xs ≡ some next
    → obeys phase (xs ++ ys) ≡ obeys next ys
obeys-append phase next [] ys e = ground (arith, e)
obeys-append phase next (x ∷ xs) ys e = elim (Option-cases (allowed phase x)) [
  | inl none_ ↦ absurd (ground (arith, e, none_))
  | inr (mid, some_) ↦ rw (obeys, some_) (obeys-append mid next xs ys (rw (obeys, some_) at e))
]

module _ (rfc3339 : Bytes → Bool) (cfg : Config) (host : Result Text) (interval : ℕ → ℕ)
    (limited : IsLimited cfg) (paced : IsPaced cfg) where
  step-IsAllowed :
      (w : System) (a : Action) (phase : Phase)
      → IsSound rfc3339 cfg w
      → IsAligned phase w.sender
      → IsAllowed phase (calls_of a w) (step rfc3339 cfg host interval w a).sender
  unfolding step sender_step
  step-IsAllowed w (datagram peer bytes wall_ms) phase sound v = ground (arith, v)
  step-IsAllowed w (socket_error e now) phase sound v = ground (arith, v)
  step-IsAllowed w listener_check phase sound v = v
  step-IsAllowed w (sender_turn o) phase sound v =
      step_at-IsAllowed cfg host interval o w.sender w.state w.sender.place phase refl
        sound.in_step.placed v
  step-IsAllowed w (stop_request now) phase sound v = v
  step-IsAllowed w stop_join phase sound v = ground (arith, v)

  -- From any sound system, the rest of a schedule calls what the phase allows.
  conversation-Leads :
      (w : System) (actions : List Action) (phase : Phase)
      → IsSound rfc3339 cfg w
      → IsAligned phase w.sender
      → (next : Phase) × (obeys phase (conversation rfc3339 cfg host interval w actions)
          ≡ some next)
        × IsAligned next (run rfc3339 cfg host interval w actions).sender
  unfolding conversation run
  conversation-Leads w [] phase sound v = (phase, refl, v)
  conversation-Leads w (a ∷ actions) phase sound v =
      let calls = calls_of a w in
      let t = step rfc3339 cfg host interval w a in
      let (next, same, aligned) =
        Leads-some (obeys phase calls) t.sender (step-IsAllowed w a phase sound v) in
      let (last, rest, end) =
        conversation-Leads t actions next
          (step-IsSound rfc3339 cfg host interval limited paced w a sound) aligned in
      (last, obeys-append phase next calls _ same ∙ rest, end)

  -- The calls that the sender makes on its sessions, after any schedule and for a configuration within
  -- the limits, are in an order that OpenSSL allows: nothing is called without a session; a frame that
  -- is offered is not empty and within the session's record budget; a frame that would block is
  -- offered again, unchanged, before anything else but a close; a session that failed is closed next.
  -- When the sender's thread has ended, no session is left open.
  pub session_contract :
      (address destination fingerprint : Text) (now wall_ms : ℕ) (actions : List Action)
      → (next : Phase) × (obeys absent (
            conversation rfc3339 cfg host interval
              (started cfg address destination fingerprint now wall_ms)
              actions)
          ≡ some next)
        × ((run rfc3339 cfg host interval
                (started cfg address destination fingerprint now wall_ms)
                actions).sender.place
              ≡ stopped
            → next ≡ absent)
  unfolding started new_sender
  session_contract address destination fingerprint now wall_ms actions =
      let w = started cfg address destination fingerprint now wall_ms in
      let sound =
        started-IsSound rfc3339 cfg host interval limited paced address destination fingerprint now
          wall_ms in
      let (next, same, aligned) = conversation-Leads w actions absent sound refl in
      let after = run-IsSound rfc3339 cfg host interval limited paced w actions sound in
      let end = run rfc3339 cfg host interval w actions in
      (
        next,
        same,
        λ e.
            let gone = subst (λ q. IsPlaced q end.sender end.state) e after.in_step.placed in
            IsAligned-absent next end.sender gone.2 aligned,
      )
