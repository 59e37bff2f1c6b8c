-- ===== src/Auth/Earned.antt =====
-- Every session of crates/cli/src/auth.rs comes from a login that was earned.
use syslog_dtls_agent.Prelude.{
  ◌+◌, ◌≡◌, refl, ap, subst, ◌⊎◌, inl, inr, not, ltb, Option, none, some, List, [], if◌then◌else◌,
  Bool, true, false, ◌∷◌, if_both, length, Text, text, bytes_eq, Result, ok, err, Option-cases,
  arith,
}
use syslog_dtls_agent.Oidc.Settings.{Url, Oidc}
use syslog_dtls_agent.Auth.Store.{find, insert, remove, retain}
use syslog_dtls_agent.Auth.State.{Flow, Session, Login, Auth, Request, prune}
use syslog_dtls_agent.Auth.Handlers.{
  Answers, Outcome, seconds, remove_old, take_out, flow_cookie, session_cookie, login, accept,
  finish_flow, callback, end_session,
}
use syslog_dtls_agent.Auth.Gate.{
  gets, is_logout, is_from_ui, gate_known, gate_session, gate_pruned, gate,
}
use syslog_dtls_agent.Auth.Once.{sign_out_sessions}
use syslog_dtls_agent.Auth.Finish.{Provider, finish_login}
use syslog_dtls_agent.Auth.Admission.{IsEarned, finish_login-IsEarned}

abbrev pub IsIn : {A : Type 0} → Text × A → List (Text × A) → Type 0
IsIn entry [] = ⊥
IsIn entry (x ∷ m) = (entry ≡ x) ⊎ IsIn entry m

module _ {A : Type 0} where
  if-IsIn :
      (b : Bool) (entry x : Text × A) (m n : List (Text × A))
      → (IsIn entry m → IsIn entry n)
      → IsIn entry (if b then m else x ∷ m)
      → IsIn entry (x ∷ n)
  if-IsIn true entry x m n k h = inr (k h)
  if-IsIn false entry x m n k (inl e) = inl e
  if-IsIn false entry x m n k (inr h) = inr (k h)

  if_kept :
      (b : Bool) (entry x : Text × A) (m n : List (Text × A))
      → (IsIn entry m → IsIn entry n)
      → IsIn entry (if b then x ∷ m else m)
      → IsIn entry (x ∷ n)
  if_kept true entry x m n k (inl e) = inl e
  if_kept true entry x m n k (inr h) = inr (k h)
  if_kept false entry x m n k h = inr (k h)

  IsIn-remove :
      (key : Text) (entry : Text × A) (m : List (Text × A))
      → IsIn entry (remove key m)
      → IsIn entry m
  unfolding remove
  IsIn-remove key entry [] h = absurd h
  IsIn-remove key entry (x ∷ m) h =
      if-IsIn (bytes_eq x.0 key) entry x (remove key m) m (IsIn-remove key entry m) h

  IsIn-remove_old :
      (key : Option Text) (entry : Text × A) (m : List (Text × A))
      → IsIn entry (remove_old key m)
      → IsIn entry m
  IsIn-remove_old none entry m h = h
  IsIn-remove_old (some key) entry m h = IsIn-remove key entry m h

  IsIn-retain :
      (keep : A → Bool) (entry : Text × A) (m : List (Text × A))
      → IsIn entry (retain keep m)
      → IsIn entry m
  unfolding retain
  IsIn-retain keep entry [] h = absurd h
  IsIn-retain keep entry (x ∷ m) h =
      if_kept (keep x.1) entry x (retain keep m) m (IsIn-retain keep entry m) h

-- The sessions of a result are old ones, or as `E` says.
record HasOnly {Client : Type 0} (E : Text × Session → Type 0) (a : Auth Client)
    (r : Auth Client × Outcome) : Type 0 where
  supplied : (entry : Text × Session) → IsIn entry r.0.sessions → IsIn entry a.sessions ⊎ E entry

module _ {Client Tokens Token : Type 0} (p : Provider Client Tokens Token)
    (parse_url : Text → Option Url) (json : Text → Text → Text) (o : Answers Client)
    (request : Request) where
  -- The answers in which `finish_login` is the code's own.
  abbrev pub with_login : Oidc → Answers Client
  with_login config = record o { finish = finish_login p config }

  -- The session of a login that a flow of the store and this callback earned.
  pub record IsFresh (a : Auth Client) (entry : Text × Session) : Type 0 where
    flow_key : Text
    cookie_named : flow_cookie a request ≡ some flow_key
    flow : Flow Client
    pending : find flow_key a.flows ≡ some flow
    granted : Login
    earned : IsEarned p a.config request.url flow granted
    key_fresh : entry.0 ≡ o.fresh
    same_user : entry.1.username ≡ granted.username
    same_end : entry.1.expires ≡ o.now + seconds granted.lifetime

  module _ (a : Auth Client) where
    abbrev answers : Answers Client
    answers = with_login a.config

    same : (r : Auth Client × Outcome) → r.0.sessions ≡ a.sessions → HasOnly (IsFresh a) a r
    same r e = record { supplied = λ entry h. inl (subst (IsIn entry) e h) }

    fewer :
        (r : Auth Client × Outcome) (key : Text)
        → r.0.sessions ≡ remove key a.sessions
        → HasOnly (IsFresh a) a r
    fewer r key e = record {
      supplied = λ entry h. inl (IsIn-remove key entry a.sessions (subst (IsIn entry) e h));
    }

    login_sessions : (login answers request a).0.sessions ≡ a.sessions
    unfolding login
    login_sessions = ground arith

    login-HasOnly : HasOnly (IsFresh a) a (login answers request a)
    login-HasOnly = same (login answers request a) login_sessions

    finish_flow-eq-ok :
        (cookie : Option Text) (l : Login)
        → finish_flow answers request.url (take_out cookie a.flows) ≡ ok l
        → (flow_key : Text) × (flow : Flow Client) × (cookie ≡ some flow_key)
          × (find flow_key a.flows ≡ some flow)
          × (finish_login p a.config request.url flow ≡ ok l)
    finish_flow-eq-ok none l e = absurd (ground (arith, e))
    finish_flow-eq-ok (some flow_key) l e = elim (Option-cases (find flow_key a.flows)) [
      | inl gone ↦ absurd (ground (arith, e, gone))
      | inr (flow, here) ↦ (flow_key, flow, refl, here, ground (arith, e, here))
    ]

    granted-HasOnly :
        (l : Login) (key : Option Text) (r : Auth Client × Outcome)
        → finish_flow answers request.url (take_out (flow_cookie a request) a.flows) ≡ ok l
        → r.0.sessions
          ≡ insert o.fresh
              (record {
                expires = o.now + seconds l.lifetime;
                username = l.username;
                provider_logout = l.provider_logout;
              })
              (remove_old key a.sessions)
        → HasOnly (IsFresh a) a r
    unfolding insert
    granted-HasOnly l key r e f =
        let (flow_key, flow, named, pending, done) =
          finish_flow-eq-ok (flow_cookie a request) l e in
        record {
          supplied = λ entry h. elim (subst (IsIn entry) f h) [
            | inl g ↦ inr (record {
              flow_key = flow_key;
              cookie_named = named;
              flow = flow;
              pending = pending;
              granted = l;
              earned = finish_login-IsEarned p a.config request.url flow l done;
              key_fresh = ap (λ x. x.0) g;
              same_user = ap (λ (x : Text × Session). x.1.username) g;
              same_end = ap (λ (x : Text × Session). x.1.expires) g;
            })
            | inr k ↦ inl (IsIn-remove_old key entry a.sessions (IsIn-remove o.fresh entry _ k))
          ];
        }

    accept-HasOnly :
        (result : Result Login) (b : Auth Client)
        → finish_flow answers request.url (take_out (flow_cookie a request) a.flows) ≡ result
        → b.sessions ≡ a.sessions
        → HasOnly (IsFresh a) a (accept answers request result b)
    unfolding accept
    accept-HasOnly (err reason) b e f = same _ f
    accept-HasOnly (ok l) b e f =
        if_both (HasOnly (IsFresh a) a) (ltb (length b.sessions) 128)
          (granted-HasOnly l (session_cookie b request) _ e (
            ap
              (λ m.
                insert o.fresh
                  (record {
                    expires = o.now + seconds l.lifetime;
                    username = l.username;
                    provider_logout = l.provider_logout;
                  })
                  (remove_old (session_cookie b request) m))
              f))
          (same _ f)

    callback-HasOnly : HasOnly (IsFresh a) a (callback answers request a)
    unfolding callback
    callback-HasOnly =
        accept-HasOnly _ (record a { flows = remove_old (flow_cookie a request) a.flows }) refl refl

    gate_known-HasOnly :
        (key : Text) (session : Session)
        → HasOnly (IsFresh a) a (gate_known parse_url json answers request key session a)
    unfolding gate_known
    gate_known-HasOnly key session =
        if_both (HasOnly (IsFresh a) a) (is_logout request)
          (if_both (HasOnly (IsFresh a) a) (not (is_from_ui request)) (same _ refl) (
            fewer _ key
              (sign_out_sessions parse_url json answers request key session.provider_logout a)))
          (same _ refl)

    gate_session-HasOnly :
        (cookie : Option Text)
        → HasOnly (IsFresh a) a (gate_session parse_url json answers request cookie a)
    unfolding gate_session
    gate_session-HasOnly none = same _ refl
    gate_session-HasOnly (some key) = elim (Option-cases (find key a.sessions)) [
      | inl e ↦ rw (gate_session, e) (same _ refl)
      | inr (session, e) ↦ rw (gate_session, e) (gate_known-HasOnly key session)
    ]

    gate_pruned-HasOnly : HasOnly (IsFresh a) a (gate_pruned parse_url json answers request a)
    unfolding gate_pruned end_session
    gate_pruned-HasOnly =
        if_both (HasOnly (IsFresh a) a) (gets request (text "/auth/login")) login-HasOnly (
          if_both (HasOnly (IsFresh a) a) (gets request (text "/auth/callback")) callback-HasOnly (
            if_both (HasOnly (IsFresh a) a) (gets request (text "/auth/end-session")) (same _ refl)
              (if_both (HasOnly (IsFresh a) a) (gets request (text "/auth/logout.js")) (same _ refl)
                (gate_session-HasOnly (session_cookie a request)))))

  -- Every session that is there after a request was there before it, or a flow that was pending for the
  -- browser's cookie earned it with this very request: it has the user name of that login and ends when
  -- the login's lifetime does.
  pub gate-IsFresh :
      (a : Auth Client) (entry : Text × Session)
      → IsIn entry (gate parse_url json (with_login a.config) request a).0.sessions
      → IsIn entry a.sessions ⊎ IsFresh (prune o.now a) entry
  unfolding gate prune
  gate-IsFresh a entry h = elim ((gate_pruned-HasOnly (prune o.now a)).supplied entry h) [
    | inl old ↦ inl (IsIn-retain (λ (s : Session). ltb o.now s.expires) entry a.sessions old)
    | inr earned ↦ inr earned
  ]
