-- ===== src/Auth/Access.antt =====
-- Who passes `Auth::gate` of crates/cli/src/auth.rs, and what a login and a logout leave behind.
use syslog_dtls_agent.Prelude.{
  ◌<◌, ◌≡◌, ◌≢◌, refl, inl, inr, not, Option, none, some, if_both, ltb, Text, text, Result, ok, err,
  Result-cases, Option-cases, arith,
}
use syslog_dtls_agent.Oidc.Settings.{Url, http_url}
use syslog_dtls_agent.Auth.Store.{find, find-retain}
use syslog_dtls_agent.Auth.State.{
  ProviderLogout, Session, PendingLogout, Login, Auth, Request, Response, cookie_name, prune,
}
use syslog_dtls_agent.Auth.Handlers.{
  Answers, Outcome, answered, passed, remove_old, take_out, flow_cookie, session_cookie,
  logout_cookie, login, accept, finish_flow, callback, submit_logout, end_session, sign_out,
}
use syslog_dtls_agent.Auth.Gate.{
  gets, is_logout, is_from_ui, gate_known, gate_session, gate_pruned, gate,
}
use syslog_dtls_agent.Auth.Guard.{
  IsBounded, prune-IsBounded, login-IsBounded, callback-IsBounded, end_session-IsBounded,
  sign_out-IsBounded,
}

-- The state of a result is bounded.
record IsKept {Client : Type 0} (r : Auth Client × Outcome) : Type 0 where
  pub bounded : IsBounded r.0

kept : {Client : Type 0} (r : Auth Client × Outcome) → IsBounded r.0 → IsKept r
kept r v = record { bounded = v }

-- A result that passes the request on was reached with a session, and changed nothing.
record IsGuarded {Client : Type 0} (a : Auth Client) (cookie : Option Text)
    (r : Auth Client × Outcome) : Type 0 where
  pub shown :
      r.1 ≡ passed
      → (key : Text) × (session : Session) × (cookie ≡ some key)
        × (find key a.sessions ≡ some session)
        × (r.0 ≡ a)

module _ {Client : Type 0} (parse_url : Text → Option Url) (json : Text → Text → Text) where
  gate_known-IsBounded :
      (o : Answers Client) (request : Request) (key : Text) (session : Session) (a : Auth Client)
      → IsBounded a
      → IsKept (gate_known parse_url json o request key session a)
  unfolding gate_known
  gate_known-IsBounded o request key session a v =
      if_both IsKept (is_logout request)
        (if_both IsKept (not (is_from_ui request)) (kept _ v)
          (kept _ (sign_out-IsBounded json o request key session.provider_logout a v)))
        (kept _ v)

  gate_session-IsBounded :
      (o : Answers Client) (request : Request) (key : Option Text) (a : Auth Client)
      → IsBounded a
      → IsKept (gate_session parse_url json o request key a)
  unfolding gate_session
  gate_session-IsBounded o request none a v = kept _ v
  gate_session-IsBounded o request (some key) a v = elim (Option-cases (find key a.sessions)) [
    | inl e ↦ rw (gate_session, e) (kept _ v)
    | inr (session, e) ↦ rw (gate_session, e) (gate_known-IsBounded o request key session a v)
  ]

  gate_pruned-IsBounded :
      (o : Answers Client) (request : Request) (a : Auth Client)
      → IsBounded a
      → IsKept (gate_pruned parse_url json o request a)
  unfolding gate_pruned
  gate_pruned-IsBounded o request a v = if_both IsKept _ (kept _ (login-IsBounded o request a v)) (
      if_both IsKept _ (kept _ (callback-IsBounded o request a v)) (
        if_both IsKept _ (kept _ (end_session-IsBounded parse_url request a v)) (
          if_both IsKept _ (kept _ v)
            (gate_session-IsBounded o request (session_cookie a request) a v))))

  -- Every request leaves at most 64 pending logins, 128 sessions and 128 pending logouts, if there were
  -- no more before it.
  pub gate-IsBounded :
      (o : Answers Client) (request : Request) (a : Auth Client)
      → IsBounded a
      → IsBounded (gate parse_url json o request a).0
  unfolding gate
  gate-IsBounded o request a v =
      (gate_pruned-IsBounded o request (prune o.now a) (prune-IsBounded o.now a v)).bounded

  answer :
      (a b : Auth Client) (cookie : Option Text) (r : Response) → IsGuarded a cookie (b, answered r)
  answer a b cookie r = record { shown = λ e. absurd (ground (arith, e)) }

  stops :
      (a : Auth Client) (cookie : Option Text) (r : Auth Client × Outcome)
      → r.1 ≢ passed
      → IsGuarded a cookie r
  stops a cookie r h = record { shown = λ e. absurd (h e) }

  login-answers :
      (o : Answers Client) (request : Request) (a : Auth Client) → (login o request a).1 ≢ passed
  unfolding login
  login-answers o request a e = absurd (ground (arith, e))

  accept-answers :
      (o : Answers Client) (request : Request) (r : Result Login) (b : Auth Client)
      → (accept o request r b).1 ≢ passed
  unfolding accept
  accept-answers o request (err reason) b e = absurd (ground (arith, e))
  accept-answers o request (ok l) b e = absurd (ground (arith, e))

  callback-answers :
      (o : Answers Client) (request : Request) (a : Auth Client) → (callback o request a).1 ≢ passed
  unfolding callback
  callback-answers o request a =
      accept-answers o request
        (finish_flow o request.url (take_out (flow_cookie a request) a.flows))
        (record a { flows = remove_old (flow_cookie a request) a.flows })

  submit_logout-answers :
      (l : Option PendingLogout) (a : Auth Client) → submit_logout parse_url l a ≢ passed
  submit_logout-answers none a e = absurd (ground (arith, e))
  submit_logout-answers (some l) a e =
      elim (Result-cases (http_url parse_url l.provider.endpoint)) [
        | inl (url, f) ↦ absurd (ground (arith, f, e))
        | inr (w, f) ↦ absurd (ground (arith, f, e))
      ]

  end_session-answers :
      (request : Request) (a : Auth Client) → (end_session parse_url request a).1 ≢ passed
  unfolding end_session
  end_session-answers request a =
      submit_logout-answers (take_out (logout_cookie a request) a.logouts) a

  sign_out-answers :
      (o : Answers Client) (request : Request) (key : Text) (provider : Option ProviderLogout)
      (a : Auth Client)
      → (sign_out json o request key provider a).1 ≢ passed
  unfolding sign_out
  sign_out-answers o request key none a e = absurd (ground (arith, e))
  sign_out-answers o request key (some provider) a e = absurd (ground (arith, e))

  gate_known-IsGuarded :
      (o : Answers Client) (request : Request) (key : Text) (session : Session) (a : Auth Client)
      → find key a.sessions ≡ some session
      → IsGuarded a (some key) (gate_known parse_url json o request key session a)
  unfolding gate_known
  gate_known-IsGuarded o request key session a h =
      if_both (IsGuarded a (some key)) (is_logout request)
        (if_both (IsGuarded a (some key)) (not (is_from_ui request)) (answer a a (some key) _)
          (stops a (some key) _ (sign_out-answers o request key session.provider_logout a)))
        (record { shown = λ e. (key, session, refl, h, refl) })

  gate_session-IsGuarded :
      (o : Answers Client) (request : Request) (c : Option Text) (a : Auth Client)
      → IsGuarded a c (gate_session parse_url json o request c a)
  unfolding gate_session
  gate_session-IsGuarded o request none a = answer a a none _
  gate_session-IsGuarded o request (some key) a = elim (Option-cases (find key a.sessions)) [
    | inl e ↦ rw (gate_session, e) (answer a a (some key) _)
    | inr (session, e) ↦ rw (gate_session, e) (gate_known-IsGuarded o request key session a e)
  ]

  gate_pruned-IsGuarded :
      (o : Answers Client) (request : Request) (a : Auth Client)
      → IsGuarded a (session_cookie a request) (gate_pruned parse_url json o request a)
  unfolding gate_pruned
  gate_pruned-IsGuarded o request a =
      let c = session_cookie a request in
      if_both (IsGuarded a c) (gets request (text "/auth/login"))
        (stops a c (login o request a) (login-answers o request a))
        (if_both (IsGuarded a c) (gets request (text "/auth/callback"))
          (stops a c (callback o request a) (callback-answers o request a))
          (if_both (IsGuarded a c) (gets request (text "/auth/end-session"))
            (stops a c (end_session parse_url request a) (end_session-answers request a))
            (if_both (IsGuarded a c) (gets request (text "/auth/logout.js")) (answer a a c _)
              (gate_session-IsGuarded o request c a))))

  -- A request that passes the gate carries the cookie of a session that has not expired, and leaves the
  -- state as `prune` left it.
  pub gate-passed :
      (o : Answers Client) (request : Request) (a : Auth Client)
      → (gate parse_url json o request a).1 ≡ passed
      → (key : Text) × (session : Session) × (session_cookie a request ≡ some key)
        × (find key (prune o.now a).sessions ≡ some session)
        × (o.now < session.expires)
        × ((gate parse_url json o request a).0 ≡ prune o.now a)
  unfolding gate prune cookie_name
  gate-passed o request a h =
      let (key, session, c, f, same) = (gate_pruned-IsGuarded o request (prune o.now a)).shown h in
      let live = find-retain (λ (s : Session). ltb o.now s.expires) key a.sessions session f in
      (key, session, c, f, ground (arith, live), same)
