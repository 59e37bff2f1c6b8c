-- ===== src/Auth/Unwraps.antt =====
-- No `unwrap` of the gate of crates/cli/src/auth.rs fails when `begin_login` and `finish_login` are the
-- code's own.
use syslog_dtls_agent.Prelude.{
  ◌≡◌, ◌≢◌, refl, inl, inr, not, ltb, leb, if_both, Option, none, some, Text, text, Result, ok, err,
  Result-cases, Option-cases, length, arith,
}
use syslog_dtls_agent.Oidc.Settings.{Url, http_url}
use syslog_dtls_agent.Auth.Store.{find}
use syslog_dtls_agent.Auth.State.{
  Flow, ProviderLogout, Session, PendingLogout, Login, Auth, Request, prune,
}
use syslog_dtls_agent.Auth.Handlers.{
  Answers, Outcome, panicked, remove_old, take_out, flow_cookie, session_cookie, logout_cookie,
  login, accept, finish_flow, callback, submit_logout, end_session, sign_out,
}
use syslog_dtls_agent.Auth.Gate.{
  gets, is_logout, is_from_ui, known_outcome, gate_known, gate_session, gate_pruned, gate,
}
use syslog_dtls_agent.Auth.Finish.{Provider, finish_login}
use syslog_dtls_agent.Auth.Begin.{Discovery, begin_login}
use syslog_dtls_agent.Auth.Endpoints.{
  All-remove, All-remove_old, All-retain, All-insert, find-All, IsUsable, IsAbsentOrUsable,
  HasUsable, HasEndpoints, begin_login-IsAbsentOrUsable, finish_login-HasUsable,
}

module _ {Client Keys Tokens Token : Type 0} (d : Discovery Client Keys)
    (p : Provider Client Tokens Token) (parse_url : Text → Option Url) (json : Text → Text → Text)
    (o : Answers Client) (request : Request) where
  -- The answers in which both halves of a login are the code's own.
  abbrev pub own_answers : Auth Client → Answers Client
  own_answers a = record o { begun = begin_login d parse_url a; finish = finish_login p a.config }

  -- Nothing panicked, and the state keeps usable endpoints only.
  pub record IsSafe (r : Auth Client × Outcome) : Type 0 where
    pub endpoints : HasEndpoints parse_url r.0
    pub no_panic : r.1 ≢ panicked

  submit_logout-answers_safely :
      (l : Option PendingLogout) (a : Auth Client)
      → (pending : PendingLogout) → l ≡ some pending
      → IsUsable parse_url pending.provider.endpoint
      → submit_logout parse_url l a ≢ panicked
  submit_logout-answers_safely l a pending e h f =
      elim (Result-cases (http_url parse_url pending.provider.endpoint)) [
        | inl (url, g) ↦ absurd (ground (arith, e, g, f))
        | inr (w, g) ↦ absurd (ground (arith, g, h))
      ]

  module _ (a : Auth Client) (h : HasEndpoints parse_url a) where
    begun-IsSafe :
        (r : Result (Text × Text × Flow Client))
        → begin_login d parse_url a ≡ r
        → IsSafe (login (record o { begun = r; finish = finish_login p a.config }) request a)
    unfolding login
    begun-IsSafe (err reason) e =
        if_both IsSafe (leb 64 (length a.flows))
          (record { endpoints = h; no_panic = λ f. absurd (ground (arith, f)) })
          (record { endpoints = h; no_panic = λ f. absurd (ground (arith, f)) })
    begun-IsSafe (ok (url, key, flow)) e =
        if_both IsSafe (leb 64 (length a.flows))
          (record { endpoints = h; no_panic = λ f. absurd (ground (arith, f)) })
          (record {
            endpoints = record {
              of_flows =
                  All-insert
                    (λ (x : Text × Flow Client). IsAbsentOrUsable parse_url x.1.logout_endpoint) key
                    flow _ (begin_login-IsAbsentOrUsable parse_url d a url key flow e)
                    (All-remove_old
                      (λ (x : Text × Flow Client). IsAbsentOrUsable parse_url x.1.logout_endpoint)
                      (flow_cookie a request) a.flows h.of_flows);
              of_sessions = h.of_sessions;
              of_logouts = h.of_logouts;
            };
            no_panic = λ f. absurd (ground (arith, f));
          })

    accept-IsSafe :
        (r : Result Login)
        → ((l : Login) → r ≡ ok l → HasUsable parse_url l.provider_logout)
        → (c : Answers Client) → IsSafe (accept c request r a)
    unfolding accept
    accept-IsSafe (err reason) k c = record {
      endpoints = h;
      no_panic = λ f. absurd (ground (arith, f));
    }
    accept-IsSafe (ok l) k c =
        if_both IsSafe (ltb (length a.sessions) 128)
          (record {
            endpoints = record {
              of_flows = h.of_flows;
              of_sessions =
                  All-insert (λ (x : Text × Session). HasUsable parse_url x.1.provider_logout)
                    c.fresh _ _ (k l refl)
                    (All-remove_old
                      (λ (x : Text × Session). HasUsable parse_url x.1.provider_logout)
                      (session_cookie a request) a.sessions h.of_sessions);
              of_logouts = h.of_logouts;
            };
            no_panic = λ f. absurd (ground (arith, f));
          })
          (record { endpoints = h; no_panic = λ f. absurd (ground (arith, f)) })

    finish_flow-HasUsable :
        (cookie : Option Text) (l : Login)
        → finish_flow (own_answers a) request.url (take_out cookie a.flows) ≡ ok l
        → HasUsable parse_url l.provider_logout
    finish_flow-HasUsable none l e = absurd (ground (arith, e))
    finish_flow-HasUsable (some key) l e = elim (Option-cases (find key a.flows)) [
      | inl gone ↦ absurd (ground (arith, e, gone))
      | inr (flow, here) ↦
          let (k, usable) =
            find-All (λ (x : Text × Flow Client). IsAbsentOrUsable parse_url x.1.logout_endpoint)
              key a.flows flow h.of_flows here in
          finish_login-HasUsable parse_url p a.config request.url flow l usable
            (ground (arith, e, here))
    ]

  abbrev OfFlows : Text × Flow Client → Type 0
  OfFlows x = IsAbsentOrUsable parse_url x.1.logout_endpoint

  abbrev OfSessions : Text × Session → Type 0
  OfSessions x = HasUsable parse_url x.1.provider_logout

  abbrev OfLogouts : Text × PendingLogout → Type 0
  OfLogouts x = IsUsable parse_url x.1.provider.endpoint

  module _ (a : Auth Client) (h : HasEndpoints parse_url a) where
    callback-IsSafe : IsSafe (callback (own_answers a) request a)
    unfolding callback
    callback-IsSafe =
        accept-IsSafe (record a { flows = remove_old (flow_cookie a request) a.flows })
          (record {
            of_flows = All-remove_old OfFlows (flow_cookie a request) a.flows h.of_flows;
            of_sessions = h.of_sessions;
            of_logouts = h.of_logouts;
          })
          (finish_flow (own_answers a) request.url (take_out (flow_cookie a request) a.flows))
          (λ l e. finish_flow-HasUsable a h (flow_cookie a request) l e) (own_answers a)

    taken_logout :
        (cookie : Option Text) → submit_logout parse_url (take_out cookie a.logouts) a ≢ panicked
    taken_logout none = λ f. absurd (ground (arith, f))
    taken_logout (some key) = elim (Option-cases (find key a.logouts)) [
      | inl gone ↦ rw (gone) (λ f. absurd (ground (arith, f)))
      | inr (pending, here) ↦
          let (k, usable) = find-All OfLogouts key a.logouts pending h.of_logouts here in
          submit_logout-answers_safely (find key a.logouts) a pending here usable
    ]

    end_session-IsSafe : IsSafe (end_session parse_url request a)
    unfolding end_session
    end_session-IsSafe = record {
      endpoints = record {
        of_flows = h.of_flows;
        of_sessions = h.of_sessions;
        of_logouts = All-remove_old OfLogouts (logout_cookie a request) a.logouts h.of_logouts;
      };
      no_panic = taken_logout (logout_cookie a request);
    }

    sign_out-IsSafe :
        (c : Answers Client) (key : Text) (provider : Option ProviderLogout)
        → HasUsable parse_url provider
        → IsSafe (sign_out json c request key provider a)
    unfolding sign_out
    sign_out-IsSafe c key none u = record {
      endpoints = record {
        of_flows = h.of_flows;
        of_sessions = All-remove OfSessions key a.sessions h.of_sessions;
        of_logouts = h.of_logouts;
      };
      no_panic = λ f. absurd (ground (arith, f));
    }
    sign_out-IsSafe c key (some provider) u =
        if_both IsSafe (ltb (length a.logouts) 128)
          (record {
            endpoints = record {
              of_flows = h.of_flows;
              of_sessions = All-remove OfSessions key a.sessions h.of_sessions;
              of_logouts =
                  All-insert OfLogouts c.fresh _ _ u
                    (All-remove_old OfLogouts (logout_cookie a request) a.logouts h.of_logouts);
            };
            no_panic = λ f. absurd (ground (arith, f));
          })
          (record {
            endpoints = record {
              of_flows = h.of_flows;
              of_sessions = All-remove OfSessions key a.sessions h.of_sessions;
              of_logouts = h.of_logouts;
            };
            no_panic = λ f. absurd (ground (arith, f));
          })

    as_it_was : (r : Outcome) → r ≢ panicked → IsSafe (a, r)
    as_it_was r k = record { endpoints = h; no_panic = k }

    known_outcome-answers_safely :
        (session : Session) → known_outcome json request session ≢ panicked
    unfolding known_outcome
    known_outcome-answers_safely session f = absurd (ground (arith, f))

    gate_known-IsSafe :
        (c : Answers Client) (key : Text) (session : Session)
        → HasUsable parse_url session.provider_logout
        → IsSafe (gate_known parse_url json c request key session a)
    unfolding gate_known
    gate_known-IsSafe c key session u =
        if_both IsSafe (is_logout request)
          (if_both IsSafe (not (is_from_ui request)) (as_it_was _ (λ f. absurd (ground (arith, f))))
            (sign_out-IsSafe c key session.provider_logout u))
          (as_it_was _ (known_outcome-answers_safely session))

    gate_session-IsSafe :
        (c : Answers Client) (cookie : Option Text)
        → IsSafe (gate_session parse_url json c request cookie a)
    unfolding gate_session
    gate_session-IsSafe c none = as_it_was _ (λ f. absurd (ground (arith, f)))
    gate_session-IsSafe c (some key) = elim (Option-cases (find key a.sessions)) [
      | inl e ↦ rw (gate_session, e) (as_it_was _ (λ f. absurd (ground (arith, f))))
      | inr (session, e) ↦
          let (k, usable) = find-All OfSessions key a.sessions session h.of_sessions e in
          rw (gate_session, e) (gate_known-IsSafe c key session usable)
    ]

    gate_pruned-IsSafe : IsSafe (gate_pruned parse_url json (own_answers a) request a)
    unfolding gate_pruned
    gate_pruned-IsSafe =
        if_both IsSafe (gets request (text "/auth/login"))
          (begun-IsSafe a h (begin_login d parse_url a) refl)
          (if_both IsSafe (gets request (text "/auth/callback")) callback-IsSafe (
            if_both IsSafe (gets request (text "/auth/end-session")) end_session-IsSafe (
              if_both IsSafe (gets request (text "/auth/logout.js"))
                (as_it_was _ (λ f. absurd (ground (arith, f))))
                (gate_session-IsSafe (own_answers a) (session_cookie a request)))))

  prune-HasEndpoints :
      (a : Auth Client) → HasEndpoints parse_url a → HasEndpoints parse_url (prune o.now a)
  unfolding prune
  prune-HasEndpoints a h = record {
    of_flows = All-retain OfFlows _ a.flows h.of_flows;
    of_sessions = All-retain OfSessions _ a.sessions h.of_sessions;
    of_logouts = All-retain OfLogouts _ a.logouts h.of_logouts;
  }

  -- A request never fails an `unwrap` of the gate when the logout endpoints of the pending logins, the
  -- sessions and the pending logouts are all usable HTTP URLs, and they are all usable again after it:
  -- `begin_login` keeps only an endpoint that it has tested, and `finish_login` and the logout hand it on.
  pub gate-IsSafe :
      (a : Auth Client)
      → HasEndpoints parse_url a
      → HasEndpoints parse_url (gate parse_url json (own_answers (prune o.now a)) request a).0
        × ((gate parse_url json (own_answers (prune o.now a)) request a).1 ≢ panicked)
  unfolding gate
  gate-IsSafe a h =
      let safe = gate_pruned-IsSafe (prune o.now a) (prune-HasEndpoints a h) in
      (safe.endpoints, safe.no_panic)
