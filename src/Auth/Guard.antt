-- ===== src/Auth/Guard.antt =====
-- What `Auth::gate` of crates/cli/src/auth.rs keeps.
use syslog_dtls_agent.Prelude.{
  ℕ, ◌≤◌, ◌<◌, inl, inr, Option, none, some, List, ltb, leb, length, Text, Result, ok, err,
  Result-cases, Bool-cases, arith,
}
use syslog_dtls_agent.Oidc.Settings.{Url}
use syslog_dtls_agent.Auth.Store.{insert, length-remove, length-insert, length-retain}
use syslog_dtls_agent.Auth.State.{
  Flow, ProviderLogout, Session, PendingLogout, Login, Auth, Request, prune,
}
use syslog_dtls_agent.Auth.Handlers.{
  Answers, remove_old, flow_cookie, session_cookie, logout_cookie, login, accept, callback,
  end_session, sign_out,
}

-- The stores stay small.
pub record IsBounded {Client : Type 0} (a : Auth Client) : Type 0 where
  pub few_flows : length a.flows ≤ 64
  pub few_sessions : length a.sessions ≤ 128
  pub few_logouts : length a.logouts ≤ 128

length-remove_old :
    {A : Type 0} (key : Option Text) (m : List (Text × A)) → length (remove_old key m) ≤ length m
length-remove_old none m = omega arith
length-remove_old (some key) m = length-remove key m

insert-within :
    {A : Type 0} (key : Text) (a : A) (old : Option Text) (m : List (Text × A)) (n : ℕ)
    → length m < n
    → length (insert key a (remove_old old m)) ≤ n
insert-within key a old m n h =
    omega (arith, h, length-insert key a (remove_old old m), length-remove_old old m)

module _ {Client : Type 0} where
  pub prune-IsBounded : (now : ℕ) (a : Auth Client) → IsBounded a → IsBounded (prune now a)
  unfolding prune
  prune-IsBounded now a v = record {
    few_flows =
        omega (arith, v.few_flows, length-retain (λ (f : Flow Client). ltb now f.expires) a.flows);
    few_sessions =
        omega
          (arith, v.few_sessions, length-retain (λ (s : Session). ltb now s.expires) a.sessions);
    few_logouts =
        omega (
          arith,
          v.few_logouts,
          length-retain (λ (l : PendingLogout). ltb now l.expires) a.logouts,
        );
  }

  pub login-IsBounded :
      (o : Answers Client) (request : Request) (a : Auth Client)
      → IsBounded a
      → IsBounded (login o request a).0
  unfolding login
  login-IsBounded o request a v = elim (Bool-cases (leb 64 (length a.flows))) [
    | inl e ↦ rw e v
    | inr e ↦ elim (Result-cases o.begun) [
      | inr (reason, f) ↦ rw (e, f) v
      | inl ((url, key, flow), f) ↦
          rw (e, f)
            (record {
              few_flows =
                  insert-within key flow (flow_cookie a request) a.flows 64 (ground (arith, e));
              few_sessions = v.few_sessions;
              few_logouts = v.few_logouts;
            })
    ]
  ]

  accept-IsBounded :
      (o : Answers Client) (request : Request) (r : Result Login) (a : Auth Client)
      → IsBounded a
      → IsBounded (accept o request r a).0
  unfolding accept
  accept-IsBounded o request (err reason) a v = v
  accept-IsBounded o request (ok l) a v = elim (Bool-cases (ltb (length a.sessions) 128)) [
    | inr e ↦ rw e v
    | inl e ↦ rw e (record {
      few_flows = v.few_flows;
      few_sessions =
          insert-within o.fresh _ (session_cookie a request) a.sessions 128 (ground (arith, e));
      few_logouts = v.few_logouts;
    })
  ]

  pub callback-IsBounded :
      (o : Answers Client) (request : Request) (a : Auth Client)
      → IsBounded a
      → IsBounded (callback o request a).0
  unfolding callback
  callback-IsBounded o request a v = accept-IsBounded o request _ _ (record {
    few_flows = omega (arith, v.few_flows, length-remove_old (flow_cookie a request) a.flows);
    few_sessions = v.few_sessions;
    few_logouts = v.few_logouts;
  })

  pub end_session-IsBounded :
      (parse_url : Text → Option Url) (request : Request) (a : Auth Client)
      → IsBounded a
      → IsBounded (end_session parse_url request a).0
  unfolding end_session
  end_session-IsBounded parse_url request a v = record {
    few_flows = v.few_flows;
    few_sessions = v.few_sessions;
    few_logouts =
        omega (arith, v.few_logouts, length-remove_old (logout_cookie a request) a.logouts);
  }

  pub sign_out-IsBounded :
      (json : Text → Text → Text) (o : Answers Client) (request : Request) (key : Text)
      (provider : Option ProviderLogout) (a : Auth Client)
      → IsBounded a
      → IsBounded (sign_out json o request key provider a).0
  unfolding sign_out
  sign_out-IsBounded json o request key none a v = record {
    few_flows = v.few_flows;
    few_sessions = omega (arith, v.few_sessions, length-remove key a.sessions);
    few_logouts = v.few_logouts;
  }
  sign_out-IsBounded json o request key (some provider) a v =
      elim (Bool-cases (ltb (length a.logouts) 128)) [
        | inr e ↦ rw e (record {
          few_flows = v.few_flows;
          few_sessions = omega (arith, v.few_sessions, length-remove key a.sessions);
          few_logouts = v.few_logouts;
        })
        | inl e ↦ rw e (record {
          few_flows = v.few_flows;
          few_sessions = omega (arith, v.few_sessions, length-remove key a.sessions);
          few_logouts =
              insert-within o.fresh _ (logout_cookie a request) a.logouts 128 (ground (arith, e));
        })
      ]
