-- ===== src/Auth/Once.antt =====
-- What crates/cli/src/auth.rs uses once: the flow of a login, and a session that is logged out.
use syslog_dtls_agent.Prelude.{
  ◌≡◌, refl, ap, ◌∙◌, inl, inr, true, false, Option, none, some, ltb, length, Text, Result, ok, err,
  Bool-cases, Option-cases, arith,
}
use syslog_dtls_agent.Oidc.Settings.{Url}
use syslog_dtls_agent.Auth.Store.{find, remove, find-remove}
use syslog_dtls_agent.Auth.State.{
  ProviderLogout, Login, Auth, Method, get, post, another, Request, is_get, is_post, prune,
  cookie_name,
}
use syslog_dtls_agent.Auth.Handlers.{
  Answers, remove_old, take_out, flow_cookie, session_cookie, accept, finish_flow, callback,
  sign_out,
}
use syslog_dtls_agent.Auth.Gate.{is_logout, is_from_ui, gate_known, gate_session, gate_pruned, gate}

accept_flows :
    {Client : Type 0} (o : Answers Client) (request : Request) (r : Result Login) (a : Auth Client)
    → (accept o request r a).0.flows ≡ a.flows
unfolding accept
accept_flows o request (err reason) a = refl
accept_flows o request (ok l) a = elim (Bool-cases (ltb (length a.sessions) 128)) [
  | inl e ↦ rw e refl
  | inr e ↦ rw e refl
]

-- A callback consumes the flow that its cookie names, whether the login succeeds or not.
pub find-callback :
    {Client : Type 0} (o : Answers Client) (request : Request) (a : Auth Client) (key : Text)
    → flow_cookie a request ≡ some key
    → find key (callback o request a).0.flows ≡ none
unfolding callback
find-callback o request a key h =
    let b = record a { flows = remove_old (flow_cookie a request) a.flows } in
    let flows_are =
      accept_flows o request (finish_flow o request.url (take_out (flow_cookie a request) a.flows))
        b in
    let removed : b.flows ≡ remove key a.flows = ap (λ c. remove_old c a.flows) h in
    ap (find key) (flows_are ∙ removed) ∙ find-remove key a.flows

not_get : (m : Method) → is_post m ≡ true → is_get m ≡ false
not_get get h = absurd (ground (arith, h))
not_get post h = refl
not_get another h = refl

module _ {Client : Type 0} (parse_url : Text → Option Url) (json : Text → Text → Text) where
  pub sign_out_sessions :
      (o : Answers Client) (request : Request) (key : Text) (provider : Option ProviderLogout)
      (a : Auth Client)
      → (sign_out json o request key provider a).0.sessions ≡ remove key a.sessions
  unfolding sign_out
  sign_out_sessions o request key none a = refl
  sign_out_sessions o request key (some provider) a =
      elim (Bool-cases (ltb (length a.logouts) 128)) [ inl e ↦ rw e refl | inr e ↦ rw e refl ]

  session_ended :
      (o : Answers Client) (request : Request) (a : Auth Client) (key : Text)
      → is_logout request ≡ true
      → is_from_ui request ≡ true
      → find key (gate_session parse_url json o request (some key) a).0.sessions ≡ none
  unfolding gate_session gate_known
  session_ended o request a key l u = elim (Option-cases (find key a.sessions)) [
    | inl e ↦ rw (gate_session, e) e
    | inr (session, e) ↦
        rw (gate_session, e, gate_known, l, u)
          (ap (find key) (sign_out_sessions o request key session.provider_logout a)
            ∙ find-remove key a.sessions)
  ]

  -- After the interface's logout request, the session that its cookie names is gone.
  pub find-gate_logout :
      (o : Answers Client) (request : Request) (a : Auth Client) (key : Text)
      → is_logout request ≡ true
      → is_from_ui request ≡ true
      → session_cookie a request ≡ some key
      → find key (gate parse_url json o request a).0.sessions ≡ none
  unfolding gate gate_pruned prune cookie_name
  find-gate_logout o request a key l u c =
      let post_only = not_get request.method (ground (arith, l)) in
      rw (gate, gate_pruned, post_only, c) (session_ended o request (prune o.now a) key l u)
