-- ===== src/Auth/Parameters.antt =====
-- The parameters of a callback that `finish_login` of crates/cli/src/auth.rs accepts.
use syslog_dtls_agent.Prelude.{
  ℕ, ◌<◌, ◌≡◌, refl, sym, ap, ◌∙◌, inl, inr, true, false, Option, none, some, List, [], ◌∷◌, ◌++◌,
  append-nil, is_empty, bytes_eq, bytes_eq→eq, if◌then◌else◌, Text, codes, ok, ◌⊎◌, Bool-cases,
  Option-cases, arith,
}
use syslog_dtls_agent.Sources.{is_some}
use syslog_dtls_agent.Auth.Store.{find, insert, remove}
use syslog_dtls_agent.Auth.State.{Flow}
use syslog_dtls_agent.Auth.Finish.{is_text, nonempty_text, collect, differs, check_params}

-- The values that the pairs of a query give a key.
unfoldable pub values_of : Text → List (Text × Text) → List Text
values_of key [] = []
values_of key ((k, value) ∷ pairs) =
    let rest = values_of key pairs in if bytes_eq k key then value ∷ rest else rest

abbrev found : Option Text → List Text
found none = []
found (some value) = value ∷ []

find-remove_other :
    {A : Type 0} (key other : Text) (m : List (Text × A))
    → bytes_eq other key ≡ false
    → find key (remove other m) ≡ find key m
unfolding find remove
find-remove_other key other [] h = refl
find-remove_other key other ((k, a) ∷ m) h = elim (Bool-cases (bytes_eq k other)) [
  | inl e ↦
      (let same = bytes_eq→eq k other e in
        let differs_ : bytes_eq k key ≡ false = ap (λ x. bytes_eq x key) same ∙ h in
        rw (e, differs_) (find-remove_other key other m h))
  | inr e ↦ rw (e, find, find-remove_other key other m h) refl
]

-- A key is found in the collected parameters exactly as often as the pairs name it.
collect-values_of :
    (key : Text) (pairs params collected : List (Text × Text))
    → collect pairs params ≡ ok collected
    → found (find key collected) ≡ found (find key params) ++ values_of key pairs
unfolding collect values_of find insert
collect-values_of key [] params collected e =
    ground (arith, e, append-nil (found (find key params)))
collect-values_of key ((k, value) ∷ pairs) params collected e =
    elim (Option-cases (find k params)) [
      | inr (old, twice) ↦ absurd (ground (arith, e, twice))
      | inl once ↦
          (let rest =
              collect-values_of key pairs (insert k value params) collected
                (ground (arith, e, once)) in
            elim (Bool-cases (bytes_eq k key)) [
              | inl same ↦
                  (let absent : find key params ≡ none =
                      ap (λ x. find x params) (sym (bytes_eq→eq k key same)) ∙ once in
                    rw (absent, same) (rw same at rest))
              | inr other ↦ rw other (rw (other, find-remove_other key k params other) at rest)
            ])
    ]

-- What the parameters have to be, by what the pairs of the query give each key.
pub record AreExpected {Client : Type 0} (now : ℕ) (flow : Flow Client) (pairs : List (Text × Text))
    (code : Text) : Type 0 where
  pub live : now < flow.expires
  pub same_state : values_of (codes "state") pairs ≡ flow.state ∷ []
  pub no_error : values_of (codes "error") pairs ≡ []
  pub same_issuer :
      (values_of (codes "iss") pairs ≡ []) ⊎ (values_of (codes "iss") pairs ≡ flow.issuer ∷ [])
  pub one_code : values_of (codes "code") pairs ≡ code ∷ []
  pub code_given : is_empty code ≡ false

found_text : (o : Option Text) (s : Text) → is_text o s ≡ true → found o ≡ s ∷ []
found_text none s h = absurd (ground (arith, h))
found_text (some t) s h = ap (λ x. x ∷ []) (bytes_eq→eq t s h)

found_none : (o : Option Text) → is_some o ≡ false → found o ≡ []
found_none none h = refl
found_none (some t) h = absurd (ground (arith, h))

found_nonempty :
    (o : Option Text) (code : Text)
    → nonempty_text o ≡ some code
    → (found o ≡ code ∷ []) × (is_empty code ≡ false)
found_nonempty none code h = absurd (ground (arith, h))
found_nonempty (some t) code h = ground (arith, h)

module _ {Client : Type 0} (now : ℕ) (flow : Flow Client) (pairs params : List (Text × Text))
    (code : Text) (collected : collect pairs [] ≡ ok params) where
  given : (key : Text) → found (find key params) ≡ values_of key pairs
  unfolding find
  given key = collect-values_of key pairs [] params collected

  check_params-eq-ok :
      check_params now flow params ≡ ok code
      → (now < flow.expires)
        × (is_text (find (codes "state") params) flow.state ≡ true)
        × (is_some (find (codes "error") params) ≡ false)
        × (differs (find (codes "iss") params) flow.issuer ≡ false)
        × (nonempty_text (find (codes "code") params) ≡ some code)
  unfolding check_params
  check_params-eq-ok e = ground (arith, e)

  issuer_lem :
      (o : Option Text)
      → found o ≡ values_of (codes "iss") pairs
      → differs o flow.issuer ≡ false
      → (values_of (codes "iss") pairs ≡ []) ⊎ (values_of (codes "iss") pairs ≡ flow.issuer ∷ [])
  issuer_lem none e h = inl (sym e)
  issuer_lem (some t) e h =
      inr (sym e ∙ ap (λ x. x ∷ []) (bytes_eq→eq t flow.issuer (ground (arith, h))))

  pub check_params-AreExpected :
      check_params now flow params ≡ ok code → AreExpected now flow pairs code
  check_params-AreExpected e =
      let (live, state, error, issuer, coded) = check_params-eq-ok e in
      let one = found_nonempty (find (codes "code") params) code coded in
      record {
        live = live;
        same_state =
            sym (given (codes "state")) ∙ found_text (find (codes "state") params) flow.state state;
        no_error = sym (given (codes "error")) ∙ found_none (find (codes "error") params) error;
        same_issuer = issuer_lem (find (codes "iss") params) (given (codes "iss")) issuer;
        one_code = sym (given (codes "code")) ∙ one.0;
        code_given = one.1;
      }
