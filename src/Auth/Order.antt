-- ===== src/Auth/Order.antt =====
-- `order_authorization_parameters` of crates/cli/src/auth.rs: a stable sort of the query's pairs.
use syslog_dtls_agent.Prelude.{
  ℕ, suc, ◌+◌, ◌≤◌, ◌<◌, ◌≡◌, refl, sym, subst, ap, ◌∙◌, true, false, inl, inr, List, [], ◌∷◌, ◌++◌,
  All, if◌then◌else◌, leb, Text, codes, bytes_eq, Bool-cases, if_both, arith,
}

abbrev pub parameter_order : List Text
parameter_order =
    codes "response_type"
    ∷ codes "client_id"
    ∷ codes "redirect_uri"
    ∷ codes "state"
    ∷ codes "code_challenge"
    ∷ codes "code_challenge_method"
    ∷ codes "nonce"
    ∷ codes "scope"
    ∷ []

-- `order.iter().position(|name| *name == key).unwrap_or(order.len())`.
unfoldable pub rank_in : List Text → Text → ℕ
rank_in [] key = 0
rank_in (name ∷ order) key =
    let rest = rank_in order key in if bytes_eq name key then 0 else suc rest

abbrev Pair : Type 0
Pair = Text × Text

abbrev pub rank_of : Text × Text → ℕ
rank_of pair = rank_in parameter_order pair.0

-- A pair goes before those of its own rank, so that a sort from the back keeps their order.
unfoldable pub place_in : Text × Text → List (Text × Text) → List (Text × Text)
place_in pair [] = pair ∷ []
place_in pair (first ∷ pairs) =
    let rest = place_in pair pairs in
    if leb (rank_of pair) (rank_of first) then pair ∷ first ∷ pairs else first ∷ rest

-- `pairs.sort_by_key(…)`, which the standard library promises to be stable.
unfoldable pub order_authorization_parameters : List (Text × Text) → List (Text × Text)
order_authorization_parameters [] = []
order_authorization_parameters (pair ∷ pairs) = place_in pair (order_authorization_parameters pairs)

-- The pairs with a name, and those without it, in their order.
unfoldable pub named : Text → List (Text × Text) → List (Text × Text)
named name [] = []
named name (pair ∷ pairs) =
    let rest = named name pairs in if bytes_eq name pair.0 then pair ∷ rest else rest

unfoldable pub unnamed : Text → List (Text × Text) → List (Text × Text)
unnamed name [] = []
unnamed name (pair ∷ pairs) =
    let rest = unnamed name pairs in if bytes_eq name pair.0 then rest else pair ∷ rest

-- First the pairs with the first name, then those with the second, and so on; and then the others.
unfoldable pub by_names : List Text → List (Text × Text) → List (Text × Text)
by_names [] pairs = pairs
by_names (name ∷ names) pairs = named name pairs ++ by_names names (unnamed name pairs)

-- A pair's rank is that of its name among the names from the `k`-th on.
abbrev RanksFrom : ℕ → List Text → Pair → Type 0
RanksFrom k names pair = rank_of pair ≡ k + rank_in names pair.0

module _ (P : Pair → Type 0) where
  All-append : (xs ys : List Pair) → All P xs → All P ys → All P (xs ++ ys)
  All-append [] ys h k = k
  All-append (x ∷ xs) ys h k = (h.0, All-append xs ys h.1 k)

  All-named : (name : Text) (pairs : List Pair) → All P pairs → All P (named name pairs)
  unfolding named
  All-named name [] h = tt
  All-named name (pair ∷ pairs) h =
      if_both (All P) (bytes_eq name pair.0) (h.0, All-named name pairs h.1)
        (All-named name pairs h.1)

  All-unnamed : (name : Text) (pairs : List Pair) → All P pairs → All P (unnamed name pairs)
  unfolding unnamed
  All-unnamed name [] h = tt
  All-unnamed name (pair ∷ pairs) h =
      if_both (All P) (bytes_eq name pair.0) (All-unnamed name pairs h.1)
        (h.0, All-unnamed name pairs h.1)

  All-by_names :
      (names : List Text) (pairs : List Pair) → All P pairs → All P (by_names names pairs)
  unfolding by_names
  All-by_names [] pairs h = h
  All-by_names (name ∷ names) pairs h =
      All-append (named name pairs) (by_names names (unnamed name pairs)) (All-named name pairs h)
        (All-by_names names (unnamed name pairs) (All-unnamed name pairs h))

-- A pair goes to the front of pairs that rank no lower, and passes those that rank lower.
place_in_front :
    (pair : Pair) (pairs : List Pair)
    → All (λ q. rank_of pair ≤ rank_of q) pairs
    → place_in pair pairs ≡ pair ∷ pairs
unfolding place_in
place_in_front pair [] h = refl
place_in_front pair (first ∷ pairs) h = ground (arith, h.0)

place_in-append :
    (pair : Pair) (before after : List Pair)
    → All (λ q. rank_of q < rank_of pair) before
    → place_in pair (before ++ after) ≡ before ++ place_in pair after
unfolding place_in
place_in-append pair [] after h = refl
place_in-append pair (first ∷ before) after h =
    ground (arith, h.0, place_in-append pair before after h.1)

module _ (k : ℕ) (name : Text) (names : List Text) where
  rank_in_here : (key : Text) → bytes_eq name key ≡ true → rank_in (name ∷ names) key ≡ 0
  unfolding rank_in
  rank_in_here key e = rw e refl

  rank_in_there :
      (key : Text)
      → bytes_eq name key ≡ false
      → rank_in (name ∷ names) key ≡ suc (rank_in names key)
  unfolding rank_in
  rank_in_there key e = rw e refl

  ranks_named :
      (pair : Pair)
      → RanksFrom k (name ∷ names) pair
      → bytes_eq name pair.0 ≡ true
      → rank_of pair ≡ k
  ranks_named pair h e = omega (arith, h, rank_in_here pair.0 e)

  ranks_unnamed :
      (pair : Pair)
      → RanksFrom k (name ∷ names) pair
      → bytes_eq name pair.0 ≡ false
      → RanksFrom (suc k) names pair
  ranks_unnamed pair h e = omega (arith, h, rank_in_there pair.0 e)

  named-below :
      (r : ℕ) (pairs : List Pair)
      → k < r
      → All (RanksFrom k (name ∷ names)) pairs
      → All (λ q. rank_of q < r) (named name pairs)
  unfolding named
  named-below r [] b h = tt
  named-below r (pair ∷ pairs) b h = elim (Bool-cases (bytes_eq name pair.0)) [
    | inl e ↦ rw e (omega (arith, ranks_named pair h.0 e), named-below r pairs b h.1)
    | inr e ↦ rw e (named-below r pairs b h.1)
  ]

  unnamed-RanksFrom :
      (pairs : List Pair)
      → All (RanksFrom k (name ∷ names)) pairs
      → All (RanksFrom (suc k) names) (unnamed name pairs)
  unfolding unnamed
  unnamed-RanksFrom [] h = tt
  unnamed-RanksFrom (pair ∷ pairs) h = elim (Bool-cases (bytes_eq name pair.0)) [
    | inl e ↦ rw e (unnamed-RanksFrom pairs h.1)
    | inr e ↦ rw e (ranks_unnamed pair h.0 e, unnamed-RanksFrom pairs h.1)
  ]

AtLeast-RanksFrom :
    (k : ℕ) (names : List Text) (pairs : List Pair)
    → All (RanksFrom k names) pairs
    → All (λ q. k ≤ rank_of q) pairs
AtLeast-RanksFrom k names [] h = tt
AtLeast-RanksFrom k names (pair ∷ pairs) h =
    (omega (arith, h.0), AtLeast-RanksFrom k names pairs h.1)

lower_bound :
    (r k : ℕ) (pairs : List Pair)
    → r ≡ k
    → All (λ q. k ≤ rank_of q) pairs
    → All (λ q. r ≤ rank_of q) pairs
lower_bound r k pairs e h = subst (λ i. All (λ q. i ≤ rank_of q) pairs) (sym e) h

rank_in_nil : (key : Text) → rank_in [] key ≡ 0
unfolding rank_in
rank_in_nil key = refl

rank_nil : (k : ℕ) (pair : Pair) → RanksFrom k [] pair → rank_of pair ≡ k
rank_nil k pair h = omega (arith, h, rank_in_nil pair.0)

by_names_nil : (names : List Text) → by_names names [] ≡ []
unfolding by_names named unnamed
by_names_nil [] = refl
by_names_nil (name ∷ names) = by_names_nil names

-- A pair put in its place among pairs that are grouped by name.
place_in-by_names :
    (names : List Text) (k : ℕ) (pair : Pair) (pairs : List Pair)
    → RanksFrom k names pair
    → All (RanksFrom k names) pairs
    → place_in pair (by_names names pairs) ≡ by_names names (pair ∷ pairs)
unfolding by_names named unnamed
place_in-by_names [] k pair pairs h a =
    place_in_front pair pairs
      (lower_bound (rank_of pair) k pairs (rank_nil k pair h) (AtLeast-RanksFrom k [] pairs a))
place_in-by_names (name ∷ names) k pair pairs h a = elim (Bool-cases (bytes_eq name pair.0)) [
  | inl e ↦
      let least = AtLeast-RanksFrom k (name ∷ names) pairs a in
      rw e (
        place_in_front pair (by_names (name ∷ names) pairs) (
          lower_bound (rank_of pair) k (by_names (name ∷ names) pairs)
            (ranks_named k name names pair h e)
            (All-by_names (λ q. k ≤ rank_of q) (name ∷ names) pairs least)))
  | inr e ↦
      let higher = ranks_unnamed k name names pair h e in
      rw e (
        place_in-append pair (named name pairs) (by_names names (unnamed name pairs))
          (named-below k name names (rank_of pair) pairs (omega (arith, higher)) a)
        ∙ ap (λ rest. named name pairs ++ rest)
            (place_in-by_names names (suc k) pair (unnamed name pairs) higher
              (unnamed-RanksFrom k name names pairs a)))
]

every_rank : (pairs : List Pair) → All (RanksFrom 0 parameter_order) pairs
every_rank [] = tt
every_rank (pair ∷ pairs) = (omega arith, every_rank pairs)

order_by_names :
    (pairs : List Pair) → order_authorization_parameters pairs ≡ by_names parameter_order pairs
unfolding order_authorization_parameters
order_by_names [] = sym (by_names_nil parameter_order)
order_by_names (pair ∷ pairs) =
    ap (place_in pair) (order_by_names pairs)
    ∙ place_in-by_names parameter_order 0 pair pairs (omega arith) (every_rank pairs)

-- The parameters come back grouped by their names, in the order `response_type`, `client_id`,
-- `redirect_uri`, `state`, `code_challenge`, `code_challenge_method`, `nonce`, `scope`, and the others
-- last; those of one name, and the others, keep their order. None is lost, repeated or changed.
pub order_authorization_parameters-eq :
    (pairs : List (Text × Text))
    → order_authorization_parameters pairs
      ≡ by_names
          (codes "response_type"
            ∷ codes "client_id"
            ∷ codes "redirect_uri"
            ∷ codes "state"
            ∷ codes "code_challenge"
            ∷ codes "code_challenge_method"
            ∷ codes "nonce"
            ∷ codes "scope"
            ∷ [])
          pairs
order_authorization_parameters-eq pairs = order_by_names pairs
