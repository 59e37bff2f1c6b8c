-- ===== src/Auth/Pieces.antt =====
-- What lies between the commas of a text, apart from `str::split` and `str::contains` of
-- crates/cli/src/auth.rs.
use syslog_dtls_agent.Prelude.{
  ℕ, ◌≡◌, ◌≢◌, refl, sym, ap, subst, ◌∙◌, ◌⊎◌, inl, inr, true, false, List, [], ◌∷◌, ◌++◌, ◌==◌,
  All, map, Text, Bool-cases, arith,
}
use syslog_dtls_agent.Config.Names.{split, onto_first}
use syslog_dtls_agent.Auth.Strings.{contains}

-- Something in a list.
abbrev pub Some {ℓ} : {A : Type ℓ} → (A → Type 0) → List A → Type 0
Some P [] = ⊥
Some P (x ∷ xs) = P x ⊎ Some P xs

abbrev pub HasNo : ℕ → Text → Type 0
HasNo c s = All (λ b. b ≢ c) s

-- A text begins with this piece: it ends with it, or a separator follows.
abbrev pub BeginsWith : ℕ → Text → Text → Type 0
BeginsWith c piece s = HasNo c piece × ((s ≡ piece) ⊎ ((rest : Text) × (s ≡ piece ++ c ∷ rest)))

-- A piece that lies after a separator.
abbrev Follows : ℕ → Text → Text → Type 0
Follows c piece s =
    (before : Text) × (after : Text) × (s ≡ before ++ c ∷ after) × BeginsWith c piece after

-- A piece of a text: what lies between two separators, or between one and an end, or all of it.
abbrev pub IsPiece : ℕ → Text → Text → Type 0
IsPiece c piece s = BeginsWith c piece s ⊎ Follows c piece s

abbrev first_piece : List Text → Text
first_piece [] = []
first_piece (piece ∷ pieces) = piece

abbrev later_pieces : List Text → List Text
later_pieces [] = []
later_pieces (piece ∷ pieces) = pieces

module _ (c : ℕ) where
  onto_first-later : (b : ℕ) (ps : List Text) → later_pieces (onto_first b ps) ≡ later_pieces ps
  onto_first-later b [] = refl
  onto_first-later b (p ∷ ps) = refl

  onto_first-first : (b : ℕ) (ps : List Text) → first_piece (onto_first b ps) ≡ b ∷ first_piece ps
  onto_first-first b [] = refl
  onto_first-first b (p ∷ ps) = refl

  split_here : (b : ℕ) (s : Text) → b ≡ c → split c (b ∷ s) ≡ [] ∷ split c s
  unfolding split
  split_here b s e = ground (arith, e)

  split_there : (b : ℕ) (s : Text) → b ≢ c → split c (b ∷ s) ≡ onto_first b (split c s)
  unfolding split
  split_there b s e = ground (arith, e)

  split-nonempty : (s : Text) → split c s ≡ first_piece (split c s) ∷ later_pieces (split c s)
  unfolding split
  split-nonempty [] = refl
  split-nonempty (b ∷ s) = elim (Bool-cases (b == c)) [
    | inl e ↦ rw e refl
    | inr e ↦ rw e (onto (split c s))
  ]
    where
      onto :
          (ps : List Text)
          → onto_first b ps ≡ first_piece (onto_first b ps) ∷ later_pieces (onto_first b ps)
      onto [] = refl
      onto (p ∷ ps) = refl

  same_or_not : (b : ℕ) → (b ≡ c) ⊎ (b ≢ c)
  same_or_not b = elim (Bool-cases (b == c)) [
    | inl e ↦ inl (ground (arith, e))
    | inr e ↦ inr (λ f. ground (arith, e, f))
  ]

  nothing : BeginsWith c (first_piece (split c [])) []
  unfolding split
  nothing = (tt, inl refl)

  first_nil : first_piece (split c []) ≡ []
  unfolding split
  first_nil = refl

  later_nil : later_pieces (split c []) ≡ []
  unfolding split
  later_nil = refl

  first_piece-BeginsWith : (s : Text) → BeginsWith c (first_piece (split c s)) s
  first_piece-BeginsWith [] = nothing
  first_piece-BeginsWith (b ∷ s) = elim (same_or_not b) [
    | inl e ↦ rw (split_here b s e) (tt, inr (s, ap (λ x. x ∷ s) e))
    | inr e ↦
        let (clean, shape) = first_piece-BeginsWith s in
        rw (split_there b s e, onto_first-first b (split c s))
          (
            (e, clean),
            elim shape [
              | inl all ↦ inl (ap (λ t. b ∷ t) all)
              | inr (rest, more) ↦ inr (rest, ap (λ t. b ∷ t) more)
            ],
          )
  ]

  first_alone : (piece : Text) → HasNo c piece → first_piece (split c piece) ≡ piece
  first_alone [] h = first_nil
  first_alone (b ∷ piece) h =
      ap first_piece (split_there b piece h.0)
      ∙ onto_first-first b (split c piece)
      ∙ ap (λ t. b ∷ t) (first_alone piece h.1)

  first_before :
      (piece rest : Text) → HasNo c piece → first_piece (split c (piece ++ c ∷ rest)) ≡ piece
  first_before [] rest h = ap first_piece (split_here c rest refl)
  first_before (b ∷ piece) rest h =
      ap first_piece (split_there b (piece ++ c ∷ rest) h.0)
      ∙ onto_first-first b (split c (piece ++ c ∷ rest))
      ∙ ap (λ t. b ∷ t) (first_before piece rest h.1)

  first_complete : (piece s : Text) → BeginsWith c piece s → first_piece (split c s) ≡ piece
  first_complete piece s (clean, inl all) =
      ap (λ t. first_piece (split c t)) all ∙ first_alone piece clean
  first_complete piece s (clean, inr (rest, more)) =
      ap (λ t. first_piece (split c t)) more ∙ first_before piece rest clean

  module _ (P : Text → Type 0) where
    one_on :
        (b : ℕ) (s : Text)
        → ((piece : Text) × Follows c piece s × P piece)
        → (piece : Text) × Follows c piece (b ∷ s) × P piece
    one_on b s (piece, (before, after, shape, starts), p) =
        (piece, (b ∷ before, after, ap (λ t. b ∷ t) shape, starts), p)

    later_sound :
        (s : Text)
        → Some P (later_pieces (split c s))
        → (piece : Text) × Follows c piece s × P piece
    later_sound [] h = absurd (subst (Some P) later_nil h)
    later_sound (b ∷ s) h = elim (same_or_not b) [
      | inl e ↦ elim (subst (Some P) (ap later_pieces (split_here b s e) ∙ split-nonempty s) h) [
        | inl p ↦ (first_piece (split c s), ([], s, ap (λ x. x ∷ s) e, first_piece-BeginsWith s), p)
        | inr k ↦ one_on b s (later_sound s k)
      ]
      | inr e ↦ one_on b s (
          later_sound s (
            subst (Some P) (ap later_pieces (split_there b s e) ∙ onto_first-later b (split c s))
              h))
    ]

    pub split_sound : (s : Text) → Some P (split c s) → (piece : Text) × IsPiece c piece s × P piece
    split_sound s h = elim (subst (Some P) (split-nonempty s) h) [
      | inl p ↦ (first_piece (split c s), inl (first_piece-BeginsWith s), p)
      | inr k ↦ let (piece, follows, p) = later_sound s k in (piece, inr follows, p)
    ]

    later_complete :
        (before after : Text)
        → Some P (split c after)
        → Some P (later_pieces (split c (before ++ c ∷ after)))
    later_complete [] after h = subst (Some P) (ap later_pieces (sym (split_here c after refl))) h
    later_complete (b ∷ before) after h = elim (same_or_not b) [
      | inl e ↦
          subst (Some P)
            (sym (
              ap later_pieces (split_here b (before ++ c ∷ after) e)
              ∙ split-nonempty (before ++ c ∷ after)))
            (inr (later_complete before after h))
      | inr e ↦
          subst (Some P)
            (sym (
              ap later_pieces (split_there b (before ++ c ∷ after) e)
              ∙ onto_first-later b (split c (before ++ c ∷ after))))
            (later_complete before after h)
    ]

    begins_complete : (s piece : Text) → BeginsWith c piece s → P piece → Some P (split c s)
    begins_complete s piece h p =
        subst (Some P) (sym (split-nonempty s)) (inl (subst P (sym (first_complete piece s h)) p))

    pub split_complete : (s piece : Text) → IsPiece c piece s → P piece → Some P (split c s)
    split_complete s piece (inl h) p = begins_complete s piece h p
    split_complete s piece (inr (before, after, shape, starts)) p =
        subst (λ t. Some P (split c t)) (sym shape)
          (subst (Some P) (sym (split-nonempty (before ++ c ∷ after)))
            (inr (later_complete before after (begins_complete after piece starts p))))

-- A text with a separator in it.
abbrev pub Has : ℕ → Text → Type 0
Has c s = (before : Text) × (after : Text) × (s ≡ before ++ c ∷ after)

pub contains-Has : (c : ℕ) (s : Text) → contains c s ≡ true → Has c s
contains-Has c [] h = absurd (ground (arith, h))
contains-Has c (b ∷ s) h = elim (Bool-cases (b == c)) [
  | inl e ↦ ([], s, ap (λ x. x ∷ s) (ground (arith, e)))
  | inr e ↦
      let (before, after, shape) = contains-Has c s (ground (arith, h, e)) in
      (b ∷ before, after, ap (λ t. b ∷ t) shape)
]

pub contains-HasNo : (c : ℕ) (s : Text) → contains c s ≡ false → HasNo c s
contains-HasNo c [] h = tt
contains-HasNo c (b ∷ s) h = (λ e. ground (arith, h, e), contains-HasNo c s (ground (arith, h)))

contains_amid : (c : ℕ) (before after : Text) → contains c (before ++ c ∷ after) ≡ true
contains_amid c [] after = ground arith
contains_amid c (b ∷ before) after = ground (arith, contains_amid c before after)

pub Has-contains : (c : ℕ) (s : Text) → Has c s → contains c s ≡ true
Has-contains c s (before, after, shape) = ap (contains c) shape ∙ contains_amid c before after

pub HasNo-contains : (c : ℕ) (s : Text) → HasNo c s → contains c s ≡ false
HasNo-contains c [] h = refl
HasNo-contains c (b ∷ s) h = ground (arith, h.0, HasNo-contains c s h.1)

pub Some-map :
    (P : Text → Type 0) (f : Text → Text) (xs : List Text)
    → Some P (map f xs)
    → Some (λ x. P (f x)) xs
Some-map P f [] h = h
Some-map P f (x ∷ xs) (inl p) = inl p
Some-map P f (x ∷ xs) (inr h) = inr (Some-map P f xs h)

pub map-Some :
    (P : Text → Type 0) (f : Text → Text) (xs : List Text)
    → Some (λ x. P (f x)) xs
    → Some P (map f xs)
map-Some P f [] h = h
map-Some P f (x ∷ xs) (inl p) = inl p
map-Some P f (x ∷ xs) (inr h) = inr (map-Some P f xs h)
