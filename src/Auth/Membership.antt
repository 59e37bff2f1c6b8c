-- ===== src/Auth/Membership.antt =====
-- What the group test of crates/cli/src/auth.rs decides.
use syslog_dtls_agent.Prelude.{
  ◌≡◌, ◌≢◌, ◌↔◌, ◌⊎◌, refl, sym, ap, ◌∙◌, inl, inr, true, false, not, ◌&&◌, Option, none, some,
  List, [], ◌∷◌, is_empty, all, any, All, Text, bytes_eq, bytes_eq→eq, bytes_eq_self, Bool-cases,
  arith,
}
use syslog_dtls_agent.Config.Names.{split}
use syslog_dtls_agent.Auth.Strings.{contains, trim}
use syslog_dtls_agent.Auth.Pieces.{
  Some, HasNo, Has, IsPiece, split_sound, split_complete, contains-Has, contains-HasNo,
  Has-contains, HasNo-contains, Some-map, map-Some,
}
use syslog_dtls_agent.Auth.Groups.{
  Member, name, not_a_string, Value, string, array, other, is_string, is_name, pieces,
  string_has_group, has_group, check_string, group_check, is_match,
}

-- The groups that a claim names. A string without a comma is one group; in one with commas each piece
-- between them is one, without the blanks at its ends; the empty string is no group of a string. An array
-- names each of its members, if all of them are strings.
abbrev pub IsMember : Option Value → Text → Type 0
IsMember none required = ⊥
IsMember (some (string g)) required =
    (required ≢ [])
    × ((HasNo b',' g × (g ≡ required))
        ⊎ (Has b',' g × ((piece : Text) × IsPiece b',' piece g × (trim piece ≡ required))))
IsMember (some (array groups)) required =
    All (λ m. m ≢ not_a_string) groups × Some (λ m. m ≡ name required) groups
IsMember (some other) required = ⊥

all_strings : (ms : List Member) → all is_string ms ≡ true → All (λ m. m ≢ not_a_string) ms
all_strings [] h = tt
all_strings (name g ∷ ms) h = (λ e. absurd (ground (arith, e)), all_strings ms (ground (arith, h)))
all_strings (not_a_string ∷ ms) h = absurd (ground (arith, h))

strings_all : (ms : List Member) → All (λ m. m ≢ not_a_string) ms → all is_string ms ≡ true
strings_all [] h = refl
strings_all (name g ∷ ms) h = strings_all ms h.1
strings_all (not_a_string ∷ ms) h = absurd (h.0 refl)

given : (s : Text) → is_empty s ≡ false → s ≢ []
given [] h e = absurd (ground arith)
given (b ∷ s) h e = absurd (ground (arith, e))

pieces_sound :
    (ps : List Text) (required : Text)
    → any (λ group. not (is_empty group) && bytes_eq group required) ps ≡ true
    → Some (λ p. p ≡ required) ps
pieces_sound [] required h = absurd (ground arith)
pieces_sound (p ∷ ps) required h = elim (Bool-cases (bytes_eq p required)) [
  | inl e ↦ inl (bytes_eq→eq p required e)
  | inr e ↦ inr (pieces_sound ps required (ground (arith, e, h)))
]

pieces_complete :
    (ps : List Text) (required : Text)
    → is_empty required ≡ false
    → Some (λ p. p ≡ required) ps
    → any (λ group. not (is_empty group) && bytes_eq group required) ps ≡ true
pieces_complete [] required n h = absurd h
pieces_complete (p ∷ ps) required n (inl e) =
    ground (arith, ap is_empty e, n, ap (λ q. bytes_eq q required) e, bytes_eq_self required)
pieces_complete (p ∷ ps) required n (inr h) = ground (arith, pieces_complete ps required n h)

members_sound :
    (ms : List Member) (required : Text)
    → any (is_name required) ms ≡ true
    → Some (λ m. m ≡ name required) ms
members_sound [] required h = absurd (ground arith)
members_sound (not_a_string ∷ ms) required h = inr (members_sound ms required h)
members_sound (name g ∷ ms) required h = elim (Bool-cases (bytes_eq g required)) [
  | inl e ↦ inl (ap name (bytes_eq→eq g required e))
  | inr e ↦ inr (members_sound ms required (ground (arith, e, h)))
]

members_complete :
    (ms : List Member) (required : Text)
    → Some (λ m. m ≡ name required) ms
    → any (is_name required) ms ≡ true
members_complete [] required h = absurd h
members_complete (m ∷ ms) required (inl e) =
    ground (arith, ap (is_name required) e, bytes_eq_self required)
members_complete (m ∷ ms) required (inr h) = ground (arith, members_complete ms required h)

listed_sound :
    (g required : Text)
    → Some (λ p. p ≡ required) (pieces g)
    → (piece : Text) × IsPiece b',' piece g × (trim piece ≡ required)
listed_sound g required h =
    split_sound b',' (λ p. trim p ≡ required) g (Some-map (λ p. p ≡ required) trim (split b',' g) h)

listed_complete :
    (g required piece : Text)
    → IsPiece b',' piece g
    → trim piece ≡ required
    → Some (λ p. p ≡ required) (pieces g)
listed_complete g required piece h e =
    map-Some (λ p. p ≡ required) trim (split b',' g)
      (split_complete b',' (λ p. trim p ≡ required) g piece h e)

string_sound :
    (g required : Text) → string_has_group g required ≡ true → IsMember (some (string g)) required
unfolding string_has_group
string_sound g required h =
    let filled : is_empty required ≡ false = ground (arith, h) in
    elim (Bool-cases (contains b',' g)) [
      | inl e ↦
          let found = pieces_sound (pieces g) required (ground (arith, e, h)) in
          (given required filled, inr (contains-Has b',' g e, listed_sound g required found))
      | inr e ↦ (
        given required filled,
        inl (contains-HasNo b',' g e, bytes_eq→eq g required (ground (arith, e, h))),
      )
    ]

filled_of : (s : Text) → s ≢ [] → is_empty s ≡ false
filled_of [] h = absurd (h refl)
filled_of (b ∷ s) h = refl

string_complete :
    (g required : Text) → IsMember (some (string g)) required → string_has_group g required ≡ true
unfolding string_has_group
string_complete g required (n, inl (e, h)) =
    rw (filled_of required n, HasNo-contains b',' g e)
      (ap (λ t. bytes_eq t required) h ∙ bytes_eq_self required)
string_complete g required (n, inr (e, (piece, listed, h))) =
    rw (filled_of required n, Has-contains b',' g e)
      (pieces_complete (pieces g) required (filled_of required n)
        (listed_complete g required piece listed h))

-- A login is authorised exactly when the claim names the required group, by exact comparison: as the
-- whole of a string without a comma, as a piece between the commas of a string up to blanks at the
-- piece's ends, or as a member of an array of strings. An empty group is never named by a string.
pub has_group-eq-true :
    (value : Option Value) (required : Text)
    → (has_group value required ≡ true) ↔ IsMember value required
unfolding has_group
has_group-eq-true none required = (λ h. absurd (ground (arith, h)), λ h. absurd h)
has_group-eq-true (some other) required = (λ h. absurd (ground (arith, h)), λ h. absurd h)
has_group-eq-true (some (string g)) required = (string_sound g required, string_complete g required)
has_group-eq-true (some (array groups)) required = (
  λ h. (all_strings groups (ground (arith, h)), members_sound groups required (ground (arith, h))),
  λ h. ground (arith, strings_all groups h.0, members_complete groups required h.1),
)

check_string-eq :
    (g required : Text)
    → is_empty required ≡ false
    → contains b',' required ≡ false
    → is_match (check_string g required) ≡ string_has_group g required
unfolding string_has_group
check_string-eq g required n c = elim (Bool-cases (contains b',' g)) [
  | inl e ↦
      (let differs : bytes_eq g required ≡ false = elim (Bool-cases (bytes_eq g required)) [
        | inr f ↦ f
        | inl f ↦ absurd (ground (arith, sym e ∙ ap (contains b',') (bytes_eq→eq g required f) ∙ c))
      ] in
        ground (arith, e, n, differs))
  | inr e ↦ ground (arith, e, n)
]

-- For a required group that is not empty and has no comma, the diagnosis reports a match exactly when
-- the login is authorised.
pub is_match-group_check :
    (value : Option Value) (required : Text)
    → is_empty required ≡ false
    → contains b',' required ≡ false
    → is_match (group_check value required) ≡ has_group value required
unfolding group_check has_group
is_match-group_check none required n c = refl
is_match-group_check (some other) required n c = refl
is_match-group_check (some (array [])) required n c = refl
is_match-group_check (some (array (m ∷ ms))) required n c = ground arith
is_match-group_check (some (string g)) required n c = check_string-eq g required n c
