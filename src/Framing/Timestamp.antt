-- ===== src/Framing/Timestamp.antt =====
-- The timestamps that `valid_message` of crates/core/src/framing.rs accepts.
use syslog_dtls_agent.Prelude.{
  ℕ, suc, ◌+◌, ◌≤◌, ◌≡◌, ◌≢◌, ◌⊎◌, ◌↔◌, refl, sym, ap, ap₂, ◌∙◌, inl, inr, Bool, true, false, ◌||◌,
  none, some, [], ◌∷◌, ◌++◌, leb, ◌==◌, length, take, drop, drop-append_cons, take-append-drop, All,
  Bytes, codes, bytes_eq, bytes_eq→eq, bytes_eq_self, Bool-cases, Option-cases, arith,
}
use syslog_dtls_agent.Framing.Text.{
  is_digit, position, is_utf8, get_from, get_range, contains_byte, ends_with_byte,
}
use syslog_dtls_agent.Framing.Header.{
  leading_digits, short_fraction, has_offset_sign, valid_timestamp,
}
use syslog_dtls_agent.Framing.Scan.{position-IsSplit, position-append}

-- `Z` at the end, or a sign behind the seconds.
pub data IsZoned (ts : Bytes) : Type 0 where
  utc : (s : Bytes) → ts ≡ s ++ b'Z' ∷ [] → IsZoned ts
  offset : (s : Bytes) → get_from 19 ts ≡ some s → has_offset_sign s ≡ true → IsZoned ts

-- A full timestamp: RFC 3339 with `T` and an offset, six fraction digits at most, no leap second.
pub record IsFullTime (rfc3339 : Bytes → Bool) (ts : Bytes) : Type 0 where
  pub utf8 : is_utf8 ts ≡ true
  pub separated : contains_byte b'T' ts ≡ true
  pub zoned : IsZoned ts
  pub parses : rfc3339 ts ≡ true
  pub short :
      (before digits after : Bytes)
      → ts ≡ before ++ b'.' ∷ (digits ++ after)
      → All (λ b. (b == b'.') ≡ false) before
      → All (λ b. is_digit b ≡ true) digits
      → length digits ≤ 6
  pub no_leap : get_range 17 19 ts ≢ some (codes "60")

-- NILVALUE, or a full timestamp.
abbrev pub IsTimestamp : (Bytes → Bool) → Bytes → Type 0
IsTimestamp rfc3339 ts = (ts ≡ codes "-") ⊎ IsFullTime rfc3339 ts

leading_digits-append :
    (ds after : Bytes) → All (λ b. is_digit b ≡ true) ds → length ds ≤ leading_digits (ds ++ after)
unfolding leading_digits
leading_digits-append [] after a = omega arith
leading_digits-append (d ∷ ds) after a = ground (arith, a.0, leading_digits-append ds after a.1)

digits_taken :
    (s : Bytes)
    → All (λ b. is_digit b ≡ true) (take (leading_digits s) s)
      × (length (take (leading_digits s) s) ≡ leading_digits s)
unfolding leading_digits
digits_taken [] = (tt, refl)
digits_taken (b ∷ s) = elim (Bool-cases (is_digit b)) [
  | inl e ↦ rw (e, leading_digits) ((e, (digits_taken s).0), ap suc (digits_taken s).1)
  | inr e ↦ rw (e, leading_digits) (tt, refl)
]

ends_sound : (c : ℕ) (s : Bytes) → ends_with_byte c s ≡ true → (t : Bytes) × (s ≡ t ++ c ∷ [])
unfolding ends_with_byte
ends_sound c [] h = absurd (ground arith)
ends_sound c (b ∷ []) h = ([], ap (λ x. x ∷ []) (ground arith))
ends_sound c (b ∷ d ∷ s) h = let (t, e) = ends_sound c (d ∷ s) h in (b ∷ t, ap (λ l. b ∷ l) e)

ends_complete : (c : ℕ) (t : Bytes) → ends_with_byte c (t ++ c ∷ []) ≡ true
unfolding ends_with_byte
ends_complete c [] = ground arith
ends_complete c (b ∷ []) = ground arith
ends_complete c (b ∷ d ∷ t) = ends_complete c (d ∷ t)

-- The fraction has six digits at most.
short_sound :
    (ts : Bytes)
    → short_fraction ts ≡ true
    → (before ds after : Bytes) → ts ≡ before ++ b'.' ∷ (ds ++ after)
    → All (λ b. (b == b'.') ≡ false) before
    → All (λ b. is_digit b ≡ true) ds
    → length ds ≤ 6
unfolding short_fraction
short_sound ts h before ds after e clear a =
    let found : position (λ b. b == b'.') ts ≡ some (length before) =
      ap (position (λ b. b == b'.')) e
      ∙ position-append (λ b. b == b'.') before (ds ++ after) b'.' clear refl in
    let left : drop (length before + 1) ts ≡ ds ++ after =
      ap (drop (length before + 1)) e ∙ drop-append_cons before (ds ++ after) b'.' in
    let few : leb (leading_digits (drop (length before + 1) ts)) 6 ≡ true =
      ground (arith, h, found) in
    ground (arith, few, ap leading_digits left, leading_digits-append ds after a)

short_complete :
    (ts : Bytes)
    → ((before ds after : Bytes)
        → ts ≡ before ++ b'.' ∷ (ds ++ after)
        → All (λ b. (b == b'.') ≡ false) before
        → All (λ b. is_digit b ≡ true) ds
        → length ds ≤ 6)
    → short_fraction ts ≡ true
unfolding short_fraction
short_complete ts few = elim (Option-cases (position (λ b. b == b'.') ts)) [
  | inl e ↦ rw (short_fraction, e) refl
  | inr (n, e) ↦
      (let q = position-IsSplit (λ b. b == b'.') ts n e in
        let dot : q.found ≡ b'.' = ground (arith, q.hit) in
        let text : ts ≡ q.before ++ b'.' ∷ q.after =
          q.text ∙ ap (λ c. q.before ++ c ∷ q.after) dot in
        let left : drop (n + 1) ts ≡ q.after =
          ap₂ (λ k t. drop (k + 1) t) (sym q.long) text ∙ drop-append_cons q.before q.after b'.' in
        let ds = take (leading_digits q.after) q.after in
        let rest = drop (leading_digits q.after) q.after in
        let bound =
          few q.before ds rest
            (text
              ∙ ap (λ t. q.before ++ b'.' ∷ t)
                  (sym (take-append-drop (leading_digits q.after) q.after)))
            q.missed (digits_taken q.after).0 in
        ground (arith, e, ap leading_digits left, bound, (digits_taken q.after).1))
]

IsZoned-sound :
    (ts : Bytes)
    → ends_with_byte b'Z' ts || elim (get_from 19 ts) [ none ↦ false | some s ↦ has_offset_sign s ]
      ≡ true
    → IsZoned ts
IsZoned-sound ts h = elim (Bool-cases (ends_with_byte b'Z' ts)) [
  | inl e ↦ (let (t, f) = ends_sound b'Z' ts e in utc t f)
  | inr e ↦ elim (Option-cases (get_from 19 ts)) [
    | inl f ↦ absurd (ground (arith, e, f, h))
    | inr (s, f) ↦ offset s f (ground (arith, e, f, h))
  ]
]

IsZoned-complete :
    (ts : Bytes)
    → IsZoned ts
    → ends_with_byte b'Z' ts || elim (get_from 19 ts) [ none ↦ false | some s ↦ has_offset_sign s ]
      ≡ true
IsZoned-complete ts (utc s e) = ground (arith, ap (ends_with_byte b'Z') e, ends_complete b'Z' s)
IsZoned-complete ts (offset s e h) = elim (Bool-cases (ends_with_byte b'Z' ts)) [
  | inl f ↦ rw f refl
  | inr f ↦ rw (f, e) h
]

module _ (rfc3339 : Bytes → Bool) (ts : Bytes) where
  full_sound :
      valid_timestamp rfc3339 ts ≡ true → bytes_eq ts (codes "-") ≡ false → IsFullTime rfc3339 ts
  unfolding valid_timestamp
  full_sound h e = record {
    utf8 = ground (arith, h, e);
    separated = ground (arith, h, e);
    zoned = IsZoned-sound ts (ground (arith, h, e));
    parses = ground (arith, h, e);
    short = short_sound ts (ground (arith, h, e));
    no_leap = λ f. absurd (ground (arith, h, e, f, bytes_eq_self (codes "60")));
  }

  full_complete : IsFullTime rfc3339 ts → valid_timestamp rfc3339 ts ≡ true
  unfolding valid_timestamp
  full_complete q = elim (Option-cases (get_range 17 19 ts)) [
    | inl f ↦ ground (arith, q, f, IsZoned-complete ts q.zoned, short_complete ts q.short)
    | inr (s, f) ↦
        (let other : bytes_eq s (codes "60") ≡ false = elim (Bool-cases (bytes_eq s (codes "60"))) [
          | inr g ↦ g
          | inl g ↦ absurd (q.no_leap (f ∙ ap some (bytes_eq→eq s (codes "60") g)))
        ] in
          ground (arith, q, f, other, IsZoned-complete ts q.zoned, short_complete ts q.short))
  ]

  -- The checks on a timestamp accept NILVALUE and the full timestamps, and nothing else.
  pub valid_timestamp-IsTimestamp : (valid_timestamp rfc3339 ts ≡ true) ↔ IsTimestamp rfc3339 ts
  unfolding valid_timestamp
  valid_timestamp-IsTimestamp = (
    λ h. elim (Bool-cases (bytes_eq ts (codes "-"))) [
      | inl e ↦ inl (bytes_eq→eq ts (codes "-") e)
      | inr e ↦ inr (full_sound h e)
    ],
    λ t. elim t [
      | inl e ↦ ground (arith, ap (λ x. bytes_eq x (codes "-")) e, bytes_eq_self (codes "-"))
      | inr q ↦ full_complete q
    ],
  )
