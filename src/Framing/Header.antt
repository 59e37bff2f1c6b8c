-- ===== src/Framing/Header.antt =====
-- The header checks of `valid_message` in crates/core/src/framing.rs: priority, the six
-- space-terminated fields, the timestamp and the length limits.
use syslog_dtls_agent.Prelude.{
  ℕ, zero, suc, ◌+◌, Bool, true, false, not, ◌&&◌, ◌||◌, Option, none, some, List, [], ◌∷◌, ltb,
  leb, ◌==◌, if◌then◌else◌, within, length, get_elem?, drop, take, is_empty, all, Bytes, codes,
  bytes_eq,
}
use syslog_dtls_agent.Framing.Text.{
  is_digit, position, is_utf8, parse_u16, get_from, get_range, contains_byte, ends_with_byte,
}

-- The text between `<` and `>`: one to three digits, no leading zero, at most 191.
unfoldable pub valid_pri : Bytes → Bool
valid_pri pri =
    if is_empty pri
      || ltb 3 (length pri)
      || not (all is_digit pri)
      || (ltb 1 (length pri) && elim (get_elem? pri 0) [ none ↦ false | some b ↦ b == b'0' ])
    then false
    else if is_utf8 pri
    then elim (parse_u16 pri) [ none ↦ false | some p ↦ not (ltb 191 p) ]
    else false

-- `for _ in 0..n`: the next `n` fields, each ended by a space, and what follows them.
unfoldable pub fields : ℕ → Bytes → Option (List Bytes × Bytes)
fields zero rest = some ([], rest)
fields (suc n) rest = elim (position (λ b. b == b' ') rest) [
  | none ↦ none
  | some k ↦ elim (fields n (drop (k + 1) rest)) [
    | none ↦ none
    | some (fs, after) ↦ some (take k rest ∷ fs, after)
  ]
]

-- The digits at the start of a text.
unfoldable pub leading_digits : Bytes → ℕ
leading_digits [] = 0
leading_digits (b ∷ s) = let rest = leading_digits s in if is_digit b then suc rest else 0

-- The fraction digits allowed after the first `.` of a timestamp.
unfoldable pub short_fraction : Bytes → Bool
unfolding leading_digits
short_fraction ts = elim (position (λ b. b == b'.') ts) [
  | none ↦ true
  | some n ↦ leb (leading_digits (drop (n + 1) ts)) 6
]

abbrev pub has_offset_sign : Bytes → Bool
has_offset_sign s = contains_byte b'+' s || contains_byte b'-' s

-- `rfc3339` stands for `OffsetDateTime::parse(ts, &Rfc3339).is_ok()` of the crate `time`.
unfoldable pub valid_timestamp : (Bytes → Bool) → Bytes → Bool
valid_timestamp rfc3339 ts =
    if bytes_eq ts (codes "-")
    then true
    else if not (is_utf8 ts)
    then false
    else if not (contains_byte b'T' ts)
        || not (
            ends_with_byte b'Z' ts
            || elim (get_from 19 ts) [ none ↦ false | some s ↦ has_offset_sign s ])
        || not (rfc3339 ts)
    then false
    else if not (short_fraction ts)
    then false
    else elim (get_range 17 19 ts) [ none ↦ true | some s ↦ not (bytes_eq s (codes "60")) ]

-- HOSTNAME, APP-NAME, PROCID and MSGID: printable ASCII of bounded length.
unfoldable pub valid_field : Bytes → ℕ → Bool
valid_field field limit =
    not (is_empty field || ltb limit (length field) || not (all (within 33 126) field))

-- The loop over `fields[2..].iter().zip([255, 48, 128, 32])`.
unfoldable pub valid_fields : List Bytes → List ℕ → Bool
valid_fields [] limits = true
valid_fields (f ∷ fs) [] = true
valid_fields (f ∷ fs) (limit ∷ limits) = valid_field f limit && valid_fields fs limits

abbrev pub field_limits : List ℕ
field_limits = 255 ∷ 48 ∷ 128 ∷ 32 ∷ []
