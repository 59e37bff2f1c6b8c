-- ===== src/Framing/Text.antt =====
-- What framing.rs takes from Rust's standard library: `position` of slices, `str::from_utf8`,
-- `str::parse::<u16>`, and slicing of texts at character boundaries.
use syslog_dtls_agent.Prelude.{
  ℕ, suc, ◌+◌, ◌-◌, ◌*◌, Bool, true, false, not, ◌&&◌, ◌||◌, Option, none, some, List, [], ◌∷◌, ltb,
  leb, ◌==◌, if◌then◌else◌, within, length, get_elem?, take, drop, is_empty, any, Bytes,
}

abbrev pub is_digit : ℕ → Bool
is_digit b = within b'0' b'9' b

-- `slice.iter().position(p)`.
unfoldable pub position : (ℕ → Bool) → Bytes → Option ℕ
position p [] = none
position p (b ∷ s) =
    if p b then some 0 else elim (position p s) [ none ↦ none | some n ↦ some (suc n) ]

-- `slice[from..to]`.
abbrev pub slice : ℕ → ℕ → Bytes → Bytes
slice from to s = take (to - from) (drop from s)

-- `slice.first() == Some(&byte)`.
abbrev pub starts_with_byte : ℕ → Bytes → Bool
starts_with_byte c [] = false
starts_with_byte c (b ∷ s) = b == c

-- The ranges that the bytes after a leading byte must lie in; `none` if it cannot lead.
abbrev continuation : ℕ × ℕ
continuation = (0x80, 0xbf)

pub following : ℕ → Option (List (ℕ × ℕ))
following b =
    if ltb b 0x80
    then some []
    else if within 0xc2 0xdf b
    then some (continuation ∷ [])
    else if b == 0xe0
    then some ((0xa0, 0xbf) ∷ continuation ∷ [])
    else if b == 0xed
    then some ((0x80, 0x9f) ∷ continuation ∷ [])
    else if within 0xe1 0xef b
    then some (continuation ∷ continuation ∷ [])
    else if b == 0xf0
    then some ((0x90, 0xbf) ∷ continuation ∷ continuation ∷ [])
    else if within 0xf1 0xf3 b
    then some (continuation ∷ continuation ∷ continuation ∷ [])
    else if b == 0xf4
    then some ((0x80, 0x8f) ∷ continuation ∷ continuation ∷ [])
    else none

pub utf8_from : List (ℕ × ℕ) → Bytes → Bool
utf8_from [] [] = true
utf8_from (r ∷ rs) [] = false
utf8_from [] (b ∷ s) = elim (following b) [ none ↦ false | some rs ↦ utf8_from rs s ]
utf8_from ((lo, hi) ∷ rs) (b ∷ s) = within lo hi b && utf8_from rs s

-- `std::str::from_utf8(s).is_ok()`.
unfoldable pub is_utf8 : Bytes → Bool
unfolding following utf8_from
is_utf8 s = utf8_from [] s

-- The digits of `str::parse::<u16>`, with its overflow checks.
unfoldable pub parse_digits : ℕ → Bytes → Option ℕ
parse_digits n [] = some n
parse_digits n (b ∷ s) =
    let rest = parse_digits (n * 10 + (b - b'0')) s in
    if not (is_digit b) || ltb 65535 (n * 10 + (b - b'0')) then none else rest

unfoldable pub parse_u16 : Bytes → Option ℕ
unfolding parse_digits
parse_u16 [] = none
parse_u16 (b ∷ s) =
    if b == b'+' then (if is_empty s then none else parse_digits 0 s) else parse_digits 0 (b ∷ s)

-- `str::is_char_boundary(i)`.
unfoldable pub is_char_boundary : ℕ → Bytes → Bool
is_char_boundary i s =
    i == length s || elim (get_elem? s i) [ none ↦ false | some b ↦ not (within 0x80 0xbf b) ]

-- `str::get(from..)` and `str::get(from..to)`.
unfoldable pub get_from : ℕ → Bytes → Option Bytes
unfolding is_char_boundary
get_from from s = if is_char_boundary from s then some (drop from s) else none

unfoldable pub get_range : ℕ → ℕ → Bytes → Option Bytes
unfolding is_char_boundary
get_range from to s =
    if leb from to && is_char_boundary from s && is_char_boundary to s
    then some (slice from to s)
    else none

abbrev pub contains_byte : ℕ → Bytes → Bool
contains_byte c = any (λ b. b == c)

-- `str::ends_with` of one ASCII character.
unfoldable pub ends_with_byte : ℕ → Bytes → Bool
ends_with_byte c [] = false
ends_with_byte c (b ∷ s) = if is_empty s then b == c else ends_with_byte c s
