-- ===== src/Framing/Data.antt =====
-- The structured-data loops of `valid_message` in crates/core/src/framing.rs, and `sd_name`.
use syslog_dtls_agent.Prelude.{
  ℕ, zero, suc, ◌+◌, Bool, true, false, not, ◌&&◌, ◌||◌, Option, none, some, List, [], ◌∷◌, leb,
  ◌==◌, if◌then◌else◌, within, length, get_elem?, drop, take, is_empty, all, any, Bytes, bytes_eq,
}
use syslog_dtls_agent.Framing.Text.{position, starts_with_byte, is_utf8}

-- `matches!(b, b'=' | b']' | b'"')`.
abbrev pub is_name_stop : ℕ → Bool
is_name_stop b = b == b'=' || b == b']' || b == 0x22

unfoldable pub sd_name : Bytes → Bool
sd_name s =
    not (is_empty s) && leb (length s) 32 && all (λ b. within 33 126 b && not (is_name_stop b)) s

-- The bytes that a backslash escapes: `"`, `\` and `]`.
abbrev pub is_escapable : ℕ → Bool
is_escapable b = b == 0x22 || b == 0x5c || b == b']'

-- The inner `loop`, at index `i`: the list is `rest[i..]`. `some` is the `break` at the closing
-- quote, `none` is `return false`.
unfoldable pub value_end : ℕ → Bytes → Option ℕ
value_end i [] = none
value_end i (b ∷ []) = if b == 0x22 then some i else none
value_end i (b ∷ c ∷ s) =
    let skip = value_end (i + 2) s in
    let next = value_end (i + 1) (c ∷ s) in
    if b == 0x22
    then some i
    else if b == b']'
    then none
    else if b == 0x5c && is_escapable c
    then skip
    else next

abbrev pub some_byte_is : ℕ → Option ℕ → Bool
some_byte_is c none = false
some_byte_is c (some b) = b == c

-- The quoted value that a parameter ends with, from behind its opening quote.
unfoldable pub sd_value : Bytes → Option Bytes
sd_value value = elim (value_end 0 value) [
  | none ↦ none
  | some i ↦ if is_utf8 (take i value) then some (drop (i + 1) value) else none
]

-- One round of `while rest.first() == Some(&b' ')`, after its space: the rest behind the parameter.
unfoldable pub sd_param : Bytes → Option Bytes
sd_param rest = elim (position (λ b. b == b'=') rest) [
  | none ↦ none
  | some n ↦
      if not (sd_name (take n rest)) || not (some_byte_is 0x22 (get_elem? rest (n + 1)))
      then none
      else sd_value (drop (n + 2) rest)
]

-- `while rest.first() == Some(&b' ')`: each round takes at least one byte, so the length of the
-- text is fuel enough.
unfoldable pub sd_params : ℕ → Bytes → Option Bytes
sd_params zero rest = none
sd_params (suc fuel) rest = elim (starts_with_byte b' ' rest) [
  | false ↦ some rest
  | true ↦ elim (sd_param (drop 1 rest)) [ none ↦ none | some after ↦ sd_params fuel after ]
]

-- `ids.contains(&id)`.
unfoldable pub contains_id : Bytes → List Bytes → Bool
contains_id id = any (λ other. bytes_eq other id)

-- The length of the name at the start: `position(…).unwrap_or(rest.len())`.
unfoldable pub name_end : Bytes → ℕ
name_end rest = elim (position (λ b. b == b' ' || b == b']') rest) [
  | none ↦ length rest
  | some n ↦ n
]

-- `while rest.first() == Some(&b'[')`: the ids seen, and what follows the last element.
unfoldable pub sd_elements : ℕ → List Bytes → Bytes → Option (List Bytes × Bytes)
sd_elements zero ids rest = none
sd_elements (suc fuel) ids rest = elim (starts_with_byte b'[' rest) [
  | false ↦ some (ids, rest)
  | true ↦
      let s = drop 1 rest in
      let id = take (name_end s) s in
      if not (sd_name id) || contains_id id ids
      then none
      else elim (sd_params (suc (length s)) (drop (name_end s) s)) [
        | none ↦ none
        | some after ↦ elim (starts_with_byte b']' after) [
          | false ↦ none
          | true ↦ sd_elements fuel (id ∷ ids) (drop 1 after)
        ]
      ]
]
