-- ===== src/Framing/Message.antt =====
-- `valid_message` and `valid_tail` of crates/core/src/framing.rs.
use syslog_dtls_agent.Prelude.{
  suc, ◌+◌, Bool, true, false, not, ◌&&◌, ◌||◌, none, some, List, [], ◌∷◌, ◌==◌, if◌then◌else◌,
  length, drop, take, is_empty, Bytes, codes, bytes_eq,
}
use syslog_dtls_agent.Framing.Text.{position, slice, starts_with_byte, is_utf8}
use syslog_dtls_agent.Framing.Header.{
  valid_pri, fields, valid_timestamp, valid_fields, field_limits,
}
use syslog_dtls_agent.Framing.Data.{sd_elements}

-- `msg.starts_with(&[0xef, 0xbb, 0xbf])`.
abbrev pub has_bom : Bytes → Bool
has_bom msg = bytes_eq (take 3 msg) (0xef ∷ 0xbb ∷ 0xbf ∷ [])

unfoldable pub valid_tail : Bytes → Bool
valid_tail [] = true
valid_tail (b ∷ msg) = if not (b == b' ') then false else not (has_bom msg) || is_utf8 msg

-- What follows the six header fields.
unfoldable pub valid_body : Bytes → Bool
valid_body rest =
    if starts_with_byte b'-' rest
    then valid_tail (drop 1 rest)
    else elim (sd_elements (suc (length rest)) [] rest) [
      | none ↦ false
      | some (ids, after) ↦ not (is_empty ids) && valid_tail after
    ]

-- The checks on the fields, in the order of the code.
unfoldable pub valid_header : (Bytes → Bool) → List Bytes → Bool
valid_header rfc3339 (version ∷ timestamp ∷ others) =
    bytes_eq version (codes "1")
    && valid_timestamp rfc3339 timestamp
    && valid_fields others field_limits
valid_header rfc3339 _ = false

unfoldable pub valid_message : (Bytes → Bool) → Bytes → Bool
valid_message rfc3339 m =
    if not (starts_with_byte b'<' m) then false else elim (position (λ b. b == b'>') m) [
      | none ↦ false
      | some end ↦
          if not (valid_pri (slice 1 end m)) then false else elim (fields 6 (drop (end + 1) m)) [
            | none ↦ false
            | some (fs, rest) ↦ if valid_header rfc3339 fs then valid_body rest else false
          ]
    ]
