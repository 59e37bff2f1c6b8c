-- ===== src/Auth/Json.antt =====
-- `serde_json::Value` as crates/cli/src/auth.rs takes it apart, and the redaction of its diagnostics.
use syslog_dtls_agent.Prelude.{
  ℤ, Bool, ◌||◌, Option, none, some, List, [], ◌∷◌, any, if◌then◌else◌, is_empty, Text, text, codes,
  bytes_eq,
}
use syslog_dtls_agent.Config.Names.{to_ascii_lowercase}
use syslog_dtls_agent.Auth.Gate.{starts_with}
use syslog_dtls_agent.Auth.Groups.{Value, string, array, other, Member, name, not_a_string}

-- A number is its value as an `i64`, if it has one.
mutual
  pub data Json : Type 0 where
    null : Json
    bool : Bool → Json
    number : Option ℤ → Json
    text_of : Text → Json
    items : Items → Json
    object : Fields → Json

  pub data Items : Type 0 where
    no_item : Items
    item : Json → Items → Items

  pub data Fields : Type 0 where
    no_field : Fields
    field : Text → Json → Fields → Fields

-- What the group test sees of a value.
abbrev member_of : Json → Member
member_of (text_of s) = name s
member_of value = not_a_string

abbrev members_of : Items → List Member
members_of no_item = []
members_of (item value rest) = member_of value ∷ members_of rest

abbrev pub group_value : Json → Value
group_value (text_of s) = string s
group_value (items values) = array (members_of values)
group_value value = other

-- `as_i64`.
abbrev pub as_i64 : Json → Option ℤ
as_i64 (number n) = n
as_i64 value = none

-- `Map::get`.
unfoldable pub field_of : Text → Fields → Option Json
field_of key no_field = none
field_of key (field k value rest) =
    let found = field_of key rest in if bytes_eq k key then some value else found

-- `s.contains(p)` of a text.
unfoldable pub contains_text : Text → Text → Bool
contains_text p [] = is_empty p
contains_text p (b ∷ s) = starts_with p (b ∷ s) || contains_text p s

abbrev pub hidden_names : List Text
hidden_names =
    codes "nonce"
    ∷ codes "sid"
    ∷ codes "jti"
    ∷ codes "state"
    ∷ codes "at_hash"
    ∷ codes "c_hash"
    ∷ codes "s_hash"
    ∷ codes "code"
    ∷ codes "authorization"
    ∷ codes "cookie"
    ∷ codes "set-cookie"
    ∷ codes "session_id"
    ∷ []

-- The test on the name of a field.
unfoldable pub is_sensitive : Text → Bool
is_sensitive field_name =
    let lower = to_ascii_lowercase field_name in
    any (bytes_eq lower) hidden_names
    || contains_text (codes "token") lower
    || contains_text (codes "secret") lower
    || contains_text (codes "password") lower
    || contains_text (codes "private_key") lower
    || starts_with (codes "code_") lower

abbrev pub redacted : Json
redacted = text_of (text "[REDACTED]")

unfoldable mutual
  pub redact : Json → Json
  redact null = null
  redact (bool b) = bool b
  redact (number n) = number n
  redact (text_of s) = text_of s
  redact (items values) = items (redact_items values)
  redact (object fields) = object (redact_fields fields)

  pub redact_items : Items → Items
  redact_items no_item = no_item
  redact_items (item value rest) = item (redact value) (redact_items rest)

  pub redact_fields : Fields → Fields
  redact_fields no_field = no_field
  redact_fields (field k value rest) =
      let inner = redact value in
      let after = redact_fields rest in field k (if is_sensitive k then redacted else inner) after

-- `diagnostic_claims` of what `serde_json::to_value` makes of the claims.
unfoldable pub diagnostic_claims : Option Json → Json
diagnostic_claims none = redact (text_of (text "[claims serialization failed]"))
diagnostic_claims (some value) = redact value
