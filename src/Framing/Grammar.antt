-- ===== src/Framing/Grammar.antt =====
-- The grammar of RFC 5424 that `valid_message` in crates/core/src/framing.rs is to accept, stated with
-- no reference to how the code scans: a text is the concatenation of its parts.
use syslog_dtls_agent.Prelude.{
  ℕ, ◌≤◌, ◌≡◌, ◌≢◌, ◌⊎◌, true, false, List, [], ◌∷◌, ◌++◌, length, All, any, Bytes, bytes_eq,
}
use syslog_dtls_agent.Framing.Text.{is_utf8}
use syslog_dtls_agent.Framing.Frame.{decimal}
use syslog_dtls_agent.Framing.Message.{has_bom}

abbrev pub quote : ℕ
quote = 0x22

abbrev pub backslash : ℕ
backslash = 0x5c

-- SD-NAME: 1 to 32 printable ASCII characters other than `=`, `]` and `"`.
abbrev pub IsNameByte : ℕ → Type 0
IsNameByte b = (33 ≤ b) × (b ≤ 126) × (b ≢ b'=') × (b ≢ b']') × (b ≢ quote)

pub record IsName (s : Bytes) : Type 0 where
  pub least : 1 ≤ length s
  pub most : length s ≤ 32
  pub printable : All IsNameByte s

abbrev pub IsEscapable : ℕ → Type 0
IsEscapable b = (b ≡ quote) ⊎ (b ≡ backslash) ⊎ (b ≡ b']')

-- The inside of a quoted value: `"`, `\` and `]` stand behind a backslash; a backslash before any other
-- character is a character like others.
pub data IsValue : Bytes → Type 0 where
  empty : IsValue []
  plain : {b : ℕ} {v : Bytes} → b ≢ quote → b ≢ backslash → b ≢ b']' → IsValue v → IsValue (b ∷ v)
  escaped : {b c : ℕ} {v : Bytes} → b ≡ backslash → IsEscapable c → IsValue v → IsValue (b ∷ c ∷ v)
  lone :
      {b c : ℕ} {v : Bytes}
      → b ≡ backslash
      → ¬ IsEscapable c
      → IsValue (c ∷ v)
      → IsValue (b ∷ c ∷ v)

-- PARAM-NAME "=" %d34 PARAM-VALUE %d34, and then `rest`.
pub record IsParam (s rest : Bytes) : Type 0 where
  pub name : Bytes
  pub value : Bytes
  pub text : s ≡ name ++ b'=' ∷ quote ∷ (value ++ quote ∷ rest)
  pub named : IsName name
  pub escaped_value : IsValue value
  pub utf8 : is_utf8 value ≡ true

-- *(SP SD-PARAM), and then `rest`.
pub data IsParams (rest : Bytes) : Bytes → Type 0 where
  finished : {s : Bytes} → s ≡ rest → IsParams rest s
  param :
      {s after tail : Bytes}
      → s ≡ b' ' ∷ tail
      → IsParam tail after
      → IsParams rest after
      → IsParams rest s

-- *("[" SD-ID *(SP SD-PARAM) "]") with ids that differ from each other and from `seen`; then `rest`.
pub data IsElements (rest : Bytes) : List Bytes → List Bytes → Bytes → Type 0 where
  finished :
      {seen ids : List Bytes} {s : Bytes} → s ≡ rest → ids ≡ seen → IsElements rest seen ids s
  element :
      {seen ids : List Bytes} {s params after : Bytes} (id : Bytes)
      → s ≡ b'[' ∷ id ++ params
      → IsName id
      → any (λ other. bytes_eq other id) seen ≡ false
      → IsParams (b']' ∷ after) params
      → IsElements rest (id ∷ seen) ids after
      → IsElements rest seen ids s

-- [SP MSG]: a message that starts with a byte order mark is UTF-8.
abbrev pub IsTail : Bytes → Type 0
IsTail s =
    (s ≡ []) ⊎ ((msg : Bytes) × (s ≡ b' ' ∷ msg) × ((has_bom msg ≡ false) ⊎ (is_utf8 msg ≡ true)))

-- STRUCTURED-DATA [SP MSG]: `-`, or one element or more.
pub data IsBody (s : Bytes) : Type 0 where
  nil_data : (tail : Bytes) → s ≡ b'-' ∷ tail → IsTail tail → IsBody s
  elements :
      (tail : Bytes) (ids : List Bytes)
      → ids ≢ []
      → IsElements tail [] ids s
      → IsTail tail
      → IsBody s

-- HOSTNAME, APP-NAME, PROCID and MSGID: 1 to `limit` printable ASCII characters.
pub record IsField (limit : ℕ) (s : Bytes) : Type 0 where
  pub least : 1 ≤ length s
  pub most : length s ≤ limit
  pub printable : All (λ b. (33 ≤ b) × (b ≤ 126)) s

-- The fields of the header, each one ended by a space, and then `rest`.
abbrev pub spaced : List Bytes → Bytes → Bytes
spaced [] rest = rest
spaced (f ∷ fs) rest = f ++ b' ' ∷ spaced fs rest

-- SYSLOG-MSG of version 1. `IsTime` holds of the texts that are a TIMESTAMP.
pub record IsMessage (IsTime : Bytes → Type 0) (m : Bytes) : Type 0 where
  pub priority : ℕ
  pub timestamp : Bytes
  pub hostname : Bytes
  pub app_name : Bytes
  pub procid : Bytes
  pub msgid : Bytes
  pub body : Bytes
  pub text :
      m
      ≡ b'<'
        ∷ (decimal priority
            ++ b'>'
              ∷ spaced ((b'1' ∷ []) ∷ timestamp ∷ hostname ∷ app_name ∷ procid ∷ msgid ∷ []) body)
  pub priority_bound : priority ≤ 191
  pub time : IsTime timestamp
  pub unspaced : All (λ b. b ≢ b' ') timestamp
  pub hostname_field : IsField 255 hostname
  pub app_name_field : IsField 48 app_name
  pub procid_field : IsField 128 procid
  pub msgid_field : IsField 32 msgid
  pub structured : IsBody body
