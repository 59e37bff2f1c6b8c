-- ===== src/Config/Names.antt =====
-- `normalize_name` and `Config::server_name` of crates/core/src/config.rs. The crate `idna` is the
-- parameter `to_ascii` (`domain_to_ascii_strict`); `parse_ip` and `show_ip` are the standard text
-- forms of addresses (`str::parse::<IpAddr>`, `IpAddr::to_string`).
use syslog_dtls_agent.Prelude.{
  ℕ, ◌+◌, Bool, not, ◌||◌, Option, none, some, List, [], ◌∷◌, map, ltb, ◌==◌, if◌then◌else◌, within,
  length, is_empty, all, any, Text, text, Result, ok, ◌>>=◌, ◌>>◌, refuse_if, ok_or,
}
use syslog_dtls_agent.Framing.Text.{starts_with_byte, ends_with_byte}
use syslog_dtls_agent.Ip.{IpAddr}
use syslog_dtls_agent.Oidc.Settings.{trim_end_matches}
use syslog_dtls_agent.Config.Schema.{Config}

-- A byte before the first piece of a split text.
abbrev pub onto_first : ℕ → List Text → List Text
onto_first b [] = (b ∷ []) ∷ []
onto_first b (piece ∷ pieces) = (b ∷ piece) ∷ pieces

-- `s.split(c)`.
unfoldable pub split : ℕ → Text → List Text
split c [] = [] ∷ []
split c (b ∷ s) = let rest = split c s in if b == c then [] ∷ rest else onto_first b rest

-- `u8::is_ascii_alphanumeric`.
abbrev pub is_ascii_alphanumeric : ℕ → Bool
is_ascii_alphanumeric b = within b'0' b'9' b || within b'A' b'Z' b || within b'a' b'z' b

abbrev pub lower : ℕ → ℕ
lower b = if within b'A' b'Z' b then b + 32 else b

abbrev pub to_ascii_lowercase : Text → Text
to_ascii_lowercase = map lower

-- The closure on labels: a label that no host name has.
unfoldable pub bad_label : Text → Bool
bad_label s =
    is_empty s
    || ltb 63 (length s)
    || starts_with_byte b'-' s
    || ends_with_byte b'-' s
    || not (all (λ c. is_ascii_alphanumeric c || c == b'-') s)

unfoldable pub normalize_dns_name : (Text → Option Text) → Text → Result Text
normalize_dns_name to_ascii name = do
  ascii ← ok_or (to_ascii name) (text "Invalid DNS name")
  let trimmed = trim_end_matches b'.' ascii
  refuse_if (is_empty trimmed || ltb 253 (length trimmed) || any bad_label (split b'.' trimmed))
      (text "Expected a hostname or IP address, without scheme or port")
  ok (to_ascii_lowercase trimmed)

module _ (parse_ip : Text → Option IpAddr) (show_ip : IpAddr → Text)
    (to_ascii : Text → Option Text) where
  unfoldable pub normalize_name : Text → Result Text
  normalize_name name = elim (parse_ip name) [
    | some ip ↦ ok (show_ip ip)
    | none ↦ normalize_dns_name to_ascii name
  ]

  -- `Config::server_name`.
  unfoldable pub server_name : Config → Result Text
  server_name cfg = elim cfg.remote.expected_server_name [
    | none ↦ normalize_name cfg.remote.host
    | some name ↦ normalize_name name
  ]
