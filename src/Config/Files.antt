-- ===== src/Config/Files.antt =====
-- `Config::load`, `to_toml` and `save` of crates/core/src/config.rs. The file system and the crate toml
-- are a `Store`: what each call returns, failures with their messages.
use syslog_dtls_agent.Prelude.{
  Bool, not, Option, none, some, [], ◌∷◌, ◌++◌, ◌==◌, if◌then◌else◌, Text, text, Result, ok, err,
  ◌>>=◌, ◌>>◌, refuse_if, ok_or,
}
use syslog_dtls_agent.Ip.{IpAddr}
use syslog_dtls_agent.Oidc.Settings.{Url, trim_end_matches}
use syslog_dtls_agent.Config.Schema.{Config}
use syslog_dtls_agent.Config.Checks.{parse}

pub record Store : Type 0 where
  -- `std::path::absolute`
  pub absolute : Text → Result Text
  -- `std::fs::read_to_string`
  pub read_to_string : Text → Result Text
  -- `toml::from_str` and `toml::to_string_pretty`
  pub from_toml : Text → Option Config
  pub to_string_pretty : Config → Option Text
  -- opening for writing, mode 0600, and the write of a text after truncation
  pub open_file : Text → Bool
  pub restrict : Text → Bool
  pub rewrite : Text → Text → Bool

-- What stands before the last `/`.
abbrev before_last : Text → Option Text
before_last [] = none
before_last (b ∷ s) = elim (before_last s) [
  | some before ↦ some (b ∷ before)
  | none ↦ if b == b'/' then some [] else none
]

abbrev or_root : Text → Text
or_root [] = b'/' ∷ []
or_root (b ∷ s) = b ∷ s

-- `Path::parent` of a path that names a file. That of an agent does, since the program starts by loading
-- its configuration from it, so that there is a parent.
unfoldable pub parent : Text → Text
parent path = elim (before_last path) [
  | none ↦ []
  | some before ↦ or_root (trim_end_matches b'/' before)
]

-- `map_err(|e| format!("…{e}"))`.
abbrev prefixed : Text → Result Text → Result Text
prefixed before (ok s) = ok s
prefixed before (err e) = err (before ++ e)

module _ (store : Store) where
  unfoldable pub to_toml : Config → Result Text
  to_toml cfg = ok_or (store.to_string_pretty cfg) (text "Cannot serialize configuration")

  -- The text that the file at the path holds afterwards, on a Unix system.
  unfoldable pub save : Config → Text → Result Text
  save cfg path = do
    content ← to_toml cfg
    refuse_if (not (store.open_file path)) (text "Cannot save configuration")
    refuse_if (not (store.restrict path)) (text "Cannot restrict configuration permissions")
    refuse_if (not (store.rewrite path content)) (text "Cannot save configuration")
    ok content

  unfoldable pub load :
      (Text → Option Url)
      → (Text → Option IpAddr)
      → (IpAddr → Text)
      → (Text → Option Text)
      → Text
      → Result Config
  load parse_url parse_ip show_ip to_ascii path = do
    absolute ← store.absolute path
    content ← prefixed (text "Cannot read configuration: ") (store.read_to_string absolute)
    parse parse_url parse_ip show_ip to_ascii store.from_toml content (parent absolute)
