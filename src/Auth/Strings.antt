-- ===== src/Auth/Strings.antt =====
-- What crates/cli/src/auth.rs takes from `str`: trimming, splitting and comparing without case.
use syslog_dtls_agent.Prelude.{
  ℕ, Bool, Option, none, some, [], ◌∷◌, ◌++◌, ◌==◌, if◌then◌else◌, any, Text, bytes_eq,
}
use syslog_dtls_agent.Oidc.Settings.{is_space, is_space_pair, is_space_triple, is_blank}
use syslog_dtls_agent.Config.Names.{to_ascii_lowercase}

-- `str::trim_start`, by whole characters.
unfoldable pub trim_start : Text → Text
trim_start [] = []
trim_start (b ∷ []) = if is_space b then [] else b ∷ []
trim_start (b ∷ c ∷ []) =
    let one = trim_start (c ∷ []) in
    if is_space b then one else if is_space_pair b c then [] else b ∷ c ∷ []
trim_start (b ∷ c ∷ d ∷ s) =
    let one = trim_start (c ∷ d ∷ s) in
    let two = trim_start (d ∷ s) in
    let three = trim_start s in
    if is_space b
    then one
    else if is_space_pair b c
    then two
    else if is_space_triple b c d
    then three
    else b ∷ c ∷ d ∷ s

-- `str::trim_end`: a text ends where the rest is blank.
unfoldable pub trim_end : Text → Text
trim_end [] = []
trim_end (b ∷ s) = let rest = trim_end s in if is_blank (b ∷ s) then [] else b ∷ rest

unfoldable pub trim : Text → Text
trim s = trim_end (trim_start s)

-- `s.contains(c)` of one ASCII character.
abbrev pub contains : ℕ → Text → Bool
contains c = any (λ b. b == c)

-- `s.split_once(c)`.
unfoldable pub split_once : ℕ → Text → Option (Text × Text)
split_once c [] = none
split_once c (b ∷ s) =
    if b == c
    then some ([], s)
    else elim (split_once c s) [ none ↦ none | some (before, after) ↦ some (b ∷ before, after) ]

-- `s.eq_ignore_ascii_case(t)`.
abbrev pub eq_ignore_ascii_case : Text → Text → Bool
eq_ignore_ascii_case s t = bytes_eq (to_ascii_lowercase s) (to_ascii_lowercase t)

-- `s.replace(c, with)` of one ASCII character.
unfoldable pub replace : ℕ → Text → Text → Text
replace c by [] = []
replace c by (b ∷ s) = let rest = replace c by s in if b == c then by ++ rest else b ∷ rest
