-- ===== src/Auth/Groups.antt =====
-- The group test of a login: `string_has_group`, `has_group` and `group_check` of
-- crates/cli/src/auth.rs.
use syslog_dtls_agent.Prelude.{
  Bool, true, false, not, ◌&&◌, Option, none, some, List, if◌then◌else◌, is_empty, all, any, map,
  Text, bytes_eq,
}
use syslog_dtls_agent.Config.Names.{split}
use syslog_dtls_agent.Auth.Strings.{trim, contains, eq_ignore_ascii_case}

-- A member of an array, as far as the code looks at it: a string, or anything else.
pub data Member : Type 0 where
  name : Text → Member
  not_a_string : Member

-- `serde_json::Value`: a string, an array, or anything else.
pub data Value : Type 0 where
  string : Text → Value
  array : List Member → Value
  other : Value

abbrev pub is_string : Member → Bool
is_string (name g) = true
is_string not_a_string = false

-- `g.as_str() == Some(required)`.
abbrev pub is_name : Text → Member → Bool
is_name required (name g) = bytes_eq g required
is_name required not_a_string = false

abbrev pub is_name_ignoring_case : Text → Member → Bool
is_name_ignoring_case required (name g) = eq_ignore_ascii_case g required
is_name_ignoring_case required not_a_string = false

-- The pieces of a comma-separated list, trimmed.
abbrev pub pieces : Text → List Text
pieces groups = map trim (split b',' groups)

unfoldable pub string_has_group : Text → Text → Bool
string_has_group groups required =
    if is_empty required
    then false
    else if contains b',' groups
    then any (λ group. not (is_empty group) && bytes_eq group required) (pieces groups)
    else bytes_eq groups required

unfoldable pub has_group : Option Value → Text → Bool
has_group none required = false
has_group (some (string group)) required = string_has_group group required
has_group (some (array groups)) required = all is_string groups && any (is_name required) groups
has_group (some other) required = false

-- The messages of `group_check`, one constructor each.
pub data Verdict : Type 0 where
  claim_absent : Verdict
  matched_list matched_string matched_member : Verdict
  list_differs_in_case list_without_group string_differs_in_case string_differs : Verdict
  not_all_strings empty_array member_differs_in_case array_without_group : Verdict
  unsupported_type : Verdict

abbrev pub check_string : Text → Text → Verdict
check_string group required =
    if contains b',' group && string_has_group group required
    then matched_list
    else if bytes_eq group required
    then matched_string
    else if contains b',' group
    then (if any (λ g. not (is_empty g) && eq_ignore_ascii_case g required) (pieces group)
        then list_differs_in_case
        else list_without_group)
    else if eq_ignore_ascii_case group required
    then string_differs_in_case
    else string_differs

abbrev pub check_array : List Member → Text → Verdict
check_array groups required =
    if not (all is_string groups)
    then not_all_strings
    else if is_empty groups
    then empty_array
    else if any (is_name required) groups
    then matched_member
    else if any (is_name_ignoring_case required) groups
    then member_differs_in_case
    else array_without_group

unfoldable pub group_check : Option Value → Text → Verdict
group_check none required = claim_absent
group_check (some (string group)) required = check_string group required
group_check (some (array groups)) required = check_array groups required
group_check (some other) required = unsupported_type

-- A message that starts with "matched".
abbrev pub is_match : Verdict → Bool
is_match matched_list = true
is_match matched_string = true
is_match matched_member = true
is_match _ = false
