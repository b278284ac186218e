-- ===== src/Generator/Params/Secret.antt =====
-- pkg/agent/utils.go: the match of `keyvaultSecretPathRe`. The operator + takes as much as it can
-- and gives back from the end, as in package regexp.
pub mod Written
use agent_baker.Prelude.{
  ℕ, Bool, true, false, ◌||◌, [], ◌∷◌, ◌++◌, Option, none, some, ◌==◌, if◌then◌else◌,
}
use agent_baker.Text.{Text, text, is_empty, has_prefix, trim_prefix}

-- The groups 1, 2 and 4 of a match.
pub record Captured : Type 0 where
  pub vault_id : Text
  pub secret_name : Text
  pub secret_version : Text

-- `\s`
abbrev pub is_blank : ℕ → Bool
is_blank c = c == 9 || (c == 10 || (c == 12 || (c == 13 || c == 32)))

-- The text belongs to the first group, before what `rest` has matched.
abbrev pub in_group : Text → Option Captured → Option Captured
in_group s none = none
in_group s (some parts) = some (record parts { vault_id = s ++ parts.vault_id })

abbrev pub first_of : Option Captured → Option Captured → Option Captured
first_of none second = second
first_of (some parts) second = some parts

-- A literal, then the rest.
unfoldable pub literal : Text → (Text → Option Captured) → Text → Option Captured
literal p rest s = if has_prefix s p then in_group p (rest (trim_prefix s p)) else none

-- `\S+`, then the rest: the longest run that lets the rest match.
unfoldable pub run : (Text → Option Captured) → Text → Option Captured
run rest [] = none
run rest (c ∷ s) =
    let longer = run rest s in
    if is_blank c then none else in_group (c ∷ []) (first_of longer (rest s))

-- `.`, then the rest
abbrev pub any_byte : (Text → Option Captured) → Text → Option Captured
any_byte rest [] = none
any_byte rest (c ∷ s) = if c == 10 then none else in_group (c ∷ []) (rest s)

-- No blank stands in the text.
abbrev pub has_no_blank : Text → Bool
has_no_blank [] = true
has_no_blank (c ∷ s) = if is_blank c then false else has_no_blank s

abbrev pub named : Text → Text → Option Captured
named name version = some (record { vault_id = []; secret_name = name; secret_version = version })

abbrev pub in_name : ℕ → Option Captured → Option Captured
in_name c none = none
in_name c (some parts) = some (record parts { secret_name = c ∷ parts.secret_name })

-- `(/(\S+))?$` after the name's last byte, or more of `[^/\s]+`
unfoldable pub name_and_version : Text → Option Captured
name_and_version [] = named [] []
name_and_version (c ∷ s) =
    let longer = name_and_version s in
    if c == b'/'
    then (if is_empty s then none else if has_no_blank s then named [] s else none)
    else if is_blank c
    then none
    else in_name c longer

-- The name has one byte at least.
abbrev pub begun : Text → Option Captured
begun [] = none
begun (c ∷ s) = if c == b'/' || is_blank c then none else in_name c (name_and_version s)

-- `/secrets/([^/\s]+)(/(\S+))?$`, outside the first group
unfoldable pub secret_part : Text → Option Captured
secret_part s =
    if has_prefix s (text "/secrets/") then begun (trim_prefix s (text "/secrets/")) else none

-- `keyvaultSecretPathRe.FindStringSubmatch`, with the groups that are read; `none` is no match.
unfoldable pub find_string_submatch : Text → Option Captured
find_string_submatch str =
    literal (text "/subscriptions/")
      (run (
        literal (text "/resourceGroups/") (
          run (
            literal (text "/providers/Microsoft")
              (any_byte (literal (text "KeyVault/vaults/") (run secret_part)))))))
      str
