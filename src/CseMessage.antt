-- ===== src/CseMessage.antt =====
-- pkg/agent/utils.go: `ParseCSEMessage`, which reads the status of a node's provisioning out of the
-- output of the custom script extension.
pub mod Framed
use agent_baker.Prelude.{
  ℕ, zero, suc, ◌+◌, ◌-◌, List, [], ◌∷◌, Option, none, some, ltb, take, length, if◌then◌else◌,
}
use agent_baker.Prelude.Result.{Result, ok, err}
use agent_baker.Text.{Text, text, has_prefix, is_empty}
use agent_baker.Datamodel.Status.{CseStatus, CseStatusParsingError}

-- `strings.Index(s, sub)`, where `none` is -1
unfoldable pub index : Text → Text → Option ℕ
index [] sub = if is_empty sub then some 0 else none
index (c ∷ s) sub =
    let rest = index s sub in
    if has_prefix (c ∷ s) sub then some 0 else elim rest [ none ↦ none | some i ↦ some (i + 1) ]

-- `s[n:]`
unfoldable pub drop : ℕ → Text → Text
drop zero s = s
drop (suc n) [] = []
drop (suc n) (c ∷ s) = drop n s

-- `strings.Index(message, "[stdout]") + len("[stdout]")`
unfoldable pub start_after : Option ℕ → ℕ
start_after none = 7
start_after (some i) = i + 8

-- `end > start` and the slice between them; a negative `end` is not above `start`.
unfoldable pub between : Text → ℕ → Option ℕ → Option Text
between message start none = none
between message start (some end) =
    if ltb start end then some (take (end - start) (drop start message)) else none

-- What is decoded must have an exit code.
unfoldable pub with_exit_code : Text → Option CseStatus → Result CseStatusParsingError CseStatus
with_exit_code message none =
    err (record { code = text "CSEMessageUnmarshalError"; message = message })
with_exit_code message (some status) =
    if is_empty status.exit_code
    then err (record { code = text "CSEMessageExitCodeEmptyError"; message = message })
    else ok status

-- The text between the marks, if there is one, is decoded.
unfoldable pub status_in :
    (Text → Option CseStatus) → Text → Option Text → Result CseStatusParsingError CseStatus
status_in unmarshal message none =
    err (record { code = text "InvalidCSEMessage"; message = message })
status_in unmarshal message (some raw) = with_exit_code message (unmarshal raw)

-- `ParseCSEMessage`; `unmarshal` is `json.Unmarshal` into a `CSEStatus`.
unfoldable pub parse_cse_message :
    (Text → Option CseStatus) → Text → Result CseStatusParsingError CseStatus
parse_cse_message unmarshal message = status_in unmarshal message (
    between message (start_after (index message (text "[stdout]")))
      (index message (text "[stderr]")))
