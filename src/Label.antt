-- ===== src/Label.antt =====
-- pkg/agent/baker.go: the resource group's name as the value of a node label.
pub mod Form
pub mod Value
use agent_baker.Prelude.{ℕ, ◌-◌, Bool, ◌||◌, List, [], ◌∷◌, ◌++◌, ltb, length, take, if◌then◌else◌}
use agent_baker.Text.{Text, text, has_suffix, replace_all}

-- The parentheses replaced, and at most 63 bytes kept.
unfoldable pub truncated : Text → Text
truncated resource_group_name =
    let clean =
      replace_all (replace_all resource_group_name (text "(") (text "-")) (text ")") (text "-") in
    if ltb 63 (length clean) then take 63 clean else clean

-- The test on the last byte.
unfoldable pub ends_badly : Text → Bool
ends_badly s = has_suffix s (text "-") || has_suffix s (text "_") || has_suffix s (text ".")

-- `normalizeResourceGroupNameForLabel`
unfoldable pub normalize_resource_group_name_for_label : Text → Text
normalize_resource_group_name_for_label resource_group_name =
    let t = truncated resource_group_name in
    if ends_badly t
    then (if ltb 62 (length t) then take (length t - 1) t ++ text "z" else t ++ text "z")
    else t
