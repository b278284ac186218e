-- ===== src/Generator/SingleLine.antt =====
-- pkg/agent/utils.go: a file as one line of JSON and back (`escapeSingleLine`, `getCustomDataFromJSON`;
-- baker.go, the object that holds the custom data).
pub mod Escaped
pub mod Decoded
use agent_baker.Prelude.{
  ℕ, Bool, true, false, [], ◌∷◌, ◌++◌, Option, none, some, leb, ltb, ◌==◌, if◌then◌else◌,
}
use agent_baker.Prelude.Panic.{◌>>=◌}
use agent_baker.Text.{Text, text, replace_all}
use agent_baker.GoMap.{GoMap, get_or}

abbrev pub carriage_return : ℕ
carriage_return = 13

abbrev pub newline : ℕ
newline = 10

-- `escapeSingleLine`
unfoldable pub escape_single_line : Text → Text
escape_single_line escaped_str =
    replace_all
      (replace_all
        (replace_all (replace_all escaped_str (b'\\' ∷ []) (b'\\' ∷ b'\\' ∷ []))
          (carriage_return ∷ newline ∷ []) (b'\\' ∷ b'n' ∷ []))
        (newline ∷ []) (b'\\' ∷ b'n' ∷ []))
      (b'"' ∷ []) (b'\\' ∷ b'"' ∷ [])

-- `getCustomDataFromJSON`, which panics on an error; `json_unmarshal` is `json.Unmarshal` into a map
-- of strings.
unfoldable pub get_custom_data_from_json : (Text → Option (GoMap Text)) → Text → Option Text
get_custom_data_from_json json_unmarshal json_str = json_unmarshal json_str >>= λ custom_data_obj.
    some (get_or custom_data_obj (text "customData") [])

-- `fmt.Sprintf("{\"customData\": \"%s\"}", str)`
unfoldable pub custom_data_object : Text → Text
custom_data_object str = text "{\"customData\": \"" ++ (str ++ text "\"}")
