-- ===== src/Generator/Params.antt =====
-- pkg/agent/utils.go: `paramsMap` and the functions that fill it; baker.go, `getBakerFuncMap`: the
-- template functions that read it.
pub mod Secret
pub mod Reading
use agent_baker.Prelude.{Bool, true, false, [], Option, none, some, if◌then◌else◌}
use agent_baker.Prelude.Int.{ℤ}
use agent_baker.Text.{Text, text, beq}
use agent_baker.Text.Base64.{base64_encode}
use agent_baker.Datamodel.Profiles.{KeyVaultRef}
use agent_baker.Generator.Params.Secret.{Captured, find_string_submatch}

-- The values that the generator keeps in an `interface{}`; `null` is the nil interface, which a nil
-- pointer in an interface is not.
mutual
  pub data Value : Type 0 where
    null : Value
    string_value : Text → Value
    bool_value : Bool → Value
    bool_pointer : Option Bool → Value
    int_value : ℤ → Value
    reference_value : KeyVaultRef → Value
    map_value : ParamsMap → Value

  -- `paramsMap`
  pub data ParamsMap : Type 0 where
    empty : ParamsMap
    entry : Text → Value → ParamsMap → ParamsMap

-- `m[k]`, nil for a missing key
unfoldable pub value_at : ParamsMap → Text → Value
value_at empty k = null
value_at (entry j v m) k = if beq j k then v else value_at m k

-- `m[k] = v`
unfoldable pub set_value : ParamsMap → Text → Value → ParamsMap
set_value empty k v = entry k v empty
set_value (entry j w m) k v = if beq j k then entry j v m else entry j w (set_value m k v)

-- `addValue`
unfoldable pub add_value : ParamsMap → Text → Value → ParamsMap
add_value m k v = set_value m k (map_value (entry (text "value") v empty))

-- `addKeyvaultReference`
unfoldable pub add_keyvault_reference : ParamsMap → Text → Text → Text → Text → ParamsMap
add_keyvault_reference m k vault_id secret_name secret_version = set_value m k (
    map_value (
      entry (text "reference")
        (reference_value (record {
          key_vault = record { id = vault_id };
          secret_name = secret_name;
          secret_version = secret_version;
        }))
        empty))

abbrev pub add_found : ParamsMap → Text → Text → Bool → Option Captured → ParamsMap
add_found m k str encode none =
    if encode
    then add_value m k (string_value (base64_encode str))
    else add_value m k (string_value str)
add_found m k str encode (some parts) =
    add_keyvault_reference m k parts.vault_id parts.secret_name parts.secret_version

-- `addSecret`
unfoldable pub add_secret : ParamsMap → Text → Value → Bool → ParamsMap
add_secret m k (string_value str) encode = add_found m k str encode (find_string_submatch str)
add_secret m k v encode = add_value m k v

-- A nil value prints as the empty text.
abbrev pub or_empty_string : Value → Value
or_empty_string null = string_value []
or_empty_string (string_value s) = string_value s
or_empty_string (bool_value b) = bool_value b
or_empty_string (bool_pointer b) = bool_pointer b
or_empty_string (int_value i) = int_value i
or_empty_string (reference_value r) = reference_value r
or_empty_string (map_value m) = map_value m

-- `if v, ok := value.(paramsMap); ok { return or(v[p]) }; return ""`
abbrev pub property_of : Value → Text → Value
property_of (map_value m) p = or_empty_string (value_at m p)
property_of _ p = string_value []

-- `GetParameter`
unfoldable pub get_parameter : ParamsMap → Text → Value
get_parameter params s = property_of (value_at params s) (text "value")

-- `v["value"].(paramsMap)[p]`, which panics for a value of another type
abbrev pub inner_property : Value → Text → Option Value
inner_property (map_value m) p = some (or_empty_string (value_at m p))
inner_property _ p = none

abbrev pub parameter_property : Value → Text → Option Value
parameter_property (map_value m) p = inner_property (value_at m (text "value")) p
parameter_property _ p = some (string_value [])

-- `GetParameterProperty`
unfoldable pub get_parameter_property : ParamsMap → Text → Text → Option Value
get_parameter_property params s p = parameter_property (value_at params s) p

-- `GetVariable`
unfoldable pub get_variable : ParamsMap → Text → Value
get_variable variables s = or_empty_string (value_at variables s)

-- `GetVariableProperty`
unfoldable pub get_variable_property : ParamsMap → Text → Text → Value
get_variable_property variables v p = property_of (value_at variables v) p
