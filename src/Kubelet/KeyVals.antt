-- ===== src/Kubelet/KeyVals.antt =====
-- pkg/agent/utils.go: the helpers that read flag values into maps (strToBool, strKeyValToMap,
-- strKeyValToMapBool) and the one that rewrites the feature gates (addFeatureGateString).
pub mod Pairs
pub mod Gates
use agent_baker.Prelude.{ℕ, Bool, false, ◌||◌, List, [], ◌∷◌, ◌++◌, map}
use agent_baker.Text.{Text, text, beq, split, trim_space, join, format_bool}
use agent_baker.GoMap.{GoMap, insert, get_or}

-- `strToBool`: the texts that `strconv.ParseBool` reads as true; an error gives false.
unfoldable pub str_to_bool : Text → Bool
unfolding beq text
str_to_bool s =
    beq s (text "1")
    || beq s (text "t")
    || beq s (text "T")
    || beq s (text "TRUE")
    || beq s (text "true")
    || beq s (text "True")

-- One round of the loops: a part with one pair delimiter sets a key.
pub set_pair {ℓ} : {V : Type ℓ} → (Text → V) → GoMap V → List Text → GoMap V
set_pair read m (k ∷ v ∷ []) = insert m (trim_space k) (read (trim_space v))
set_pair read m _ = m

pub set_pairs {ℓ} : {V : Type ℓ} → (Text → V) → ℕ → GoMap V → List Text → GoMap V
set_pairs read pair_delim m [] = m
set_pairs read pair_delim m (pair ∷ pairs) =
    set_pairs read pair_delim (set_pair read m (split pair pair_delim)) pairs

-- `strKeyValToMap`
unfoldable pub str_key_val_to_map : Text → ℕ → ℕ → GoMap Text
unfolding set_pairs set_pair
str_key_val_to_map str str_delim pair_delim = set_pairs (λ v. v) pair_delim [] (split str str_delim)

-- `strKeyValToMapBool`
unfoldable pub str_key_val_to_map_bool : Text → ℕ → ℕ → GoMap Bool
unfolding set_pairs set_pair
str_key_val_to_map_bool str str_delim pair_delim =
    set_pairs str_to_bool pair_delim [] (split str str_delim)

-- `fmt.Sprintf("%s=%t", k, fgMap[k])`
pub format_gate : GoMap Bool → Text → Text
format_gate gates k = k ++ b'=' ∷ format_bool (get_or gates k false)

-- `addFeatureGateString`; `range` is the order in which Go visits the keys of the map.
unfoldable pub add_feature_gate_string : (GoMap Bool → List Text) → Text → Text → Bool → Text
unfolding format_gate
add_feature_gate_string range feature_gates key value =
    let gates = insert (str_key_val_to_map_bool feature_gates b',' b'=') key value in
    join (map (format_gate gates) (range gates)) (b',' ∷ [])
