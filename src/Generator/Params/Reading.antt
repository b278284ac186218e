-- ===== src/Generator/Params/Reading.antt =====
-- pkg/agent/utils.go and baker.go: storing in a `paramsMap`, and reading as the templates do.
use agent_baker.Prelude.{◌≡◌, refl, arith, Bool-cases, inl, inr, if◌then◌else◌}
use agent_baker.Text.{Text, text, beq}
use agent_baker.Text.Equality.{beq_iff, beq_refl}
use agent_baker.Generator.Params.{
  Value, ParamsMap, map_value, empty, entry, value_at, set_value, add_value, or_empty_string,
  property_of, get_parameter,
}

value_at-set_value :
    (m : ParamsMap) (k : Text) (v : Value) (j : Text)
    → value_at (set_value m k v) j ≡ (if beq k j then v else value_at m j)
unfolding value_at set_value
value_at-set_value empty k v j = refl
value_at-set_value (entry i w m) k v j =
    ground (arith, value_at-set_value m k v j, beq_iff i k, beq_iff k j, beq_iff i j)

stored_value :
    (v : Value)
    → property_of (map_value (entry (text "value") v empty)) (text "value") ≡ or_empty_string v
unfolding value_at
stored_value v = rw (beq_refl (text "value"))

-- A value that `addValue` stores under a name is what `GetParameter` reads under that name, a nil
-- value as the empty text; what it reads under other names is as it was before.
pub get_parameter-add_value :
    (m : ParamsMap) (k : Text) (v : Value) (j : Text)
    → get_parameter (add_value m k v) j ≡ (if beq k j then or_empty_string v else get_parameter m j)
unfolding get_parameter add_value
get_parameter-add_value m k v j = elim (Bool-cases (beq k j)) [
  | inl e ↦ rw (value_at-set_value, e, stored_value v)
  | inr e ↦ rw (value_at-set_value, e)
]
