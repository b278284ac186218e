-- ===== src/Cloud/Agreement.antt =====
-- The three functions against one another.
use agent_baker.Prelude.{
  ℕ, Bool, true, false, ◌||◌, [], ◌∷◌, ◌≡◌, refl, arith, if◌then◌else◌, Bool-cases, inl, inr,
}
use agent_baker.Text.{Text, text, beq, has_prefix, to_lower, lower}
use agent_baker.Text.Equality.{beq-cases}
use agent_baker.Cloud.{compact, us_nat_cloud, us_sec_cloud}
use agent_baker.Cloud.Agent
use agent_baker.Cloud.Helpers
use agent_baker.Cloud.Region

lower_idem : (c : ℕ) → lower (lower c) ≡ lower c
unfolding lower
lower_idem c = ground arith

to_lower_idem : (s : Text) → to_lower (to_lower s) ≡ to_lower s
unfolding to_lower
to_lower_idem [] = refl
to_lower_idem (c ∷ s) = cc (lower_idem c, to_lower_idem s)

to_lower-compact : (location : Text) → to_lower (compact location) ≡ compact location
unfolding compact
to_lower-compact location = to_lower_idem _

-- Two prefixes of one text: the shorter begins the longer.
prefix_apart :
    (s p q : Text)
    → has_prefix s p ≡ true
    → has_prefix s q ≡ true
    → (has_prefix p q || has_prefix q p) ≡ true
unfolding has_prefix
prefix_apart s [] [] h k = refl
prefix_apart s [] (y ∷ q) h k = refl
prefix_apart s (x ∷ p) [] h k = refl
prefix_apart [] (x ∷ p) (y ∷ q) h k = cc
prefix_apart (c ∷ s) (x ∷ p) (y ∷ q) h k = ground (arith, prefix_apart s p q)

beq_of_prefix :
    (s lit p : Text) → has_prefix s p ≡ true → has_prefix lit p ≡ false → beq s lit ≡ false
beq_of_prefix s lit p h k = elim (beq-cases s lit) [
  | inl same ↦ absurd (true-ne-false (rw same at h) k)
  | inr other ↦ other
]
  where
    true-ne-false : {b : Bool} → b ≡ true → b ≡ false → ⊥
    true-ne-false e f = cc

prefix_of_prefix :
    (s p q : Text)
    → has_prefix s p ≡ true
    → (has_prefix p q || has_prefix q p) ≡ false
    → has_prefix s q ≡ false
prefix_of_prefix s p q h k = ground (arith, prefix_apart s p q h)

-- The tests of the first three clouds, at a location that begins with `p`.
module _ (loc p : Text) (begins : has_prefix loc p ≡ true) where
  abbrev Outside : Text → Type 0
  Outside lit = has_prefix lit p ≡ false

  no_china :
      Outside (text "chinaeast")
      → Outside (text "chinanorth")
      → Outside (text "chinaeast2")
      → Outside (text "chinanorth2")
      → (beq loc (text "chinaeast")
          || beq loc (text "chinanorth")
          || beq loc (text "chinaeast2")
          || beq loc (text "chinanorth2"))
        ≡ false
  no_china a b c d = ground (
    arith,
    beq_of_prefix loc _ p begins a,
    beq_of_prefix loc _ p begins b,
    beq_of_prefix loc _ p begins c,
    beq_of_prefix loc _ p begins d,
  )

  no_germany :
      Outside (text "germanynortheast")
      → Outside (text "germanycentral")
      → (beq loc (text "germanynortheast") || beq loc (text "germanycentral")) ≡ false
  no_germany a b = ground (arith, beq_of_prefix loc _ p begins a, beq_of_prefix loc _ p begins b)

  no_us_government :
      (has_prefix p (text "usgov") || has_prefix (text "usgov") p) ≡ false
      → (has_prefix p (text "usdod") || has_prefix (text "usdod") p) ≡ false
      → (has_prefix loc (text "usgov") || has_prefix loc (text "usdod")) ≡ false
  no_us_government a b = ground (
    arith,
    prefix_of_prefix loc p (text "usgov") begins a,
    prefix_of_prefix loc p (text "usdod") begins b,
  )

region_lem :
    (location : Text)
    → Region.get_cloud_target_env location ≡ (
        if has_prefix (compact location) (text "usnat")
        then us_nat_cloud
        else if has_prefix (compact location) (text "ussec")
        then us_sec_cloud
        else Agent.get_cloud_target_env location)
unfolding Region.get_cloud_target_env Agent.get_cloud_target_env
region_lem location = elim (Bool-cases (has_prefix loc (text "usnat"))) [
  | inl e ↦ rw (
    no_china loc _ e (unfold has_prefix text in refl) (unfold has_prefix text in refl)
        (unfold has_prefix text in refl) (unfold has_prefix text in refl),
    no_germany loc _ e (unfold has_prefix text in refl) (unfold has_prefix text in refl),
    no_us_government loc _ e (unfold has_prefix text in refl) (unfold has_prefix text in refl),
    to_lower-compact location,
    e,
  )
  | inr e ↦ elim (Bool-cases (has_prefix loc (text "ussec"))) [
    | inl f ↦ rw (
      no_china loc _ f (unfold has_prefix text in refl) (unfold has_prefix text in refl)
          (unfold has_prefix text in refl) (unfold has_prefix text in refl),
      no_germany loc _ f (unfold has_prefix text in refl) (unfold has_prefix text in refl),
      no_us_government loc _ f (unfold has_prefix text in refl) (unfold has_prefix text in refl),
      to_lower-compact location,
      e,
      f,
    )
    | inr f ↦ rw (to_lower-compact location, e, f)
  ]
]
  where
    loc : Text
    loc = compact location

-- `GetCloudTargetEnv` of pkg/agent and of pkg/aks-engine/helpers give the same cloud for every
-- location. The one of the image galleries knows two clouds more: a location that begins, folded,
-- with `usnat` or `ussec` is in one of the two, and for any other it gives the same as they do.
pub region-agent :
    (location : Text)
    → (Agent.get_cloud_target_env location ≡ Helpers.get_cloud_target_env location)
      × (Region.get_cloud_target_env location ≡ (
          if has_prefix (compact location) (text "usnat")
          then us_nat_cloud
          else if has_prefix (compact location) (text "ussec")
          then us_sec_cloud
          else Agent.get_cloud_target_env location))
unfolding Agent.get_cloud_target_env Helpers.get_cloud_target_env
region-agent location = (refl, region_lem location)
