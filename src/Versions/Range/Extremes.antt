-- ===== src/Versions/Range/Extremes.antt =====
-- The least and the greatest version, and where the code panics.
use agent_baker.Prelude.{
  Bool, true, false, not, ◌||◌, List, [], ◌∷◌, ◌≡◌, refl, arith, inl, inr, Bool-cases, ◌↔◌, Option,
  none, some, All, In, ap, sym,
}
use agent_baker.Prelude.Panic.{◌>>=◌}
use agent_baker.Text.{Text}
use agent_baker.Versions.Semver.{Semver, IsOrdered}
use agent_baker.Versions.Range.{
  first, last, is_pre_release, semver_versions, get_sorted_semver_versions, get_min_version,
  get_max_version,
}

module _ (s : Semver) where
  abbrev pub IsAscending : List s.Version → Type 0
  IsAscending [] = Unit
  IsAscending (x ∷ xs) = ((y : s.Version) → In y xs → s.ge y x ≡ true) × IsAscending xs

  -- What `semver.Sort` documents: the same versions, in ascending order.
  pub record Sorts (sort : List s.Version → List s.Version) : Type 0 where
    pub same : (xs : List s.Version) (a : s.Version) → In a (sort xs) ↔ In a xs
    pub ascending : (xs : List s.Version) → IsAscending (sort xs)

  -- The version text `v` is one that the function looks at.
  abbrev pub IsAccepted : Bool → Text → Type 0
  IsAccepted pre_release v = (not (is_pre_release s (s.make v)) || pre_release) ≡ true

  semver_versions-In :
      (vs : List Text) (pre_release : Bool) (v : Text)
      → In v vs
      → IsAccepted pre_release v
      → In (s.make v) (semver_versions s vs pre_release)
  unfolding semver_versions
  semver_versions-In [] pre_release v h a = elim h [ ]
  semver_versions-In (x ∷ vs) pre_release v (inl e) a = ground (arith, ap s.make e, e)
  semver_versions-In (x ∷ vs) pre_release v (inr h) a =
      ground (arith, semver_versions-In vs pre_release v h a)

  -- `sv` is read from a text of the list that the function looks at.
  pub record IsFrom (vs : List Text) (pre_release : Bool) (sv : s.Version) : Type 0 where
    pub version : Text
    pub listed : In version vs
    pub read : sv ≡ s.make version
    pub accepted : IsAccepted pre_release version

  later_IsFrom :
      (x : Text) (vs : List Text) (pre_release : Bool) (sv : s.Version)
      → IsFrom vs pre_release sv
      → IsFrom (x ∷ vs) pre_release sv
  later_IsFrom x vs pre_release sv f = record {
    version = f.version;
    listed = inr f.listed;
    read = f.read;
    accepted = f.accepted;
  }

  In-semver_versions :
      (vs : List Text) (pre_release : Bool) (sv : s.Version)
      → In sv (semver_versions s vs pre_release)
      → IsFrom vs pre_release sv
  unfolding semver_versions
  In-semver_versions [] pre_release sv h = elim h [ ]
  In-semver_versions (x ∷ vs) pre_release sv h =
      elim (Bool-cases (not (is_pre_release s (s.make x)) || pre_release)) [
        | inl a ↦ elim (rw a at h) [
          | inl e ↦ record { version = x; listed = inl refl; read = e; accepted = a }
          | inr later ↦
              later_IsFrom x vs pre_release sv (In-semver_versions vs pre_release sv later)
        ]
        | inr n ↦
            later_IsFrom x vs pre_release sv (In-semver_versions vs pre_release sv (rw n at h))
      ]

  -- An end of the list: `m` is in it and bounds it in the given direction.
  record IsEnd (le : s.Version → s.Version → Bool) (xs : List s.Version) (end : Option s.Version)
      : Type 0 where
    pub bound : s.Version
    pub found : end ≡ some bound
    pub listed : In bound xs
    pub bounds : (b : s.Version) → In b xs → le b bound ≡ true

  -- The result prints a version of the list that bounds all those the function looks at.
  pub record IsExtreme (le : s.Version → s.Version → Bool) (vs : List Text) (pre_release : Bool)
      (result : Option Text) : Type 0 where
    pub bound : s.Version
    pub result_eq : result ≡ some (s.to_string bound)
    pub from : IsFrom vs pre_release bound
    pub bounds : (w : Text) → In w vs → IsAccepted pre_release w → le (s.make w) bound ≡ true

  module _ (sort : List s.Version → List s.Version) (sorts : Sorts sort) where
    -- An end of the sorted list is extreme among the texts.
    IsExtreme-of :
        (le : s.Version → s.Version → Bool) (vs : List Text) (pre_release : Bool)
        (end : Option s.Version)
        → IsEnd le (get_sorted_semver_versions s sort vs pre_release) end
        → IsExtreme le vs pre_release (end >>= λ sv. some (s.to_string sv))
    unfolding get_sorted_semver_versions
    IsExtreme-of le vs pre_release end e = record {
      bound = e.bound;
      result_eq = rw e.found refl;
      from =
          In-semver_versions vs pre_release e.bound
            ((sorts.same (semver_versions s vs pre_release) e.bound).0 e.listed);
      bounds = λ w i a. e.bounds (s.make w) (
          (sorts.same (semver_versions s vs pre_release) (s.make w)).1
            (semver_versions-In vs pre_release w i a));
    }

    sorted-IsAscending :
        (vs : List Text) (pre_release : Bool)
        → IsAscending (get_sorted_semver_versions s sort vs pre_release)
    unfolding get_sorted_semver_versions
    sorted-IsAscending vs pre_release = sorts.ascending (semver_versions s vs pre_release)

    sorted-In :
        (vs : List Text) (pre_release : Bool) (v : Text)
        → In v vs
        → IsAccepted pre_release v
        → In (s.make v) (get_sorted_semver_versions s sort vs pre_release)
    unfolding get_sorted_semver_versions
    sorted-In vs pre_release v i a =
        (sorts.same (semver_versions s vs pre_release) (s.make v)).1
          (semver_versions-In vs pre_release v i a)

  module _ (order : IsOrdered s) where
    ge_refl : (a b : s.Version) → a ≡ b → s.ge a b ≡ true
    ge_refl a b e = rw e (ground (arith, order.ge_total b b))

    first-IsEnd :
        (xs : List s.Version) (a : s.Version) → IsAscending xs → In a xs → IsEnd s.ge xs (first xs)
    unfolding first
    first-IsEnd [] a h g = elim g [ ]
    first-IsEnd (x ∷ xs) a h g = record {
      bound = x;
      found = refl;
      listed = inl refl;
      bounds = λ b i. elim i [ inl e ↦ ge_refl b x e | inr later ↦ h.0 b later ];
    }

    last-IsEnd :
        (xs : List s.Version) (a : s.Version)
        → IsAscending xs
        → In a xs
        → IsEnd (λ b m. s.ge m b) xs (last xs)
    unfolding last
    last-IsEnd [] a h g = elim g [ ]
    last-IsEnd (x ∷ []) a h g = record {
      bound = x;
      found = refl;
      listed = inl refl;
      bounds = λ b i. elim i [ inl e ↦ ge_refl x b (sym e) | inr later ↦ elim later [ ] ];
    }
    last-IsEnd (x ∷ y ∷ xs) a h g =
        let l = last-IsEnd (y ∷ xs) y h.1 (inl refl) in
        record {
          bound = l.bound;
          found = l.found;
          listed = inr l.listed;
          bounds =
              λ b i. elim i [ inl e ↦ rw e (h.0 l.bound l.listed) | inr later ↦ l.bounds b later ];
        }

-- With the documented order and sorting of semver: if some version of the list is looked at,
-- `GetMinVersion` returns one that no other version it looks at is below, and `GetMaxVersion` one
-- that none is above.
pub get_min_version_lem :
    (s : Semver) (order : IsOrdered s) (sort : List s.Version → List s.Version)
    → Sorts s sort
    → (vs : List Text) (pre_release : Bool) (v : Text) → In v vs
    → IsAccepted s pre_release v
    → IsExtreme s s.ge vs pre_release (get_min_version s sort vs pre_release)
      × IsExtreme s (λ b m. s.ge m b) vs pre_release (get_max_version s sort vs pre_release)
unfolding get_min_version get_max_version
get_min_version_lem s order sort sorts [] pre_release v i a = elim i [ ]
get_min_version_lem s order sort sorts (x ∷ vs) pre_release v i a =
    let listed = sorted-In s sort sorts (x ∷ vs) pre_release v i a in
    let ascending = sorted-IsAscending s sort sorts (x ∷ vs) pre_release in
    (
      IsExtreme-of s sort sorts s.ge (x ∷ vs) pre_release _
          (first-IsEnd s order _ (s.make v) ascending listed),
      IsExtreme-of s sort sorts (λ b m. s.ge m b) (x ∷ vs) pre_release _
          (last-IsEnd s order _ (s.make v) ascending listed),
    )

nothing_accepted :
    (s : Semver) (vs : List Text) (pre_release : Bool)
    → All (λ v. (not (is_pre_release s (s.make v)) || pre_release) ≡ false) vs
    → semver_versions s vs pre_release ≡ []
unfolding semver_versions
nothing_accepted s [] pre_release h = refl
nothing_accepted s (v ∷ vs) pre_release (e, h) = rw e (nothing_accepted s vs pre_release h)

nothing-In : {A : Type 0} (xs : List A) → ((a : A) → In a xs → ⊥) → xs ≡ []
nothing-In [] h = refl
nothing-In (x ∷ xs) h = absurd (h x (inl refl))

-- With the documented sorting of semver: on a list that is not empty and of which they look at no
-- version, because all are pre-releases, both functions index out of range.
pub get_min_version-panics :
    (s : Semver) (sort : List s.Version → List s.Version)
    → Sorts s sort
    → (v : Text) (vs : List Text) (pre_release : Bool)
    → All (λ w. (not (is_pre_release s (s.make w)) || pre_release) ≡ false) (v ∷ vs)
    → (get_min_version s sort (v ∷ vs) pre_release ≡ none)
      × (get_max_version s sort (v ∷ vs) pre_release ≡ none)
unfolding get_min_version get_max_version get_sorted_semver_versions first last
get_min_version-panics s sort sorts v vs pre_release h =
    let empty = nothing-In (sort []) (λ a i. (sorts.same [] a).0 i) in
    (
      rw (nothing_accepted s (v ∷ vs) pre_release h, empty) refl,
      rw (nothing_accepted s (v ∷ vs) pre_release h, empty) refl,
    )
