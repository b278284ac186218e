-- ===== src/Text/Split.antt =====
-- `strings.Split`, `strings.Join` and `strings.TrimSpace`.
use agent_baker.Prelude.{
  ℕ, Bool, true, false, List, [], ◌∷◌, ◌++◌, ◌≡◌, ◌≢◌, refl, arith, ◌==◌, if◌then◌else◌, All,
  Bool-cases, inl, inr,
}
use agent_baker.Text.{
  Text, split_by, split, join, cons_head, drop_space, drop_last_space, trim_space, is_space,
}

-- No byte of the text passes the test.
abbrev pub Lacks : (ℕ → Bool) → Text → Type 0
Lacks cut = All (λ c. cut c ≡ false)

module _ (cut : ℕ → Bool) where
  pub split_by-ne-nil : (s : Text) → split_by cut s ≢ []
  unfolding split_by
  split_by-ne-nil [] = ground arith
  split_by-ne-nil (c ∷ s) =
      elim (split_by cut s) as (λ r. (if cut c then [] ∷ r else cons_head c r) ≢ []) [
        | [] ↦ ground arith
        | p ∷ ps ↦ ground arith
      ]

  pub split_by-Lacks : (s : Text) → Lacks cut s → split_by cut s ≡ s ∷ []
  unfolding split_by
  split_by-Lacks [] h = refl
  split_by-Lacks (c ∷ s) (e, h) = rw (e, split_by-Lacks s h)

  -- A part without separators, a separator, and the rest.
  pub split_by-append :
      (p s : Text) (c : ℕ)
      → Lacks cut p
      → cut c ≡ true
      → split_by cut (p ++ c ∷ s) ≡ p ∷ split_by cut s
  unfolding split_by
  split_by-append [] s c h e = rw e
  split_by-append (x ∷ p) s c (g, h) e = rw (g, split_by-append p s c h e)

module _ (sep : ℕ) where
  -- Splitting a join gives the parts back, if there is a part and none holds the separator.
  pub split-join :
      (p : Text) (ps : List Text)
      → Lacks (λ c. c == sep) p
      → All (Lacks (λ c. c == sep)) ps
      → split (join (p ∷ ps) (sep ∷ [])) sep ≡ p ∷ ps
  unfolding split join
  split-join p [] h _ = split_by-Lacks _ p h
  split-join p (q ∷ ps) h (g, hs) =
      rw (split_by-append _ p (join (q ∷ ps) (sep ∷ [])) sep h (ground arith), split-join q ps g hs)

module _ {κ} (P : ℕ → Type κ) where
  cons_head-All : (c : ℕ) (ps : List Text) → P c → All (All P) ps → All (All P) (cons_head c ps)
  cons_head-All c [] p h = ((p, tt), tt)
  cons_head-All c (q ∷ ps) p (hq, h) = ((p, hq), h)

  -- What holds of every byte holds of every byte of the parts.
  pub split_by-All : (cut : ℕ → Bool) (s : Text) → All P s → All (All P) (split_by cut s)
  unfolding split_by
  split_by-All cut [] h = (tt, tt)
  split_by-All cut (c ∷ s) (p, h) = elim (Bool-cases (cut c)) [
    | inl e ↦ rw e (tt, split_by-All cut s h)
    | inr e ↦ rw e (cons_head-All c _ p (split_by-All cut s h))
  ]

  drop_space-All : (s : Text) → All P s → All P (drop_space s)
  unfolding drop_space
  drop_space-All [] h = tt
  drop_space-All (c ∷ s) (p, h) = elim (Bool-cases (is_space c)) [
    | inl e ↦ rw e (drop_space-All s h)
    | inr e ↦ rw e (p, h)
  ]

  drop_last_space-All : (s : Text) → All P s → All P (drop_last_space s)
  unfolding drop_last_space
  drop_last_space-All [] h = tt
  drop_last_space-All (c ∷ s) (p, h) = ground (arith, drop_last_space-All s h)

  pub trim_space-All : (s : Text) → All P s → All P (trim_space s)
  unfolding trim_space
  trim_space-All s h = drop_last_space-All (drop_space s) (drop_space-All s h)

module _ (cut : ℕ → Bool) where
  cons_head-Lacks :
      (c : ℕ) (ps : List Text)
      → cut c ≡ false
      → All (Lacks cut) ps
      → All (Lacks cut) (cons_head c ps)
  cons_head-Lacks c [] p h = ((p, tt), tt)
  cons_head-Lacks c (q ∷ ps) p (hq, h) = ((p, hq), h)

  -- No part holds a separator.
  pub split_by-parts_Lacks : (s : Text) → All (Lacks cut) (split_by cut s)
  unfolding split_by
  split_by-parts_Lacks [] = (tt, tt)
  split_by-parts_Lacks (c ∷ s) = elim (Bool-cases (cut c)) [
    | inl e ↦ rw e (tt, split_by-parts_Lacks s)
    | inr e ↦ rw e (cons_head-Lacks c _ e (split_by-parts_Lacks s))
  ]

drop_last_space_idem : (s : Text) → drop_last_space (drop_last_space s) ≡ drop_last_space s
unfolding drop_last_space
drop_last_space_idem [] = refl
drop_last_space_idem (c ∷ s) = ground (arith, drop_last_space_idem s)

drop_space_after : (s : Text) → drop_space (trim_space s) ≡ trim_space s
unfolding trim_space drop_space drop_last_space
drop_space_after [] = refl
drop_space_after (c ∷ s) = ground (arith, drop_space_after s)

-- Trimming twice is trimming once.
pub trim_space_idem : (s : Text) → trim_space (trim_space s) ≡ trim_space s
unfolding trim_space
trim_space_idem s = rw drop_space_after (drop_last_space_idem (drop_space s))
