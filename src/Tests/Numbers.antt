-- ===== src/Tests/Numbers.antt =====
-- Versions read as numbers, with their order and a sorting, to try the choice of a version on.
use agent_baker.Prelude.{
  ℕ, ◌+◌, ◌*◌, ◌-◌, ◌/◌, ◌%◌, Bool, false, not, ◌&&◌, ◌||◌, List, [], ◌∷◌, ◌≡◌, refl, arith, In,
  ◌⊎◌, inl, inr, ◌↔◌, Bool-cases, ltb, leb, ◌==◌, if◌then◌else◌,
}
use agent_baker.Text.{Text, text, is_empty}
use agent_baker.Versions.Semver.{Semver, IsOrdered}
use agent_baker.Versions.Range.Extremes.{IsAscending, Sorts}

-- The digits of a text as one number, the other bytes skipped.
abbrev number : ℕ → Text → ℕ
number n [] = n
number n (c ∷ s) = if leb b'0' c && leb c b'9' then number (n * 10 + (c - b'0')) s else number n s

abbrev has_dash : Text → Bool
has_dash [] = false
has_dash (c ∷ s) = c == b'-' || has_dash s

-- `a.bc.de` is the odd number after twice `abcde`; with a dash, the even one.
abbrev pub numbers : Semver
numbers = record {
  Version = ℕ;
  make = λ t. 2 * number 0 t + (if has_dash t then 0 else 1);
  is_valid = λ t. not (is_empty t);
  major = λ v. v / 20000;
  minor = λ v. (v / 200) % 100;
  pre = λ v. if v % 2 == 0 then text "rc" ∷ [] else [];
  to_string = λ v. [];
  gt = λ a b. ltb b a;
  ge = λ a b. leb b a;
  lt = λ a b. ltb a b;
  le = λ a b. leb a b;
}

pub numbers-IsOrdered : IsOrdered numbers
numbers-IsOrdered = record {
  gt_lt = λ a b. refl;
  ge_lt = λ a b. ground arith;
  le_ge = λ a b. refl;
  ge_trans = λ a b c h g. ground arith;
  ge_total = λ a b. ground arith;
}

insert : ℕ → List ℕ → List ℕ
insert a [] = a ∷ []
insert a (x ∷ xs) = let rest = insert a xs in if leb a x then a ∷ x ∷ xs else x ∷ rest

pub sort : List ℕ → List ℕ
sort [] = []
sort (x ∷ xs) = insert x (sort xs)

insert-In : (a : ℕ) (xs : List ℕ) (b : ℕ) → In b (insert a xs) ↔ (b ≡ a ⊎ In b xs)
unfolding insert
insert-In a [] b = (λ h. h, λ h. h)
insert-In a (x ∷ xs) b = ground (arith, insert-In a xs b)

sort-In : (xs : List ℕ) (b : ℕ) → In b (sort xs) ↔ In b xs
unfolding sort
sort-In [] b = (λ h. h, λ h. h)
sort-In (x ∷ xs) b = ground (arith, insert-In x (sort xs) b, sort-In xs b)

insert-IsAscending :
    (a : ℕ) (xs : List ℕ) → IsAscending numbers xs → IsAscending numbers (insert a xs)
unfolding insert
insert-IsAscending a [] h = (λ y i. elim i [ ], tt)
insert-IsAscending a (x ∷ xs) (h, hs) = elim (Bool-cases (leb a x)) [
  | inl e ↦ rw e (
    (λ y i. elim i [
      | inl same ↦ ground (arith, e, same)
      | inr later ↦ ground (arith, e, h y later)
    ]),
    (h, hs),
  )
  | inr e ↦ rw e (
    (λ y i. elim ((insert-In a xs y).0 i) [
      | inl same ↦ ground (arith, e, same)
      | inr later ↦ h y later
    ]),
    insert-IsAscending a xs hs,
  )
]

sort-IsAscending : (xs : List ℕ) → IsAscending numbers (sort xs)
unfolding sort
sort-IsAscending [] = tt
sort-IsAscending (x ∷ xs) = insert-IsAscending x (sort xs) (sort-IsAscending xs)

pub sort-Sorts : Sorts numbers sort
sort-Sorts = record { same = sort-In; ascending = sort-IsAscending }
