-- ===== src/Text/Sort.antt =====
-- `sort.Strings`: the byte order is a strict total order, and of a set of strings there is one
-- ascending list.
use agent_baker.Prelude.{
  true, false, ◌||◌, List, [], ◌∷◌, ◌≡◌, inl, inr, refl, arith, All, Bool-cases,
}
use mathlib.Core.Path.{ap₂}
use agent_baker.Text.{Text, beq, lt_text, insert_sorted, sort_strings, string_in_slice}
use agent_baker.Text.Equality.{beq_iff, beq_refl, beq-cases}

pub lt_text_irrefl : (a : Text) → lt_text a a ≡ false
unfolding lt_text
lt_text_irrefl [] = refl
lt_text_irrefl (x ∷ a) = ground (arith, lt_text_irrefl a)

pub lt_text_trans : (a b c : Text) → lt_text a b ≡ true → lt_text b c ≡ true → lt_text a c ≡ true
unfolding lt_text
lt_text_trans [] [] c h k = absurd (cc)
lt_text_trans [] (y ∷ b) [] h k = absurd (cc)
lt_text_trans [] (y ∷ b) (z ∷ c) h k = refl
lt_text_trans (x ∷ a) [] c h k = absurd (cc)
lt_text_trans (x ∷ a) (y ∷ b) [] h k = absurd (cc)
lt_text_trans (x ∷ a) (y ∷ b) (z ∷ c) h k = ground (arith, lt_text_trans a b c)

pub lt_text_total : (a b : Text) → beq a b ≡ false → lt_text a b ≡ false → lt_text b a ≡ true
unfolding lt_text beq
lt_text_total [] [] h k = absurd (cc)
lt_text_total [] (y ∷ b) h k = absurd (cc)
lt_text_total (x ∷ a) [] h k = refl
lt_text_total (x ∷ a) (y ∷ b) h k = ground (arith, lt_text_total a b)

lt_text_asym : (a b : Text) → lt_text a b ≡ true → lt_text b a ≡ false
lt_text_asym a b h = ground (arith, lt_text_trans a b a h, lt_text_irrefl a)

abbrev pub Above : Text → List Text → Type 0
Above x = All (λ y. lt_text x y ≡ true)

-- Ascending, with no string twice.
abbrev pub IsSorted : List Text → Type 0
IsSorted [] = Unit
IsSorted (x ∷ xs) = Above x xs × IsSorted xs

abbrev pub IsUnique : List Text → Type 0
IsUnique [] = Unit
IsUnique (x ∷ xs) = (string_in_slice x xs ≡ false) × IsUnique xs

Above-insert_sorted :
    (x k : Text) (xs : List Text) → lt_text x k ≡ true → Above x xs → Above x (insert_sorted k xs)
unfolding insert_sorted
Above-insert_sorted x k [] h a = (h, tt)
Above-insert_sorted x k (y ∷ xs) h (l, a) = elim (Bool-cases (lt_text y k)) [
  | inl e ↦ rw e (l, Above-insert_sorted x k xs h a)
  | inr e ↦ rw e (h, (l, a))
]

Above-trans : (k x : Text) (xs : List Text) → lt_text k x ≡ true → Above x xs → Above k xs
Above-trans k x [] h a = tt
Above-trans k x (y ∷ xs) h (l, a) = (lt_text_trans k x y h l, Above-trans k x xs h a)

insert_sorted-IsSorted :
    (k : Text) (xs : List Text)
    → string_in_slice k xs ≡ false
    → IsSorted xs
    → IsSorted (insert_sorted k xs)
unfolding insert_sorted string_in_slice
insert_sorted-IsSorted k [] f s = (tt, tt)
insert_sorted-IsSorted k (x ∷ xs) f (a, s) = elim (Bool-cases (lt_text x k)) [
  | inl e ↦ rw e (Above-insert_sorted x k xs e a, insert_sorted-IsSorted k xs (ground arith) s)
  | inr e ↦
      let less : lt_text k x ≡ true = lt_text_total x k (ground arith) e in
      rw e ((less, Above-trans k x xs less a), (a, s))
]

string_in_slice-insert_sorted :
    (a k : Text) (xs : List Text)
    → string_in_slice a (insert_sorted k xs) ≡ (beq k a || string_in_slice a xs)
unfolding insert_sorted string_in_slice
string_in_slice-insert_sorted a k [] = refl
string_in_slice-insert_sorted a k (x ∷ xs) = ground (arith, string_in_slice-insert_sorted a k xs)

-- Sorting keeps the strings.
pub string_in_slice-sort_strings :
    (a : Text) (xs : List Text) → string_in_slice a (sort_strings xs) ≡ string_in_slice a xs
unfolding sort_strings string_in_slice
string_in_slice-sort_strings a [] = refl
string_in_slice-sort_strings a (x ∷ xs) =
    ground (
      arith,
      string_in_slice-insert_sorted a x (sort_strings xs),
      string_in_slice-sort_strings a xs,
    )

-- The result ascends.
pub sort_strings-IsSorted : (xs : List Text) → IsUnique xs → IsSorted (sort_strings xs)
unfolding sort_strings
sort_strings-IsSorted [] h = tt
sort_strings-IsSorted (x ∷ xs) (f, h) =
    insert_sorted-IsSorted x (sort_strings xs) (rw string_in_slice-sort_strings f)
      (sort_strings-IsSorted xs h)

Above-string_in_slice :
    (x a : Text) (xs : List Text) → Above x xs → string_in_slice a xs ≡ true → lt_text x a ≡ true
unfolding string_in_slice
Above-string_in_slice x a [] h e = absurd (cc)
Above-string_in_slice x a (y ∷ xs) (l, h) e = elim (beq-cases y a) [
  | inl same ↦ rw (← same) l
  | inr other ↦ Above-string_in_slice x a xs h (rw other at e)
]

Above-fresh : (x : Text) (xs : List Text) → Above x xs → string_in_slice x xs ≡ false
Above-fresh x xs h = ground (arith, Above-string_in_slice x x xs h, lt_text_irrefl x)

heads :
    (x y : Text) (xs ys : List Text)
    → Above x xs
    → Above y ys
    → ((a : Text) → string_in_slice a (x ∷ xs) ≡ string_in_slice a (y ∷ ys))
    → x ≡ y
unfolding string_in_slice
heads x y xs ys ax ay same = elim (beq-cases x y) [
  | inl e ↦ e
  | inr n ↦ absurd (
      ground (
        arith,
        same x,
        same y,
        beq_refl x,
        beq_refl y,
        beq_iff x y,
        beq_iff y x,
        Above-string_in_slice y x ys ay,
        Above-string_in_slice x y xs ax,
        lt_text_asym x y,
      ))
]

-- Two ascending lists of the same strings are one list.
pub IsSorted-ext :
    (xs ys : List Text)
    → IsSorted xs
    → IsSorted ys
    → ((a : Text) → string_in_slice a xs ≡ string_in_slice a ys)
    → xs ≡ ys
unfolding string_in_slice
IsSorted-ext [] [] _ _ same = refl
IsSorted-ext [] (y ∷ ys) _ _ same = absurd (ground (arith, same y, beq_refl y))
IsSorted-ext (x ∷ xs) [] _ _ same = absurd (ground (arith, same x, beq_refl x))
IsSorted-ext (x ∷ xs) (y ∷ ys) (ax, sx) (ay, sy) same =
    let e : x ≡ y = heads x y xs ys ax ay same in
    ap₂ ◌∷◌ e (IsSorted-ext xs ys sx sy λ a. tails e a)
  where
    tails : x ≡ y → (a : Text) → string_in_slice a xs ≡ string_in_slice a ys
    tails e a =
        ground (arith, same a, beq_iff x a, beq_iff y a, Above-fresh x xs ax, Above-fresh y ys ay)
