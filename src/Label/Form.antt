-- ===== src/Label/Form.antt =====
-- The form of the normalized name.
use agent_baker.Prelude.{
  ℕ, ◌+◌, ◌-◌, ◌≤◌, false, ◌||◌, [], ◌∷◌, ◌++◌, ◌≡◌, refl, arith, ltb, ◌==◌, if◌then◌else◌, length,
  take, map, All, All-append, All-take, length-append, length-take, Bool-cases, inl, inr,
}
use agent_baker.Text.{Text, text, replace_all}
use agent_baker.Text.Replace.{replace_all-byte, has_suffix-last}
use agent_baker.Label.{truncated, ends_badly, normalize_resource_group_name_for_label}

-- A byte that the function does not replace.
abbrev pub IsPlain : ℕ → Type 0
IsPlain c = (c == b'(' || c == b')') ≡ false

abbrev pub dash : ℕ → ℕ → ℕ
dash old c = if c == old then b'-' else c

replaced-IsPlain : (s : Text) → All IsPlain (map (dash b')') (map (dash b'(') s))
replaced-IsPlain [] = tt
replaced-IsPlain (c ∷ s) = (ground arith, replaced-IsPlain s)

pub replaced :
    (s : Text)
    → replace_all (replace_all s (text "(") (text "-")) (text ")") (text "-")
      ≡ map (dash b')') (map (dash b'(') s)
unfolding text
replaced s = rw (replace_all-byte s b'(' b'-', replace_all-byte (map (dash b'(') s) b')' b'-') refl

truncated-IsPlain : (s : Text) → All IsPlain (truncated s)
unfolding truncated
truncated-IsPlain s =
    let m = map (dash b')') (map (dash b'(') s) in
    rw (replaced s) (elim (Bool-cases (ltb 63 (length m))) [
      | inl e ↦ rw e (All-take IsPlain 63 m (replaced-IsPlain s))
      | inr e ↦ rw e (replaced-IsPlain s)
    ])

length-capped : (n : ℕ) (s : Text) → length (if ltb n (length s) then take n s else s) ≤ n
length-capped n s = ground (arith, length-take n s)

length-truncated : (s : Text) → length (truncated s) ≤ 63
unfolding truncated
length-truncated s =
    length-capped 63 (replace_all (replace_all s (text "(") (text "-")) (text ")") (text "-"))

ends_badly-z : (s : Text) → ends_badly (s ++ text "z") ≡ false
unfolding ends_badly text
ends_badly-z s =
    rw (has_suffix-last s b'z' b'-', has_suffix-last s b'z' b'_', has_suffix-last s b'z' b'.') refl

length-z : (s : Text) → length (s ++ text "z") ≡ length s + 1
unfolding text
length-z s = length-append s (b'z' ∷ [])

z-IsPlain : (s : Text) → All IsPlain s → All IsPlain (s ++ text "z")
unfolding text
z-IsPlain s h = All-append IsPlain s (b'z' ∷ []) h (refl, tt)

-- The form of a result: at most 63 bytes, no parenthesis, no `-`, `_` or `.` at its end.
pub record IsNormal (s : Text) : Type 0 where
  pub short : length s ≤ 63
  pub plain : All IsPlain s
  pub end : ends_badly s ≡ false

-- Whatever the resource group is called, the result has at most 63 bytes, no parenthesis, and no
-- `-`, `_` or `.` at its end.
pub normalize_resource_group_name_for_label-IsNormal :
    (name : Text) → IsNormal (normalize_resource_group_name_for_label name)
unfolding normalize_resource_group_name_for_label
normalize_resource_group_name_for_label-IsNormal name =
    let t = truncated name in
    elim (Bool-cases (ends_badly t)) [
      | inl bad ↦ elim (Bool-cases (ltb 62 (length t))) [
        | inl long ↦
            rw (bad, long)
              (record {
                short = omega (
                  arith,
                  length-z (take (length t - 1) t),
                  length-take (length t - 1) t,
                  length-truncated name,
                );
                plain =
                    z-IsPlain (take (length t - 1) t)
                      (All-take IsPlain (length t - 1) t (truncated-IsPlain name));
                end = ends_badly-z (take (length t - 1) t);
              })
        | inr fits ↦
            rw (bad, fits)
              (record {
                short = ground (arith, length-z t);
                plain = z-IsPlain t (truncated-IsPlain name);
                end = ends_badly-z t;
              })
      ]
      | inr good ↦
          rw good
            (record { short = length-truncated name; plain = truncated-IsPlain name; end = good })
    ]

plain-replaced : (s : Text) → All IsPlain s → map (dash b')') (map (dash b'(') s) ≡ s
plain-replaced [] h = refl
plain-replaced (c ∷ s) (p, h) = ground (arith, plain-replaced s h)

truncated-kept : (name : Text) → IsNormal name → truncated name ≡ name
unfolding truncated
truncated-kept name h = rw (replaced name, plain-replaced name h.plain) (ground (arith, h.short))

-- A name of at most 63 bytes without a parenthesis, and without `-`, `_` or `.` at its end, is kept
-- as it is.
pub normalize_resource_group_name_for_label-kept :
    (name : Text) → IsNormal name → normalize_resource_group_name_for_label name ≡ name
unfolding normalize_resource_group_name_for_label
normalize_resource_group_name_for_label-kept name h = rw (truncated-kept name h, h.end) refl
