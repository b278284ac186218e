-- ===== src/Label/Value.antt =====
-- When the normalized name is the value of a Kubernetes label.
use agent_baker.Prelude.{
  ℕ, zero, suc, ◌-◌, ◌<◌, Bool, true, false, ◌&&◌, ◌||◌, [], ◌∷◌, ◌++◌, ◌≡◌, refl, ◌∙◌, arith, leb,
  ltb, ◌==◌, length, take, map, All, All-append, All-take, Bool-cases, inl, inr,
}
use agent_baker.Text.{Text, text, has_suffix, beq}
use agent_baker.Methods.Helpers.{is_alphanumeric}
use agent_baker.Label.{truncated, ends_badly, normalize_resource_group_name_for_label}
use agent_baker.Label.Form.{dash, replaced, normalize_resource_group_name_for_label-IsNormal}

abbrev pub is_label_byte : ℕ → Bool
is_label_byte c = is_alphanumeric c || (c == b'-' || (c == b'_' || c == b'.'))

-- A byte of a resource group's name, as Azure allows it, of the ASCII ones.
abbrev pub IsGroupByte : ℕ → Type 0
IsGroupByte c = (is_label_byte c || (c == b'(' || c == b')')) ≡ true

-- The first byte, if there is one, is a letter or a digit.
unfoldable pub begins_well : Text → Bool
begins_well [] = true
begins_well (c ∷ s) = is_alphanumeric c

-- The last byte, if there is one, is a letter or a digit.
unfoldable pub ends_well : Text → Bool
ends_well [] = true
ends_well (c ∷ []) = is_alphanumeric c
ends_well (c ∷ d ∷ s) = ends_well (d ∷ s)

unfoldable pub label_bytes : Text → Bool
label_bytes [] = true
label_bytes (c ∷ s) = is_label_byte c && label_bytes s

-- The value of a label: empty, or at most 63 letters, digits, `-`, `_` and `.` that begin and end
-- with a letter or a digit.
unfoldable pub is_label_value : Text → Bool
is_label_value s = leb (length s) 63 && (label_bytes s && (begins_well s && ends_well s))

abbrev IsLabelByte : ℕ → Type 0
IsLabelByte c = is_label_byte c ≡ true

label_bytes-true : (s : Text) → All IsLabelByte s → label_bytes s ≡ true
unfolding label_bytes
label_bytes-true [] h = refl
label_bytes-true (c ∷ s) (p, h) = rw (p, label_bytes-true s h)

dash-IsLabelByte : (c : ℕ) → IsGroupByte c → IsLabelByte (dash b')' (dash b'(' c))
dash-IsLabelByte c h = ground (arith, h)

dashed : (s : Text) → All IsGroupByte s → All IsLabelByte (map (dash b')') (map (dash b'(') s))
dashed [] h = tt
dashed (c ∷ s) (p, h) = (dash-IsLabelByte c p, dashed s h)

truncated-All : (s : Text) → All IsGroupByte s → All IsLabelByte (truncated s)
unfolding truncated
truncated-All s h =
    let m = map (dash b')') (map (dash b'(') s) in
    rw (replaced s) (elim (Bool-cases (ltb 63 (length m))) [
      | inl e ↦ rw e (All-take IsLabelByte 63 m (dashed s h))
      | inr e ↦ rw e (dashed s h)
    ])

z-All : (s : Text) → All IsLabelByte s → All IsLabelByte (s ++ text "z")
unfolding text
z-All s h = All-append IsLabelByte s (b'z' ∷ []) h (refl, tt)

begins_well-take : (n : ℕ) (s : Text) → 0 < n → begins_well (take n s) ≡ begins_well s
unfolding begins_well
begins_well-take zero s h = absurd (omega (arith, h))
begins_well-take (suc n) [] h = refl
begins_well-take (suc n) (c ∷ s) h = refl

begins_well-z : (s : Text) → begins_well (s ++ text "z") ≡ begins_well s
unfolding begins_well text
begins_well-z [] = refl
begins_well-z (c ∷ s) = refl

dash-is_alphanumeric : (c : ℕ) → is_alphanumeric (dash b')' (dash b'(' c)) ≡ is_alphanumeric c
dash-is_alphanumeric c = ground arith

begins_well-dashed : (s : Text) → begins_well (map (dash b')') (map (dash b'(') s)) ≡ begins_well s
unfolding begins_well
begins_well-dashed [] = refl
begins_well-dashed (c ∷ s) = dash-is_alphanumeric c

begins_well-truncated : (s : Text) → begins_well (truncated s) ≡ begins_well s
unfolding truncated
begins_well-truncated s =
    let m = map (dash b')') (map (dash b'(') s) in
    rw (replaced s) (elim (Bool-cases (ltb 63 (length m))) [
      | inl e ↦ rw e (begins_well-take 63 m (omega arith) ∙ begins_well-dashed s)
      | inr e ↦ rw e (begins_well-dashed s)
    ])

-- The last byte of a text of label bytes is good if it is not one of the three that are not.
ends_well-ends_badly : (s : Text) → All IsLabelByte s → ends_badly s ≡ false → ends_well s ≡ true
unfolding ends_well ends_badly has_suffix beq text
ends_well-ends_badly [] h e = refl
ends_well-ends_badly (c ∷ []) (p, h) e = ground (arith, p, e)
ends_well-ends_badly (c ∷ d ∷ s) (p, h) e = ends_well-ends_badly (d ∷ s) h (ground (arith, e))

-- What the function keeps of the name it is given: its kind of bytes and how it begins.
record Kept (name result : Text) : Type 0 where
  pub bytes : All IsLabelByte result
  pub begin : begins_well result ≡ begins_well name

normalize_resource_group_name_for_label-Kept :
    (name : Text) → All IsGroupByte name → Kept name (normalize_resource_group_name_for_label name)
unfolding normalize_resource_group_name_for_label
normalize_resource_group_name_for_label-Kept name h =
    let t = truncated name in
    elim (Bool-cases (ends_badly t)) [
      | inl bad ↦ elim (Bool-cases (ltb 62 (length t))) [
        | inl long ↦
            rw (bad, long)
              (record {
                bytes =
                    z-All (take (length t - 1) t)
                      (All-take IsLabelByte (length t - 1) t (truncated-All name h));
                begin =
                    begins_well-z (take (length t - 1) t)
                    ∙ begins_well-take (length t - 1) t (ground (arith, long))
                    ∙ begins_well-truncated name;
              })
        | inr fits ↦
            rw (bad, fits)
              (record {
                bytes = z-All t (truncated-All name h);
                begin = begins_well-z t ∙ begins_well-truncated name;
              })
      ]
      | inr good ↦
          rw good (record { bytes = truncated-All name h; begin = begins_well-truncated name })
    ]

-- For a name of the bytes that Azure allows, of the ASCII ones, the result is the value of a
-- Kubernetes label exactly if the name is empty or begins with a letter or a digit: the length, the
-- other bytes and the end are always good.
pub is_label_value-normalize_resource_group_name_for_label :
    (name : Text)
    → All IsGroupByte name
    → is_label_value (normalize_resource_group_name_for_label name) ≡ begins_well name
unfolding is_label_value
is_label_value-normalize_resource_group_name_for_label name h =
    let result = normalize_resource_group_name_for_label name in
    let form = normalize_resource_group_name_for_label-IsNormal name in
    let kept = normalize_resource_group_name_for_label-Kept name h in
    let short : leb (length result) 63 ≡ true = ground (arith, form.short) in
    rw
      (
        short,
        label_bytes-true result kept.bytes,
        ends_well-ends_badly result kept.bytes form.end,
        kept.begin,
      )
      ground arith
