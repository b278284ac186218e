-- ===== src/Generator/SingleLine/Escaped.antt =====
-- pkg/agent/utils.go: what the four replacements of `escapeSingleLine` make of each byte.
use agent_baker.Prelude.{
  ℕ, false, ◌&&◌, [], ◌∷◌, ◌++◌, ◌≡◌, refl, arith, Bool-cases, inl, inr, ◌==◌, if◌then◌else◌,
}
use agent_baker.Text.{Text, replace_all}
use agent_baker.Text.Replace.{
  each, substitute, begins_with, replace_all-each, replace_all-pair, replace_all-no_pair,
}
use agent_baker.Generator.SingleLine.{carriage_return, newline, escape_single_line}

-- Lines that end in a newline alone.
abbrev pub normalized : Text → Text
normalized [] = []
normalized (c ∷ s) =
    let rest = normalized s in
    if c == carriage_return && begins_with newline s then rest else c ∷ rest

-- The escape of one byte.
abbrev pub escape_byte : ℕ → Text
escape_byte c =
    if c == b'\\'
    then b'\\' ∷ b'\\' ∷ []
    else if c == newline
    then b'\\' ∷ b'n' ∷ []
    else if c == b'"'
    then b'\\' ∷ b'"' ∷ []
    else c ∷ []

abbrev backslashes : Text → Text
backslashes = each (substitute b'\\' (b'\\' ∷ b'\\' ∷ []))

abbrev pairs : Text → Text
pairs t = replace_all t (carriage_return ∷ newline ∷ []) (b'\\' ∷ b'n' ∷ [])

-- The passes after the first one.
abbrev later : Text → Text
later t =
    each (substitute b'"' (b'\\' ∷ b'"' ∷ []))
      (each (substitute newline (b'\\' ∷ b'n' ∷ [])) (pairs t))

begins_with-backslashes : (s : Text) → begins_with newline (backslashes s) ≡ begins_with newline s
begins_with-backslashes [] = refl
begins_with-backslashes (c ∷ s) = ground arith

abbrev IsEscaped : Text → Type 0
IsEscaped s = later (backslashes s) ≡ each escape_byte (normalized s)

ending : (s : Text) → IsEscaped s → IsEscaped (carriage_return ∷ newline ∷ s)
ending s h = rw (replace_all-pair carriage_return newline (b'\\' ∷ b'n' ∷ []) (backslashes s), h)

later-byte :
    (c : ℕ) (t : Text)
    → (c == carriage_return && begins_with newline t) ≡ false
    → later (c ∷ t)
      ≡ (if c == newline
          then b'\\' ∷ b'n' ∷ []
          else if c == b'"'
          then b'\\' ∷ b'"' ∷ []
          else c ∷ [])
        ++ later t
later-byte c t h =
    let pass = replace_all-no_pair carriage_return newline (b'\\' ∷ b'n' ∷ []) c t h in
    elim (Bool-cases (c == newline)) [
      | inl e ↦ rw (pass, e)
      | inr e ↦ elim (Bool-cases (c == b'"')) [ inl f ↦ rw (pass, e, f) | inr f ↦ rw (pass, e, f) ]
    ]

single :
    (c : ℕ) (s : Text)
    → (c == carriage_return && begins_with newline s) ≡ false
    → IsEscaped s
    → IsEscaped (c ∷ s)
single c s h ih = elim (Bool-cases (c == b'\\')) [
  | inl e ↦ rw (
    h,
    e,
    later-byte b'\\' (b'\\' ∷ backslashes s) refl,
    later-byte b'\\' (backslashes s) refl,
    ih,
  )
  | inr e ↦ rw (h, e, later-byte c (backslashes s) (rw (begins_with-backslashes s, h)), ih)
]

nil-IsEscaped : IsEscaped []
unfolding replace_all
nil-IsEscaped = refl

each-IsEscaped : (s : Text) → IsEscaped s
each-IsEscaped [] = nil-IsEscaped
each-IsEscaped (c ∷ []) = single c [] (ground arith) nil-IsEscaped
each-IsEscaped (c ∷ d ∷ s) = elim (Bool-cases (c == carriage_return && d == newline)) [
  | inl e ↦
      let first : c ≡ carriage_return = ground (arith, e) in
      let second : d ≡ newline = ground (arith, e) in
      rw (first, second) (ending s (each-IsEscaped s))
  | inr e ↦ single c (d ∷ s) e (each-IsEscaped (d ∷ s))
]

-- The replacements one after another escape each byte of the text with normalised line ends.
pub escape_single_line_lem : (s : Text) → escape_single_line s ≡ each escape_byte (normalized s)
unfolding escape_single_line
escape_single_line_lem s =
    rw
      (
        replace_all-each s b'\\' (b'\\' ∷ b'\\' ∷ []),
        replace_all-each (pairs (backslashes s)) newline (b'\\' ∷ b'n' ∷ []),
        replace_all-each _ b'"' (b'\\' ∷ b'"' ∷ []),
      )
      (each-IsEscaped s)
