-- ===== src/Generator/SingleLine/Decoded.antt =====
-- pkg/agent: the custom data that `getCustomDataFromJSON` reads back from one line of JSON.
use agent_baker.Prelude.{
  ℕ, ◌<◌, ◌≤◌, ◌⊎◌, Bool, true, false, ◌||◌, [], ◌∷◌, ◌++◌, ◌≡◌, refl, arith, ◌∙◌, Option, none,
  some, All, All-append, Bool-cases, inl, inr, ltb, ◌==◌, ==_iff, if◌then◌else◌,
}
use agent_baker.Text.{Text, text}
use agent_baker.Text.Equality.{beq_refl}
use agent_baker.GoMap.{GoMap, get_or}
use agent_baker.Text.Replace.{each}
use agent_baker.Generator.SingleLine.{
  newline, escape_single_line, custom_data_object, get_custom_data_from_json,
}
use agent_baker.Generator.SingleLine.Escaped.{normalized, escape_byte, escape_single_line_lem}

-- The byte that a letter after a backslash stands for; the escape \u is left out.
abbrev pub unescape : ℕ → Option ℕ
unescape c =
    if c == b'"' || (c == b'\\' || c == b'/')
    then some c
    else if c == b'n'
    then some 10
    else if c == b'r'
    then some 13
    else if c == b't'
    then some 9
    else if c == b'b'
    then some 8
    else if c == b'f'
    then some 12
    else none

abbrev pub prepend : Option ℕ → Option Text → Option Text
prepend (some c) (some s) = some (c ∷ s)
prepend _ _ = none

-- The flag says that the byte before was a backslash that opens an escape.
unfoldable pub unquote_from : Bool → Text → Option Text
unquote_from pending [] = if pending then none else some []
unquote_from true (c ∷ s) = prepend (unescape c) (unquote_from false s)
unquote_from false (c ∷ s) =
    let rest = unquote_from (c == b'\\') s in
    if c == b'\\' then rest else if c == b'"' || ltb c 32 then none else prepend (some c) rest

-- What stands between the quotes of a JSON string of ASCII bytes, as RFC 8259 reads it.
abbrev pub unquote : Text → Option Text
unquote = unquote_from false

-- A newline, or a printable byte of ASCII.
abbrev pub IsPrintable : ℕ → Type 0
IsPrintable c = (c ≡ newline) ⊎ ((32 ≤ c) × (c < 128))

unquote-escape_byte :
    (c : ℕ) (s : Text) → IsPrintable c → unquote (escape_byte c ++ s) ≡ prepend (some c) (unquote s)
unfolding unquote_from
unquote-escape_byte c s h = elim (Bool-cases (c == b'\\')) [
  | inl e ↦ rw ((==_iff c b'\\').0 e)
  | inr e ↦ elim (Bool-cases (c == newline)) [
    | inl f ↦ rw ((==_iff c newline).0 f)
    | inr f ↦ elim (Bool-cases (c == b'"')) [
      | inl g ↦ rw ((==_iff c b'"').0 g)
      | inr g ↦ let visible : ltb c 32 ≡ false = ground (arith, h, f) in rw (e, f, g, e, g, visible)
    ]
  ]
]

unquote-each : (s : Text) → All IsPrintable s → unquote (each escape_byte s) ≡ some s
unfolding unquote_from
unquote-each [] h = refl
unquote-each (c ∷ s) (p, h) = unquote-escape_byte c _ p ∙ rw (unquote-each s h)

-- What the code relies on in `json.Unmarshal`: an object with the one name `customData` and a
-- string of ASCII bytes is read as a map with that name and what stands in the quotes.
pub record ReadsStrings (json_unmarshal : Text → Option (GoMap Text)) : Type 0 where
  pub reads :
      (body value : Text)
      → All (λ c. c < 128) body
      → unquote body ≡ some value
      → json_unmarshal (custom_data_object body) ≡ some ((text "customData", value) ∷ [])

escape_byte-All : (c : ℕ) → IsPrintable c → All (λ c. c < 128) (escape_byte c)
escape_byte-All c h = ground arith

each-All : (s : Text) → All IsPrintable s → All (λ c. c < 128) (each escape_byte s)
each-All [] h = tt
each-All (c ∷ s) (p, h) =
    All-append _ (escape_byte c) (each escape_byte s) (escape_byte-All c p) (each-All s h)

-- A text is put on one line of JSON and read back unchanged, but for line ends, which become
-- newlines: for a text that is newlines and printable ASCII once its line ends are, and a
-- `json.Unmarshal` that reads strings as RFC 8259 says. It does not panic then.
pub get_custom_data_from_json-escape_single_line :
    (json_unmarshal : Text → Option (GoMap Text)) (s : Text)
    → ReadsStrings json_unmarshal
    → All IsPrintable (normalized s)
    → get_custom_data_from_json json_unmarshal (custom_data_object (escape_single_line s))
      ≡ some (normalized s)
unfolding get_custom_data_from_json get_or
get_custom_data_from_json-escape_single_line json_unmarshal s r h = rw (
  escape_single_line_lem s,
  r.reads (each escape_byte (normalized s)) (normalized s) (each-All (normalized s) h)
      (unquote-each (normalized s) h),
  beq_refl (text "customData"),
)
