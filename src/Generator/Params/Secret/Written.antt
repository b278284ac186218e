-- ===== src/Generator/Params/Secret/Written.antt =====
-- pkg/agent/utils.go: the groups of `keyvaultSecretPathRe` against the text of a reference.
use agent_baker.Prelude.{
  ℕ, Bool, ◌⊎◌, true, false, ◌||◌, [], ◌∷◌, ◌++◌, append_assoc, ◌≡◌, refl, ap, sym, ◌∙◌, arith,
  Option, none, some, inl, inr, ◌==◌, ==_iff, if◌then◌else◌,
}
use agent_baker.Text.{Text, text, is_empty, has_prefix, trim_prefix}
use agent_baker.Generator.Params.Secret.{
  Captured, in_group, first_of, literal, run, any_byte, named, in_name, name_and_version, begun,
  secret_part, find_string_submatch, is_blank, has_no_blank,
}

abbrev pub version_part : Text → Text
version_part [] = []
version_part (c ∷ s) = b'/' ∷ c ∷ s

-- A reference as it is written from its parts.
unfoldable pub written : Captured → Text
written parts =
    parts.vault_id ++ (text "/secrets/" ++ (parts.secret_name ++ version_part parts.secret_version))

-- What the groups of a match stand for is the text that was matched.
abbrev Reads : (Text → Option Captured) → Type 0
Reads match = (s : Text) (parts : Captured) → match s ≡ some parts → s ≡ written parts

abbrev written_of : Option Captured → Text
written_of none = []
written_of (some parts) = written parts

-- How a match inside the first group came about.
record Grouped (p : Text) (inner : Option Captured) (parts : Captured) : Type 0 where
  pub rest : Captured
  pub found : inner ≡ some rest
  pub whole : written parts ≡ p ++ written rest

in_group-Grouped :
    (p : Text) (inner : Option Captured) (parts : Captured)
    → in_group p inner ≡ some parts
    → Grouped p inner parts
unfolding written
in_group-Grouped p none parts h = absurd (ground (arith, h))
in_group-Grouped p (some rest) parts h = record {
  rest = rest;
  found = refl;
  whole = sym (ap written_of h) ∙ append_assoc p rest.vault_id _;
}

has_prefix-trim_prefix : (s p : Text) → has_prefix s p ≡ true → s ≡ p ++ trim_prefix s p
unfolding has_prefix trim_prefix
has_prefix-trim_prefix s [] h = refl
has_prefix-trim_prefix [] (y ∷ p) h = absurd (ground (arith, h))
has_prefix-trim_prefix (x ∷ s) (y ∷ p) h = ground (arith, has_prefix-trim_prefix s p)

-- A guarded match that succeeds.
guarded :
    (b : Bool) (match : Option Captured) {parts : Captured}
    → (if b then match else none) ≡ some parts
    → (b ≡ true) × (match ≡ some parts)
guarded true match h = (refl, h)
guarded false match h = absurd (ground (arith, h))

unguarded :
    (b : Bool) (match : Option Captured) {parts : Captured}
    → (if b then none else match) ≡ some parts
    → match ≡ some parts
unguarded true match h = absurd (ground (arith, h))
unguarded false match h = h

one_of :
    (first second : Option Captured) {parts : Captured}
    → first_of first second ≡ some parts
    → (first ≡ some parts) ⊎ (second ≡ some parts)
one_of none second h = inr h
one_of (some q) second h = inl h

literal-Reads : (p : Text) (rest : Text → Option Captured) → Reads rest → Reads (literal p rest)
unfolding literal
literal-Reads p rest r s parts h =
    let (e, f) = guarded (has_prefix s p) (in_group p (rest (trim_prefix s p))) h in
    let g = in_group-Grouped p (rest (trim_prefix s p)) parts f in
    has_prefix-trim_prefix s p e ∙ ap (λ t. p ++ t) (r _ g.rest g.found) ∙ sym g.whole

run-Reads : (rest : Text → Option Captured) → Reads rest → Reads (run rest)
unfolding run
run-Reads rest r [] parts h = absurd (ground (arith, h))
run-Reads rest r (c ∷ s) parts h =
    let g =
      in_group-Grouped (c ∷ []) (first_of (run rest s) (rest s)) parts
        (unguarded (is_blank c) _ h) in
    ap (λ t. c ∷ t)
      (elim (one_of (run rest s) (rest s) g.found) [
        | inl longer ↦ run-Reads rest r s g.rest longer
        | inr here ↦ r s g.rest here
      ])
    ∙ sym g.whole

any_byte-Reads : (rest : Text → Option Captured) → Reads rest → Reads (any_byte rest)
any_byte-Reads rest r [] parts h = absurd (ground (arith, h))
any_byte-Reads rest r (c ∷ s) parts h =
    let g = in_group-Grouped (c ∷ []) (rest s) parts (unguarded (c == 10) _ h) in
    ap (λ t. c ∷ t) (r s g.rest g.found) ∙ sym g.whole

-- What a name and a version stand for.
abbrev after_secrets : Captured → Text
after_secrets parts = parts.secret_name ++ version_part parts.secret_version

abbrev vault_or : Option Captured → Text
vault_or none = []
vault_or (some parts) = parts.vault_id

abbrev after_or : Option Captured → Text
after_or none = []
after_or (some parts) = after_secrets parts

branched :
    (b : Bool) (then_match else_match : Option Captured) {parts : Captured}
    → (if b then then_match else else_match) ≡ some parts
    → ((b ≡ true) × (then_match ≡ some parts)) ⊎ ((b ≡ false) × (else_match ≡ some parts))
branched true then_match else_match h = inl (refl, h)
branched false then_match else_match h = inr (refl, h)

-- Outside the first group: no part of it, and the rest written out.
abbrev IsRest : Text → Captured → Type 0
IsRest s parts = (parts.vault_id ≡ []) × (s ≡ after_secrets parts)

named-IsRest :
    (name version : Text) (parts : Captured)
    → named name version ≡ some parts
    → IsRest (name ++ version_part version) parts
named-IsRest name version parts h = (sym (ap vault_or h), ap after_or h)

in_name-IsRest :
    (c : ℕ) (s : Text) (inner : Option Captured) (parts : Captured)
    → ((q : Captured) → inner ≡ some q → IsRest s q)
    → in_name c inner ≡ some parts
    → IsRest (c ∷ s) parts
in_name-IsRest c s none parts r h = absurd (ground (arith, h))
in_name-IsRest c s (some q) parts r h =
    let (v, t) = r q refl in (sym (ap vault_or h) ∙ v, ap (λ u. c ∷ u) t ∙ ap after_or h)

versioned :
    (s : Text) (parts : Captured)
    → (if is_empty s then none else if has_no_blank s then named [] s else none) ≡ some parts
    → IsRest (b'/' ∷ s) parts
versioned [] parts h = absurd (ground (arith, h))
versioned (c ∷ s) parts h =
    named-IsRest [] (c ∷ s) parts ((guarded (has_no_blank (c ∷ s)) (named [] (c ∷ s)) h).1)

name_and_version-IsRest :
    (s : Text) (parts : Captured) → name_and_version s ≡ some parts → IsRest s parts
unfolding name_and_version
name_and_version-IsRest [] parts h = named-IsRest [] [] parts h
name_and_version-IsRest (c ∷ s) parts h = elim (branched (c == b'/') _ _ h) [
  | inl (slash, f) ↦ rw ((==_iff c b'/').0 slash) (versioned s parts f)
  | inr (plain, f) ↦
      in_name-IsRest c s (name_and_version s) parts (λ q g. name_and_version-IsRest s q g)
        (unguarded (is_blank c) _ f)
]

begun-IsRest : (s : Text) (parts : Captured) → begun s ≡ some parts → IsRest s parts
begun-IsRest [] parts h = absurd (ground (arith, h))
begun-IsRest (c ∷ s) parts h =
    in_name-IsRest c s (name_and_version s) parts (λ q g. name_and_version-IsRest s q g)
      (unguarded (c == b'/' || is_blank c) _ h)

secret_part-Reads : Reads secret_part
unfolding secret_part written
secret_part-Reads s parts h =
    let (e, f) = guarded (has_prefix s (text "/secrets/")) _ h in
    let (v, t) = begun-IsRest _ parts f in
    rw v (has_prefix-trim_prefix s (text "/secrets/") e ∙ ap (λ u. text "/secrets/" ++ u) t)

-- Where a text refers to a secret of a key vault, the vault's identifier, the name and the version
-- that are taken from it, with the separators between them, are the whole text.
pub find_string_submatch-written :
    (str : Text) (parts : Captured) → find_string_submatch str ≡ some parts → str ≡ written parts
unfolding find_string_submatch
find_string_submatch-written = literal-Reads _ _ (
    run-Reads _ (
      literal-Reads _ _ (
        run-Reads _ (
          literal-Reads _ _
            (any_byte-Reads _ (literal-Reads _ _ (run-Reads _ secret_part-Reads)))))))
