-- ===== src/Text.antt =====
-- Go strings as lists of bytes, and what the program uses of the packages `strings`, `strconv`
-- and `sort`. Case folding and white space are those of ASCII.
pub mod Equality
pub mod Split
pub mod Number
pub mod Replace
pub mod Sort
pub mod Base64
pub mod Lines
use Prim.Native.Char.{code}
use agent_baker.Prelude.{
  ℕ, zero, suc, ◌+◌, ◌-◌, String, Bool, true, false, not, ◌&&◌, ◌||◌, List, [], ◌∷◌, ◌++◌, map,
  length, keep, ltb, leb, ◌==◌, if◌then◌else◌,
}

abbrev pub Text : Type 0
Text = List ℕ

-- The bytes of an ASCII literal. It stays shut, so that a literal is one name in a proof.
unfoldable pub text : String → Text
text String.[] = []
text (String.◌∷◌ c s) = code c ∷ text s

-- `a == b`
unfoldable pub beq : Text → Text → Bool
beq [] [] = true
beq (x ∷ xs) (y ∷ ys) = x == y && beq xs ys
beq _ _ = false

-- `s == ""`
abbrev pub is_empty : Text → Bool
is_empty [] = true
is_empty (x ∷ xs) = false

-- `a < b`: bytes compared from the left, a prefix first.
unfoldable pub lt_text : Text → Text → Bool
lt_text [] [] = false
lt_text [] (y ∷ ys) = true
lt_text (x ∷ xs) [] = false
lt_text (x ∷ xs) (y ∷ ys) = ltb x y || (x == y && lt_text xs ys)

-- `strings.HasPrefix(s, p)`
unfoldable pub has_prefix : Text → Text → Bool
has_prefix s [] = true
has_prefix [] (y ∷ p) = false
has_prefix (x ∷ s) (y ∷ p) = x == y && has_prefix s p

-- `strings.HasSuffix(s, p)`
unfoldable pub has_suffix : Text → Text → Bool
unfolding beq
has_suffix [] p = is_empty p
has_suffix (c ∷ s) p = beq (c ∷ s) p || has_suffix s p

abbrev drop_bytes : Text → Text → Text
drop_bytes s [] = s
drop_bytes [] (y ∷ p) = []
drop_bytes (x ∷ s) (y ∷ p) = drop_bytes s p

-- `strings.TrimPrefix(s, p)`
unfoldable pub trim_prefix : Text → Text → Text
unfolding has_prefix
trim_prefix s p = if has_prefix s p then drop_bytes s p else s

-- `strings.TrimSuffix(s, p)`
unfoldable pub trim_suffix : Text → Text → Text
unfolding beq
trim_suffix [] p = []
trim_suffix (c ∷ s) p = let rest = trim_suffix s p in if beq (c ∷ s) p then [] else c ∷ rest

-- `strings.Contains(s, p)`
unfoldable pub contains : Text → Text → Bool
unfolding has_prefix
contains [] p = is_empty p
contains (x ∷ s) p = has_prefix (x ∷ s) p || contains s p

-- `unicode.IsSpace` on ASCII: tab, newline, vertical tab, form feed, carriage return, space.
unfoldable pub is_space : ℕ → Bool
is_space c = (leb 9 c && leb c 13) || c == 32

unfoldable pub lower : ℕ → ℕ
lower c = if leb b'A' c && leb c b'Z' then c + 32 else c

-- `strings.ToLower(s)`
unfoldable pub to_lower : Text → Text
unfolding lower
to_lower s = map lower s

-- `strings.EqualFold(a, b)`
unfoldable pub equal_fold : Text → Text → Bool
unfolding beq
equal_fold a b = beq (to_lower a) (to_lower b)

abbrev pub cons_head : ℕ → List Text → List Text
cons_head c [] = (c ∷ []) ∷ []
cons_head c (p ∷ ps) = (c ∷ p) ∷ ps

-- The parts between the bytes that pass a test; one part at least.
unfoldable pub split_by : (ℕ → Bool) → Text → List Text
split_by cut [] = [] ∷ []
split_by cut (c ∷ s) = let rest = split_by cut s in if cut c then [] ∷ rest else cons_head c rest

-- `strings.Split(s, sep)` for a separator of one byte.
unfoldable pub split : Text → ℕ → List Text
unfolding split_by
split s sep = split_by (λ c. c == sep) s

-- `strings.Fields(s)`
unfoldable pub fields : Text → List Text
unfolding split_by is_space
fields s = keep (λ p. not (is_empty p)) (split_by is_space s)

-- `strings.Join(parts, sep)`
unfoldable pub join : List Text → Text → Text
join [] sep = []
join (p ∷ []) sep = p
join (p ∷ q ∷ r) sep = p ++ (sep ++ join (q ∷ r) sep)

unfoldable pub drop_space : Text → Text
unfolding is_space
drop_space [] = []
drop_space (c ∷ s) = let rest = drop_space s in if is_space c then rest else c ∷ s

unfoldable pub drop_last_space : Text → Text
unfolding is_space
drop_last_space [] = []
drop_last_space (c ∷ s) =
    let rest = drop_last_space s in if is_space c && is_empty rest then [] else c ∷ rest

-- `strings.TrimSpace(s)`
unfoldable pub trim_space : Text → Text
unfolding drop_space drop_last_space
trim_space s = drop_last_space (drop_space s)

-- The first argument counts the bytes of an occurrence that are still to be passed over.
replace_from : ℕ → Text → Text → Text → Text
unfolding has_prefix
replace_from n old new [] = []
replace_from (suc n) old new (c ∷ s) = replace_from n old new s
replace_from zero old new (c ∷ s) = elim (has_prefix (c ∷ s) old) [
  | true ↦ new ++ replace_from (length old - 1) old new s
  | false ↦ c ∷ replace_from 0 old new s
]

-- `strings.Replace(s, old, new, -1)` for a non-empty `old`.
unfoldable pub replace_all : Text → Text → Text → Text
unfolding replace_from
replace_all s old new = replace_from 0 old new s

-- `sort.Strings`: the result for the byte order does not depend on the algorithm.
unfoldable pub insert_sorted : Text → List Text → List Text
insert_sorted k [] = k ∷ []
insert_sorted k (x ∷ xs) =
    let rest = insert_sorted k xs in if lt_text x k then x ∷ rest else k ∷ x ∷ xs

unfoldable pub sort_strings : List Text → List Text
unfolding insert_sorted lt_text
sort_strings [] = []
sort_strings (x ∷ xs) = insert_sorted x (sort_strings xs)

-- `strconv.FormatBool(b)`, and the verb `%t`
unfoldable pub format_bool : Bool → Text
format_bool true = text "true"
format_bool false = text "false"

-- What `buf.WriteString` writes over a loop.
unfoldable pub concat : List Text → Text
concat [] = []
concat (p ∷ ps) = p ++ concat ps

-- `stringInSlice` of pkg/agent/utils.go
unfoldable pub string_in_slice : Text → List Text → Bool
string_in_slice a [] = false
string_in_slice a (b ∷ list) = beq b a || string_in_slice a list
