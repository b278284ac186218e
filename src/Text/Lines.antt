-- ===== src/Text/Lines.antt =====
-- The lines that `bufio.Scanner` gives, and `IndentString` of pkg/agent/datamodel/helper.go.
use agent_baker.Prelude.{ℕ, ◌&&◌, List, [], ◌∷◌, ◌++◌, map, replicate, if◌then◌else◌, ◌==◌}
use agent_baker.Text.{Text, is_empty, split, concat}

-- A carriage return at the end of a line is dropped.
unfoldable pub drop_return : Text → Text
drop_return [] = []
drop_return (c ∷ s) = let rest = drop_return s in if c == 13 && is_empty s then [] else c ∷ rest

-- A last part without a newline is a line unless it is empty.
unfoldable pub drop_empty_last : List Text → List Text
drop_empty_last [] = []
drop_empty_last (p ∷ []) = if is_empty p then [] else p ∷ []
drop_empty_last (p ∷ q ∷ r) = p ∷ drop_empty_last (q ∷ r)

-- The tokens of a scanner over lines shorter than its buffer of 64 KiB.
unfoldable pub scan_lines : Text → List Text
scan_lines s = map drop_return (drop_empty_last (split s 10))

-- `IndentString`
unfoldable pub indent_string : Text → ℕ → Text
indent_string original spaces =
    concat (map (λ line. replicate spaces b' ' ++ (line ++ 10 ∷ [])) (scan_lines original))
