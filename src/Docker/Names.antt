-- ===== src/Docker/Names.antt =====
-- Text operations of the source: template strings, `split` by one character and the destructuring
-- of a string.
use Prim.Native.Char.{code}
use Prim.Native.String
use Prim.Native.String.{String, [], ◌∷◌}
use dynamic_conversion_servi.Prelude.{ℕ, Option, none, some, ◌==◌, Bool, true, false, if◌then◌else◌}

-- `${a}${b}`
abbrev pub concat : String → String → String
concat a b = String.◌++◌ a b

-- `const [x, y] = text`
abbrev pub first_char : String → Option String
first_char [] = none
first_char (c ∷ s) = some (c ∷ [])

abbrev pub second_char : String → Option String
second_char [] = none
second_char (c ∷ s) = first_char s

-- The first and the second part of `text.split(…)`, for a separator of one character.
unfoldable pub first_part : ℕ → String → String
first_part sep [] = []
first_part sep (c ∷ s) = let rest = first_part sep s in if code c == sep then [] else c ∷ rest

unfoldable pub second_part : ℕ → String → Option String
unfolding first_part
second_part sep [] = none
second_part sep (c ∷ s) =
    let rest = second_part sep s in if code c == sep then some (first_part sep s) else rest

-- A truthy text: neither undefined nor "".
abbrev pub is_truthy : Option String → Bool
is_truthy none = false
is_truthy (some []) = false
is_truthy (some (c ∷ s)) = true
