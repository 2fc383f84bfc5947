-- ===== src/Base/Split.antt =====
-- `str.split` at a character, and substrings.
use Prim.Native.Nat.{ℕ}
use Prim.Native.Char.{Char, code}
use Prim.Native.String.{String}
use mathlib.Core.Bool.{Bool, ◌||◌}
use mathlib.Core.List.{List, [], ◌∷◌}
use agenstfer_agi.Base.Tests.{if◌then◌else◌, nat_beq}
use agenstfer_agi.Base.Texts.{◌==◌, starts_with}

-- The character joins the first part.
unfoldable pub cons_first : Char → List String → List String
cons_first x [] = String.◌∷◌ x String.[] ∷ []
cons_first x (w ∷ ws) = String.◌∷◌ x w ∷ ws

-- `s.split(c)`: never empty.
unfoldable pub split_on : ℕ → String → List String
unfolding cons_first
split_on c String.[] = "" ∷ []
split_on c (String.◌∷◌ x s) =
    let rest = split_on c s in if nat_beq (code x) c then "" ∷ rest else cons_first x rest

-- `part in s`
unfoldable pub contains : String → String → Bool
contains part String.[] = part == ""
contains part (String.◌∷◌ x s) =
    let rest = contains part s in starts_with (String.◌∷◌ x s) part || rest
