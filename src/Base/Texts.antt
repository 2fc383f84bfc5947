-- ===== src/Base/Texts.antt =====
-- Equality of texts, and their concatenation.
use Prim.Native.Nat.{ℕ, zero, suc}
use Prim.Native.String.{String, ◌++◌}
use mathlib.Core.List.{List, [], ◌∷◌}
pub use text.Mathlib.Text.{◌==◌, starts_with}
pub use text.Mathlib.TextEquality.{eq_iff}
pub use text.Mathlib.TextPositions.{eq_refl}

abbrev pub joined : String → String → String
joined s t = s ++ t

-- `s[n:]`
unfoldable pub drop_text : ℕ → String → String
drop_text zero s = s
drop_text (suc n) String.[] = ""
drop_text (suc n) (String.◌∷◌ c s) = drop_text n s

-- `separator.join(words)`
unfoldable pub join_texts : String → List String → String
join_texts separator [] = ""
join_texts separator (w ∷ []) = w
join_texts separator (w ∷ v ∷ ws) = w ++ separator ++ join_texts separator (v ∷ ws)
