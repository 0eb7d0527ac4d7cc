-- ===== src/Base/Texts.antt =====
-- Texts by their code points.
use Prim.Native.String.{String}
use Prim.Native.Char.{code}
use bisfin.Base.{ℕ, Bool, true, false, List, [], ◌∷◌, ◌≡◌, refl, arith, ◌==◌, if◌then◌else◌}

abbrev pub Text : Type 0
Text = List ℕ

-- The code points of a literal.
abbrev pub codes : String → Text
codes String.[] = []
codes (String.◌∷◌ c s) = code c ∷ codes s

unfoldable pub same_text : Text → Text → Bool
same_text [] [] = true
same_text [] (y ∷ ys) = false
same_text (x ∷ xs) [] = false
same_text (x ∷ xs) (y ∷ ys) = let rest = same_text xs ys in if x == y then rest else false

pub same_text_sound : (x y : Text) → same_text x y ≡ true → x ≡ y
unfolding same_text
same_text_sound [] [] h = refl
same_text_sound [] (y ∷ ys) h = absurd (ground arith)
same_text_sound (x ∷ xs) [] h = absurd (ground arith)
same_text_sound (x ∷ xs) (y ∷ ys) h = ground (arith, same_text_sound xs ys)

pub same_text_refl : (x : Text) → same_text x x ≡ true
unfolding same_text
same_text_refl [] = refl
same_text_refl (x ∷ xs) = ground (arith, same_text_refl xs)
