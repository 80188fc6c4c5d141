-- ===== src/Base/Text.antt =====
-- Text as a list of Unicode code points, Go's runes, with equality as a test.
use Prim.Native.Nat.{ℕ}
use Prim.Native.Char.{code}
use Prim.Native.String.{String}
use mathlib.Core.Path.{◌≡◌, refl}
use mathlib.Core.Logic.{◌↔◌}
use mathlib.Core.Bool.{Bool, true, false, ◌&&◌}
use mathlib.Core.List.{List, [], ◌∷◌}
use native.Mathlib.Omega.{arith}
use egeism.Base.Tests.{◌==◌}

abbrev pub Text : Type 0
Text = List ℕ

-- The code points of a literal.
abbrev pub codes : String → Text
codes String.[] = []
codes (String.◌∷◌ c s) = code c ∷ codes s

abbrev pub text_eq : Text → Text → Bool
text_eq [] [] = true
text_eq (a ∷ r) (b ∷ s) = (a == b) && text_eq r s
text_eq _ _ = false

pub text_eq_refl : (s : Text) → text_eq s s ≡ true
text_eq_refl [] = refl
text_eq_refl (a ∷ r) = ground (arith, text_eq_refl r)

pub text_eq_sound : (s t : Text) → text_eq s t ≡ true → s ≡ t
text_eq_sound [] [] h = refl
text_eq_sound [] (b ∷ s) h = cc
text_eq_sound (a ∷ r) [] h = cc
text_eq_sound (a ∷ r) (b ∷ s) h = ground (arith, text_eq_sound r s)

pub text_eq_iff : (s t : Text) → (text_eq s t ≡ true) ↔ (s ≡ t)
text_eq_iff s t = (text_eq_sound s t, λ e. rw e (text_eq_refl t))
