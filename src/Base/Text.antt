-- ===== src/Base/Text.antt =====
-- Texts as lists of code points, where the program walks them.
use go_challenge_fc.Base.Tests.{◌==◌}
use Prim.Native.Nat.{ℕ, suc}
use Prim.Native.Char.{code}
use Prim.Native.String.{String}
use mathlib.Core.Bool.{Bool, true, false, ◌&&◌, ◌||◌}
use mathlib.Core.List.{List, [], ◌∷◌}

abbrev pub codes : String → List ℕ
codes String.[] = []
codes (String.◌∷◌ c s) = code c ∷ codes s

abbrev pub length {ℓ} : {A : Type ℓ} → List A → ℕ
length [] = 0
length (x ∷ xs) = suc (length xs)

abbrev pub codes_eq : List ℕ → List ℕ → Bool
codes_eq [] [] = true
codes_eq (c ∷ s) (d ∷ t) = c == d && codes_eq s t
codes_eq _ _ = false

-- strings.ContainsRune
abbrev pub has : ℕ → List ℕ → Bool
has c [] = false
has c (d ∷ s) = c == d || has c s

abbrev pub has_prefix : ℕ → List ℕ → Bool
has_prefix c [] = false
has_prefix c (d ∷ s) = c == d
