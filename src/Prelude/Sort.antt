-- ===== src/Prelude/Sort.antt =====
-- `sort.Strings` of the Go distribution: texts in the order of their code points, which for UTF-8 is
-- the order of their bytes. An insertion sort, stable, by any key.
pub mod Order
use Prim.Native.Char.{code}
use Prim.Native.Nat.{ℕ}
use Prim.Native.String.{String}
use mathlib.Core.Bool.{Bool, true, false, ◌&&◌, ◌||◌}
use mathlib.Core.List.{List, [], ◌∷◌}
use canary_testing.Prelude.Tests.{ltb, ◌==◌, if◌then◌else◌}

unfoldable pub codes : String → List ℕ
codes String.[] = []
codes (String.◌∷◌ c s) = code c ∷ codes s

unfoldable pub codes_leb : List ℕ → List ℕ → Bool
codes_leb [] ys = true
codes_leb (x ∷ xs) [] = false
codes_leb (x ∷ xs) (y ∷ ys) = let rest = codes_leb xs ys in ltb x y || (x == y && rest)

-- s <= t
unfoldable pub text_leb : String → String → Bool
text_leb s t = codes_leb (codes s) (codes t)

module _ {ℓ} {A : Type ℓ} (key : A → String) where
  unfoldable pub insert : A → List A → List A
  insert x [] = x ∷ []
  insert x (y ∷ ys) =
      let rest = insert x ys in if text_leb (key x) (key y) then x ∷ y ∷ ys else y ∷ rest

  unfoldable pub sort_by : List A → List A
  sort_by [] = []
  sort_by (x ∷ xs) = insert x (sort_by xs)

abbrev pub same : String → String
same s = s

unfoldable pub sort_strings : List String → List String
sort_strings xs = sort_by same xs
