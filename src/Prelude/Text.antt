-- ===== src/Prelude/Text.antt =====
-- Go strings: concatenation, and strconv.FormatInt in base 10 (standard library) for numbers that are
-- not negative.
pub mod Decimal
use Prim.Native.String
use Prim.Native.String.{String}
use Prim.Native.Nat.{ℕ, zero, suc, ◌/◌, ◌%◌}
use text.Mathlib.Text.{◌==◌ as str_eq}
use canary_testing.Prelude.Tests.{ltb, if◌then◌else◌}
use mathlib.Core.List.{List, [], ◌∷◌}
use mathlib.Core.Path.{◌≡◌, refl}
use mathlib.Core.Bool.{Bool}

infixr 65 ◌⧺◌
abbrev pub ◌⧺◌ : String → String → String
s ⧺ t = String.◌++◌ s t

abbrev pub is_empty : String → Bool
is_empty s = str_eq s ""

digit : ℕ → String
digit zero = "0"
digit (suc zero) = "1"
digit (suc (suc zero)) = "2"
digit (suc (suc (suc zero))) = "3"
digit (suc (suc (suc (suc zero)))) = "4"
digit (suc (suc (suc (suc (suc zero))))) = "5"
digit (suc (suc (suc (suc (suc (suc zero)))))) = "6"
digit (suc (suc (suc (suc (suc (suc (suc zero))))))) = "7"
digit (suc (suc (suc (suc (suc (suc (suc (suc zero)))))))) = "8"
digit (suc (suc (suc (suc (suc (suc (suc (suc (suc n))))))))) = "9"

format_digits : ℕ → ℕ → String
format_digits zero n = ""
format_digits (suc k) n =
    let front = format_digits k (n / 10) in if ltb n 10 then digit n else front ⧺ digit (n % 10)

unfoldable pub format_int : ℕ → String
unfolding format_digits digit
format_int n = format_digits (suc n) n

-- strings.Join
unfoldable pub join : List String → String → String
join [] sep = ""
join (s ∷ []) sep = s
join (s ∷ t ∷ rest) sep = s ⧺ sep ⧺ join (t ∷ rest) sep

format_int_sample : format_int 1609459200 ≡ "1609459200"
unfolding format_int
format_int_sample = refl
