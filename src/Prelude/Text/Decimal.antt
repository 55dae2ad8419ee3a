-- ===== src/Prelude/Text/Decimal.antt =====
-- Reading back what strconv.FormatInt printed, before a dot.
use Prim.Native.Char.{Char, code}
use Prim.Native.String.append
use text.Mathlib.TextLemmas.{append_assoc}
use canary_testing.Prelude.{
  ℕ, zero, suc, ◌+◌, ◌*◌, ◌-◌, ◌/◌, ◌%◌, ◌≤◌, ◌==◌, ltb, String, ◌≡◌, refl, ap, ◌∙◌, Option, none,
  some, Bool-cases, inl, inr, arith, if◌then◌else◌,
}
use canary_testing.Prelude.Text.{◌⧺◌, format_int, format_digits, digit}

-- The number before the first dot, with its value so far, and the text behind the dot.
unfoldable pub read_octet : ℕ → String → Option (ℕ × String)
read_octet acc String.[] = none
read_octet acc (String.◌∷◌ c s) =
    let rest = read_octet (acc * 10 + (code c - 48)) s in
    if code c == 46 then some (acc, s) else rest

read-cons :
    (c : Char) (acc : ℕ) (t : String)
    → read_octet acc (String.◌∷◌ c "" ⧺ t)
      ≡ (if code c == 46 then some (acc, t) else read_octet (acc * 10 + (code c - 48)) t)
unfolding read_octet
read-cons c acc t = ap (read_octet acc) (append.cons c "" t) ∙ rw (append.nil t) refl

read-digit :
    (d acc : ℕ) (t : String) → d ≤ 9 → read_octet acc (digit d ⧺ t) ≡ read_octet (acc * 10 + d) t
unfolding digit
read-digit zero acc t h = read-cons "0" acc t
read-digit (suc zero) acc t h = read-cons "1" acc t
read-digit (suc (suc zero)) acc t h = read-cons "2" acc t
read-digit (suc (suc (suc zero))) acc t h = read-cons "3" acc t
read-digit (suc (suc (suc (suc zero)))) acc t h = read-cons "4" acc t
read-digit (suc (suc (suc (suc (suc zero))))) acc t h = read-cons "5" acc t
read-digit (suc (suc (suc (suc (suc (suc zero)))))) acc t h = read-cons "6" acc t
read-digit (suc (suc (suc (suc (suc (suc (suc zero))))))) acc t h = read-cons "7" acc t
read-digit (suc (suc (suc (suc (suc (suc (suc (suc zero)))))))) acc t h = read-cons "8" acc t
read-digit (suc (suc (suc (suc (suc (suc (suc (suc (suc zero))))))))) acc t h = read-cons "9" acc t
read-digit (suc (suc (suc (suc (suc (suc (suc (suc (suc (suc n)))))))))) acc t h =
    absurd (omega arith)

read-digits :
    (k n : ℕ) (t : String) → suc n ≤ k → read_octet 0 (format_digits k n ⧺ t) ≡ read_octet n t
unfolding format_digits
read-digits zero n t h = absurd (omega arith)
read-digits (suc k) n t h = elim (Bool-cases (ltb n 10)) [
  | inl e ↦ rw e (read-digit n 0 t (ground arith) ∙ ap (λ m. read_octet m t) (omega arith))
  | inr e ↦ rw e (
      ap (read_octet 0) (append_assoc (format_digits k (n / 10)) (digit (n % 10)) t)
      ∙ read-digits k (n / 10) (digit (n % 10) ⧺ t) (ground arith)
      ∙ read-digit (n % 10) (n / 10) t (omega arith)
      ∙ ap (λ m. read_octet m t) (omega arith))
]

-- A printed number before a dot is read back.
pub read-format_int : (n : ℕ) (t : String) → read_octet 0 (format_int n ⧺ ("." ⧺ t)) ≡ some (n, t)
unfolding format_int
read-format_int n t = read-digits (suc n) n ("." ⧺ t) (omega arith) ∙ read-cons "." n t
