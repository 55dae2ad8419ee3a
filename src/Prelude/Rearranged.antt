-- ===== src/Prelude/Rearranged.antt =====
-- What holds of the elements of a list in one order holds of them in another.
use mathlib.Core.Path.{◌≡◌, refl, subst, ◌∙◌}
use mathlib.Core.Bool.{Bool, true, false, ◌||◌}
use mathlib.Core.List.{List, [], ◌∷◌, Permᴰ}

module _ {ℓ κ} {A : Type ℓ} (P : A → Type κ) where
  abbrev pub All : List A → Type κ
  All [] = Unit
  All (x ∷ xs) = P x × All xs

  pub All-Permᴰ : {xs ys : List A} → Permᴰ xs ys → All xs → All ys
  All-Permᴰ Permᴰ.nil h = h
  All-Permᴰ (Permᴰ.cons e p) (h, hs) = (subst P e h, All-Permᴰ p hs)
  All-Permᴰ (Permᴰ.swap e f) (h, (k, hs)) = (subst P f k, (subst P e h, hs))
  All-Permᴰ (Permᴰ.trans p q) h = All-Permᴰ q (All-Permᴰ p h)

module _ {ℓ} {A : Type ℓ} (f : A → Bool) where
  abbrev pub any : List A → Bool
  any [] = false
  any (x ∷ xs) = f x || any xs

  or_swap : (a b c : Bool) → a || (b || c) ≡ b || (a || c)
  or_swap true true c = refl
  or_swap true false c = refl
  or_swap false b c = refl

  pub any-Permᴰ : {xs ys : List A} → Permᴰ xs ys → any xs ≡ any ys
  any-Permᴰ Permᴰ.nil = refl
  any-Permᴰ (Permᴰ.cons e p) = rw (e, any-Permᴰ p)
  any-Permᴰ (Permᴰ.swap {a} {b} {a'} {b'} {l} e g) = rw (e, g) (or_swap (f b') (f a') (any l))
  any-Permᴰ (Permᴰ.trans p q) = any-Permᴰ p ∙ any-Permᴰ q
