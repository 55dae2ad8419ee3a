-- ===== src/Prelude/Sort/Order.antt =====
-- The order of texts is total, and the sorted list does not depend on the order of the list.
use Prim.Native.Char.{code}
use Prim.Native.Nat.{ℕ, compare as compare_ℕ, Ordering}
use Prim.Native.String.{String}
use mathlib.Core.Path.{◌≡◌, refl, sym, ◌∙◌}
use mathlib.Core.Logic.{inl, inr, ∥∥₁_elim}
use mathlib.Core.Bool.{true, false, false≢true}
use mathlib.Core.List.{List, [], ◌∷◌, Perm, Permᴰ}
use native.Mathlib.Omega.{arith}
use std.HLevel.{hedberg}
use mathlib.Core.List.{is_set as List-set}
use mathlib.Core.List.Perm
use text.Mathlib.Text.{◌==◌ as str_eq}
use text.Mathlib.TextEquality.{codes_equal, eq_iff}
use canary_testing.Prelude.Tests.{Bool-cases}
use canary_testing.Prelude.Sort.{codes, codes_leb, text_leb, insert, sort_by, sort_strings, same}

codes_leb-total : (xs ys : List ℕ) → codes_leb xs ys ≡ false → codes_leb ys xs ≡ true
unfolding codes_leb
codes_leb-total [] ys h = cc
codes_leb-total (x ∷ xs) [] h = refl
codes_leb-total (x ∷ xs) (y ∷ ys) h = ground (arith, codes_leb-total xs ys)

codes_leb_trans :
    (xs ys zs : List ℕ) → codes_leb xs ys ≡ true → codes_leb ys zs ≡ true → codes_leb xs zs ≡ true
unfolding codes_leb
codes_leb_trans [] ys zs h k = refl
codes_leb_trans (x ∷ xs) [] zs h k = cc
codes_leb_trans (x ∷ xs) (y ∷ ys) [] h k = cc
codes_leb_trans (x ∷ xs) (y ∷ ys) (z ∷ zs) h k = ground (arith, codes_leb_trans xs ys zs)

codes_leb-antisym : (xs ys : List ℕ) → codes_leb xs ys ≡ true → codes_leb ys xs ≡ true → xs ≡ ys
unfolding codes_leb
codes_leb-antisym [] [] h k = refl
codes_leb-antisym [] (y ∷ ys) h k = cc
codes_leb-antisym (x ∷ xs) [] h k = cc
codes_leb-antisym (x ∷ xs) (y ∷ ys) h k = ground (arith, codes_leb-antisym xs ys)

pub codes_injective : (s t : String) → codes s ≡ codes t → s ≡ t
unfolding codes
codes_injective String.[] String.[] h = refl
codes_injective String.[] (String.◌∷◌ d t) h = cc
codes_injective (String.◌∷◌ c s) String.[] h = cc
codes_injective (String.◌∷◌ c s) (String.◌∷◌ d t) h =
    let e : code c ≡ code d = cc in
    let rest : codes s ≡ codes t = cc in
    λ i.
      String.◌∷◌ (codes_equal c d (same_compare (code c) (code d) e) i) (codes_injective s t rest i)
  where
    same_compare : (m n : ℕ) → m ≡ n → compare_ℕ m n ≡ Ordering.eq
    same_compare m n e = ground arith

pub text_leb-total : (s t : String) → text_leb s t ≡ false → text_leb t s ≡ true
unfolding text_leb
text_leb-total s t h = codes_leb-total (codes s) (codes t) h

text_leb-antisym : (s t : String) → text_leb s t ≡ true → text_leb t s ≡ true → s ≡ t
unfolding text_leb
text_leb-antisym s t h k = codes_injective s t (codes_leb-antisym (codes s) (codes t) h k)

text_leb_trans : (s t u : String) → text_leb s t ≡ true → text_leb t u ≡ true → text_leb s u ≡ true
unfolding text_leb
text_leb_trans s t u h k = codes_leb_trans (codes s) (codes t) (codes u) h k

insert_comm :
    (x y : String) (l : List String)
    → insert same x (insert same y l) ≡ insert same y (insert same x l)
unfolding insert
insert_comm x y [] = ground (arith, text_leb-total x y, text_leb-antisym x y)
insert_comm x y (z ∷ zs) = ground (
  arith,
  text_leb-total x y,
  text_leb-antisym x y,
  text_leb_trans x y z,
  text_leb_trans y x z,
  text_leb-total x z,
  text_leb-total y z,
  text_leb_trans x z y,
  text_leb_trans y z x,
  insert_comm x y zs,
)

sort-Permᴰ : {xs ys : List String} → Permᴰ xs ys → sort_strings xs ≡ sort_strings ys
unfolding sort_strings sort_by
sort-Permᴰ Permᴰ.nil = refl
sort-Permᴰ (Permᴰ.cons e p) = rw (e, sort-Permᴰ p)
sort-Permᴰ (Permᴰ.swap {a} {b} {a'} {b'} {l} e f) = rw (e, f) (insert_comm b' a' (sort_by same l))
sort-Permᴰ (Permᴰ.trans p q) = sort-Permᴰ p ∙ sort-Permᴰ q

pub String-set : IsSet String
String-set = hedberg λ s t. elim (Bool-cases (str_eq s t)) [
  | inl e ↦ yes ((eq_iff s t).0 e)
  | inr e ↦ no (λ p. false≢true (sym e ∙ (eq_iff s t).1 p))
]

-- Lists with the same texts sort to the same list.
pub sort_strings-perm : {xs ys : List String} → Perm xs ys → sort_strings xs ≡ sort_strings ys
sort_strings-perm p = ∥∥₁_elim p (List-set String-set _ _) sort-Permᴰ

-- Sorting keeps the elements.
insert-perm {ℓ} :
    {A : Type ℓ} (key : A → String) (x : A) (xs : List A) → Perm (insert key x xs) (x ∷ xs)
unfolding insert
insert-perm key x [] = Perm.refl (x ∷ [])
insert-perm key x (y ∷ ys) = elim (Bool-cases (text_leb (key x) (key y))) [
  | inl e ↦ rw e (Perm.refl (x ∷ y ∷ ys))
  | inr e ↦ rw e (Perm.trans (Perm.cons y (insert-perm key x ys)) (Perm.swap x y ys))
]

pub sort_by-perm {ℓ} : {A : Type ℓ} (key : A → String) (xs : List A) → Perm (sort_by key xs) xs
unfolding sort_by
sort_by-perm key [] = Perm.refl []
sort_by-perm key (x ∷ xs) =
    Perm.trans (insert-perm key x (sort_by key xs)) (Perm.cons x (sort_by-perm key xs))
