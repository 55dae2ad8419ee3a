-- ===== src/Composition/Validate/Unique.antt =====
-- The check that ids are unique, against pairwise difference.
use canary_testing.Prelude.{
  String, true, false, List, [], ◌∷◌, ◌≡◌, ◌≢◌, ◌↔◌, refl, sym, str_eq, eq_iff, Bool-cases, inl,
  inr,
}
use canary_testing.Prelude.Run.{ok}
use canary_testing.Prelude.Res.{guard-eq-ok}
use canary_testing.Manifest.{Error}
use canary_testing.Composition.Select.{contains}
use canary_testing.Composition.Validate.{check_unique}

-- A string is none of a list; no string of a list is one of another; and the strings of a list
-- differ from each other.
unfoldable pub NotIn : String → List String → Type 0
NotIn k [] = Unit {0}
NotIn k (j ∷ js) = (j ≢ k) × NotIn k js

unfoldable pub Apart : List String → List String → Type 0
Apart seen [] = Unit {0}
Apart seen (k ∷ ks) = NotIn k seen × Apart seen ks

unfoldable pub Unique : List String → Type 0
Unique [] = Unit {0}
Unique (k ∷ ks) = NotIn k ks × Unique ks

contains-NotIn : (k : String) (js : List String) → contains k js ≡ false → NotIn k js
unfolding contains NotIn
contains-NotIn k [] h = tt
contains-NotIn k (j ∷ js) h = elim (Bool-cases (str_eq j k)) [
  | inl e ↦ let f : true ≡ false = rw e at h in cc
  | inr e ↦ ((λ p. let f = (eq_iff j k).1 p in cc), contains-NotIn k js (rw e at h))
]

NotIn-contains : (k : String) (js : List String) → NotIn k js → contains k js ≡ false
unfolding contains NotIn
NotIn-contains k [] h = refl
NotIn-contains k (j ∷ js) (h, hs) = elim (Bool-cases (str_eq j k)) [
  | inl e ↦ absurd (h ((eq_iff j k).0 e))
  | inr e ↦ rw e (NotIn-contains k js hs)
]

Apart-nil : (ks : List String) → Apart [] ks
unfolding Apart NotIn
Apart-nil [] = tt
Apart-nil (k ∷ ks) = (tt, Apart-nil ks)

Apart-cons :
    (x : String) (seen ks : List String) → Apart (x ∷ seen) ks ↔ (NotIn x ks × Apart seen ks)
unfolding Apart NotIn
Apart-cons x seen [] = ((λ h. (tt, tt)), λ h. tt)
Apart-cons x seen (k ∷ ks) = (
  (λ ((h, hs), rest).
      let (a, b) = (Apart-cons x seen ks).0 rest in (((λ p. h (sym p)), a), (hs, b))),
  λ ((h, a), (hs, b)). (((λ p. h (sym p)), hs), (Apart-cons x seen ks).1 (a, b)),
)

check_unique-Apart :
    (e : String → Error) (seen ids : List String)
    → check_unique e seen ids ≡ ok tt ↔ (Apart seen ids × Unique ids)
unfolding check_unique Apart Unique
check_unique-Apart e seen [] = ((λ h. (tt, tt)), λ h. refl)
check_unique-Apart e seen (id ∷ ids) = (
  (λ h.
      let (n, h1) = guard-eq-ok (contains id seen) (e id) h in
      let (a, u) = (check_unique-Apart e (id ∷ seen) ids).0 h1 in
      let (m, b) = (Apart-cons id seen ids).0 a in ((contains-NotIn id seen n, b), (m, u))),
  λ ((n, b), (m, u)).
      rw (NotIn-contains id seen n)
        ((check_unique-Apart e (id ∷ seen) ids).1 ((Apart-cons id seen ids).1 (m, b), u)),
)

-- The check passes exactly where the ids differ from each other.
pub check_unique-Unique :
    (e : String → Error) (ids : List String) → check_unique e [] ids ≡ ok tt ↔ Unique ids
check_unique-Unique e ids =
    let (there, back) = check_unique-Apart e [] ids in
    ((λ h. (there h).1), λ u. back (Apart-nil ids, u))
