-- ===== src/Composition/Defaults/Kept.antt =====
-- What is set explicitly is kept when defaults are filled in, and the defaults fill the rest.
use canary_testing.Prelude.{
  String, true, false, [], ◌∷◌, ◌≡◌, refl, Option, none, some, str_eq, eq_iff, Bool-cases, inl, inr,
  subst, sym, ◌∙◌,
}
use canary_testing.Manifest.{ConfigMap, has_key, lookup}
use canary_testing.Composition.Defaults.{fill}

-- The first of two values that is there.
unfoldable pub or_default : Option String → Option String → Option String
or_default (some v) o = some v
or_default none o = o

has_key-lookup : (m : ConfigMap) (k : String) → has_key m k ≡ false → lookup k m ≡ none
unfolding has_key lookup
has_key-lookup [] k h = refl
has_key-lookup ((j, v) ∷ m) k h = elim (Bool-cases (str_eq j k)) [
  | inl e ↦ let f : true ≡ false = rw e at h in cc
  | inr e ↦ rw e (has_key-lookup m k (rw e at h))
]

has_key-or_default :
    (m : ConfigMap) (k : String) (o : Option String)
    → has_key m k ≡ true
    → or_default (lookup k m) o ≡ lookup k m
unfolding has_key lookup or_default
has_key-or_default [] k o h = cc
has_key-or_default ((j, v) ∷ m) k o h = elim (Bool-cases (str_eq j k)) [
  | inl e ↦ rw e
  | inr e ↦ rw e (has_key-or_default m k o (rw e at h))
]

lookup-head : (j v k : String) (m : ConfigMap) → str_eq j k ≡ true → lookup k ((j, v) ∷ m) ≡ some v
unfolding lookup
lookup-head j v k m e = rw e

lookup-skip :
    (j v k : String) (m : ConfigMap) → str_eq j k ≡ false → lookup k ((j, v) ∷ m) ≡ lookup k m
unfolding lookup
lookup-skip j v k m e = rw e

or_default-none : (o : Option String) → or_default o none ≡ o
unfolding or_default
or_default-none none = refl
or_default-none (some v) = refl

lookup-nil : (k : String) → lookup {V = String} k [] ≡ none
unfolding lookup
lookup-nil k = refl

-- A default for a key that the map has, and for one that it has not.
fill_known :
    (m : ConfigMap) (k : String) (o o' : Option String)
    → has_key m k ≡ true
    → or_default (lookup k m) o ≡ or_default (lookup k m) o'
fill_known m k o o' h = has_key-or_default m k o h ∙ sym (has_key-or_default m k o' h)

fill_new :
    (m defaults : ConfigMap) (j v k : String)
    → str_eq j k ≡ true
    → has_key m k ≡ false
    → or_default (lookup k ((j, v) ∷ m)) (lookup k defaults)
      ≡ or_default (lookup k m) (lookup k ((j, v) ∷ defaults))
unfolding or_default
fill_new m defaults j v k e h =
    rw (lookup-head j v k m e, lookup-head j v k defaults e, has_key-lookup m k h)

-- Under each key a map with defaults filled in has its own value, or else that of the defaults.
pub fill-lookup :
    (m defaults : ConfigMap) (k : String)
    → lookup k (fill m defaults) ≡ or_default (lookup k m) (lookup k defaults)
unfolding fill
fill-lookup m [] k = rw (lookup-nil k, or_default-none (lookup k m))
fill-lookup m ((j, v) ∷ defaults) k = elim (Bool-cases (has_key m j)) [
  | inl there ↦ rw there (
      fill-lookup m defaults k ∙ (elim (Bool-cases (str_eq j k)) [
        | inl e ↦ fill_known m k _ _ (subst (λ x. has_key m x ≡ true) ((eq_iff j k).0 e) there)
        | inr e ↦ rw (lookup-skip j v k defaults e)
      ]))
  | inr new ↦ rw new (
      fill-lookup ((j, v) ∷ m) defaults k ∙ (elim (Bool-cases (str_eq j k)) [
        | inl e ↦
            fill_new m defaults j v k e (subst (λ x. has_key m x ≡ false) ((eq_iff j k).0 e) new)
        | inr e ↦ rw (lookup-skip j v k defaults e, lookup-skip j v k m e)
      ]))
]
