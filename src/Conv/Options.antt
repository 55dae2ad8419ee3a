-- ===== src/Conv/Options.antt =====
-- Options that are printed are parsed back.
use Prim.Native.Char.{Char, code}
use Prim.Native.String.append
use mathlib.Core.List.{append-nil, append_assoc}
use canary_testing.Prelude.{
  String, Bool, true, false, List, [], ◌∷◌, ◌++◌, ◌≡◌, refl, sym, ap, ◌∙◌, str_eq, eq_iff, ◌==◌,
  if◌then◌else◌, Bool-cases, inl, inr, ◌||◌, arith,
}
use canary_testing.Prelude.Run.{ok}
use canary_testing.Prelude.Sort.{codes}
use canary_testing.Prelude.Sort.Order.{codes_injective}
use canary_testing.Prelude.Text.{◌⧺◌, join}
use canary_testing.Manifest.{has_key}
use canary_testing.Conv.{split, put, put_parts, parse_into, parse_key_values, to_options_slice}

-- A key has no "=" in it.
unfoldable pub is_plain : String → Bool
is_plain String.[] = true
is_plain (String.◌∷◌ c s) = let rest = is_plain s in if code c == 61 then false else rest

-- A map: each of its keys stands once, and is plain.
unfoldable pub PlainKeys : List (String × String) → Type 0
PlainKeys [] = Unit {0}
PlainKeys ((k, v) ∷ m) = (has_key m k ≡ false) × (is_plain k ≡ true) × PlainKeys m

cons_equal : (c d : Char) (s : String) → code c ≡ code d → String.◌∷◌ c s ≡ String.◌∷◌ d s
unfolding codes
cons_equal c d s e = codes_injective (String.◌∷◌ c s) (String.◌∷◌ d s) (ap (λ n. n ∷ codes s) e)

abbrev equals : Char
equals = "="

equals_cons : (v : String) → "" ⧺ "=" ⧺ v ≡ String.◌∷◌ equals v
equals_cons v =
    append.nil ("=" ⧺ v) ∙ append.cons equals "" v ∙ ap (String.◌∷◌ equals) (append.nil v)

join-cons :
    (c : Char) (first : String) (rest : List String)
    → join (String.◌∷◌ c first ∷ rest) "=" ≡ String.◌∷◌ c (join (first ∷ rest) "=")
unfolding join
join-cons c first [] = refl
join-cons c first (x ∷ rest) = append.cons c first ("=" ⧺ join (x ∷ rest) "=")

-- The parts, joined, are the whole.
join-split : (s : String) → join ((split s).0 ∷ (split s).1) "=" ≡ s
unfolding split join
join-split String.[] = refl
join-split (String.◌∷◌ c s) = elim (Bool-cases (code c == 61)) [
  | inl e ↦ rw (e, join-split s) (equals_cons s ∙ cons_equal equals c s (ground arith))
  | inr e ↦ rw e (join-cons c (split s).0 (split s).1 ∙ ap (String.◌∷◌ c) (join-split s))
]

split-key :
    (k v : String) → is_plain k ≡ true → split (k ⧺ "=" ⧺ v) ≡ (k, (split v).0 ∷ (split v).1)
unfolding split is_plain
split-key String.[] v h = ap split (equals_cons v)
split-key (String.◌∷◌ c k) v h = elim (Bool-cases (code c == 61)) [
  | inl e ↦ let f : false ≡ true = rw e at h in cc
  | inr e ↦ rw (append.cons c k ("=" ⧺ v), e, split-key k v (rw e at h))
]

put-fresh :
    (k v : String) (m : List (String × String)) → has_key m k ≡ false → put k v m ≡ m ++ (k, v) ∷ []
unfolding put has_key
put-fresh k v [] h = refl
put-fresh k v ((j, x) ∷ m) h = elim (Bool-cases (str_eq j k)) [
  | inl e ↦ let f : true ≡ false = rw e at h in cc
  | inr e ↦ rw e (ap (◌∷◌ (j, x)) (put-fresh k v m (rw e at h)))
]

has_key-append :
    (m : List (String × String)) (k v j : String)
    → has_key (m ++ (k, v) ∷ []) j ≡ has_key m j || str_eq k j
unfolding has_key
has_key-append [] k v j = ground arith
has_key-append ((l, x) ∷ m) k v j = ground (arith, has_key-append m k v j)

-- No key of one map is a key of the other.
unfoldable Fresh : List (String × String) → List (String × String) → Type 0
Fresh res [] = Unit {0}
Fresh res ((k, v) ∷ m) = (has_key res k ≡ false) × Fresh res m

Fresh-append :
    (res m : List (String × String)) (k v : String)
    → has_key m k ≡ false
    → Fresh res m
    → Fresh (res ++ (k, v) ∷ []) m
unfolding Fresh has_key
Fresh-append res [] k v h f = tt
Fresh-append res ((j, x) ∷ m) k v h (f, fs) = elim (Bool-cases (str_eq j k)) [
  | inl e ↦ let g : true ≡ false = rw e at h in cc
  | inr e ↦ (has_key-append res k v j ∙ rw f (other j k e), Fresh-append res m k v (rw e at h) fs)
]
  where
    other : (j k : String) → str_eq j k ≡ false → str_eq k j ≡ false
    other j k e = ground (arith, eq_iff j k, eq_iff k j)

parse_into-options :
    (m res : List (String × String))
    → PlainKeys m
    → Fresh res m
    → parse_into (to_options_slice m) res ≡ ok (res ++ m)
unfolding parse_into to_options_slice PlainKeys Fresh put_parts
parse_into-options [] res p f = ap ok (sym (append-nil res))
parse_into-options ((k, v) ∷ m) res (new, plain, p) (f, fs) =
    rw (split-key k v plain, join-split v, put-fresh k v res f)
      (parse_into-options m (res ++ (k, v) ∷ []) p (Fresh-append res m k v new fs)
        ∙ ap ok (append_assoc res ((k, v) ∷ []) m))

Fresh-nothing : (m : List (String × String)) → Fresh [] m
unfolding Fresh has_key
Fresh-nothing [] = tt
Fresh-nothing ((k, v) ∷ m) = (refl, Fresh-nothing m)

-- ParseKeyValues of the options that ToOptionsSlice makes of a map returns this map, if no key of it has
-- an "=" in it; the values may have some.
pub parse-to_options_slice :
    (m : List (String × String)) → PlainKeys m → parse_key_values (to_options_slice m) ≡ ok m
unfolding parse_key_values
parse-to_options_slice m p = parse_into-options m [] p (Fresh-nothing m)
