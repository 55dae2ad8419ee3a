-- ===== src/Engine/Build/Positions.antt =====
-- The map from build keys to the positions of the groups with a key.
use mathlib.Core.List.{append-nil, append_assoc}
use canary_testing.Composition.Select.{contains}
use canary_testing.Prelude.{
  ℕ, zero, suc, ◌+◌, ◌<◌, String, ◌≡◌, refl, sym, ap, ◌∙◌, Bool, true, false, ◌||◌, List, [], ◌∷◌,
  ◌++◌, some, str_eq, eq_iff, ◌==◌, length, length-append, get_elem?, if◌then◌else◌, Bool-cases,
  inl, inr, arith, subst, false≢true,
}
use canary_testing.Manifest.{has_key}
use canary_testing.Engine.Build.{add_index, index_keys}

-- The positions of a key in a list of keys, from a number on.
unfoldable pub positions : String → ℕ → List String → List ℕ
positions k i [] = []
positions k i (x ∷ xs) = let rest = positions k (i + 1) xs in if str_eq x k then i ∷ rest else rest

positions-append :
    (k : String) (i : ℕ) (xs : List String) (x : String)
    → positions k i (xs ++ x ∷ [])
      ≡ positions k i xs ++ (if str_eq x k then (i + length xs) ∷ [] else [])
unfolding positions
positions-append k i [] x = let e : i + 0 ≡ i = omega arith in rw e
positions-append k i (y ∷ ys) x =
    let e : i + suc (length ys) ≡ i + 1 + length ys = omega arith in
    elim (Bool-cases (str_eq y k)) [
      | inl h ↦ rw (h, e) (ap (◌∷◌ i) (positions-append k (i + 1) ys x))
      | inr h ↦ rw (h, e) (positions-append k (i + 1) ys x)
    ]

-- Each key of the map stands once, with its positions in the list.
unfoldable pub Indexed : List String → List (String × List ℕ) → Type 0
Indexed ks [] = Unit {0}
Indexed ks ((k, idxs) ∷ m) = (idxs ≡ positions k 0 ks) × (has_key m k ≡ false) × Indexed ks m

has_key-add_index :
    (k j : String) (i : ℕ) (m : List (String × List ℕ))
    → has_key (add_index k i m) j ≡ has_key m j || str_eq k j
unfolding has_key add_index
has_key-add_index k j i [] = ground arith
has_key-add_index k j i ((l, idxs) ∷ m) =
    ground (arith, eq_iff l k, eq_iff k j, eq_iff l j, has_key-add_index k j i m)

positions-other :
    (k x : String) (ks : List String)
    → str_eq x k ≡ false
    → positions k 0 (ks ++ x ∷ []) ≡ positions k 0 ks
positions-other k x ks h = positions-append k 0 ks x ∙ rw (h, append-nil (positions k 0 ks))

positions-here :
    (k : String) (ks : List String)
    → positions k 0 (ks ++ k ∷ []) ≡ positions k 0 ks ++ length ks ∷ []
positions-here k ks =
    let e : 0 + length ks ≡ length ks = omega arith in
    positions-append k 0 ks k ∙ rw ((eq_iff k k).1 refl, e)

differ : (x k : String) → (x ≡ k → ⊥) → str_eq x k ≡ false
differ x k h = elim (Bool-cases (str_eq x k)) [ inl e ↦ absurd (h ((eq_iff x k).0 e)) | inr e ↦ e ]

-- A key that the map has not is appended to the list.
Indexed-skip :
    (ks : List String) (x : String) (m : List (String × List ℕ))
    → has_key m x ≡ false
    → Indexed ks m
    → Indexed (ks ++ x ∷ []) m
unfolding Indexed has_key
Indexed-skip ks x [] h p = tt
Indexed-skip ks x ((k, idxs) ∷ m) h (e, new, p) = elim (Bool-cases (str_eq k x)) [
  | inl f ↦ let g : true ≡ false = rw f at h in absurd (false≢true (sym g))
  | inr f ↦
      let g = differ x k (λ q. false≢true (sym f ∙ (eq_iff k x).1 (sym q))) in
      (e ∙ sym (positions-other k x ks g), new, Indexed-skip ks x m (rw f at h) p)
]

Indexed-add :
    (ks : List String) (x : String) (m : List (String × List ℕ))
    → (has_key m x ≡ false → positions x 0 ks ≡ [])
    → Indexed ks m
    → Indexed (ks ++ x ∷ []) (add_index x (length ks) m)
unfolding Indexed add_index has_key
Indexed-add ks x [] none_there p = (sym (positions-here x ks ∙ rw (none_there refl)), refl, tt)
Indexed-add ks x ((k, idxs) ∷ m) none_there (e, new, p) = elim (Bool-cases (str_eq k x)) [
  | inl f ↦
      let same = (eq_iff k x).0 f in
      let new' : has_key m x ≡ false = rw (← same) new in
      rw f (rw (e, same) (sym (positions-here x ks)), new, Indexed-skip ks x m new' p)
  | inr f ↦
      let g = differ x k (λ q. false≢true (sym f ∙ (eq_iff k x).1 (sym q))) in
      rw f (
        e ∙ sym (positions-other k x ks g),
        has_key-add_index x k (length ks) m ∙ rw (new, g),
        Indexed-add ks x m (λ h. none_there (rw (f, h))) p,
      )
]

-- A key that the map has not is not in the list.
Complete : List String → List (String × List ℕ) → Type 0
Complete ks m = (k : String) → has_key m k ≡ false → positions k 0 ks ≡ []

pub or_false_parts : (a b : Bool) → a || b ≡ false → (a ≡ false) × (b ≡ false)
or_false_parts true b h = cc
or_false_parts false b h = (refl, h)

Complete-add :
    (ks : List String) (x : String) (m : List (String × List ℕ))
    → Complete ks m
    → Complete (ks ++ x ∷ []) (add_index x (length ks) m)
unfolding Complete
Complete-add ks x m c k h =
    let (a, b) =
      or_false_parts (has_key m k) (str_eq x k) (sym (has_key-add_index x k (length ks) m) ∙ h) in
    positions-other k x ks b ∙ c k a

index_from :
    (pre ks : List String) (m : List (String × List ℕ))
    → Indexed pre m
    → Complete pre m
    → Indexed (pre ++ ks) (index_keys (length pre) ks m)
unfolding index_keys Complete
index_from pre [] m p c = subst (λ l. Indexed l m) (sym (append-nil pre)) p
index_from pre (x ∷ ks) m p c =
    let size : length (pre ++ x ∷ []) ≡ length pre + 1 = length-append pre (x ∷ []) in
    let whole = append_assoc pre (x ∷ []) ks in
    rw (← whole, ← size)
      (index_from (pre ++ x ∷ []) ks (add_index x (length pre) m) (Indexed-add pre x m (c x) p)
        (Complete-add pre x m c))

pub index_keys-Indexed : (ks : List String) → Indexed ks (index_keys 0 ks [])
unfolding Indexed Complete positions
index_keys-Indexed ks = index_from [] ks [] tt (λ k h. refl)

pub has_key-index_keys :
    (k : String) (i : ℕ) (ks : List String) (m : List (String × List ℕ))
    → has_key (index_keys i ks m) k ≡ has_key m k || contains k ks
unfolding index_keys contains
has_key-index_keys k i [] m = ground arith
has_key-index_keys k i (x ∷ ks) m =
    has_key-index_keys k (i + 1) ks (add_index x i m)
    ∙ rw (has_key-add_index x k i m) (ground arith)

-- A position is in the list of positions of its key and of no other.
unfoldable pub has_index : ℕ → List ℕ → Bool
has_index i [] = false
has_index i (j ∷ js) = if j == i then true else has_index i js

before_none :
    (i n : ℕ) (k : String) (ks : List String) → i < n → has_index i (positions k n ks) ≡ false
unfolding has_index positions
before_none i n k [] h = refl
before_none i n k (x ∷ ks) h = ground (arith, before_none i (n + 1) k ks)

pub has_index-positions :
    (i n : ℕ) (k x : String) (ks : List String)
    → get_elem? ks i ≡ some x
    → has_index (n + i) (positions k n ks) ≡ str_eq x k
unfolding has_index positions
has_index-positions i n k x [] h = cc
has_index-positions zero n k x (y ∷ ks) h =
    let e : y ≡ x = cc in ground (arith, before_none n (n + 1) k ks)
has_index-positions (suc i) n k x (y ∷ ks) h =
    let e : n + suc i ≡ n + 1 + i = omega arith in
    ground (arith, has_index-positions i (n + 1) k x ks h)
