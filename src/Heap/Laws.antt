-- ===== src/Heap/Laws.antt =====
-- What the heap proofs use of an interface: its methods work on the slice as Go documents them, and
-- the order is a strict weak order. `Known` marks the elements that `less` can compare.
use mathlib.Core.List.Perm
use canary_testing.Prelude.{
  ℕ, zero, suc, ◌≤◌, ◌<◌, ◌≡◌, ◌∙◌, subst, Bool, true, false, List, [], ◌∷◌, ◌++◌, Perm, arith,
  length, get_or, set, take, ◌==◌, if◌then◌else◌, get_or-set, length-set, set-perm, Bool-cases, inl,
  inr,
}
use canary_testing.Prelude.Run.{Run, done, Returns, Returns-weaken}
use canary_testing.Heap.{Interface, parent}

-- q[j], q[i] = q[i], q[j]
abbrev pub swapped : {A : Type 0} → A → List A → ℕ → ℕ → List A
swapped d xs i j = set (set xs j (get_or xs i d)) i (get_or xs j d)

pub record Laws {A : Type 0} (h : Interface A) (Known : A → Type 0) : Type 0 where
  pub default : A
  pub before : A → A → Bool
  pub less-done :
      (xs : List A) (i j : ℕ)
      → i < length xs
      → j < length xs
      → Known (get_or xs i default)
      → Known (get_or xs j default)
      → h.less xs i j ≡ done (before (get_or xs i default) (get_or xs j default))
  pub swap-done :
      (xs : List A) (i j : ℕ)
      → i < length xs
      → j < length xs
      → h.swap xs i j ≡ done (swapped default xs i j)
  pub push-eq : (xs : List A) (x : A) → h.push xs x ≡ xs ++ x ∷ []
  pub pop-done :
      (n : ℕ) (xs : List A) → length xs ≡ suc n → h.pop xs ≡ done (get_or xs n default, take n xs)
  pub asym : (a b : A) → before a b ≡ true → before b a ≡ false
  pub trans : (a b c : A) → before b a ≡ false → before c b ≡ false → before c a ≡ false

module _ {A : Type 0} {h : Interface A} {Known : A → Type 0} (l : Laws h Known) where
  abbrev pub at : List A → ℕ → A
  at xs i = get_or xs i l.default

  abbrev pub AllKnown : List A → Type 0
  AllKnown xs = (i : ℕ) → i < length xs → Known (at xs i)

  -- No element among the first `n` comes before its parent.
  abbrev pub IsHeapTo : ℕ → List A → Type 0
  IsHeapTo n xs = (c : ℕ) → 0 < c → c < n → l.before (at xs c) (at xs (parent c)) ≡ false

  abbrev pub IsHeap : List A → Type 0
  IsHeap xs = IsHeapTo (length xs) xs

  pub before_irrefl : (a : A) → l.before a a ≡ false
  before_irrefl a = elim (Bool-cases (l.before a a)) [ inl e ↦ l.asym a a e | inr e ↦ e ]

  module _ (xs : List A) (i j : ℕ) (hi : i < length xs) (hj : j < length xs) where
    pub length-swapped : length (swapped l.default xs i j) ≡ length xs
    length-swapped =
        omega (arith, length-set (set xs j (at xs i)) i (at xs j), length-set xs j (at xs i))

    pub at-swapped :
        (c : ℕ)
        → at (swapped l.default xs i j) c
          ≡ (if i == c then at xs j else if j == c then at xs i else at xs c)
    at-swapped c = ground (
      arith,
      length-set xs j (at xs i),
      get_or-set l.default (set xs j (at xs i)) i c (at xs j),
      get_or-set l.default xs j c (at xs i),
    )

    pub swapped-perm : Perm (swapped l.default xs i j) xs
    swapped-perm =
        let ys = set xs j (at xs i) in
        let size : i < length ys = omega (arith, length-set xs j (at xs i)) in
        let there : at ys i ≡ at xs i = ground (arith, get_or-set l.default xs j i (at xs i)) in
        let back =
          subst (λ v. Perm (v ∷ set ys i (at xs j)) (at xs j ∷ ys)) there
            (set-perm l.default ys i (at xs j) size) in
        Perm.cons_inv (Perm.trans back (set-perm l.default xs j (at xs i) hj))

    pub swapped-AllKnown : AllKnown xs → AllKnown (swapped l.default xs i j)
    swapped-AllKnown known c p =
        let size : c < length xs = omega (arith, length-swapped) in rw at-swapped (chosen c size)
      where
        chosen :
            (c : ℕ)
            → c < length xs
            → Known (if i == c then at xs j else if j == c then at xs i else at xs c)
        chosen c p = elim (Bool-cases (i == c)) [
          | inl e ↦ rw e (known j hj)
          | inr e ↦
              rw e (elim (Bool-cases (j == c)) [
                | inl f ↦ rw f (known i hi)
                | inr f ↦ rw f (known c p)
              ])
        ]

  root_first_below :
      (k : ℕ) (xs : List A) (n c : ℕ)
      → IsHeapTo n xs
      → c < k
      → c < n
      → l.before (at xs c) (at xs 0) ≡ false
  root_first_below zero xs n c heap f p = absurd (omega arith)
  root_first_below (suc k) xs n zero heap f p = before_irrefl (at xs 0)
  root_first_below (suc k) xs n (suc c) heap f p =
      l.trans (at xs 0) (at xs (parent (suc c))) (at xs (suc c))
        (root_first_below k xs n (parent (suc c)) heap (omega arith) (omega arith))
        (heap (suc c) (omega arith) p)

  -- No element of a heap comes before its root.
  pub root_first :
      (xs : List A) (n c : ℕ) → IsHeapTo n xs → c < n → l.before (at xs c) (at xs 0) ≡ false
  root_first xs n c heap p = root_first_below (suc c) xs n c heap (omega arith) p

  -- What a sift leaves behind: a heap of the same elements, all of them comparable.
  pub record Sifted (n : ℕ) (xs ys : List A) : Type 0 where
    pub ordered : IsHeapTo n ys
    pub known : AllKnown ys
    pub same : Perm ys xs
    pub kept : (c : ℕ) → n ≤ c → c < length xs → at ys c ≡ at xs c

  pub Sifted-after_swap :
      (n : ℕ) (xs : List A) (i j : ℕ)
      → i < length xs
      → j < length xs
      → i < n
      → j < n
      → {m : Run (List A)} → Returns (Sifted n (swapped l.default xs i j)) m
      → Returns (Sifted n xs) m
  Sifted-after_swap n xs i j hi hj hin hjn run = Returns-weaken run (λ ys s. record {
    ordered = s.ordered;
    known = s.known;
    same = Perm.trans s.same (swapped-perm xs i j hi hj);
    kept = λ c p q.
        s.kept c p (omega (arith, length-swapped xs i j hi hj))
        ∙ ground (arith, at-swapped xs i j hi hj c);
  })
