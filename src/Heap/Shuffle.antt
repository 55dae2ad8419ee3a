-- ===== src/Heap/Shuffle.antt =====
-- heap.Push and heap.Pop on a slice that need not be a heap: no element is lost or made up, and Pop
-- takes the element at index 0.
use mathlib.Core.List.Perm
use canary_testing.Prelude.{
  ℕ, zero, suc, ◌+◌, ◌-◌, ◌*◌, ◌≤◌, ◌<◌, ◌≡◌, ◌⊎◌, inl, inr, refl, ◌∙◌, List, [], ◌∷◌, ◌++◌, Perm,
  arith, length, take, ltb, leb, ◌==◌, length-append, length-perm, get_or-append, get_or-append_end,
  take-append_last, Bool-cases,
}
use canary_testing.Prelude.Run.{Returns, returns, Returns-then, Returns-weaken, Returns-branch}
use canary_testing.Heap.{
  Interface, parent, up, up_loop, down, down_loop, first_child, heap_push, heap_pop,
}
use canary_testing.Heap.Laws.{
  Laws, swapped, at, AllKnown, length-swapped, at-swapped, swapped-perm, swapped-AllKnown,
}
use canary_testing.Heap.Ops.{append_one-perm}

module _ {A : Type 0} {h : Interface A} {Known : A → Type 0} (l : Laws h Known) where
  -- The same elements in some order, those from `n` on in their places.
  pub record Shuffled (n : ℕ) (xs ys : List A) : Type 0 where
    pub known : AllKnown l ys
    pub same : Perm ys xs
    pub kept : (c : ℕ) → n ≤ c → c < length xs → at l ys c ≡ at l xs c

  Shuffled-self : (n : ℕ) (xs : List A) → AllKnown l xs → Shuffled n xs xs
  Shuffled-self n xs k = record { known = k; same = Perm.refl xs; kept = λ c p q. refl }

  Shuffled-swap :
      (n : ℕ) (xs ys : List A) (i j : ℕ)
      → i < length xs
      → j < length xs
      → i < n
      → j < n
      → Shuffled n (swapped l.default xs i j) ys
      → Shuffled n xs ys
  Shuffled-swap n xs ys i j hi hj hin hjn s = record {
    known = s.known;
    same = Perm.trans s.same (swapped-perm l xs i j hi hj);
    kept = λ c p q.
        s.kept c p (omega (arith, length-swapped l xs i j hi hj))
        ∙ ground (arith, at-swapped l xs i j hi hj c);
  }

  up_loop-Shuffled :
      (k n : ℕ) (xs : List A) (j : ℕ)
      → j < k
      → j < length xs
      → length xs ≡ n
      → AllKnown l xs
      → Returns (Shuffled n xs) (up_loop h k xs j)
  unfolding up_loop
  up_loop-Shuffled zero n xs j f hj e known = absurd (omega arith)
  up_loop-Shuffled (suc k) n xs j f hj e known =
      Returns-branch (parent j == j) (λ root. returns (Shuffled-self n xs known))
        λ inner.
          let over : parent j < length xs = omega arith in
          rw
            (
              l.less-done xs j (parent j) hj over (known j hj) (known (parent j) over),
              l.swap-done xs (parent j) j over hj,
            )
            (Returns-branch (l.before (at l xs j) (at l xs (parent j)))
              (λ above.
                Returns-weaken
                  (up_loop-Shuffled k n (swapped l.default xs (parent j) j) (parent j)
                    (ground arith) (omega (arith, length-swapped l xs (parent j) j over hj))
                    (omega (arith, length-swapped l xs (parent j) j over hj))
                    (swapped-AllKnown l xs (parent j) j over hj known))
                  λ ys s. Shuffled-swap n xs ys (parent j) j over hj (omega arith) (omega arith) s)
              (λ settled. returns (Shuffled-self n xs known)))

  IsChild : ℕ → ℕ → ℕ → Type 0
  IsChild n i j = (j < n) × ((j ≡ 2 * i + 1) ⊎ (j ≡ 2 * i + 2))

  first_child-IsChild :
      (n : ℕ) (xs : List A) (i : ℕ)
      → n ≤ length xs
      → AllKnown l xs
      → 2 * i + 1 < n
      → Returns (IsChild n i) (first_child h xs i n)
  unfolding first_child IsChild
  first_child-IsChild n xs i within known p =
      let left = 2 * i + 1 in
      Returns-branch (ltb (left + 1) n)
        (λ two.
          let hr : left + 1 < length xs = ground arith in
          let hl : left < length xs = omega arith in
          rw (l.less-done xs (left + 1) left hr hl (known (left + 1) hr) (known left hl))
            (elim (Bool-cases (l.before (at l xs (left + 1)) (at l xs left))) [
              | inl e ↦ rw e (returns (ground arith, inr (omega arith)))
              | inr e ↦ rw e (returns (p, inl refl))
            ]))
        (λ one. returns (p, inl refl))

  down_loop-Shuffled :
      (k n : ℕ) (xs : List A) (i : ℕ)
      → n - i < k
      → n ≤ length xs
      → AllKnown l xs
      → Returns (Shuffled n xs) (down_loop h k xs i n)
  unfolding down_loop IsChild
  down_loop-Shuffled zero n xs i f within known = absurd (omega arith)
  down_loop-Shuffled (suc k) n xs i f within known =
      Returns-branch (leb n (2 * i + 1)) (λ leaf. returns (Shuffled-self n xs known))
        λ inner.
          Returns-then (first_child-IsChild n xs i within known (ground arith)) λ j (inside, child).
            let hj : j < length xs = omega arith in
            let hi : i < length xs = omega arith in
            rw (l.less-done xs j i hj hi (known j hj) (known i hi), l.swap-done xs i j hi hj)
              (Returns-branch (l.before (at l xs j) (at l xs i))
                (λ above.
                  Returns-weaken
                    (down_loop-Shuffled k n (swapped l.default xs i j) j (omega arith)
                      (omega (arith, length-swapped l xs i j hi hj))
                      (swapped-AllKnown l xs i j hi hj known))
                    λ ys s. Shuffled-swap n xs ys i j hi hj (omega arith) inside s)
                (λ settled. returns (Shuffled-self n xs known)))

  -- heap.Push adds the element and loses none.
  pub heap_push-perm :
      (xs : List A) (x : A)
      → AllKnown l xs
      → Known x
      → Returns (λ ys. AllKnown l ys × Perm ys (x ∷ xs)) (heap_push h xs x)
  unfolding heap_push up
  heap_push-perm xs x known hx =
      let size : length (xs ++ x ∷ []) ≡ suc (length xs) =
        omega (arith, length-append xs (x ∷ [])) in
      let at_end : length (xs ++ x ∷ []) - 1 ≡ length xs = omega (arith, size) in
      rw (l.push-eq xs x, at_end)
        (Returns-weaken
          (up_loop-Shuffled (suc (length xs)) (suc (length xs)) (xs ++ x ∷ []) (length xs)
            (omega arith) (omega (arith, size)) size
            (λ i p. elim (Bool-cases (i == length xs)) [
              | inl e ↦
                  let last : i ≡ length xs = ground arith in
                  rw last (rw (get_or-append_end l.default xs x) hx)
              | inr e ↦
                  let front : i < length xs = ground (arith, size) in
                  rw (get_or-append l.default xs (x ∷ []) i front) (known i front)
            ]))
          λ ys s. (s.known, Perm.trans s.same (append_one-perm xs x)))

  -- heap.Pop takes the element at index 0 and leaves the others.
  pub heap_pop-root :
      (x : A) (xs : List A)
      → AllKnown l (x ∷ xs)
      → Returns (λ r. (r.0 ≡ x) × Perm r.1 xs) (heap_pop h (x ∷ xs))
  unfolding heap_pop down
  heap_pop-root x xs known =
      let n = length xs in
      let ys = swapped l.default (x ∷ xs) 0 n in
      let size = length-swapped l (x ∷ xs) 0 n (omega arith) (omega arith) in
      rw (l.swap-done (x ∷ xs) 0 n (omega arith) (omega arith)) (
        Returns-then
          (down_loop-Shuffled (suc n) n ys 0 (omega arith) (omega (arith, size))
            (swapped-AllKnown l (x ∷ xs) 0 n (omega arith) (omega arith) known))
          λ zs s.
            let size' : length zs ≡ suc n = length-perm s.same ∙ size in
            let last : at l zs n ≡ x =
              s.kept n (omega arith) (omega (arith, size))
              ∙ ground (arith, at-swapped l (x ∷ xs) 0 n (omega arith) (omega arith) n) in
            let whole : Perm (at l zs n ∷ take n zs) (x ∷ xs) =
              Perm.trans (Perm.symm (append_one-perm (take n zs) (at l zs n))) (
                rw (take-append_last l.default n zs size')
                  (Perm.trans s.same (swapped-perm l (x ∷ xs) 0 n (omega arith) (omega arith)))) in
            rw (l.pop-done n zs size') (returns (last, Perm.cons_inv (rw last at whole))))
