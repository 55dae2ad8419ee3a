-- ===== src/Heap/Down.antt =====
-- heap.down: among the first `n` elements of a slice, of which only the edges below one element may
-- be out of order, the heap order is restored.
use mathlib.Core.List.Perm
use canary_testing.Prelude.{
  ℕ, zero, suc, ◌+◌, ◌-◌, ◌*◌, ◌≤◌, ◌<◌, ◌≡◌, ◌≢◌, ◌⊎◌, inl, inr, refl, true, false, List, arith,
  length, ltb, leb, Bool-cases, if◌then◌else◌,
}
use canary_testing.Prelude.Run.{Returns, returns, Returns-then, Returns-branch}
use canary_testing.Heap.{Interface, parent, down, down_loop, first_child}
use canary_testing.Heap.Laws.{
  Laws, swapped, at, AllKnown, length-swapped, at-swapped, swapped-AllKnown, Sifted,
  Sifted-after_swap, before_irrefl,
}

module _ {A : Type 0} {h : Interface A} {Known : A → Type 0} (l : Laws h Known) where
  pub record DownInv (n : ℕ) (xs : List A) (i : ℕ) : Type 0 where
    pub within : n ≤ length xs
    pub known : AllKnown l xs
    pub edges :
        (c : ℕ) → 0 < c → c < n → parent c ≢ i → l.before (at l xs c) (at l xs (parent c)) ≡ false
    pub bridge :
        (c : ℕ)
        → 0 < c
        → c < n
        → parent c ≡ i
        → 0 < i
        → l.before (at l xs c) (at l xs (parent i)) ≡ false

  -- `j` is a child of `i`, and no child of `i` comes before it.
  record IsFirstChild (n : ℕ) (xs : List A) (i j : ℕ) : Type 0 where
    inside : j < n
    child : (j ≡ 2 * i + 1) ⊎ (j ≡ 2 * i + 2)
    first : (c : ℕ) → 0 < c → c < n → parent c ≡ i → l.before (at l xs c) (at l xs j) ≡ false

  first_child-IsFirstChild :
      (n : ℕ) (xs : List A) (i : ℕ)
      → DownInv n xs i
      → 2 * i + 1 < n
      → Returns (IsFirstChild n xs i) (first_child h xs i n)
  unfolding first_child
  first_child-IsFirstChild n xs i v p =
      let left = 2 * i + 1 in
      let irrefl = λ (c : ℕ). before_irrefl l (at l xs c) in
      Returns-branch (ltb (left + 1) n)
        (λ two.
          let hr : left + 1 < length xs = ground (arith, v.within) in
          let hl : left < length xs = omega (arith, v.within) in
          rw (l.less-done xs (left + 1) left hr hl (v.known (left + 1) hr) (v.known left hl))
            (returns (choose two)))
        (λ one.
          returns (record {
            inside = p;
            child = inl refl;
            first = λ c q r s. ground (arith, irrefl left);
          }))
    where
      choose :
          ltb (2 * i + 1 + 1) n ≡ true
          → IsFirstChild n xs i (
              if l.before (at l xs (2 * i + 1 + 1)) (at l xs (2 * i + 1))
              then 2 * i + 1 + 1
              else 2 * i + 1)
      choose two = elim (Bool-cases (l.before (at l xs (2 * i + 1 + 1)) (at l xs (2 * i + 1)))) [
        | inl e ↦ rw e (record {
          inside = ground arith;
          child = inr (omega arith);
          first = λ c q r s. ground (
            arith,
            before_irrefl l (at l xs (2 * i + 1 + 1)),
            l.asym (at l xs (2 * i + 1 + 1)) (at l xs (2 * i + 1)) e,
          );
        })
        | inr e ↦ rw e (record {
          inside = p;
          child = inl refl;
          first = λ c q r s. ground (arith, before_irrefl l (at l xs (2 * i + 1)));
        })
      ]

  module _ (n : ℕ) (xs : List A) (i j : ℕ) (v : DownInv n xs i) (s : IsFirstChild n xs i j)
      (above : l.before (at l xs j) (at l xs i) ≡ true) where
    node : i < length xs
    node = omega (arith, v.within, s.inside, s.child)

    below : j < length xs
    below = omega (arith, v.within, s.inside)

    sunk : List A
    sunk = swapped l.default xs i j

    sunk-DownInv : DownInv n sunk j
    unfolding sunk node below
    sunk-DownInv =
        let look = at-swapped l xs i j node below in
        record {
          within = omega (arith, length-swapped l xs i j node below, v.within);
          known = swapped-AllKnown l xs i j node below v.known;
          edges = λ c p q r. ground (
            arith,
            s.child,
            s.inside,
            look c,
            look (parent c),
            v.edges c,
            v.bridge j,
            s.first c,
            l.asym (at l xs j) (at l xs i) above,
          );
          bridge = λ c p q r t. ground (arith, s.child, look c, look (parent j), v.edges c);
        }

  down_loop_sifts :
      (k n : ℕ) (xs : List A) (i : ℕ)
      → n - i < k
      → DownInv n xs i
      → Returns (Sifted l n xs) (down_loop h k xs i n)
  unfolding down_loop
  down_loop_sifts zero n xs i f v = absurd (omega arith)
  down_loop_sifts (suc k) n xs i f v =
      Returns-branch (leb n (2 * i + 1))
        (λ leaf. returns (record {
          ordered = λ c p q. v.edges c p q (ground arith);
          known = v.known;
          same = Perm.refl xs;
          kept = λ c p q. refl;
        }))
        (λ inner. Returns-then (first_child-IsFirstChild n xs i v (ground arith)) λ j s.
          let hj : j < length xs = omega (arith, v.within, s.inside) in
          let hi : i < length xs = omega (arith, v.within, s.inside, s.child) in
          rw (l.less-done xs j i hj hi (v.known j hj) (v.known i hi), l.swap-done xs i j hi hj)
            (Returns-branch (l.before (at l xs j) (at l xs i))
              (λ above.
                Sifted-after_swap l n xs i j hi hj (omega (arith, s.inside, s.child)) s.inside (
                  down_loop_sifts k n (swapped l.default xs i j) j
                    (omega (arith, s.inside, s.child))
                    (unfold sunk in sunk-DownInv n xs i j v s above)))
              (λ settled. returns (record {
                ordered = λ c p q.
                    ground
                      (arith, v.edges c, s.first c, l.trans (at l xs i) (at l xs j) (at l xs c));
                known = v.known;
                same = Perm.refl xs;
                kept = λ c p q. refl;
              }))))

  -- `down` restores a heap of the first `n` elements whose only edges out of order are those
  -- below `i`, and leaves the elements from `n` on where they are.
  pub down_sifts :
      (n : ℕ) (xs : List A) (i : ℕ) → DownInv n xs i → Returns (Sifted l n xs) (down h xs i n)
  unfolding down
  down_sifts n xs i v = down_loop_sifts (suc n) n xs i (omega arith) v
