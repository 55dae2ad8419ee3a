-- ===== src/Heap/Up.antt =====
-- heap.up: a slice in which only the edge above one element may be out of order becomes a heap.
use mathlib.Core.List.Perm
use canary_testing.Prelude.{
  ℕ, zero, suc, ◌<◌, ◌≡◌, ◌≢◌, refl, true, false, List, arith, length, ◌==◌,
}
use canary_testing.Prelude.Run.{Returns, returns, Returns-branch}
use canary_testing.Heap.{Interface, parent, up, up_loop}
use canary_testing.Heap.Laws.{
  Laws, swapped, at, AllKnown, length-swapped, at-swapped, swapped-AllKnown, Sifted,
  Sifted-after_swap,
}

module _ {A : Type 0} {h : Interface A} {Known : A → Type 0} (l : Laws h Known) where
  pub record UpInv (xs : List A) (j : ℕ) : Type 0 where
    pub inside : j < length xs
    pub known : AllKnown l xs
    pub edges :
        (c : ℕ) → 0 < c → c < length xs → c ≢ j → l.before (at l xs c) (at l xs (parent c)) ≡ false
    pub bridge :
        (c : ℕ)
        → 0 < c
        → c < length xs
        → parent c ≡ j
        → 0 < j
        → l.before (at l xs c) (at l xs (parent j)) ≡ false

  module _ (xs : List A) (j : ℕ) (v : UpInv xs j) (pos : 0 < j)
      (above : l.before (at l xs j) (at l xs (parent j)) ≡ true) where
    over : parent j < length xs
    over = omega (arith, v.inside)

    risen : List A
    risen = swapped l.default xs (parent j) j

    risen-UpInv : UpInv risen (parent j)
    unfolding risen over
    risen-UpInv =
        let look = at-swapped l xs (parent j) j over v.inside in
        let size = length-swapped l xs (parent j) j over v.inside in
        record {
          inside = omega (arith, size, v.inside);
          known = swapped-AllKnown l xs (parent j) j over v.inside v.known;
          edges = λ c p q r. ground (
            arith,
            size,
            look c,
            look (parent c),
            v.edges c,
            v.bridge c,
            l.asym (at l xs j) (at l xs (parent j)) above,
            l.trans (at l xs j) (at l xs (parent j)) (at l xs c),
          );
          bridge = λ c p q r s. ground (
            arith,
            size,
            look c,
            look (parent (parent j)),
            v.edges c,
            v.edges (parent j),
            v.edges j,
            l.trans (at l xs (parent (parent j))) (at l xs (parent j)) (at l xs c),
          );
        }

  up_loop_sifts :
      (k n : ℕ) (xs : List A) (j : ℕ)
      → j < k
      → length xs ≡ n
      → UpInv xs j
      → Returns (Sifted l n xs) (up_loop h k xs j)
  unfolding up_loop
  up_loop_sifts zero n xs j f e v = absurd (omega arith)
  up_loop_sifts (suc k) n xs j f e v =
      Returns-branch (parent j == j)
        (λ root. returns (record {
          ordered = λ c p q. v.edges c p (omega arith) (ground arith);
          known = v.known;
          same = Perm.refl xs;
          kept = λ c p q. absurd (omega arith);
        }))
        (λ inner.
          let pos : 0 < j = ground arith in
          let over' : parent j < length xs = omega (arith, v.inside) in
          rw
            (
              l.less-done xs j (parent j) v.inside over' (v.known j v.inside)
                  (v.known (parent j) over'),
              l.swap-done xs (parent j) j over' v.inside,
            )
            (Returns-branch (l.before (at l xs j) (at l xs (parent j)))
              (λ above.
                Sifted-after_swap l n xs (parent j) j over' v.inside (omega arith)
                  (omega (arith, v.inside))
                  (up_loop_sifts k n (swapped l.default xs (parent j) j) (parent j) (omega arith)
                    (omega (arith, length-swapped l xs (parent j) j over' v.inside))
                    (unfold risen in risen-UpInv xs j v pos above)))
              (λ settled. returns (record {
                ordered = λ c p q. ground (arith, v.edges c p);
                known = v.known;
                same = Perm.refl xs;
                kept = λ c p q. absurd (omega arith);
              }))))

  -- `up` restores a heap whose only edge out of order is the one above `j`.
  pub up_sifts : (xs : List A) (j : ℕ) → UpInv xs j → Returns (Sifted l (length xs) xs) (up h xs j)
  unfolding up
  up_sifts xs j v = up_loop_sifts (suc j) (length xs) xs j (omega arith) refl v
