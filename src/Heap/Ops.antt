-- ===== src/Heap/Ops.antt =====
-- heap.Push and heap.Pop: a heap stays a heap of the same elements, and Pop removes its first one.
use mathlib.Core.List.Perm
use mathlib.Core.List.{perm_middle, append-nil}
use canary_testing.Prelude.{
  ℕ, suc, ◌-◌, ◌<◌, ◌≡◌, false, List, [], ◌∷◌, ◌++◌, Perm, arith, length, take, get_or-append,
  get_or-append_end, get_or-take, length-append, length-take, length-perm, take-append_last,
  Bool-cases, inl, inr, ◌==◌, ◌∙◌,
}
use canary_testing.Prelude.Run.{Returns, returns, Returns-then, Returns-weaken}
use canary_testing.Heap.{Interface, parent, heap_push, heap_pop}
use canary_testing.Heap.Laws.{
  Laws, swapped, at, AllKnown, IsHeap, length-swapped, at-swapped, swapped-AllKnown, swapped-perm,
  Sifted, root_first,
}
use canary_testing.Heap.Up.{UpInv, up_sifts}
use canary_testing.Heap.Down.{DownInv, down_sifts}

pub append_one-perm {ℓ} : {A : Type ℓ} (xs : List A) (x : A) → Perm (xs ++ x ∷ []) (x ∷ xs)
append_one-perm xs x = rw (append-nil xs) at (perm_middle {a = x} xs [])

module _ {A : Type 0} {h : Interface A} {Known : A → Type 0} (l : Laws h Known) where
  -- A heap of elements that `less` can compare.
  pub record Heaped (xs : List A) : Type 0 where
    pub ordered : IsHeap l xs
    pub known : AllKnown l xs

  module _ (xs : List A) (x : A) (v : Heaped xs) (hx : Known x) where
    size : length (xs ++ x ∷ []) ≡ suc (length xs)
    size = omega (arith, length-append xs (x ∷ []))

    grown-UpInv : UpInv l (xs ++ x ∷ []) (length xs)
    unfolding size
    grown-UpInv = record {
      inside = omega (arith, size);
      known = λ i p. elim (Bool-cases (i == length xs)) [
        | inl e ↦
            let last : i ≡ length xs = ground arith in
            rw last (rw (get_or-append_end l.default xs x) hx)
        | inr e ↦
            let front : i < length xs = ground (arith, size) in
            rw (get_or-append l.default xs (x ∷ []) i front) (v.known i front)
      ];
      edges = λ c p q r. ground (
        arith,
        size,
        v.ordered c,
        get_or-append l.default xs (x ∷ []) c,
        get_or-append l.default xs (x ∷ []) (parent c),
      );
      bridge = λ c p q r s. absurd (omega (arith, size));
    }

    -- heap.Push on a heap returns a heap of the old elements and the new one.
    pub heap_push_keeps : Returns (λ ys. Heaped ys × Perm ys (x ∷ xs)) (heap_push h xs x)
    unfolding heap_push
    heap_push_keeps =
        let at_end : length (xs ++ x ∷ []) - 1 ≡ length xs = omega (arith, size) in
        rw (l.push-eq xs x, at_end)
          (Returns-weaken (up_sifts l (xs ++ x ∷ []) (length xs) grown-UpInv) λ ys s. (
            record {
              ordered = λ c p q. s.ordered c p (omega (arith, length-perm s.same));
              known = s.known;
            },
            Perm.trans s.same (append_one-perm xs x),
          ))

  -- What heap.Pop returns: the root, which no other element comes before, and a heap of the rest.
  pub record Popped (xs : List A) (r : A × List A) : Type 0 where
    pub first : (i : ℕ) → i < length xs → l.before (at l xs i) r.0 ≡ false
    pub rest : Heaped r.1
    pub same : Perm (r.0 ∷ r.1) xs
    pub root : r.0 ≡ at l xs 0

  module _ (x : A) (xs : List A) (v : Heaped (x ∷ xs)) where
    moved : List A
    moved = swapped l.default (x ∷ xs) 0 (length xs)

    moved-DownInv : DownInv l (length xs) moved 0
    unfolding moved
    moved-DownInv =
        let n = length xs in
        let look = at-swapped l (x ∷ xs) 0 n (omega arith) (omega arith) in
        record {
          within = omega (arith, length-swapped l (x ∷ xs) 0 n (omega arith) (omega arith));
          known = swapped-AllKnown l (x ∷ xs) 0 n (omega arith) (omega arith) v.known;
          edges = λ c p q r. ground (arith, look c, look (parent c), v.ordered c);
          bridge = λ c p q r s. absurd (omega arith);
        }

    moved_end : at l moved (length xs) ≡ x
    unfolding moved
    moved_end =
        ground (arith, at-swapped l (x ∷ xs) 0 (length xs) (omega arith) (omega arith) (length xs))

    moved-length : length moved ≡ suc (length xs)
    unfolding moved
    moved-length = length-swapped l (x ∷ xs) 0 (length xs) (omega arith) (omega arith)

    moved-perm : Perm moved (x ∷ xs)
    unfolding moved
    moved-perm = swapped-perm l (x ∷ xs) 0 (length xs) (omega arith) (omega arith)

    cut-Popped :
        (ys : List A)
        → Sifted l (length xs) moved ys
        → Popped (x ∷ xs) (at l ys (length xs), take (length xs) ys)
    cut-Popped ys s =
        let n = length xs in
        let size : length ys ≡ suc n = length-perm s.same ∙ moved-length in
        let last : at l ys n ≡ x =
          s.kept n (omega arith) (omega (arith, moved-length)) ∙ moved_end in
        let cut : length (take n ys) ≡ n = length-take n ys (omega (arith, size)) in
        let seen = get_or-take l.default n ys in
        record {
          first = λ i p. rw last (root_first l (x ∷ xs) (suc n) i v.ordered p);
          rest = record {
            ordered = λ c p q. ground (arith, cut, seen c, seen (parent c), s.ordered c);
            known = λ i p. rw (seen i (omega (arith, cut))) (s.known i (omega (arith, cut, size)));
          };
          same =
              Perm.trans (Perm.symm (append_one-perm (take n ys) (at l ys n)))
                (rw (take-append_last l.default n ys size) (Perm.trans s.same moved-perm));
          root = last;
        }

    -- heap.Pop on a heap with an element returns one that no other comes before.
    pub heap_pop_first : Returns (Popped (x ∷ xs)) (heap_pop h (x ∷ xs))
    unfolding heap_pop moved
    heap_pop_first =
        let n = length xs in
        rw (l.swap-done (x ∷ xs) 0 n (omega arith) (omega arith)) (
          Returns-then (down_sifts l n moved 0 moved-DownInv) λ ys s.
            rw (l.pop-done n ys (length-perm s.same ∙ moved-length)) (returns (cut-Popped ys s)))
