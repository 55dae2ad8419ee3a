-- ===== src/Heap.antt =====
-- Go's container/heap (standard library), over any type that gives the methods of heap.Interface.
-- `Len` is the length of the slice. An index never passes the length of the slice, so `int` does
-- not overflow. A loop has one round of fuel for each element, which Heap/Up and Heap/Down show
-- to be enough.
pub mod Laws
pub mod Up
pub mod Down
pub mod Ops
pub mod Shuffle
use canary_testing.Prelude.{
  ℕ, zero, suc, ◌+◌, ◌-◌, ◌*◌, ◌/◌, Bool, List, [], ◌∷◌, length, ltb, leb, ◌==◌, if◌then◌else◌,
}
use canary_testing.Prelude.Run.{Run, done, panic, out_of_fuel, ◌>>=◌}

-- heap.Interface: the methods that the type of a queue supplies.
pub record Interface (A : Type 0) : Type 0 where
  pub less : List A → ℕ → ℕ → Run Bool
  pub swap : List A → ℕ → ℕ → Run (List A)
  pub push : List A → A → List A
  pub pop : List A → Run (A × List A)

-- The index of a node's parent. In Go (0 - 1) / 2 is 0, as it is here.
abbrev pub parent : ℕ → ℕ
parent j = (j - 1) / 2

module _ {A : Type 0} (h : Interface A) where
  up_loop : ℕ → List A → ℕ → Run (List A)
  up_loop zero xs j = out_of_fuel
  up_loop (suc k) xs j =
      let rise = h.swap xs (parent j) j >>= λ ys. up_loop k ys (parent j) in
      let test = h.less xs j (parent j) >>= λ above. if above then rise else done xs in
      if parent j == j then done xs else test

  pub up : List A → ℕ → Run (List A)
  up xs j = up_loop (suc j) xs j

  -- The child of `i` that comes first, among the first `n` elements.
  first_child : List A → ℕ → ℕ → Run ℕ
  first_child xs i n =
      let left = 2 * i + 1 in
      let right = left + 1 in
      if ltb right n
      then (h.less xs right left >>= λ above. done (if above then right else left))
      else done left

  down_loop : ℕ → List A → ℕ → ℕ → Run (List A)
  down_loop zero xs i n = out_of_fuel
  down_loop (suc k) xs i n =
      let step = first_child xs i n >>= λ j.
      let sink = h.swap xs i j >>= λ ys. down_loop k ys j n in
      h.less xs j i >>= λ above. if above then sink else done xs in
      if leb n (2 * i + 1) then done xs else step

  pub down : List A → ℕ → ℕ → Run (List A)
  down xs i n = down_loop (suc n) xs i n

  -- heap.Push
  unfoldable pub heap_push : List A → A → Run (List A)
  unfolding up up_loop
  heap_push xs x = let ys = h.push xs x in up ys (length ys - 1)

  -- heap.Pop; on an empty heap the swap reads index -1 and panics.
  unfoldable pub heap_pop : List A → Run (A × List A)
  unfolding down down_loop first_child
  heap_pop [] = panic
  heap_pop (x ∷ xs) =
      let n = length xs in h.swap (x ∷ xs) 0 n >>= λ ys. down ys 0 n >>= λ zs. h.pop zs
