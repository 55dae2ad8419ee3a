-- ===== src/Task/Queue/Pop.antt =====
-- Pop of pkg/task/queue.go: the task that is to be run next.
use canary_testing.Prelude.{
  ℕ, suc, ◌<◌, ◌≡◌, refl, false, List, [], ◌∷◌, Perm, arith, length, get_or, length-perm, ◌==◌,
}
use canary_testing.Prelude.Run.{
  Res, ok, err, done, Returns, returns, Returns-then, Returns-branch, and_then,
}
use canary_testing.Prelude.Int.{ℤ, pos, negsuc, ltb_ℤ}
use canary_testing.Heap.Ops.{heap_pop_first}
use canary_testing.Task.{Task, Error, queue_empty}
use canary_testing.Task.Order.{task_queue_laws, runs_before, blank}
use canary_testing.Task.Backend.{Backend}
use canary_testing.Task.Storage.{process_task}
use canary_testing.Task.Queue.{Queue, pop, popped}
use canary_testing.Task.Queue.Push.{IsValid}

shrunk : (m : ℤ) (n k : ℕ) → ltb_ℤ m (pos k) ≡ false → suc n ≡ k → ltb_ℤ m (pos n) ≡ false
shrunk (pos m) n k h e = ground arith
shrunk (negsuc m) n k h e = cc

module _ {b : Backend} where
  -- What Pop returns and leaves. `next` is the task that it takes off the heap.
  pub record Took (q : Queue b) (r : Res Error Task × Queue b) : Type 0 where
    pub next : Task
    pub first : (i : ℕ) → i < length q.tq → runs_before (get_or q.tq i blank) next ≡ false
    pub same : Perm (next ∷ r.1.tq) q.tq
    pub valid : IsValid r.1
    pub result : r.0 ≡ and_then (process_task b next q.ts).0 (λ _. ok next)
    pub stored : r.1.ts ≡ (process_task b next q.ts).1
    pub root : next ≡ get_or q.tq 0 blank

  pub pop-empty : (q : Queue b) → q.tq ≡ [] → pop b q ≡ done (err queue_empty, q)
  unfolding pop
  pop-empty q e = rw e

  pop_cons :
      (tq : List Task) (ts : b.Db) (max : ℤ)
      → IsValid {b = b} (record { tq = tq; ts = ts; max = max })
      → 0 < length tq
      → Returns
          (Took (record { tq = tq; ts = ts; max = max }))
          (pop b (record { tq = tq; ts = ts; max = max }))
  unfolding pop popped task_queue_laws
  pop_cons [] ts max v h = absurd (omega arith)
  pop_cons (x ∷ xs) ts max v h =
      Returns-branch (length (x ∷ xs) == 0) (λ e. absurd (ground arith))
        (λ _. Returns-then (heap_pop_first task_queue_laws x xs v.heaped) λ (t, rest) p.
          let size = length-perm p.same in
          returns (record {
            next = t;
            first = p.first;
            same = p.same;
            valid = record {
              heaped = p.rest;
              bounded = shrunk max (length rest) (length (x ∷ xs)) v.bounded size;
            };
            result = refl;
            stored = refl;
            root = p.root;
          }))

  -- Pop on a valid queue with a task takes one off the heap before which no task of the queue is to
  -- be run, and leaves a valid queue of the others; it returns that task, or the error of ProcessTask
  -- on it, in which case the task is off the heap all the same.
  pub pop-Took : (q : Queue b) → IsValid q → 0 < length q.tq → Returns (Took q) (pop b q)
  pop-Took q v h = pop_cons q.tq q.ts q.max v h
