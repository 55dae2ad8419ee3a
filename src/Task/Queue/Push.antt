-- ===== src/Task/Queue/Push.antt =====
-- Push of pkg/task/queue.go.
use canary_testing.Prelude.{
  ℕ, suc, ◌≡◌, refl, Bool, true, false, ◌∷◌, Perm, arith, length, length-perm, Bool-cases, inl, inr,
}
use canary_testing.Prelude.Run.{Res, ok, err, Returns, returns, Returns-then}
use canary_testing.Prelude.Int.{ℤ, pos, negsuc, ltb_ℤ}
use canary_testing.Heap.Ops.{Heaped, heap_push_keeps}
use canary_testing.Task.{Task, HasState, Error, queue_full}
use canary_testing.Task.Order.{task_queue_laws}
use canary_testing.Task.Backend.{Backend}
use canary_testing.Task.Storage.{persist_scheduled}
use canary_testing.Task.Queue.{Queue, push, pushed}

still_bounded : (m : ℤ) (n k : ℕ) → ltb_ℤ (pos n) m ≡ true → k ≡ suc n → ltb_ℤ m (pos k) ≡ false
still_bounded (pos m) n k h e = ground arith
still_bounded (negsuc m) n k h e = cc

module _ {b : Backend} where
  -- The slice is a heap of tasks that have a state, within the queue's size.
  pub record IsValid (q : Queue b) : Type 0 where
    pub heaped : Heaped task_queue_laws q.tq
    pub bounded : ltb_ℤ q.max (pos (length q.tq)) ≡ false

  abbrev pub has_room : Queue b → Bool
  has_room q = ltb_ℤ (pos (length q.tq)) q.max

  -- What Push returns and leaves, on every branch.
  pub record Pushed (t : Task) (q : Queue b) (r : Res Error (Unit {0}) × Queue b) : Type 0 where
    pub valid : IsValid r.1
    pub full : has_room q ≡ false → r ≡ (err queue_full, q)
    pub result : has_room q ≡ true → r.0 ≡ (persist_scheduled b t q.ts).0
    pub stored : has_room q ≡ true → r.1.ts ≡ (persist_scheduled b t q.ts).1
    pub added : r.0 ≡ ok tt → Perm r.1.tq (t ∷ q.tq)
    pub refused : (e : Error) → r.0 ≡ err e → r.1.tq ≡ q.tq
    pub same_max : r.1.max ≡ q.max

  pushed-Pushed :
      (t : Task) (q : Queue b) (r : Res Error (Unit {0}) × b.Db)
      → persist_scheduled b t q.ts ≡ r
      → IsValid q
      → HasState t
      → has_room q ≡ true
      → Returns (Pushed t q) (pushed b r.0 r.1 t q)
  unfolding pushed
  pushed-Pushed t q (err e, d) p v h room = returns (record {
    valid = record { heaped = v.heaped; bounded = v.bounded };
    full = λ x. cc;
    result = λ x. rw p;
    stored = λ x. rw p;
    added = λ x. cc;
    refused = λ x y. refl;
    same_max = refl;
  })
  pushed-Pushed t q (ok tt, d) p v h room =
      Returns-then (heap_push_keeps task_queue_laws q.tq t v.heaped h) λ tq (heaped, same).
        returns (record {
          valid = record {
            heaped = heaped;
            bounded = still_bounded q.max (length q.tq) (length tq) room (length-perm same);
          };
          full = λ x. cc;
          result = λ x. rw p;
          stored = λ x. rw p;
          added = λ x. same;
          refused = λ e x. cc;
          same_max = refl;
        })

  -- Push of a task that has a state on a valid queue returns. If there is no room it returns
  -- ErrQueueFull and changes nothing. If there is, its error and the database are those of PersistScheduled; without an error the
  -- task is added, and with one the tasks stay as they were. The queue stays valid.
  pub push-Pushed :
      (t : Task) (q : Queue b) → IsValid q → HasState t → Returns (Pushed t q) (push b t q)
  unfolding push
  push-Pushed t q v h = elim (Bool-cases (has_room q)) [
    | inl room ↦ rw room (pushed-Pushed t q (persist_scheduled b t q.ts) refl v h room)
    | inr none_left ↦ rw none_left (
        returns (record {
          valid = v;
          full = λ x. refl;
          result = λ x. cc;
          stored = λ x. cc;
          added = λ x. cc;
          refused = λ e x. refl;
          same_max = refl;
        }))
  ]
