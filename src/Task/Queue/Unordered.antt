-- ===== src/Task/Queue/Unordered.antt =====
-- The queue of pkg/task/queue.go when its slice is not a heap: removeExisting does not restore the
-- order, and Push and Pop then go on with the slice as it is.
use canary_testing.Prelude.{
  ℕ, zero, suc, ◌≡◌, refl, sym, ap, subst, ◌∙◌, ◌⊎◌, ◌==◌, String, Bool, true, false, not, ◌&&◌,
  List, [], ◌∷◌, Perm, arith, length, false≢true, Bool-cases, inl, inr, if◌then◌else◌,
}
use canary_testing.Prelude.Run.{
  Res, ok, err, done, and_then, Res-cases, Returns, returns, Returns-then, Returns-weaken,
  Returns-branch, Returns-done,
}
use canary_testing.Prelude.Text.{is_empty}
use canary_testing.Heap.Laws.{AllKnown}
use canary_testing.Heap.Ops.{Heaped}
use canary_testing.Heap.Shuffle.{heap_push-perm, heap_pop-root}
use canary_testing.Task.{Task, HasState, Error}
use canary_testing.Task.Order.{task_queue_laws, runs_before}
use canary_testing.Task.Backend.{Backend}
use canary_testing.Task.Storage.{persist_scheduled, process_task}
use canary_testing.Task.Queue.{
  Queue, matches, push, pushed, pop, popped, remove_existing, push_unique_by_branch,
}
use canary_testing.Task.Queue.Push.{has_room}
use canary_testing.Task.Queue.Remove.{others, Removed, remove_existing-Removed}

abbrev pub AllStates : List Task → Type 0
AllStates ts = AllKnown task_queue_laws ts

AllStates-cons : (t : Task) (ts : List Task) → HasState t → AllStates ts → AllStates (t ∷ ts)
unfolding task_queue_laws
AllStates-cons t ts h k zero p = h
AllStates-cons t ts h k (suc i) p = k i (omega arith)

AllStates-tail : (t : Task) (ts : List Task) → AllStates (t ∷ ts) → AllStates ts
unfolding task_queue_laws
AllStates-tail t ts k i p = k (suc i) (omega arith)

AllStates-head : (t : Task) (ts : List Task) → AllStates (t ∷ ts) → HasState t
unfolding task_queue_laws
AllStates-head t ts k = k 0 (omega arith)

pub AllStates-others :
    (branch repo : String) (ts : List Task) → AllStates ts → AllStates (others branch repo ts)
unfolding others
AllStates-others branch repo [] k = k
AllStates-others branch repo (t ∷ ts) k =
    let rest = AllStates-others branch repo ts (AllStates-tail t ts k) in
    elim (Bool-cases (matches branch repo t)) [
      | inl hit ↦ rw hit rest
      | inr miss ↦ rw miss (AllStates-cons t (others branch repo ts) (AllStates-head t ts k) rest)
    ]

others-three :
    (branch repo : String) (x y z : Task) (rest : List Task)
    → matches branch repo x ≡ true
    → matches branch repo y ≡ false
    → matches branch repo z ≡ false
    → others branch repo (x ∷ y ∷ z ∷ rest) ≡ y ∷ z ∷ others branch repo rest
unfolding others
others-three branch repo x y z rest hx hy hz = rw (hx, hy, hz)

pair_unordered :
    (y z : Task) (rest : List Task)
    → runs_before z y ≡ true
    → ¬ Heaped task_queue_laws (y ∷ z ∷ rest)
unfolding task_queue_laws
pair_unordered y z rest before heaped =
    false≢true (sym (heaped.ordered 1 (omega arith) (omega arith)) ∙ before)

abbrev pub has_branch : Task → Bool
has_branch t = not (is_empty t.created_by.repo) && not (is_empty t.created_by.branch)

abbrev pub kept_with : Task → List Task → List Task
kept_with t ts = if has_branch t then others t.created_by.branch t.created_by.repo ts else ts

module _ {b : Backend} where
  -- Pop takes the task at index 0 off the slice, and returns it or the error of ProcessTask on it.
  pub record TookRoot (t : Task) (rest : List Task) (q : Queue b) (r : Res Error Task × Queue b)
      : Type 0 where
    pub result : r.0 ≡ and_then (process_task b t q.ts).0 (λ _. ok t)
    pub stored : r.1.ts ≡ (process_task b t q.ts).1
    pub left : Perm r.1.tq rest

  pub pop-TookRoot :
      (t : Task) (rest : List Task) (q : Queue b)
      → q.tq ≡ t ∷ rest
      → AllStates (t ∷ rest)
      → Returns (TookRoot t rest q) (pop b q)
  unfolding pop popped
  pop-TookRoot t rest q e k = rw e (
      Returns-branch (length (t ∷ rest) == 0) (λ x. absurd (ground arith))
        λ _.
          Returns-then (heap_pop-root task_queue_laws t rest k)
            λ r (root, left). returns (record { result = rw root; stored = rw root; left = left }))

  -- Push without an error adds the task, whether or not the slice is a heap.
  pub record Added (t : Task) (q : Queue b) (r : Res Error (Unit {0}) × Queue b) : Type 0 where
    pub added : r.0 ≡ ok tt → Perm r.1.tq (t ∷ q.tq)
    pub room : r.0 ≡ ok tt → has_room q ≡ true

  pushed-Added :
      (t : Task) (q : Queue b) (r : Res Error (Unit {0})) (d : b.Db)
      → AllStates q.tq
      → HasState t
      → has_room q ≡ true
      → Returns (Added t q) (pushed b r d t q)
  unfolding pushed
  pushed-Added t q (err e) d k h room = returns (record { added = λ x. cc; room = λ x. room })
  pushed-Added t q (ok tt) d k h room =
      Returns-then (heap_push-perm task_queue_laws q.tq t k h)
        λ tq (known, same). returns (record { added = λ x. same; room = λ x. room })

  pub push-Added :
      (t : Task) (q : Queue b) → AllStates q.tq → HasState t → Returns (Added t q) (push b t q)
  unfolding push
  push-Added t q k h = elim (Bool-cases (has_room q)) [
    | inl room ↦
        rw room
          (pushed-Added t q (persist_scheduled b t q.ts).0 (persist_scheduled b t q.ts).1 k h room)
    | inr full ↦ rw full (returns (record { added = λ x. cc; room = λ x. cc }))
  ]

  -- If all tasks have a state, PushUniqueByBranch returns, and without an error it leaves the new task, and of the old tasks those of other
  -- branches or repositories; all of the old ones, if the new task has no branch or no repository.
  pub push_unique-perm :
      (clock : ℕ → ℕ) (t : Task) (q : Queue b)
      → AllStates q.tq
      → HasState t
      → Returns
          (λ r. r.0 ≡ ok tt → Perm r.1.tq (t ∷ kept_with t q.tq))
          (push_unique_by_branch b clock t q)
  unfolding push_unique_by_branch
  push_unique-perm clock t q k h = elim (Bool-cases (has_branch t)) [
    | inl both ↦ rw both (
        Returns-then (remove_existing-Removed b clock t.created_by.branch t.created_by.repo q)
          λ r removed. after r removed (Res-cases r.0))
    | inr neither ↦ rw neither (Returns-weaken (push-Added t q k h) λ r a. a.added)
  ]
    where
      after :
          (r : Res Error (Unit {0}) × Queue b)
          → Removed b clock t.created_by.branch t.created_by.repo q r
          → ((x : Unit {0}) × (r.0 ≡ ok x)) ⊎ ((e : Error) × (r.0 ≡ err e))
          → Returns
              (λ r'.
                r'.0 ≡ ok tt → Perm r'.1.tq (t ∷ others t.created_by.branch t.created_by.repo q.tq))
              (elim r.0 [ ok a ↦ push b t r.1 | err e ↦ done (err e, r.1) ])
      after r removed (inl (x, e)) =
          let left = removed.left e in
          rw e (
            Returns-weaken
              (push-Added t r.1
                (rw left (AllStates-others t.created_by.branch t.created_by.repo q.tq k)) h)
              λ r' a f. rw left at (a.added f))
      after r removed (inr (x, e)) = rw e (returns (λ f. cc))

  -- Where the tasks of a queue have a state, the first is of the branch that is removed, and the next two are not, of
  -- which the second is to be run before the first, the slice is no heap after a removal without an
  -- error, and Pop takes the first of the two off it.
  pub removal_unorders :
      (clock : ℕ → ℕ) (branch repo : String) (q q' : Queue b) (x y z : Task) (rest : List Task)
      → q.tq ≡ x ∷ y ∷ z ∷ rest
      → AllStates q.tq
      → matches branch repo x ≡ true
      → matches branch repo y ≡ false
      → matches branch repo z ≡ false
      → runs_before z y ≡ true
      → remove_existing b clock branch repo q ≡ done (ok tt, q')
      → (¬ Heaped task_queue_laws q'.tq)
        × Returns (TookRoot y (z ∷ others branch repo rest) q') (pop b q')
  removal_unorders clock branch repo q q' x y z rest e k hx hy hz before run =
      let removed = Returns-done run (remove_existing-Removed b clock branch repo q) in
      let left : q'.tq ≡ y ∷ z ∷ others branch repo rest =
        removed.left refl
        ∙ ap (others branch repo) e
        ∙ others-three branch repo x y z rest hx hy hz in
      let known = AllStates-others branch repo q.tq k in
      (
        λ heaped.
            pair_unordered y z (others branch repo rest) before
              (subst (Heaped task_queue_laws) left heaped),
        pop-TookRoot y (z ∷ others branch repo rest) q' left
            (subst AllStates (sym (removed.left refl) ∙ left) known),
      )
