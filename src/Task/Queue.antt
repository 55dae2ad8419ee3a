-- ===== src/Task/Queue.antt =====
-- pkg/task/queue.go: the daemon's priority queue, a heap in memory beside the store. The mutex is left
-- out: each method runs as a whole. The clock of `time.Now()` is an argument, read at the index of
-- the task that is canceled. A task in the slice is a pointer in Go; each task is in the slice once,
-- so a task changed in place is the element written back.
pub mod Push
pub mod Pop
pub mod Remove
pub mod Unordered
pub mod Load
pub mod Cancel
use canary_testing.Prelude.{
  ℕ, zero, suc, ◌+◌, String, Bool, not, ◌&&◌, List, [], ◌∷◌, ◌++◌, length, get_elem?, ◌==◌, str_eq,
  if◌then◌else◌,
}
use canary_testing.Prelude.Run.{Run, Res, ok, err, done, panic, ◌>>=◌, expect, and_then}
use canary_testing.Prelude.Int.{ℤ, pos, ltb_ℤ}
use canary_testing.Prelude.Text.{is_empty}
use canary_testing.Heap.{heap_push, heap_pop}
use canary_testing.Task.{Task, State, DatedState, Error, queue_empty, queue_full}
use canary_testing.Task.Order.{task_queue}
use canary_testing.Task.Backend.{Backend}
use canary_testing.Task.Storage.{
  persist_scheduled, persist_processing, process_task, archive_task, prefix_scheduled,
  prefix_processing,
}

-- The test of removeExisting, and its second loop.
unfoldable pub matches : String → String → Task → Bool
matches branch repo t = str_eq t.created_by.repo repo && str_eq t.created_by.branch branch

unfoldable pub keep_tasks : List Task → List ℕ → Run (List Task)
keep_tasks slice [] = done []
keep_tasks slice (i ∷ is) =
    expect (get_elem? slice i) >>= λ t. keep_tasks slice is >>= λ ts. done (t ∷ ts)

module _ (b : Backend) where
  open b use {Db, Bytes}

  -- A queue, and the database of its store.
  pub record Queue : Type 0 where
    pub tq : List Task
    pub ts : Db
    pub max : ℤ

  -- What a method returns, and the queue that it leaves.
  abbrev pub Returned : Type 0 → Type 0
  Returned A = Run (Res Error A × Queue)

  pushed : Res Error (Unit {0}) → Db → Task → Queue → Returned (Unit {0})
  pushed (err e) d t q = done (err e, record q { ts = d })
  pushed (ok x) d t q =
      heap_push task_queue q.tq t >>= λ tq. done (ok tt, record q { tq = tq; ts = d })

  -- pushUnsafe, and Push, which takes the lock around it
  unfoldable pub push : Task → Queue → Returned (Unit {0})
  unfolding pushed
  push t q =
      if not (ltb_ℤ (pos (length q.tq)) q.max)
      then done (err queue_full, q)
      else (let (r, d) = persist_scheduled b t q.ts in pushed r d t q)

  popped : Queue → Task × List Task → Returned Task
  popped q (t, rest) =
      let (r, d) = process_task b t q.ts in
      done (and_then r (λ _. ok t), record q { tq = rest; ts = d })

  -- Pop
  unfoldable pub pop : Queue → Returned Task
  unfolding popped
  pop q =
      if length q.tq == 0
      then done (err queue_empty, q)
      else heap_pop task_queue q.tq >>= λ r. popped q r

  -- The error of cancelTask, the task as it leaves it, and the database.
  pub record Canceled : Type 0 where
    pub error : Res Error (Unit {0})
    pub task : Task
    pub db : Db

  cancel_archive : Res Error (Unit {0}) → Db → Task → Canceled
  cancel_archive (err e) d t = record { error = err e; task = t; db = d }
  cancel_archive (ok x) d t =
      let (r, d') = archive_task b t d in record { error = r; task = t; db = d' }

  cancel_persist : Res Error (Unit {0}) → Db → ℕ → Task → Canceled
  unfolding cancel_archive
  cancel_persist (err e) d now t = record { error = err e; task = t; db = d }
  cancel_persist (ok x) d now t =
      let t' = record t {
        states = t.states ++ (record { created = now; state = State.canceled }) ∷ [];
      } in
      let (r, d') = persist_processing b t' d in cancel_archive r d' t'

  -- cancelTask
  unfoldable pub cancel_task : ℕ → Task → Db → Canceled
  unfolding cancel_persist
  cancel_task now t d = let (r, d') = process_task b t d in cancel_persist r d' now t

  -- The loop of removeExisting: its error, the slice as it leaves it, the indexes to keep, and the
  -- database.
  pub record Scan : Type 0 where
    pub error : Res Error (Unit {0})
    pub slice : List Task
    pub keep_indexes : List ℕ
    pub db : Db

  -- On an error the loop returns, and the tasks after `t` are as they were.
  scan_canceled : Canceled → List Task → (Db → Scan) → Scan
  scan_canceled c rest next = elim c.error [
    | err e ↦ record { error = err e; slice = c.task ∷ rest; keep_indexes = []; db = c.db }
    | ok x ↦ let l = next c.db in record l { slice = c.task ∷ l.slice }
  ]

  scan_kept : ℕ → Task → Scan → Scan
  scan_kept i t l = record l { slice = t ∷ l.slice; keep_indexes = i ∷ l.keep_indexes }

  unfoldable pub scan : (ℕ → ℕ) → String → String → ℕ → List Task → Db → Scan
  unfolding scan_canceled scan_kept
  scan clock branch repo i [] d = record { error = ok tt; slice = []; keep_indexes = []; db = d }
  scan clock branch repo i (t ∷ rest) d =
      if matches branch repo t
      then scan_canceled (cancel_task (clock i) t d) rest (scan clock branch repo (suc i) rest)
      else scan_kept i t (scan clock branch repo (suc i) rest d)

  removed : Scan → Queue → Returned (Unit {0})
  removed l q = elim l.error [
    | err e ↦ done (err e, record q { tq = l.slice; ts = l.db })
    | ok x ↦
        keep_tasks l.slice l.keep_indexes >>= λ tq. done (ok tt, record q { tq = tq; ts = l.db })
  ]

  -- removeExisting
  unfoldable pub remove_existing : (ℕ → ℕ) → String → String → Queue → Returned (Unit {0})
  unfolding removed
  remove_existing clock branch repo q = removed (scan clock branch repo 0 q.tq q.ts) q

  -- `if err != nil { return err }` after a method of the queue.
  abbrev pub continue : {A B : Type 0} → Returned A → (A → Queue → Returned B) → Returned B
  continue m f = m >>= λ (r, q). elim r [ ok a ↦ f a q | err e ↦ done (err e, q) ]

  -- PushUniqueByBranch
  unfoldable pub push_unique_by_branch : (ℕ → ℕ) → Task → Queue → Returned (Unit {0})
  push_unique_by_branch clock t q =
      if not (is_empty t.created_by.repo) && not (is_empty t.created_by.branch)
      then continue (remove_existing clock t.created_by.branch t.created_by.repo q)
          (λ _ q'. push t q')
      else push t q

  load_values : (Bytes → Res Error Task) → List Bytes → List Task → Run (Res Error (List Task))
  load_values converter [] tq = done (ok tq)
  load_values converter (v ∷ vs) tq = elim (converter v) [
    | err e ↦ done (err e)
    | ok t ↦ heap_push task_queue tq t >>= λ tq'. load_values converter vs tq'
  ]

  load_prefixes :
      (Bytes → Res Error Task) → Db → List String → List Task → Run (Res Error (List Task))
  unfolding load_values
  load_prefixes converter d [] tq = done (ok tq)
  load_prefixes converter d (prefix ∷ ps) tq = load_values converter (b.values d prefix) tq >>= λ r.
      elim r [ err e ↦ done (err e) | ok tq' ↦ load_prefixes converter d ps tq' ]

  -- NewQueue
  unfoldable pub new_queue : Db → ℤ → (Bytes → Res Error Task) → Run (Res Error Queue)
  unfolding load_prefixes
  new_queue d max converter =
      load_prefixes converter d (prefix_scheduled ∷ prefix_processing ∷ []) [] >>= λ r.
      done (and_then r (λ tq. ok (record { tq = tq; ts = d; max = max })))
