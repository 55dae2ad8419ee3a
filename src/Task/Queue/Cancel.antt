-- ===== src/Task/Queue/Cancel.antt =====
-- cancelTask of pkg/task/queue.go on a scheduled task, and Pop on a task that a restarted daemon
-- loaded from the processing phase, both on a database that does not fail.
use canary_testing.Prelude.{
  ℕ, String, ◌≡◌, refl, ◌∙◌, Option, none, some, List, [], ◌∷◌, ◌++◌, Perm,
}
use canary_testing.Prelude.Run.{ok, err, done, Returns, Returns-weaken}
use canary_testing.Task.{Task, State, DatedState, leveldb_not_found, current_state, last_state}
use canary_testing.Task.Backend.{Backend, Documented, NeverFails}
use canary_testing.Task.Storage.{
  change_prefix, get_task, process_task, archive_task, persist_processing, prefix_processing,
  prefix_scheduled,
}
use canary_testing.Task.Storage.Keys.{key_text}
use canary_testing.Task.Storage.Moves.{change_prefix-Atomic}
use canary_testing.Task.Storage.Lifecycle.{task_key-ok}
use canary_testing.Task.Storage.Phases.{
  Phase, process_task-Phase, persist_processing-Phase, archive_task-Phase,
}
use canary_testing.Task.Storage.Reads.{get_task-latest}
use canary_testing.Task.Queue.{Queue, Canceled, cancel_task, cancel_persist, cancel_archive, pop}
use canary_testing.Task.Queue.Unordered.{AllStates, pop-TookRoot}

abbrev pub canceled_at : ℕ → DatedState
canceled_at now = record { created = now; state = State.canceled }

abbrev pub canceled_task : ℕ → Task → Task
canceled_task now t = record t { states = t.states ++ canceled_at now ∷ [] }

pub last_state-append : (ss : List DatedState) (s : DatedState) → last_state (ss ++ s ∷ []) ≡ done s
unfolding last_state
last_state-append [] s = refl
last_state-append (x ∷ []) s = refl
last_state-append (x ∷ y ∷ ss) s = last_state-append (y ∷ ss) s

module _ {b : Backend} {s : Documented b} (n : NeverFails s) where
  -- A canceled task: its last state is "canceled", and the store holds it in the archive alone.
  pub record IsCanceled (now : ℕ) (t : Task) (u : b.Xid) (c : Canceled b) : Type 0 where
    pub no_error : c.error ≡ ok tt
    pub task : c.task ≡ canceled_task now t
    pub state : current_state c.task ≡ done (canceled_at now)
    pub value : b.Bytes
    pub phase : Phase s c.db u none none (some value)
    pub stored : get_task b c.db t.id ≡ ok c.task

  -- cancelTask, on a database that does not fail and holds the task as scheduled and not as processing,
  -- archives the task with the state "canceled" behind its other states, and Get returns it so.
  pub cancel_task-IsCanceled :
      (now : ℕ) (t : Task) (u : b.Xid) (d : b.Db) (v : b.Bytes) (c : Option b.Bytes)
      → b.from_string t.id ≡ ok u
      → Phase s d u (some v) none c
      → IsCanceled now t u (cancel_task b now t d)
  unfolding cancel_task cancel_persist cancel_archive current_state
  cancel_task-IsCanceled now t u d v c e h =
      let t' = canceled_task now t in
      let (r₁, h₁) = process_task-Phase n t u e d v none none c h in
      let d₁ = (process_task b t d).1 in
      let (r₂, (v', m, h₂)) = persist_processing-Phase n t' u e d₁ none (some v) c h₁ in
      let d₂ = (persist_processing b t' d₁).1 in
      let (r₃, h₃) = archive_task-Phase n t' u e d₂ v' none none c h₂ in
      let d₃ = (archive_task b t' d₂).1 in
      rw (r₁, cancel_persist, r₂, cancel_archive)
        (record {
          no_error = r₃;
          task = refl;
          state = last_state-append t.states (canceled_at now);
          value = v';
          phase = h₃;
          stored = get_task-latest n t.id u e d₃ none none (some v') v' t' h₃ refl m;
        })

  process_task-missing :
      (t : Task) (u : b.Xid) (d : b.Db)
      → b.from_string t.id ≡ ok u
      → s.contents d (key_text s prefix_scheduled u) ≡ none
      → (process_task b t d).0 ≡ err leveldb_not_found
  unfolding process_task change_prefix
  process_task-missing t u d e c =
      let (tx, o) = n.open_works d in
      let old = key_text s prefix_scheduled u in
      rw (
        task_key-ok n prefix_scheduled t.id u e,
        task_key-ok n prefix_processing t.id u e,
        o,
        n.tx_get_absent tx old ((s.open_ok d tx o old).0 ∙ c),
      )

  process_task-undone :
      (t : Task) (u : b.Xid) (d : b.Db)
      → b.from_string t.id ≡ ok u
      → (process_task b t d).0 ≡ err leveldb_not_found
      → (j : String) → s.contents (process_task b t d).1 j ≡ s.contents d j
  unfolding process_task
  process_task-undone t u d e h =
      (change_prefix-Atomic s d (key_text s prefix_scheduled u) (key_text s prefix_processing u)
          prefix_processing prefix_scheduled t.id (task_key-ok n prefix_scheduled t.id u e)
          (task_key-ok n prefix_processing t.id u e)).undone
        leveldb_not_found h

  -- Where the database does not fail and the first task of a queue is not stored as scheduled, as one that NewQueue loaded from the
  -- processing phase, Pop returns the database's "not found", takes the task off the queue, and leaves
  -- the contents of the database as they were.
  pub pop-restarted :
      (t : Task) (rest : List Task) (q : Queue b) (u : b.Xid) (p c : Option b.Bytes)
      → q.tq ≡ t ∷ rest
      → AllStates (t ∷ rest)
      → b.from_string t.id ≡ ok u
      → Phase s q.ts u none p c
      → Returns
          (λ r.
            (r.0 ≡ err leveldb_not_found)
            × Perm r.1.tq rest
            × ((j : String) → s.contents r.1.ts j ≡ s.contents q.ts j))
          (pop b q)
  pop-restarted t rest q u p c e k x h =
      let missing = process_task-missing t u q.ts x h.in_queue in
      Returns-weaken (pop-TookRoot t rest q e k) λ r took. (
        rw (took.result, missing),
        took.left,
        λ j. rw took.stored (process_task-undone t u q.ts x missing j),
      )
