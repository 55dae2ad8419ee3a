-- ===== src/Tests/Tasks.antt =====
-- The task queue and its store on small inputs.
use canary_testing.Prelude.{true}
use canary_testing.Engine.{Environment, work}
use canary_testing.Engine.Worked.{IsKnown, WorkedOr, work-Worked}
use canary_testing.Prelude.{
  ℕ, zero, suc, String, ◌≡◌, ◌+◌, refl, ap, subst, false, none, some, List, [], ◌∷◌, ◌++◌, arith,
  Perm,
}
use canary_testing.Prelude.Run.{Run, Res, ok, err, done, Returns, ◌>>=◌}
use canary_testing.Prelude.Text.{format_int}
use canary_testing.Prelude.Int.{pos}
use Prim.Native.String.{count}
use native.Mathlib.Nat.{ℕ_set}
use mathlib.Core.HLevel.{Σ_prop_path}
use native.Mathlib.Decide.{ℕ_discrete}
use canary_testing.Heap.{heap_push, heap_pop}
use canary_testing.Heap.Ops.{Heaped}
use canary_testing.Task.{Task, State, Kind, DatedState, HasState, Error, leveldb_not_found}
use canary_testing.Task.Order.{
  task_queue_laws, runs_before, less, swap, push as push_task, pop as pop_task,
}
use canary_testing.Task.Storage
use canary_testing.Task.Storage.{task_key, prefix_scheduled, prefix_processing, prefix_complete}
use canary_testing.Task.Storage.Keys.{task_key-injective, key_text}
use canary_testing.Task.Storage.Moves.{Atomic, change_prefix-Atomic}
use canary_testing.Task.Storage.Phases.{Phase}
use canary_testing.Task.Storage.Reads.{get_task-latest, delete-latest, Lived, lifecycle}
use canary_testing.Task.Queue
use canary_testing.Task.Queue.{Queue, matches}
use canary_testing.Task.Queue.Push.{IsValid, Pushed, push-Pushed}
use canary_testing.Task.Queue.Pop.{Took, pop-Took}
use canary_testing.Task.Queue.Load.{Loaded, new_queue-Loaded}
use canary_testing.Task.Queue.Remove.{others, Removed, remove_existing-Removed}
use canary_testing.Task.Queue.Unordered.{
  AllStates, TookRoot, kept_with, push_unique-perm, removal_unorders,
}
use canary_testing.Task.Queue.Cancel.{IsCanceled, cancel_task-IsCanceled, pop-restarted}
use canary_testing.Tests.Memory.{
  memory, documented, never_fails, Entries, TaskId, ok_injective, find, remove, read, parse_id,
}

abbrev dated : ℕ → State → DatedState
dated n s = record { created = n; state = s }

-- A run task of a branch, with a priority and a time.
abbrev make : String → ℕ → ℕ → String → Task
make id priority time branch = record {
  version = pos 0;
  priority = pos priority;
  id = id;
  runner = "local:docker";
  plan = "network";
  case = "ping-pong";
  states = dated time State.scheduled ∷ [];
  type = Kind.run;
  composition = "{}";
  input = "{}";
  result = "null";
  error = "";
  created_by = record { user = ""; repo = "ipfs/kubo"; branch = branch; commit = "" };
}

abbrev low : Task
low = make "bt4brhjpc98qra498sg0" 1 5 "main"

abbrev mid : Task
mid = make "bt4brhjpc98qra498sg1" 2 6 "dev"

abbrev high : Task
high = make "bt4brhjpc98qra498sg2" 3 7 "main"

abbrev low_id : TaskId
low_id = ("bt4brhjpc98qra498sg0", refl)

abbrev no_entries : Entries
no_entries = []

abbrev queue_of : List Task → Entries → Queue memory
queue_of tq ts = record { tq = tq; ts = ts; max = pos 4 }

-- The entries of tasks that were pushed.
abbrev scheduled_low : Entries
scheduled_low = (Storage.persist_scheduled memory low no_entries).1

abbrev pushes : Run (Res Error (Unit {0}) × Queue memory)
pushes = Queue.push memory low (queue_of [] []) >>= λ (r, q). Queue.push memory high q

run_order : (pushes >>= λ (r, q). Queue.pop memory q >>= λ (t, q'). done t) ≡ done (ok high)
unfolding Queue.push Queue.pop heap_push heap_pop less swap push_task pop_task
    Storage.persist_scheduled Storage.put task_key Storage.process_task Storage.change_prefix find
    remove read parse_id ℕ_discrete format_int
run_order = refl

pair_states : AllStates (high ∷ low ∷ [])
unfolding task_queue_laws
pair_states zero p = tt
pair_states (suc zero) p = tt
pair_states (suc (suc i)) p = absurd (omega arith)

pair_ordered : runs_before low high ≡ false
unfolding runs_before
pair_ordered = refl

pair-Heaped : Heaped task_queue_laws (high ∷ low ∷ [])
unfolding task_queue_laws
pair-Heaped = record {
  ordered = λ c p q. let one : c ≡ 1 = omega arith in rw one pair_ordered;
  known = pair_states;
}

pair-IsValid : IsValid (queue_of (high ∷ low ∷ []) no_entries)
pair-IsValid = record { heaped = pair-Heaped; bounded = refl }

pop-Took_example :
    Returns
      (Took (queue_of (high ∷ low ∷ []) no_entries))
      (Queue.pop memory (queue_of (high ∷ low ∷ []) no_entries))
pop-Took_example = pop-Took (queue_of (high ∷ low ∷ []) no_entries) pair-IsValid (omega arith)

push-Pushed_example :
    Returns
      (Pushed mid (queue_of (high ∷ low ∷ []) no_entries))
      (Queue.push memory mid (queue_of (high ∷ low ∷ []) no_entries))
push-Pushed_example = push-Pushed mid (queue_of (high ∷ low ∷ []) no_entries) pair-IsValid tt

low_key : (p : String) → task_key memory p low.id ≡ ok (key_text documented p low_id)
unfolding task_key parse_id ℕ_discrete
low_key p = refl

change_prefix-Atomic_example :
    Atomic documented scheduled_low
      (key_text documented prefix_scheduled low_id)
      (key_text documented prefix_processing low_id)
      (Storage.change_prefix memory prefix_processing prefix_scheduled low.id scheduled_low)
change_prefix-Atomic_example =
    change_prefix-Atomic documented scheduled_low (key_text documented prefix_scheduled low_id)
      (key_text documented prefix_processing low_id) prefix_processing prefix_scheduled low.id
      (low_key prefix_scheduled) (low_key prefix_processing)

low_read : parse_id low.id ≡ ok low_id
unfolding parse_id ℕ_discrete
low_read = ap ok (Σ_prop_path (λ t. ℕ_set (count t) 20) refl)

-- The store when one task is scheduled.
abbrev low_queued : Entries
low_queued = (key_text documented prefix_scheduled low_id, low) ∷ []

abbrev low_current : Entries
low_current = (key_text documented prefix_processing low_id, low) ∷ []

Phase-none : Phase documented no_entries low_id none none none
unfolding find
Phase-none = record { in_queue = refl; in_current = refl; in_archive = refl }

Phase-queued : Phase documented low_queued low_id (some low) none none
unfolding find format_int
Phase-queued = record { in_queue = refl; in_current = refl; in_archive = refl }

Phase-current : Phase documented low_current low_id none (some low) none
unfolding find format_int
Phase-current = record { in_queue = refl; in_current = refl; in_archive = refl }

abbrev low_done : Task
low_done = record low { states = low.states ++ dated 9 State.complete ∷ []; result = "{\"ok\":1}" }

lifecycle_example : Lived never_fails low low_done low_id no_entries
lifecycle_example = lifecycle never_fails low low_done low_id no_entries low_read refl Phase-none

get_task-latest_example : Storage.get_task memory low_current low.id ≡ ok low
get_task-latest_example =
    get_task-latest never_fails low.id low_id low_read low_current none (some low) none low low
      Phase-current refl refl

delete-latest_example :
    ((Storage.delete memory low.id low_current).0 ≡ ok tt)
    × Phase documented (Storage.delete memory low.id low_current).1 low_id none none none
delete-latest_example =
    delete-latest never_fails low.id low_id low_read low_current none (some low) none low low
      Phase-current refl refl refl

task_key-injective_example : parse_id low.id ≡ parse_id low.id
task_key-injective_example =
    task_key-injective documented prefix_scheduled low.id low.id
      (key_text documented prefix_scheduled low_id) (low_key prefix_scheduled)
      (low_key prefix_scheduled)

cancel_task-IsCanceled_example :
    IsCanceled never_fails 11 low low_id (Queue.cancel_task memory 11 low low_queued)
cancel_task-IsCanceled_example =
    cancel_task-IsCanceled never_fails 11 low low_id low_queued low none low_read Phase-queued

single_states : AllStates (low ∷ [])
unfolding task_queue_laws
single_states zero p = tt
single_states (suc i) p = absurd (omega arith)

pop-restarted_example :
    Returns
      (λ r.
        (r.0 ≡ err leveldb_not_found)
        × Perm r.1.tq []
        × ((j : String) → find j r.1.ts ≡ find j low_current))
      (Queue.pop memory (queue_of (low ∷ []) low_current))
pop-restarted_example =
    pop-restarted never_fails low [] (queue_of (low ∷ []) low_current) low_id (some low) none refl
      single_states low_read Phase-current

-- A converter that refuses a task with no state.
abbrev with_first : Task → List DatedState → Res Error Task
with_first t [] = err Error.json_failed
with_first t (s ∷ ss) = ok (record t { states = s ∷ ss })

abbrev converter : Task → Res Error Task
converter t = with_first t t.states

converter-HasState : (v t : Task) → converter v ≡ ok t → HasState t
converter-HasState v t h = go v.states h
  where
    go : (ss : List DatedState) → with_first v ss ≡ ok t → HasState t
    go [] h = cc
    go (s ∷ ss) h = subst HasState (ok_injective h) tt

new_queue-Loaded_example :
    Returns
      (Loaded memory converter converter-HasState low_current (pos 4))
      (Queue.new_queue memory low_current (pos 4) converter)
new_queue-Loaded_example = new_queue-Loaded memory converter converter-HasState low_current (pos 4)

remove_existing-Removed_example :
    Returns
      (Removed memory (λ i. 20 + i) "main" "ipfs/kubo" (queue_of (high ∷ low ∷ []) no_entries))
      (Queue.remove_existing memory
        (λ i. 20 + i)
        "main"
        "ipfs/kubo"
        (queue_of (high ∷ low ∷ []) no_entries))
remove_existing-Removed_example =
    remove_existing-Removed memory (λ i. 20 + i) "main" "ipfs/kubo"
      (queue_of (high ∷ low ∷ []) no_entries)

push_unique-perm_example :
    Returns
      (λ r. r.0 ≡ ok tt → Perm r.1.tq (mid ∷ kept_with mid (high ∷ low ∷ [])))
      (Queue.push_unique_by_branch memory (λ i. 20 + i) mid (queue_of (high ∷ low ∷ []) no_entries))
push_unique-perm_example =
    push_unique-perm (λ i. 20 + i) mid (queue_of (high ∷ low ∷ []) no_entries) pair_states tt

-- A queue of which the first task is removed: `second` has a lower priority than `third`.
abbrev second : Task
second = make "bt4brhjpc98qra498sg3" 1 8 "dev"

abbrev third : Task
third = make "bt4brhjpc98qra498sg4" 2 9 "dev"

abbrev high_queued : Entries
high_queued = (Storage.persist_scheduled memory high no_entries).1

abbrev before_removal : Queue memory
before_removal = queue_of (high ∷ second ∷ third ∷ []) high_queued

abbrev after_removal : Queue memory
after_removal = queue_of (second ∷ third ∷ []) (Queue.cancel_task memory 20 high high_queued).db

three_states : AllStates (high ∷ second ∷ third ∷ [])
unfolding task_queue_laws
three_states zero p = tt
three_states (suc zero) p = tt
three_states (suc (suc zero)) p = tt
three_states (suc (suc (suc i))) p = absurd (omega arith)

removal_run :
    Queue.remove_existing memory (λ i. 20 + i) "main" "ipfs/kubo" before_removal
    ≡ done (ok tt, after_removal)
unfolding Queue.remove_existing Queue.scan Queue.matches Queue.keep_tasks Queue.cancel_task
    Storage.persist_scheduled Storage.persist_processing Storage.archive_task Storage.put task_key
    Storage.process_task Storage.change_prefix find remove read parse_id ℕ_discrete format_int
removal_run = refl

removal_unorders_example :
    (¬ Heaped task_queue_laws (second ∷ third ∷ []))
    × Returns
        (TookRoot second (third ∷ others "main" "ipfs/kubo" []) after_removal)
        (Queue.pop memory after_removal)
unfolding Queue.matches runs_before
removal_unorders_example =
    removal_unorders (λ i. 20 + i) "main" "ipfs/kubo" before_removal after_removal high second third
      [] refl three_states refl refl refl refl removal_run

-- A machine on which each run ends without an error.
abbrev environment : Environment
environment = record {
  started = 10;
  ended = 12;
  log_opens = true;
  has_token = true;
  do_run = λ t. done (record { error = none; result = "{}"; composition = none });
  do_build = λ t. done (record { error = none; result = "[]"; composition = none });
}

work-Worked_example :
    WorkedOr never_fails environment low low_id none (work memory environment low low_current)
unfolding IsKnown
work-Worked_example =
    work-Worked never_fails environment low low_id low_current low none refl tt low_read
      Phase-current
