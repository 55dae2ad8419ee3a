-- ===== src/Engine/Queries.antt =====
-- The requests that the engine answers, of pkg/engine/engine.go: QueueBuild, QueueRun, Tasks, GetTask,
-- DeleteTask, UnmarshalTask, and the calls that are passed on to a component: DoCollectOutputs,
-- DoTerminate, DoHealthcheck, DoBuildPurge. The new random id and the clock are arguments.
pub mod Compatible
pub mod Listed
use canary_testing.Prelude.{
  ℕ, ◌+◌, String, Bool, true, false, not, ◌&&◌, ◌||◌, List, [], ◌∷◌, ◌++◌, Option, none, some,
  str_eq, if◌then◌else◌,
}
use canary_testing.Prelude.Text.{◌⧺◌, is_empty}
use canary_testing.Prelude.Int.{ℤ, pos, negsuc}
use canary_testing.Prelude.Run.{Run, Res, ok, err, done, panic, ◌>>=◌, and_then}
use canary_testing.Prelude.Res
use canary_testing.Manifest.{ConfigMap, lookup}
use canary_testing.Composition.{Composition}
use canary_testing.Composition.BuildKey.{list_builders}
use canary_testing.Composition.Select.{contains}
use canary_testing.Health.{Report}
use canary_testing.Task.{Task, State, DatedState, CreatedBy, Kind, build, run, other_kind}
use canary_testing.Task.{Error as TaskError, invalid_type}
use canary_testing.Task.Backend.{Backend}
use canary_testing.Task.Storage.{get_task, delete}
use canary_testing.Task.Queue.{Queue, push, push_unique_by_branch}
use canary_testing.Engine.Component.{
  Error, task, unknown_runner, incompatible_builder, unrecognized_builder, unknown_component,
  not_terminatable, unsupported_healthcheck, coalesce_failed, component_failed, Builder, Runner,
}

pub record Request : Type 0 where
  pub priority : ℤ
  pub created_by : CreatedBy
  pub composition : Composition
  -- the JSON texts of the composition, and of the request with its sources
  pub composition_text : String
  pub input : String

abbrev scheduled_at : ℕ → List DatedState
scheduled_at now = (record { created = now; state = State.scheduled }) ∷ []

-- The JSON text of a result that is nil is "null".
unfoldable pub build_task : String → ℕ → Request → Task
build_task id now q = record {
  version = pos 0;
  priority = q.priority;
  id = id;
  runner = "";
  plan = "";
  case = "";
  states = scheduled_at now;
  type = build;
  composition = "";
  input = q.input;
  result = "null";
  error = "";
  created_by = q.created_by;
}

unfoldable pub run_task : String → ℕ → Request → Task
run_task id now q = record {
  version = pos 0;
  priority = q.priority;
  id = id;
  runner = q.composition.global.runner;
  plan = q.composition.global.plan;
  case = q.composition.global.case;
  states = scheduled_at now;
  type = run;
  composition = q.composition_text;
  input = q.input;
  result = "null";
  error = "";
  created_by = q.created_by;
}

-- The builders are compatible with the runner; stringInSlice is `contains`.
unfoldable pub check_compatible : String → List String → List String → Res Error (Unit {0})
check_compatible runner known [] = ok tt
check_compatible runner known (b ∷ bs) =
    if not (contains b known)
    then err (incompatible_builder runner b)
    else check_compatible runner known bs

unfoldable pub runnable : List (String × Runner) → Composition → Res Error (Unit {0})
runnable runners c = elim (lookup c.global.runner runners) [
  | none ↦ err (unknown_runner c.global.runner)
  | some r ↦ check_compatible c.global.runner r.compatible_builders (list_builders c)
]

module _ (b : Backend) where
  open b use {Db}

  -- The id and the error that are returned, and the queue.
  abbrev pub Queued : Type 0
  Queued = Run (String × Res Error (Unit {0}) × Queue b)

  unfoldable pub with_id : String → Run (Res TaskError (Unit {0}) × Queue b) → Queued
  with_id id m =
      m >>= λ (r, q). elim r [ ok x ↦ done (id, ok tt, q) | err e ↦ done (id, err (task e), q) ]

  -- QueueBuild
  unfoldable pub queue_build : String → ℕ → Request → Queue b → Queued
  queue_build id now r q = with_id id (push b (build_task id now r) q)

  queue_checked : String → Request → ℕ → (ℕ → ℕ) → Queue b → Res Error (Unit {0}) → Queued
  queue_checked id r now clock q (err e) = done ("", err e, q)
  queue_checked id r now clock q (ok x) =
      with_id id (push_unique_by_branch b clock (run_task id now r) q)

  -- QueueRun, where `clock` is read for the tasks that are canceled.
  unfoldable pub queue_run :
      List (String × Runner) → String → ℕ → (ℕ → ℕ) → Request → Queue b → Queued
  unfolding queue_checked
  queue_run runners id now clock r q =
      queue_checked id r now clock q (runnable runners r.composition)

unfoldable pub failed_or_ok : Option String → Res Error (Unit {0})
failed_or_ok none = ok tt
failed_or_ok (some e) = err (component_failed e)

unfoldable pub collect_from : (String → ConfigMap) → String → Runner → String → Res Error (Unit {0})
collect_from env name r run_id = elim (r.coalesce (env name ∷ [])) [
  | none ↦ err coalesce_failed
  | some config ↦ failed_or_ok (r.collect_outputs run_id config)
]

-- DoCollectOutputs, on what GetTask returns.
unfoldable pub do_collect_outputs :
    List (String × Runner)
    → (String → ConfigMap)
    → Res TaskError Task
    → String
    → Res Error (Unit {0})
do_collect_outputs runners env (err e) run_id = err (task e)
do_collect_outputs runners env (ok t) run_id = elim (lookup t.runner runners) [
  | none ↦ err (unknown_runner t.runner)
  | some r ↦ collect_from env t.runner r run_id
]

pub data ComponentType : Type 0 where
  runner_type builder_type : ComponentType
  other_type : String → ComponentType

-- TerminateAll of a component, of those that have it.
unfoldable pub terminate : Option (Option (Res String (Unit {0}))) → Res Error (Unit {0})
terminate none = err unknown_component
terminate (some none) = err not_terminatable
terminate (some (some (err e))) = err (component_failed e)
terminate (some (some (ok x))) = ok tt

-- DoTerminate
unfoldable pub do_terminate :
    List (String × Runner) → List (String × Builder) → ComponentType → String → Res Error (Unit {0})
do_terminate runners builders runner_type ref =
    terminate (elim (lookup ref runners) [ none ↦ none | some r ↦ some r.terminate_all ])
do_terminate runners builders builder_type ref =
    terminate (elim (lookup ref builders) [ none ↦ none | some b ↦ some b.terminate_all ])
do_terminate runners builders (other_type s) ref = err unknown_component

unfoldable pub healthcheck_of : Option (Res String Report) → Res Error Report
healthcheck_of none = err unsupported_healthcheck
healthcheck_of (some (err e)) = err (component_failed e)
healthcheck_of (some (ok r)) = ok r

-- DoHealthcheck
unfoldable pub do_healthcheck : List (String × Runner) → String → Res Error Report
do_healthcheck runners name = elim (lookup name runners) [
  | none ↦ err (unknown_runner name)
  | some r ↦ healthcheck_of r.healthcheck
]

-- DoBuildPurge
unfoldable pub do_build_purge : List (String × Builder) → String → String → Res Error (Unit {0})
do_build_purge builders name plan = elim (lookup name builders) [
  | none ↦ err (unrecognized_builder name)
  | some b ↦ failed_or_ok (b.purge plan)
]

-- The filters of Tasks; a time is in seconds since 1970.
pub record TasksFilters : Type 0 where
  pub types : List Kind
  pub states : List State
  pub after : Option ℤ
  pub before : Option ℤ
  pub test_plan : String
  pub test_case : String

abbrev kind_text : Kind → String
kind_text build = "build"
kind_text run = "run"
kind_text (other_kind s) = s

unfoldable pub has_type : Kind → List Kind → Bool
has_type k [] = false
has_type k (j ∷ js) = if str_eq (kind_text k) (kind_text j) then true else has_type k js

-- What a task must be to be listed: the tests on the plan and the case, and the loop over the types.
unfoldable pub wanted : TasksFilters → Task → Bool
wanted f t =
    if not (is_empty f.test_plan) && not (str_eq t.plan f.test_plan)
    then false
    else (if not (is_empty f.test_case) && not (str_eq t.case f.test_case)
        then false
        else has_type t.type f.types)

-- The loop over the tasks of one state, which puts each in front of those before it.
unfoldable pub collect_tasks : TasksFilters → List Task → List Task → List Task
collect_tasks f [] ires = ires
collect_tasks f (t ∷ ts) ires = collect_tasks f ts (if wanted f t then t ∷ ires else ires)

unfoldable pub tasks_of_states :
    TasksFilters
    → (State → Res TaskError (List Task))
    → List State
    → List Task
    → Res TaskError (List Task)
tasks_of_states f filter [] res = ok res
tasks_of_states f filter (s ∷ ss) res =
    and_then (filter s) λ ts. tasks_of_states f filter ss (res ++ collect_tasks f ts [])

-- The zero time, and a time with its default.
abbrev pub zero_time : ℤ
zero_time = negsuc 62135596799

unfoldable pub time_or : Option ℤ → ℤ → ℤ
time_or none d = d
time_or (some t) d = t

-- Tasks, which calls Filter of the store with `before` as the start and `after` as the end.
unfoldable pub tasks :
    (State → ℤ → ℤ → Res TaskError (List Task)) → ℤ → TasksFilters → Res TaskError (List Task)
unfolding time_or
tasks filter now f =
    tasks_of_states f (λ s. filter s (time_or f.before zero_time) (time_or f.after now)) f.states []

-- UnmarshalTask, where `decode` reads the type of a task, and `decode_as` a task with an input of it.
unfoldable pub unmarshal_task {ℓ} :
    {Bytes : Type ℓ}
    → (Bytes → Res TaskError Kind)
    → (Kind → Bytes → Res TaskError Task)
    → Bytes
    → Res TaskError Task
unmarshal_task decode decode_as bytes = elim (decode bytes) [
  | err e ↦ err e
  | ok k ↦ elim k [
    | run ↦ decode_as run bytes
    | build ↦ decode_as build bytes
    | other_kind s ↦ err invalid_type
  ]
]
