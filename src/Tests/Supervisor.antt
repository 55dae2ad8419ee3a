-- ===== src/Tests/Supervisor.antt =====
-- The engine on the composition of two groups: its builds, its run, its signals and its requests.
use Run.{
  check_enabled, checked_runner, configured, first_run, is_disabled, job_group, job_groups, job_of,
  runner_health, single_run, store_artifacts, with_artifact,
}
use canary_testing.Composition.Prepare.{
  check_bounds, merge_group, merge_run, prepare_for_run, prepare_run, prepare_run_group,
  prepare_run_groups, prepare_runs, run_global, to_int,
}
use canary_testing.Manifest.{default_parameters, find_case, has_runner, test_case_by_name}
use canary_testing.Composition.{
  default_groups, default_run_group, effective_group_id, generate_default_run, with_default,
}
use canary_testing.Composition.Instances.{calculated, recalculate_instance_counts}
use canary_testing.Composition.Select.{
  add_groups, find_group, find_run, frame_for_runs, gather, gather_groups, get_group, get_run,
}
use canary_testing.Composition.Validate.{
  check_references, check_run_groups, recount, run_group_ids, run_ids, validate_for_run,
  validate_runs,
}
use canary_testing.Engine.Signals.{close, close_signal}
use Run.{api_call, prepared_for, with_builds}
use canary_testing.Composition.Select.Pick.{check_indices, group_at, groups_at, pick_groups}
use canary_testing.Engine.Component.{check_health, coalesced, from_api}
use canary_testing.Composition.Prepare.{builder_of, or_empty, prepare_group, prepare_groups}
use canary_testing.Manifest.{has_builder, has_key}
use canary_testing.Composition.Validate.{check_builders, check_unique, validate_groups}
use canary_testing.Composition.{group_ids}
use canary_testing.Composition.Select.{add_key, contains}
use canary_testing.Engine.Build.{
  add_index, blank, build_groups, check_builders_health, check_builders_known, copied, copy_sources,
  final_sources, index_keys, run_job, run_jobs, store_all, with_sources,
}
use canary_testing.Prelude.Sort.{codes, codes_leb, insert, sort_by, sort_strings, text_leb}
use canary_testing.Composition.BuildKey.{module_of, used_builders, write_dependencies}
use canary_testing.Composition.Defaults.{
  apply_defaults, as_map, default_build, default_selectors, fill, has_module, missing,
  put_dependency,
}
use canary_testing.Health.{all_good, fixes_succeeded, is_good}
use canary_testing.Prelude.Text.{format_int, join}
use mathlib.Core.List.Permᴰ
use mathlib.Core.List.Perm
use canary_testing.Prelude.{
  ℕ, String, ◌≡◌, ◌⊎◌, refl, true, false, List, [], ◌∷◌, Option, none, some, ◌==◌, if◌then◌else◌,
}
use canary_testing.Prelude.Int.{pos}
use canary_testing.Prelude.Run.{Run, ok, err, done, panic}
use canary_testing.Prelude.Text.{◌⧺◌}
use canary_testing.Manifest.{lookup}
use canary_testing.Composition.{Build, Dependency, Group, Composition}
use canary_testing.Composition.BuildKey.{build_key, group_build_key, list_builders}
use canary_testing.Composition.BuildKey.Canonical.{build_key-Canonical}
use canary_testing.Composition.Prepare.{prepare_for_build}
use canary_testing.Composition.Validate.{validate_for_build}
use canary_testing.Task.Queue.{Queue, push_unique_by_branch}
use canary_testing.Engine.Component.{Error, Sources, BuildOutput, Builder, JobGroup, RunJob, Runner}
use canary_testing.Engine.Build.{Setup, Orders, group_keys, do_build, clean}
use canary_testing.Engine.Build.Shared.{Rearrange, SharedOutputs, do_build-SharedOutputs}
use canary_testing.Engine.Run
use canary_testing.Engine.Run.{RunSetup, start_run}
use canary_testing.Engine.Run.Started.{StartedRun, start_run-StartedRun}
use canary_testing.Engine.Signals.{
  Signals, no_signals, start_task, kill, collect, Step, started, initially, nothing, step,
}
use canary_testing.Engine.Signals.Kill.{kill-twice, kill-Running}
use canary_testing.Engine.Queries
use canary_testing.Engine.Queries.{
  TasksFilters, tasks, time_or, zero_time, run_task, queue_run, with_id,
}
use canary_testing.Engine.Queries.Compatible.{Compatible, queue_run-Compatible}
use canary_testing.Tests.Compositions.{
  percents, fill_merge, group_of, composition, manifest, prepared,
}
use canary_testing.Tests.Memory.{memory}

abbrev dependency_on : String → Dependency
dependency_on target = record { module_path = "sdk"; target = target; version = "v1" }

abbrev build_of : List String → String → Build
build_of selectors target = record {
  selectors = selectors;
  dependencies = dependency_on target ∷ [];
}

build_key-Canonical_example :
    build_key (build_of ("race" ∷ "cover" ∷ []) "")
    ≡ build_key (build_of ("cover" ∷ "race" ∷ []) "fork")
build_key-Canonical_example =
    build_key-Canonical (build_of ("race" ∷ "cover" ∷ []) "")
      (build_of ("cover" ∷ "race" ∷ []) "fork") (Perm.swap "cover" "race" []) refl

-- A builder whose artifact is named after the plan.
abbrev builder : Builder
builder = record {
  id = "docker:go";
  healthcheck = none;
  coalesce = λ cs. some "{}";
  terminate_all = none;
  purge = λ plan. none;
  build = λ job. ok (record { builder_id = ""; artifact_path = "image:" ⧺ job.plan });
}

abbrev setup : Setup
setup = record {
  builders = ("docker:go", builder) ∷ [];
  config = λ b. [];
  files = record {
    trim = λ s. s;
    base = λ s. s;
    join_path = λ d s. d ⧺ "/" ⧺ s;
    copies = λ s d. true;
  };
  marshal = λ b config key. some (b ⧺ key);
  tags = λ c. ok tt;
}

abbrev as_they_come : Orders
as_they_come = record { defaults = λ ds. ds; keys = λ m. m; ends = λ js. js }

as_they_come-Rearrange : Rearrange as_they_come
as_they_come-Rearrange = record { keys = λ m. Permᴰ.refl m; ends = λ js. Permᴰ.refl js }

abbrev sources : Sources
sources = record { base_dir = "/work"; plan_dir = "/work/plan"; sdk_dir = ""; extra_dir = "" }

abbrev artifact : Option BuildOutput
artifact = some (record { builder_id = "docker:go"; artifact_path = "image:network" })

do_build-SharedOutputs_example :
    (comp : Composition) × (keys : List String) × (prepare_for_build as_they_come.defaults manifest
        composition
      ≡ ok comp)
    × (validate_for_build setup.tags comp ≡ ok tt)
    × (group_keys (group_build_key setup.marshal) comp.groups ≡ done (ok keys))
    × SharedOutputs setup (clean comp.global.plan) comp.groups keys (artifact ∷ artifact ∷ [])
unfolding do_build from_api prepare_for_build prepare_groups prepare_group has_builder has_key
    builder_of validate_for_build validate_groups check_unique group_ids contains check_builders
    check_builders_known list_builders sort_strings build_key group_build_key module_of
    used_builders write_dependencies apply_defaults as_map default_build default_selectors fill
    has_module missing put_dependency or_empty add_key add_index blank build_groups
    check_builders_health clean copied copy_sources final_sources group_keys index_keys run_job
    run_jobs store_all with_sources check_health coalesced all_good fixes_succeeded is_good lookup
    codes codes_leb insert sort_by text_leb format_int join
do_build-SharedOutputs_example =
    do_build-SharedOutputs as_they_come setup manifest composition sources
      (artifact ∷ artifact ∷ []) as_they_come-Rearrange refl

abbrev runner : Runner
runner = record {
  compatible_builders = "docker:go" ∷ [];
  healthcheck = none;
  coalesce = λ cs. some "{}";
  terminate_all = none;
  collect_outputs = λ id config. none;
  run = λ job. record { result = some "{}"; error = none };
}

abbrev run_setup : RunSetup
run_setup = record {
  build = setup;
  orders = as_they_come;
  runners = ("local:docker", runner) ∷ [];
  runner_config = λ r. [];
  merge = fill_merge;
  floats = percents;
  required = λ ks. ks;
}

abbrev request : Run.Request
request = record {
  build_groups = pos 1 ∷ [];
  run_ids = "both" ∷ [];
  composition = composition;
  manifest = manifest;
  sources = sources;
}

abbrev with_image : Group → Group
with_image g = record g { run = record (g.run) { artifact = "image:network" } }

abbrev run_composition : Composition
run_composition = record prepared { groups = group_of "a" ∷ with_image (group_of "b") ∷ [] }

abbrev job_group_of : String → String → JobGroup
job_group_of id path = record {
  id = id;
  instances = pos 2;
  artifact_path = path;
  parameters = ("size", "1") ∷ [];
  resources = record { memory = ""; cpu = "" };
  profiles = [];
}

abbrev job : RunJob
job = record {
  run_id = "run1";
  config = "{}";
  test_plan = "network";
  test_case = "ping";
  total_instances = pos 4;
  groups = job_group_of "a" "" ∷ job_group_of "b" "image:network" ∷ [];
  disable_metrics = false;
}

start_run-StartedRun_example : StartedRun run_setup request run_composition job
unfolding start_run prepared_for with_builds api_call pick_groups check_indices groups_at group_at
    from_api do_build prepare_for_build prepare_groups prepare_group has_builder has_key builder_of
    validate_for_build validate_groups check_unique group_ids contains check_builders
    check_builders_known list_builders sort_strings sort_by used_builders add_key insert lookup
    check_builders_health check_health build_groups group_keys group_build_key final_sources
    index_keys add_index with_sources run_jobs run_job store_artifacts store_all blank
    prepare_for_run test_case_by_name generate_default_run has_runner prepare_runs prepare_run
    prepare_run_groups build_key module_of write_dependencies apply_defaults as_map default_build
    default_selectors fill has_module missing put_dependency calculated recalculate_instance_counts
    check_bounds merge_group merge_run or_empty prepare_run_group run_global to_int add_groups
    find_group find_run frame_for_runs gather gather_groups get_group get_run check_references
    check_run_groups recount run_group_ids run_ids validate_for_run validate_runs default_groups
    default_run_group effective_group_id with_default clean copied copy_sources coalesced
    check_enabled checked_runner configured first_run is_disabled job_group job_groups job_of
    runner_health single_run with_artifact all_good fixes_succeeded is_good default_parameters
    find_case codes codes_leb text_leb format_int join
start_run-StartedRun_example =
    start_run-StartedRun run_setup "run1" request runner run_composition job (λ ks. Perm.refl ks)
      refl

-- A task that is worked on, that is killed, and another task that starts.
abbrev working : Signals
working = start_task "task1" no_signals

abbrev closing : ℕ → Signals → Signals
closing ch s = record s { closed = λ c. if c == ch then true else s.closed c }

kill-twice_example : kill "task1" (start_task "task2" (closing 0 working)) ≡ panic
unfolding start_task kill close_signal close
kill-twice_example =
    kill-twice "task1" 0 working (closing 0 working) (start_task "task2" (closing 0 working)) refl
      refl (step "task2" refl (started "task2") nothing)

kill-Running_example :
    (s2 : Signals) × (kill "task1" working ≡ done s2)
    × (s2.waiting 0 ≡ some "task1")
    × (s2.closed 0 ≡ true)
    × Step "task1" s2 (collect "task1" 0 s2)
    × (kill "task1" (collect "task1" 0 s2) ≡ done (collect "task1" 0 s2))
kill-Running_example = kill-Running "task1" no_signals working initially nothing

abbrev queue_request : Queries.Request
queue_request = record {
  priority = pos 1;
  created_by = record { user = ""; repo = ""; branch = ""; commit = "" };
  composition = composition;
  composition_text = "{}";
  input = "{}";
}

abbrev empty_queue : Queue memory
empty_queue = record { tq = []; ts = []; max = pos 4 }

queue_run-Compatible_example :
    (Compatible (("local:docker", runner) ∷ []) composition
      × (queue_run memory
            (("local:docker", runner) ∷ [])
            "bt4brhjpc98qra498sg0"
            7
            (λ i. 8)
            queue_request
            empty_queue
          ≡ with_id memory "bt4brhjpc98qra498sg0" (
              push_unique_by_branch memory
                (λ i. 8)
                (run_task "bt4brhjpc98qra498sg0" 7 queue_request)
                empty_queue)))
    ⊎ ((Compatible (("local:docker", runner) ∷ []) composition → ⊥)
        × ((e : Error) × (queue_run memory
                (("local:docker", runner) ∷ [])
                "bt4brhjpc98qra498sg0"
                7
                (λ i. 8)
                queue_request
                empty_queue
              ≡ done ("", err e, empty_queue))))
queue_run-Compatible_example =
    queue_run-Compatible memory (("local:docker", runner) ∷ []) "bt4brhjpc98qra498sg0" 7 (λ i. 8)
      queue_request empty_queue
