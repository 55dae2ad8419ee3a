-- ===== src/Tests/Compositions.antt =====
-- A composition of two groups and two runs, on which the theorems are applied.
use canary_testing.Composition.Defaults.{apply_defaults}
use canary_testing.Composition.{Dependency}
use canary_testing.Composition.Defaults.Modules.{Defaulted, apply_defaults-Defaulted}
use canary_testing.Composition.{generate_default_run, with_default}
use canary_testing.Composition.Prepare.{
  prepare_runs, prepare_run, prepare_run_groups, prepare_run_group, merge_group, merge_run,
  run_global, check_bounds, or_empty, to_int,
}
use canary_testing.Manifest.{test_case_by_name, has_runner, default_parameters}
use canary_testing.Composition.Instances.{calculated}
use canary_testing.Composition.Select.{
  add_groups, add_key, contains, find_group, find_run, gather, gather_groups, get_group, get_run,
}
use canary_testing.Composition.{effective_group_id}
use canary_testing.Composition.Validate.{
  check_references, check_run_groups, check_unique, recount, run_group_ids, run_ids,
}
use canary_testing.Manifest.{has_key}
use canary_testing.Prelude.{
  ℕ, ◌*◌, ◌/◌, ◌+◌, String, ◌≡◌, refl, false, not, [], ◌∷◌, none, ◌==◌, ◌↔◌,
}
use mathlib.Core.List.Perm
use canary_testing.Prelude.Run.{ok}
use canary_testing.Prelude.Int.{pos}
use canary_testing.Manifest.{ConfigMap, TestPlanManifest, lookup}
use canary_testing.Composition.{RunParams, Global, Group, RunGroup, TestRun, Composition, group_ids}
use canary_testing.Composition.Select.{frame_for_runs}
use canary_testing.Composition.Select.Frame.{Framed, frame_for_runs-Framed}
use canary_testing.Composition.Instances.{Floats, recalculate_instance_counts}
use canary_testing.Composition.Instances.Counting.{Recounted, recalculate-Recounted}
use canary_testing.Composition.Validate.{validate_groups, validate_runs}
use canary_testing.Composition.Validate.Unique.{Unique}
use canary_testing.Composition.Validate.Valid.{
  HaveBuilders, validate_groups-Unique, ValidRuns, validate_runs-ValidRuns,
}
use canary_testing.Composition.Defaults.{fill}
use canary_testing.Composition.Prepare.{Merge, prepare_for_run}
use canary_testing.Composition.Prepare.Run.{PreparedRun, prepare_for_run-PreparedRun}

-- Percentages in whole parts of a hundred.
abbrev pub percents : Floats
percents = record {
  positive = λ p. not (p == 0);
  is_zero = λ p. p == 0;
  share = λ p n. p * n / 100;
  plus_count = λ n p. n + p;
}

abbrev pub fill_merge : Merge
fill_merge = record {
  params = λ into from. ok (fill into from);
  resources = λ into from. ok into;
  counts = λ into from. ok into;
}

abbrev pub no_params : RunParams
no_params = record { artifact = ""; test_params = []; profiles = [] }

abbrev pub group_of : String → Group
group_of id = record {
  id = id;
  builder = "";
  build_config = ("go", "1.16") ∷ [];
  build = record { selectors = []; dependencies = [] };
  resources = record { memory = ""; cpu = "" };
  instances = record { count = 0; percentage = 50 };
  run = no_params;
  calculated_instance_cnt = 0;
}

abbrev pub run_group_of : String → ℕ → RunGroup
run_group_of id cnt = record {
  id = id;
  group_id = "";
  resources = record { memory = ""; cpu = "" };
  instances = record { count = 0; percentage = 50 };
  test_params = [];
  profiles = [];
  calculated_instance_cnt = cnt;
}

abbrev pub run_of : String → ℕ → TestRun
run_of id cnt = record {
  id = id;
  test_params = ("size", "1") ∷ [];
  total_instances = 4;
  groups = run_group_of "a" cnt ∷ run_group_of "b" cnt ∷ [];
}

abbrev single_run : TestRun
single_run = record {
  id = "single";
  test_params = [];
  total_instances = 2;
  groups = run_group_of "b" 0 ∷ [];
}

abbrev pub global_of : String → ConfigMap → Global
global_of plan config = record {
  plan = plan;
  case = "ping";
  total_instances = 4;
  concurrent_builds = 1;
  builder = "docker:go";
  build_config = ("go", "1.14") ∷ ("cache", "yes") ∷ [];
  build = none;
  runner = "local:docker";
  run_config = config;
  run = none;
  disable_metrics = false;
}

abbrev pub composition : Composition
composition = record {
  metadata = record { name = "two groups"; author = "" };
  global = global_of "./plans/network" [];
  groups = group_of "a" ∷ group_of "b" ∷ [];
  runs = run_of "both" 0 ∷ [];
}

abbrev pub manifest : TestPlanManifest
manifest = record {
  name = "network";
  builders = ("docker:go", ("cache", "no") ∷ ("race", "no") ∷ []) ∷ [];
  runners = ("local:docker", ("keep", "no") ∷ []) ∷ [];
  test_cases =
      (record {
        name = "ping";
        instances = record { minimum = pos 2; maximum = pos 10 };
        parameters = [];
      })
      ∷ [];
}

recalculate-Recounted_example : Recounted percents (run_of "both" 0) (run_of "both" 2)
unfolding recalculate_instance_counts
recalculate-Recounted_example =
    recalculate-Recounted percents (run_of "both" 0) (run_of "both" 2) refl

-- The composition with a second run, and what is left of it for that run.
abbrev two_runs : Composition
two_runs = record composition { runs = run_of "both" 0 ∷ single_run ∷ [] }

abbrev for_single : Composition
for_single = record composition { groups = group_of "b" ∷ []; runs = single_run ∷ [] }

frame_for_runs-Framed_example : Framed (λ ks. ks) two_runs ("single" ∷ []) for_single
unfolding frame_for_runs gather get_run find_run gather_groups add_groups add_key get_group
    find_group effective_group_id
frame_for_runs-Framed_example =
    frame_for_runs-Framed (λ ks. ks) two_runs ("single" ∷ []) for_single (λ ks. Perm.refl ks) refl

validate_groups-Unique_example :
    validate_groups composition.groups composition ≡ ok tt
    ↔ (Unique (group_ids composition.groups) × HaveBuilders composition.global composition.groups)
validate_groups-Unique_example = validate_groups-Unique composition.groups composition

validate_runs-ValidRuns_example :
    ValidRuns percents composition.runs composition (run_of "both" 2 ∷ [])
unfolding validate_runs check_unique run_ids contains check_run_groups check_references get_group
    find_group effective_group_id run_group_ids recount recalculate_instance_counts
validate_runs-ValidRuns_example =
    validate_runs-ValidRuns percents composition.runs composition (run_of "both" 2 ∷ []) refl

abbrev built_group : String → Group
built_group id = record (group_of id) {
  builder = "docker:go";
  build_config = ("race", "no") ∷ ("cache", "yes") ∷ ("go", "1.16") ∷ [];
}

abbrev pub built : Composition
built = record composition {
  global = global_of "network" [];
  groups = built_group "a" ∷ built_group "b" ∷ [];
}

abbrev with_size : RunGroup → RunGroup
with_size g = record g { test_params = ("size", "1") ∷ [] }

abbrev pub prepared : Composition
prepared = record composition {
  global = global_of "network" (("keep", "no") ∷ []);
  runs =
      (record (run_of "both" 2) {
        groups = with_size (run_group_of "a" 2) ∷ with_size (run_group_of "b" 2) ∷ [];
      })
      ∷ [];
}

prepare_for_run-PreparedRun_example : PreparedRun fill_merge percents manifest composition prepared
unfolding prepare_for_run generate_default_run prepare_runs prepare_run prepare_run_groups
    prepare_run_group get_group find_group effective_group_id merge_group merge_run run_global
    recalculate_instance_counts check_bounds fill test_case_by_name has_runner has_key
    default_parameters calculated or_empty to_int with_default lookup
prepare_for_run-PreparedRun_example =
    prepare_for_run-PreparedRun fill_merge percents manifest composition prepared refl

abbrev dependency : String → String → Dependency
dependency name version = record { module_path = name; target = ""; version = version }

apply_defaults-Defaulted_example :
    Defaulted (dependency "sdk" "v2" ∷ []) (dependency "sdk" "v1" ∷ dependency "runner" "v1" ∷ []) (
      apply_defaults
        (λ ds. ds)
        (dependency "sdk" "v2" ∷ [])
        (dependency "sdk" "v1" ∷ dependency "runner" "v1" ∷ []))
apply_defaults-Defaulted_example =
    apply_defaults-Defaulted (λ ds. ds) (dependency "sdk" "v2") []
      (dependency "sdk" "v1" ∷ dependency "runner" "v1" ∷ []) (λ ds. Perm.refl ds)
