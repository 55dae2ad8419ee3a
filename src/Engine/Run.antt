-- ===== src/Engine/Run.antt =====
-- doRun of pkg/engine/supervisor.go, up to what it hands to the runner, and what it returns. The order
-- in which FrameForRuns ranges over its map is a parameter. The BuildConfig maps that preparing fills
-- in place are not read by doRun, so the composition is prepared as a value.
pub mod Groups
pub mod Started
use canary_testing.Prelude.{
  ℕ, String, Bool, true, false, List, [], ◌∷◌, Option, none, some, str_eq, get_elem?, set,
  if◌then◌else◌,
}
use canary_testing.Prelude.Int.{ℤ, pos, negsuc}
use canary_testing.Prelude.Run.{Run, Res, ok, err, done, panic, out_of_fuel, expect}
use canary_testing.Prelude.Call.{Call, ◌>>=◌, lift}
use canary_testing.Manifest.{ConfigMap, TestPlanManifest, lookup}
use canary_testing.Manifest.{Error as ApiError}
use canary_testing.Composition.{
  RunParams, Group, RunGroup, TestRun, Composition, effective_group_id,
}
use canary_testing.Composition.Instances.{Floats}
use canary_testing.Composition.Select.{get_group, frame_for_runs}
use canary_testing.Composition.Select.Pick.{pick_groups}
use canary_testing.Composition.Prepare.{Merge, to_int, prepare_for_run}
use canary_testing.Composition.Validate.{validate_for_run}
use canary_testing.Engine.Component.{
  Error, from_api, many_run_ids, runner_disabled, component_failed, coalesced, check_health,
  Sources, BuildOutput, JobGroup, RunJob, Ended, Runner,
}
use canary_testing.Engine.Build.{Setup, Orders, clean, do_build}

-- The RunInput of a task.
pub record Request : Type 0 where
  pub build_groups : List ℤ
  pub run_ids : List String
  pub composition : Composition
  pub manifest : TestPlanManifest
  pub sources : Sources

pub record RunSetup : Type 0 where
  pub build : Setup
  pub orders : Orders
  pub runners : List (String × Runner)
  pub runner_config : String → ConfigMap
  pub merge : Merge
  pub floats : Floats
  pub required : List String → List String

-- g.Run.Artifact = bout[i].ArtifactPath
unfoldable pub with_artifact : BuildOutput → Group → Group
with_artifact o g = record g { run = record (g.run) { artifact = o.artifact_path } }

unfoldable pub store_artifacts : List Group → List ℤ → List (Option BuildOutput) → Run (List Group)
unfolding with_artifact
store_artifacts gs [] outs = done gs
store_artifacts gs (pos i ∷ is) (some o ∷ outs) = elim (get_elem? gs i) [
  | none ↦ panic
  | some g ↦ store_artifacts (set gs i (with_artifact o g)) is outs
]
store_artifacts gs (i ∷ is) outs = panic

unfoldable pub api_call {ℓ} : {A : Type ℓ} → Run (Res ApiError A) → Call Error A
api_call (done r) = done (from_api r)
api_call panic = panic
api_call out_of_fuel = out_of_fuel

-- The builds that come first, if there are any, and the composition with their artifacts.
unfoldable pub with_builds : RunSetup → Request → Call Error Composition
with_builds s q = elim q.build_groups [
  | [] ↦ done (ok q.composition)
  | i ∷ is ↦ (do
    picked ← api_call (pick_groups q.composition (i ∷ is))
    outs ← do_build s.orders s.build q.manifest picked q.sources
    gs ← lift (store_artifacts q.composition.groups (i ∷ is) outs)
    done (ok (record (q.composition) { groups = gs })))
]

-- The call of Healthcheck, which a runner that is not there does not support.
unfoldable pub runner_health : Option Runner → Res Error (Unit {0})
runner_health none = ok tt
runner_health (some r) = check_health r.healthcheck

unfoldable pub is_disabled : ConfigMap → Bool
is_disabled cfg = elim (lookup "disabled" cfg) [ none ↦ false | some v ↦ str_eq v "true" ]

unfoldable pub check_enabled : ConfigMap → Res Error (Unit {0})
unfolding is_disabled
check_enabled cfg = if is_disabled cfg then err runner_disabled else ok tt

-- CoalesceIntoType(run.ConfigType()), which panics where the runner is not there.
unfoldable pub configured : Option Runner → List ConfigMap → Call Error (Runner × String)
configured none cfgs = panic
configured (some r) cfgs = do config ← coalesced (r.coalesce cfgs); done (ok (r, config))

-- The test of the number of run ids, and input.RunIds[0].
unfoldable pub single_run : List String → Call Error String
single_run [] = panic
single_run (id ∷ []) = done (ok id)
single_run (id ∷ id' ∷ ids) = done (err many_run_ids)

unfoldable pub first_run : List TestRun → Call Error TestRun
first_run [] = panic
first_run (r ∷ rs) = done (ok r)

unfoldable pub job_group : RunGroup → Group → JobGroup
job_group g b = record {
  id = g.id;
  instances = to_int g.calculated_instance_cnt;
  artifact_path = b.run.artifact;
  parameters = g.test_params;
  resources = g.resources;
  profiles = g.profiles;
}

-- The loop over the groups of the run.
unfoldable pub job_groups : Composition → List RunGroup → Call Error (List JobGroup)
unfolding job_group
job_groups c [] = done (ok [])
job_groups c (g ∷ gs) = do
  b ← done (from_api (get_group c (effective_group_id g)))
  rest ← job_groups c gs
  done (ok (job_group g b ∷ rest))

-- The composition with its builds, prepared and validated.
unfoldable pub prepared_for : RunSetup → Request → Call Error Composition
prepared_for s q = do
  c ← with_builds s q
  prepared ← done (from_api (prepare_for_run s.merge s.floats q.manifest c))
  done (from_api (validate_for_run s.floats s.build.tags prepared))

-- The runner, with its healthcheck, the flag that disables it, and its configuration.
unfoldable pub checked_runner : RunSetup → Composition → Call Error (Runner × String)
checked_runner s comp = do
  x ← done (runner_health (lookup comp.global.runner s.runners))
  y ← done (check_enabled (s.runner_config comp.global.runner))
  configured (lookup comp.global.runner s.runners)
      (s.runner_config comp.global.runner ∷ comp.global.run_config ∷ [])

-- The run, with the groups of the composition that are framed for it.
unfoldable pub job_of : RunSetup → Composition → String → String → String → Call Error RunJob
job_of s comp run_id id config = do
  framed ← done (from_api (frame_for_runs s.required comp (run_id ∷ [])))
  r ← first_run framed.runs
  groups ← job_groups framed r.groups
  done (
      ok (record {
        run_id = id;
        config = config;
        test_plan = clean comp.global.plan;
        test_case = clean comp.global.case;
        total_instances = to_int r.total_instances;
        groups = groups;
        disable_metrics = comp.global.disable_metrics;
      }))

-- doRun up to the call of the runner: the runner, the composition, and what the runner is given.
unfoldable pub start_run : RunSetup → String → Request → Call Error (Runner × Composition × RunJob)
start_run s id q = do
  comp ← prepared_for s q
  (runner, config) ← checked_runner s comp
  run_id ← single_run q.run_ids
  job ← job_of s comp run_id id config
  done (ok (runner, comp, job))

-- The result and the composition of the output, if there is one, and the error.
pub record Finished : Type 0 where
  pub output : Option (String × Composition)
  pub error : Option Error

-- After the call of the runner, where out.Result of an output that is nil is read if there is no error.
unfoldable pub with_composition : Composition → Option String → Option String → Run Finished
with_composition c none none = panic
with_composition c none (some e) =
    done (record { output = none; error = some (component_failed e) })
with_composition c (some r) none = done (record { output = some (r, c); error = none })
with_composition c (some r) (some e) =
    done (record { output = some (r, c); error = some (component_failed e) })

unfoldable pub ended : Composition → Ended → Run Finished
ended c x = with_composition c x.result x.error

-- doRun
unfoldable pub do_run : RunSetup → String → Request → Run Finished
do_run s id q = elim (start_run s id q) [
  | done r ↦ elim r [
    | ok (runner, comp, job) ↦ ended comp (runner.run job)
    | err e ↦ done (record { output = none; error = some e })
  ]
  | panic ↦ panic
  | out_of_fuel ↦ out_of_fuel
]
