-- ===== src/Engine/Component.antt =====
-- The builders and runners that an engine knows, and what doBuild and doRun of
-- pkg/engine/supervisor.go call outside the modelled packages: healthchecks, the coalescing of
-- configurations into a builder's or runner's type, copies of directories, uuid.
use canary_testing.Prelude.{String, Bool, List, Option, none, some, if◌then◌else◌}
use canary_testing.Prelude.Int.{ℤ}
use canary_testing.Prelude.Run.{Res, ok, err, done}
use canary_testing.Prelude.Call.{Call}
use canary_testing.Manifest.{ConfigMap}
use canary_testing.Manifest.{Error as ApiError}
use canary_testing.Task.{Error as TaskError}
use canary_testing.Composition.{Dependency, Resources}
use canary_testing.Health.{Report, fixes_succeeded}

-- The errors of pkg/engine; `component_failed` is an error that a component returned.
pub data Error : Type 0 where
  api : ApiError → Error
  task : TaskError → Error
  unknown_runner unrecognized_builder : String → Error
  incompatible_builder : String → String → Error
  healthcheck_errored fixes_failed copy_failed coalesce_failed : Error
  many_run_ids runner_disabled unsupported_healthcheck not_terminatable unknown_component : Error
  component_failed : String → Error

unfoldable pub from_api {ℓ} : {A : Type ℓ} → Res ApiError A → Res Error A
from_api (ok a) = ok a
from_api (err e) = err (api e)

pub record Sources : Type 0 where
  pub base_dir : String
  pub plan_dir : String
  pub sdk_dir : String
  pub extra_dir : String

-- What a builder is given, api.BuildInput, without the environment and the build's random id. `config`
-- is the JSON text of the coalesced configuration.
pub record BuildJob : Type 0 where
  pub plan : String
  pub selectors : List String
  pub dependencies : List Dependency
  pub config : String
  pub sources : Sources

pub record BuildOutput : Type 0 where
  pub builder_id : String
  pub artifact_path : String

pub record Builder : Type 0 where
  pub id : String
  pub healthcheck : Option (Res String Report)
  pub coalesce : List ConfigMap → Option String
  pub terminate_all : Option (Res String (Unit {0}))
  pub purge : String → Option String
  pub build : BuildJob → Res String BuildOutput

-- The tests on the report of a healthcheck, where the component supports one; a failed check that
-- needs no fix is only logged.
unfoldable pub check_health : Option (Res String Report) → Res Error (Unit {0})
check_health none = ok tt
check_health (some (err e)) = err healthcheck_errored
check_health (some (ok rep)) = if fixes_succeeded rep then ok tt else err fixes_failed

unfoldable pub coalesced : Option String → Call Error String
coalesced none = done (err coalesce_failed)
coalesced (some s) = done (ok s)

-- What a runner is given, api.RunInput with its groups, without the environment. `config` is the JSON
-- text of the coalesced configuration.
pub record JobGroup : Type 0 where
  pub id : String
  pub instances : ℤ
  pub artifact_path : String
  pub parameters : List (String × String)
  pub resources : Resources
  pub profiles : List (String × String)

pub record RunJob : Type 0 where
  pub run_id : String
  pub config : String
  pub test_plan : String
  pub test_case : String
  pub total_instances : ℤ
  pub groups : List JobGroup
  pub disable_metrics : Bool

-- A runner's error, and of its output, if there is one, the result.
pub record Ended : Type 0 where
  pub result : Option String
  pub error : Option String

-- `terminate_all` and `healthcheck` are there where the component has the interface; `collect_outputs`
-- is given the id of the run and the configuration.
pub record Runner : Type 0 where
  pub compatible_builders : List String
  pub healthcheck : Option (Res String Report)
  pub coalesce : List ConfigMap → Option String
  pub terminate_all : Option (Res String (Unit {0}))
  pub collect_outputs : String → String → Option String
  pub run : RunJob → Ended
