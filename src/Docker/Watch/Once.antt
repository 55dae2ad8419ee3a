-- ===== src/Docker/Watch/Once.antt =====
-- How the workers of Watch start and end.
use canary_testing.Prelude.{
  String, Bool, true, false, List, [], ◌∷◌, ◌≡◌, str_eq, if◌then◌else◌, not, ◌&&◌,
}
use canary_testing.Prelude.Run.{Run}
use canary_testing.Composition.Select.{contains}
use canary_testing.Docker.Watch.{Action, launched, returned, stopped, runs, Workers}

-- Whether a container has been given a worker, which `stop` has not canceled since.
unfoldable pub managed : String → List Action → Bool
managed k [] = false
managed k (launched j ∷ log) = if str_eq j k then true else managed k log
managed k (returned j ∷ log) = managed k log
managed k (stopped j ∷ log) = if str_eq j k then false else managed k log

-- A worker is launched only where none runs for its container, and canceled only where one was launched
-- and not canceled since.
unfoldable pub Orderly : List Action → Type 0
Orderly [] = Unit {0}
Orderly (launched j ∷ log) = (runs j log ≡ false) × (managed j log ≡ false) × Orderly log
Orderly (returned j ∷ log) = (runs j log ≡ true) × Orderly log
Orderly (stopped j ∷ log) = (managed j log ≡ true) × Orderly log

-- The map has the containers whose worker was not canceled, among them all whose worker runs.
pub record OneWorker (w : Workers) : Type 0 where
  pub orderly : Orderly w.actions
  pub known : (k : String) → contains k w.managers ≡ managed k w.actions
  pub running : (k : String) → runs k w.actions && not (managed k w.actions) ≡ false
