-- ===== src/Docker/Watch.antt =====
-- Watch of pkg/docker/manager.go: a worker for each container that runs. A worker is what `worker` does
-- in its goroutine: it may return by itself at any time, and whether one that is canceled ends before the
-- timeout is a parameter. Left out: that Watch, when it ends, cancels the workers and waits for them.
pub mod Once
use canary_testing.Prelude.{
  ℕ, ◌+◌, String, Bool, true, false, List, [], ◌∷◌, ◌++◌, Option, none, some, str_eq, if◌then◌else◌,
  not, ◌||◌,
}
use canary_testing.Prelude.Run.{Run, Res, ok, err, done, panic, ◌>>=◌}
use canary_testing.Composition.Select.{contains}

pub record Event : Type 0 where
  pub status : String
  pub id : String

-- What has happened to the workers, the last thing first: one was launched, one returned by itself, and
-- `stop` canceled one and saw its end.
pub data Action : Type 0 where
  launched returned stopped : String → Action

-- Whether the worker of a container is in its goroutine.
unfoldable pub runs : String → List Action → Bool
runs k [] = false
runs k (launched j ∷ log) = if str_eq j k then true else runs k log
runs k (returned j ∷ log) = if str_eq j k then false else runs k log
runs k (stopped j ∷ log) = if str_eq j k then false else runs k log

-- The keys of the map `managers`, and the actions so far.
pub record Workers : Type 0 where
  pub managers : List String
  pub actions : List Action

unfoldable pub remove_key : String → List String → List String
remove_key k [] = []
remove_key k (j ∷ js) = let rest = remove_key k js in if str_eq j k then rest else j ∷ rest

-- start
unfoldable pub start : String → Workers → Workers
start id w =
    if contains id w.managers
    then w
    else record { managers = id ∷ w.managers; actions = launched id ∷ w.actions }

-- The end of the goroutine of a worker, which closes `done` and leaves the map as it is.
unfoldable pub worker_returns : String → Workers → Workers
worker_returns id w =
    if runs id w.actions then record w { actions = returned id ∷ w.actions } else w

-- stop, which panics where the worker does not end in time; one that has returned has closed `done`.
unfoldable pub stop : (String → Bool) → String → Workers → Run Workers
stop ends id w =
    if contains id w.managers
    then (if not (runs id w.actions) || ends id
        then done (record { managers = remove_key id w.managers; actions = stopped id ∷ w.actions })
        else panic)
    else done w

unfoldable pub start_all : List String → Workers → Workers
start_all [] w = w
start_all (id ∷ ids) w = start_all ids (start id w)

unfoldable pub is_stop : String → Bool
is_stop s = if str_eq s "stop" then true else if str_eq s "destroy" then true else str_eq s "die"

-- The switch over the status of an event; `none` for an unexpected one.
unfoldable pub handle : (String → Bool) → Event → Workers → Run (Option Workers)
unfolding is_stop
handle ends e w =
    if str_eq e.status "start"
    then done (some (start e.id w))
    else (if is_stop e.status then (stop ends e.id w >>= λ w'. done (some w')) else done none)

-- The error that Watch returns: of an event that it does not expect, or of the channel of errors.
pub data Ended : Type 0 where
  unexpected : Event → Ended
  channel_error : Ended

-- An event of docker, or a worker that returns meanwhile.
pub data Occurrence : Type 0 where
  docker_event : Event → Occurrence
  worker_return : String → Occurrence

-- The loop over the events, to which the error of the channel comes after the last of them.
unfoldable pub watch_events : (String → Bool) → List Occurrence → Workers → Run (Ended × Workers)
watch_events ends [] w = done (channel_error, w)
watch_events ends (worker_return id ∷ es) w = watch_events ends es (worker_returns id w)
watch_events ends (docker_event e ∷ es) w = handle ends e w >>= λ r. elim r [
  | none ↦ done (unexpected e, w)
  | some w' ↦ watch_events ends es w'
]

-- Watch, where docker has listed the containers that run; `none` is the error of the list.
unfoldable pub watch :
    (String → Bool) → Option (List String) → List Occurrence → Run (Option (Ended × Workers))
watch ends none es = done none
watch ends (some ids) es =
    watch_events ends es (start_all ids (record { managers = []; actions = [] })) >>= λ r.
    done (some r)
