-- ===== src/Engine.antt =====
-- The worker of pkg/engine/supervisor.go: what it does with a task that it popped off the queue, and
-- pkg/engine/error.go. Parameters: the clock at the two times that it is read, whether the log file
-- opens, and doRun and doBuild, which its children model and which may panic. Of the messages to GitHub
-- and Slack only how they end is modelled: their errors are logged, and a result that a runner returns is
-- no nil pointer, so that nothing panics but the split of the repository.
pub mod Component
pub mod Build
pub mod Run
pub mod Signals
pub mod Queries
pub mod Worked
use canary_testing.Prelude.{
  ℕ, String, Bool, true, false, List, [], ◌∷◌, ◌++◌, Option, none, some, if◌then◌else◌, not, ◌==◌,
}
use canary_testing.Prelude.Text.{◌⧺◌}
use Prim.Native.Char.{Char, code}
use canary_testing.Prelude.Run.{Run as Outcome, Res, ok, err, done, panic, out_of_fuel, ◌>>=◌}
use canary_testing.Task.{
  Task, State, DatedState, Kind, Error, build, run, other_kind, created_by_ci,
}
use canary_testing.Task.Backend.{Backend}
use canary_testing.Task.Storage.{persist_processing, archive_task}

-- An error that doRun or doBuild returns, and the worker's wrapping of one.
pub data TaskError : Type 0 where
  context_canceled : TaskError
  failed : String → TaskError
  task_execution : String → TaskError → TaskError

unfoldable pub error_text : TaskError → String
error_text context_canceled = "context canceled"
error_text (failed s) = s
error_text (task_execution type e) = "task of type " ⧺ type ⧺ " cancelled: " ⧺ error_text e

-- errors.As(err, &TaskExecutionError) || errors.Is(err, context.Canceled)
unfoldable pub counts_as_canceled : TaskError → Bool
counts_as_canceled (task_execution type e) = true
counts_as_canceled context_canceled = true
counts_as_canceled (failed s) = false

-- What doRun and doBuild return: the error, and of the output, if there is one, the JSON text of the
-- result that is stored, and the composition of a run.
pub record Executed : Type 0 where
  pub error : Option TaskError
  pub result : String
  pub composition : Option String

pub record Environment : Type 0 where
  pub started : ℕ
  pub ended : ℕ
  pub log_opens : Bool
  -- GithubRepoStatusToken is set
  pub has_token : Bool
  pub do_run : Task → Outcome Executed
  pub do_build : Task → Outcome Executed

-- strings.Split(s, "/")
unfoldable pub onto_first : Char → List String → List String
onto_first c [] = []
onto_first c (s ∷ ss) = String.◌∷◌ c s ∷ ss

unfoldable pub split_slash : String → List String
split_slash String.[] = "" ∷ []
split_slash (String.◌∷◌ c s) =
    let rest = split_slash s in if code c == 47 then "" ∷ rest else onto_first c rest

-- ownerrepo[0] and ownerrepo[1]
unfoldable pub owner_and_repo : List String → Outcome (String × String)
owner_and_repo (owner ∷ repo ∷ rest) = done (owner, repo)
owner_and_repo parts = panic

-- How postStatusToGithub ends.
unfoldable pub post_status_to_github : Bool → Task → Outcome (Unit {0})
post_status_to_github has_token t =
    if not has_token
    then done tt
    else if not (created_by_ci t)
    then done tt
    else owner_and_repo (split_slash t.created_by.repo) >>= λ names. done tt

unfoldable pub with_state : State → ℕ → Task → Task
with_state s now t = record t { states = t.states ++ (record { created = now; state = s }) ∷ [] }

unfoldable pub wrapped : String → Option TaskError → Option TaskError
wrapped type none = none
wrapped type (some e) = some (task_execution type e)

unfoldable pub or_same : Option String → String → String
or_same none s = s
or_same (some x) s = x

-- The wrapped error, the result, and the task with its composition.
unfoldable pub after_run : Task → Executed → Option TaskError × String × Task
after_run t x = (
  wrapped "run" x.error,
  x.result,
  record t { composition = or_same x.composition t.composition },
)

unfoldable pub after_build : Task → Executed → Option TaskError × String × Task
after_build t x = (wrapped "build" x.error, x.result, t)

-- The switch over the type.
unfoldable pub execute :
    Environment → Kind → Task → Option (Outcome (Option TaskError × String × Task))
execute env run t = some (env.do_run t >>= λ x. done (after_run t x))
execute env build t = some (env.do_build t >>= λ x. done (after_build t x))
execute env (other_kind k) t = none

-- The new state, and the task's error.
unfoldable pub final_state : Option TaskError → State
final_state none = State.complete
final_state (some e) = if counts_as_canceled e then State.canceled else State.complete

unfoldable pub final_error : Option TaskError → String → String
final_error none s = s
final_error (some e) s = error_text e

unfoldable pub finished : Environment → Option TaskError × String × Task → Task
unfolding final_state final_error with_state
finished env (e, r, t) =
    record (with_state (final_state e) env.ended (record t { error = final_error e t.error })) {
      result = r;
    }

module _ (b : Backend) where
  archived : Environment → Task → Res Error (Unit {0}) × b.Db → Outcome (Unit {0}) × b.Db
  archived env t (err e, d) = (done tt, d)
  archived env t (ok x, d) = (post_status_to_github env.has_token t, d)

  persisted : Environment → Task → Res Error (Unit {0}) × b.Db → Outcome (Unit {0}) × b.Db
  persisted env t (err e, d) = (done tt, d)
  persisted env t (ok x, d) = archived env t (archive_task b t d)

  after_execution :
      Environment → Outcome (Option TaskError × String × Task) → b.Db → Outcome (Unit {0}) × b.Db
  after_execution env (done x) d =
      let t = finished env x in persisted env t (persist_processing b t d)
  after_execution env panic d = (panic, d)
  after_execution env out_of_fuel d = (out_of_fuel, d)

  switched :
      Environment
      → Option (Outcome (Option TaskError × String × Task))
      → b.Db
      → Outcome (Unit {0}) × b.Db
  switched env none d = (done tt, d)
  switched env (some m) d = after_execution env m d

  -- What the worker does after the first status message, where this one ended.
  after_status : Environment → Task → Outcome (Unit {0}) → b.Db → Outcome (Unit {0}) × b.Db
  after_status env t (done x) d =
      if env.log_opens then switched env (execute env t.type t) d else (done tt, d)
  after_status env t panic d = (panic, d)
  after_status env t out_of_fuel d = (out_of_fuel, d)

  -- The body of the worker's loop on a popped task: how it ends, and the database that it leaves.
  unfoldable pub work : Environment → Task → b.Db → Outcome (Unit {0}) × b.Db
  unfolding switched after_execution persisted archived after_status
  work env t0 d0 =
      let t = with_state State.processing env.started t0 in
      let (r, d) = persist_processing b t d0 in
      after_status env t (post_status_to_github env.has_token t) d
