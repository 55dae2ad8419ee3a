-- ===== src/Task.antt =====
-- pkg/task/task.go: the task record, its states, and the methods that read it.
-- A Go string type with named constants is a data type here, whose last constructor holds any other
-- string. An `interface{}` payload is the text of its JSON value. A time.Time is the number of
-- nanoseconds since the zero time; times before that are left out.
pub mod Order
pub mod Backend
pub mod Storage
pub mod Queue
use canary_testing.Prelude.{
  ℕ, String, Bool, true, false, not, ◌&&◌, List, [], ◌∷◌, ◌==◌, if◌then◌else◌,
}
use canary_testing.Prelude.Run.{Run, done, panic, ◌>>=◌}
use canary_testing.Prelude.Text.{◌⧺◌, is_empty}
use canary_testing.Prelude.Int.{ℤ}

pub data State : Type 0 where
  scheduled processing complete canceled : State
  other_state : String → State

pub data Outcome : Type 0 where
  unknown success failure canceled : Outcome
  other_outcome : String → Outcome

pub data Kind : Type 0 where
  build run : Kind
  other_kind : String → Kind

pub record DatedState : Type 0 where
  pub created : ℕ
  pub state : State

pub record CreatedBy : Type 0 where
  pub user : String
  pub repo : String
  pub branch : String
  pub commit : String

-- `type` is the field `Type` of the source.
pub record Task : Type 0 where
  pub version : ℤ
  pub priority : ℤ
  pub id : String
  pub runner : String
  pub plan : String
  pub case : String
  pub states : List DatedState
  pub type : Kind
  pub composition : String
  pub input : String
  pub result : String
  pub error : String
  pub created_by : CreatedBy

-- The errors that the task package returns: its own, and those of the libraries that it calls.
pub data Error : Type 0 where
  queue_empty queue_full not_found should_have_found bad_id : Error
  leveldb_not_found leveldb_failed json_failed invalid_type : Error

first_created : List DatedState → Run ℕ
first_created [] = panic
first_created (s ∷ rest) = done s.created

-- Created()
unfoldable pub created : Task → Run ℕ
unfolding first_created
created t = first_created t.states

unfoldable pub last_state : List DatedState → Run DatedState
last_state [] = panic
last_state (s ∷ []) = done s
last_state (s ∷ s' ∷ rest) = last_state (s' ∷ rest)

-- State()
unfoldable pub current_state : Task → Run DatedState
unfolding last_state
current_state t = last_state t.states

is_state_canceled : State → Bool
is_state_canceled canceled = true
is_state_canceled _ = false

-- IsCanceled()
unfoldable pub is_canceled : Task → Run Bool
unfolding is_state_canceled current_state
is_canceled t = current_state t >>= λ s. done (is_state_canceled s.state)

name_of : Kind → Task → String
name_of build t = "build"
name_of run t = t.plan ⧺ ":" ⧺ t.case
name_of (other_kind k) t = "not supported"

-- Name()
unfoldable pub name : Task → String
unfolding name_of
name t = name_of t.type t

-- CreatedByCI()
unfoldable pub created_by_ci : Task → Bool
created_by_ci t =
    not (is_empty t.created_by.repo)
    && (not (is_empty t.created_by.commit) && not (is_empty t.created_by.branch))

-- RenderCreatedBy()
unfoldable pub render_created_by : Task → String
unfolding created_by_ci
render_created_by t =
    if created_by_ci t
    then "<a href=\"https://github.com/" ⧺ t.created_by.repo ⧺ "/commit/" ⧺ t.created_by.commit
      ⧺ "\" target=\"_blank\">" ⧺ t.created_by.repo ⧺ "<br/>" ⧺ t.created_by.branch ⧺ "</a>"
    else t.created_by.user

abbrev pub NonEmpty : List DatedState → Type 0
NonEmpty [] = ⊥
NonEmpty (s ∷ rest) = Unit

-- A task with a first state, so that Created does not panic.
abbrev pub HasState : Task → Type 0
HasState t = NonEmpty t.states
