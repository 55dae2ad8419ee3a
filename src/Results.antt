-- ===== src/Results.antt =====
-- How a run or a task ended: pkg/runner/common_result.go and pkg/data/result.go. A Go map is an
-- association list in which each key stands once.
pub mod Tally
pub mod Decode
use canary_testing.Prelude.{
  ℕ, ◌+◌, String, Bool, true, false, not, List, [], ◌∷◌, Option, none, some, str_eq, ◌==◌,
  if◌then◌else◌,
}
use canary_testing.Prelude.Run.{Run, Res, ok, err, done, panic, ◌>>=◌}
use canary_testing.Task.{
  State, scheduled, processing, complete, canceled, other_state, Outcome, Kind, build, run,
  other_kind, Task, current_state,
}

pub record GroupOutcome : Type 0 where
  pub succeeded : ℕ
  pub total : ℕ

pub record Journal : Type 0 where
  pub events : List (String × String)
  pub pods_statuses : List String

pub record Result : Type 0 where
  pub outcome : Outcome
  pub outcomes : List (String × GroupOutcome)
  pub journal : Journal

-- m[k] = v
unfoldable pub put_outcome :
    String → GroupOutcome → List (String × GroupOutcome) → List (String × GroupOutcome)
put_outcome k v [] = (k, v) ∷ []
put_outcome k v ((j, x) ∷ m) = if str_eq j k then (k, v) ∷ m else (j, x) ∷ put_outcome k v m

-- The loop of newResult over the id and the number of instances of each group.
unfoldable pub put_groups :
    List (String × ℕ) → List (String × GroupOutcome) → List (String × GroupOutcome)
put_groups [] m = m
put_groups ((id, n) ∷ gs) m = put_groups gs (put_outcome id (record { succeeded = 0; total = n }) m)

-- newResult
unfoldable pub new_result : List (String × ℕ) → Result
new_result groups = record {
  outcome = Outcome.unknown;
  outcomes = put_groups groups [];
  journal = record { events = []; pods_statuses = [] };
}

-- r.Outcomes[id].Ok++, which dereferences nil where the id is not there.
unfoldable pub count_success :
    String → List (String × GroupOutcome) → Run (List (String × GroupOutcome))
count_success id [] = panic
count_success id ((j, x) ∷ m) =
    let rest = count_success id m in
    if str_eq j id
    then done ((j, record x { succeeded = x.succeeded + 1 }) ∷ m)
    else rest >>= λ m'. done ((j, x) ∷ m')

-- addOutcome
unfoldable pub add_outcome : Result → String → Outcome → Run Result
add_outcome r id Outcome.success =
    count_success id r.outcomes >>= λ m. done (record r { outcomes = m })
add_outcome r id o = done r

unfoldable pub sum_totals : List (String × GroupOutcome) → ℕ
sum_totals [] = 0
sum_totals ((k, g) ∷ m) = g.total + sum_totals m

-- countTotalInstances
unfoldable pub count_total_instances : Result → ℕ
count_total_instances r = sum_totals r.outcomes

unfoldable pub all_succeeded : List (String × GroupOutcome) → Outcome
all_succeeded [] = Outcome.success
all_succeeded ((k, g) ∷ m) =
    if not (g.total == g.succeeded) then Outcome.failure else all_succeeded m

-- updateOutcome
unfoldable pub update_outcome : Result → Result
update_outcome r = record r { outcome = all_succeeded r.outcomes }

pub data Error : Type 0 where
  unexpected_state : State → Error
  unexpected_type : Kind → Error
  run_outcome : Outcome → Error

-- The outcome of a complete task, where `decode` is DecodeRunnerResult(t.Result).Outcome.
unfoldable pub complete_outcome : (String → Outcome) → Task → Kind → Res Error Outcome
complete_outcome decode t build = ok Outcome.success
complete_outcome decode t run = ok (decode t.result)
complete_outcome decode t (other_kind s) = err (unexpected_type (other_kind s))

unfoldable pub outcome_in_state : (String → Outcome) → Task → State → Res Error Outcome
outcome_in_state decode t canceled = ok Outcome.canceled
outcome_in_state decode t processing = ok Outcome.unknown
outcome_in_state decode t scheduled = ok Outcome.unknown
outcome_in_state decode t complete = complete_outcome decode t t.type
outcome_in_state decode t (other_state s) = err (unexpected_state (other_state s))

-- DecodeTaskOutcome
unfoldable pub decode_task_outcome : (String → Outcome) → Task → Run (Res Error Outcome)
decode_task_outcome decode t = current_state t >>= λ s. done (outcome_in_state decode t s.state)

unfoldable pub is_outcome_success : Outcome → Bool
is_outcome_success Outcome.success = true
is_outcome_success o = false

unfoldable pub error_of : Res Error Outcome → Option Error
error_of (err e) = some e
error_of (ok o) = if not (is_outcome_success o) then some (run_outcome o) else none

-- IsTaskOutcomeInError
unfoldable pub is_task_outcome_in_error : (String → Outcome) → Task → Run (Option Error)
is_task_outcome_in_error decode t = decode_task_outcome decode t >>= λ r. done (error_of r)
