-- ===== src/Runners.antt =====
-- The runners of pkg/runner, where they decide on the outcome of a run: collectOutcomes of
-- local_docker.go and the deferred function of its Run, and the printing of the output of an instance of
-- pretty.go.
pub mod Collected
pub mod Pretty
use canary_testing.Prelude.{
  ℕ, zero, suc, ◌+◌, String, Bool, true, false, not, ◌&&◌, ◌||◌, List, [], ◌∷◌, Option, none, some,
  str_eq, if◌then◌else◌,
}
use canary_testing.Prelude.Text.{is_empty}
use canary_testing.Prelude.Run.{Run, done, panic, ◌>>=◌}
use canary_testing.Task.{Outcome}
use canary_testing.Results.{Result, add_outcome, update_outcome}

-- What the loop of collectOutcomes receives: an event of the sync service, with the group of the
-- instance that sent it, or the end of the context.
pub data Received : Type 0 where
  success_event failure_event crash_event : String → Received
  other_event context_done : Received

-- Whether the loop has ended, with the outcome of the result, or waits for another event.
pub data Collection : Type 0 where
  ended waiting : Result → Collection

-- The loop, with the number of outcomes that are expected.
unfoldable pub collect : ℕ → List Received → Result → Run Collection
collect zero es r = done (ended (update_outcome r))
collect (suc n) [] r = done (waiting r)
collect (suc n) (context_done ∷ es) r = done (ended (update_outcome r))
collect (suc n) (other_event ∷ es) r = collect (suc n) es r
collect (suc n) (success_event g ∷ es) r = add_outcome r g Outcome.success >>= λ r'. collect n es r'
collect (suc n) (failure_event g ∷ es) r = add_outcome r g Outcome.failure >>= λ r'. collect n es r'
collect (suc n) (crash_event g ∷ es) r = add_outcome r g Outcome.failure >>= λ r'. collect n es r'

pub data Context : Type 0 where
  active canceled deadline_exceeded : Context

-- result.Outcome == ""
unfoldable pub is_unset : Outcome → Bool
is_unset (Outcome.other_outcome s) = is_empty s
is_unset o = false

outcome_after : Bool → Context → Outcome → Outcome
outcome_after failed canceled o = Outcome.canceled
outcome_after failed deadline_exceeded o = Outcome.failure
outcome_after failed active o = if failed && is_unset o then Outcome.failure else o

-- The deferred function of Run, on whether Run returns an error.
unfoldable pub finish_run : Bool → Context → Result → Result
unfolding outcome_after
finish_run failed ctx r = record r { outcome = outcome_after failed ctx r.outcome }
