-- ===== src/Runners/Collected.antt =====
-- When collectOutcomes ends, and with which outcome.
use canary_testing.Prelude.{ℕ, String, List, [], ◌∷◌, ◌≡◌, ◌↔◌, take}
use canary_testing.Prelude.Run.{Run, done}
use canary_testing.Task.{Outcome}
use canary_testing.Results.{Result, update_outcome}
use canary_testing.Results.Tally.{AllSucceeded, Tallied}
use canary_testing.Runners.{
  Received, success_event, failure_event, crash_event, context_done, Collection, ended,
}

-- The outcomes among what is received.
unfoldable pub outcomes_of : List Received → List (String × Outcome)
outcomes_of [] = []
outcomes_of (success_event g ∷ es) = (g, Outcome.success) ∷ outcomes_of es
outcomes_of (failure_event g ∷ es) = (g, Outcome.failure) ∷ outcomes_of es
outcomes_of (crash_event g ∷ es) = (g, Outcome.failure) ∷ outcomes_of es
outcomes_of (e ∷ es) = outcomes_of es

-- The context is not done.
unfoldable pub Active : List Received → Type 0
Active [] = Unit {0}
Active (context_done ∷ es) = ⊥
Active (e ∷ es) = Active es

-- The outcome that the loop ends with.
end_with : Result → Run Collection
end_with r = done (ended (update_outcome r))

-- What the loop has ended with: each group has its successes among the outcomes that were expected, and
-- the outcome is "success" exactly where these are all its instances.
pub record CollectedAll (n : ℕ) (es : List Received) (r : Result) (c : Collection) : Type 0 where
  pub result : Result
  pub has_ended : c ≡ ended result
  pub tallied : Tallied (take n (outcomes_of es)) r result
  pub outcome : result.outcome ≡ Outcome.success ↔ AllSucceeded result.outcomes
