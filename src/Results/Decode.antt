-- ===== src/Results/Decode.antt =====
-- When a task counts as being in error.
use canary_testing.Prelude.{String, ◌≡◌, ◌↔◌, ◌⊎◌, inl, inr, refl, Option, none}
use canary_testing.Prelude.Run.{Res, ok, err, done}
use canary_testing.Task.{
  State, scheduled, processing, complete, canceled, other_state, Outcome, DatedState, Kind, build,
  run, other_kind, Task, current_state,
}
use canary_testing.Results.{
  Error, complete_outcome, outcome_in_state, decode_task_outcome, is_outcome_success, error_of,
  is_task_outcome_in_error,
}

-- A task of this kind and state succeeded.
unfoldable pub Succeeded : (String → Outcome) → Task → Kind → State → Type 0
Succeeded decode t k s =
    (s ≡ complete) × ((k ≡ build) ⊎ ((k ≡ run) × (decode t.result ≡ Outcome.success)))

error_of-none : (r : Res Error Outcome) → error_of r ≡ none → r ≡ ok Outcome.success
unfolding error_of is_outcome_success
error_of-none (err e) h = cc
error_of-none (ok Outcome.success) h = refl
error_of-none (ok Outcome.unknown) h = cc
error_of-none (ok Outcome.failure) h = cc
error_of-none (ok Outcome.canceled) h = cc
error_of-none (ok (Outcome.other_outcome s)) h = cc

outcome-Succeeded :
    (decode : String → Outcome) (t : Task) (k : Kind) (s : State)
    → t.type ≡ k
    → outcome_in_state decode t s ≡ ok Outcome.success
    → Succeeded decode t k s
unfolding outcome_in_state complete_outcome Succeeded
outcome-Succeeded decode t build complete e h = (refl, inl refl)
outcome-Succeeded decode t run complete e h = (refl, inr (refl, ok_injective (rw e at h)))
  where
    ok_injective : {a b : Outcome} → ◌≡◌ {A = Res Error Outcome} (ok a) (ok b) → a ≡ b
    ok_injective p = cc
outcome-Succeeded decode t (other_kind x) complete e h =
    let f : ◌≡◌ {A = Res Error Outcome} (complete_outcome decode t (other_kind x))
        (ok Outcome.success) =
      rw e at h in
    cc
outcome-Succeeded decode t k scheduled e h = cc
outcome-Succeeded decode t k processing e h = cc
outcome-Succeeded decode t k canceled e h = cc
outcome-Succeeded decode t k (other_state x) e h = cc

Succeeded-outcome :
    (decode : String → Outcome) (t : Task) (s : State)
    → Succeeded decode t t.type s
    → error_of (outcome_in_state decode t s) ≡ none
unfolding outcome_in_state complete_outcome Succeeded error_of is_outcome_success
Succeeded-outcome decode t s (e, inl b) = rw (e, b)
Succeeded-outcome decode t s (e, inr (b, o)) = rw (e, b, o)

-- A task with a current state is without error exactly where it is complete and either is a build, or
-- is a run whose decoded result has the outcome "success".
pub in_error-Succeeded :
    (decode : String → Outcome) (t : Task) (s : DatedState)
    → current_state t ≡ done s
    → is_task_outcome_in_error decode t ≡ done none ↔ Succeeded decode t t.type s.state
unfolding is_task_outcome_in_error decode_task_outcome
in_error-Succeeded decode t s e = rw e (
  (λ h.
      outcome-Succeeded decode t t.type s.state refl
        (error_of-none (outcome_in_state decode t s.state) (done_injective h))),
  λ h. rw (Succeeded-outcome decode t s.state h),
)
  where
    done_injective : {a b : Option Error} → done a ≡ done b → a ≡ b
    done_injective p = cc
