-- ===== src/Tests/Reports.antt =====
-- Outcomes of a run, healthchecks and data networks on small inputs.
use canary_testing.Prelude.{
  ◌≤◌, ◌⊎◌, String, ◌≡◌, ◌↔◌, refl, Bool, true, false, List, [], ◌∷◌, none, some,
}
use canary_testing.Prelude.Run.{done, Returns}
use canary_testing.Manifest.{lookup}
use canary_testing.Task.{State, Outcome, DatedState, Kind, Task, current_state}
use canary_testing.Task.Order.{blank}
use canary_testing.Results.{
  Result, new_result, put_groups, put_outcome, update_outcome, is_task_outcome_in_error,
}
use canary_testing.Results.Tally.{
  AllSucceeded, update_outcome-AllSucceeded, play, Known, Tallied, play-Tallied,
}
use canary_testing.Results.Decode.{Succeeded, in_error-Succeeded}
use canary_testing.Health.{Check, Helper, run_checks}
use canary_testing.Health.Ran.{Ran, run_checks-Ran}
use canary_testing.Prelude.Run
use canary_testing.Network.{
  Octets, Addresses, space_exhausted, next_data_network, next_data_network-Octets,
}

abbrev two_groups : Result
two_groups = new_result (("a", 1) ∷ ("b", 2) ∷ [])

update_outcome-AllSucceeded_example :
    (update_outcome two_groups).outcome ≡ Outcome.success ↔ AllSucceeded two_groups.outcomes
update_outcome-AllSucceeded_example = update_outcome-AllSucceeded two_groups

abbrev reports : List (String × Outcome)
reports = ("b", Outcome.success) ∷ ("a", Outcome.failure) ∷ []

play-Tallied_example : Returns (Tallied reports two_groups) (play reports two_groups)
unfolding new_result put_groups put_outcome Known lookup
play-Tallied_example =
    play-Tallied reports two_groups (
      (record { succeeded = 0; total = 2 }, refl),
      ((record { succeeded = 0; total = 1 }, refl), tt),
    )

abbrev ended : DatedState
ended = record { created = 7; state = State.complete }

abbrev built_task : Task
built_task = record blank { type = Kind.build; states = ended ∷ [] }

in_error-Succeeded_example :
    is_task_outcome_in_error (λ s. Outcome.failure) built_task ≡ done none
    ↔ Succeeded (λ s. Outcome.failure) built_task Kind.build State.complete
unfolding current_state
in_error-Succeeded_example = in_error-Succeeded (λ s. Outcome.failure) built_task ended refl

-- A check of whether a directory is there, the state, and its fixer.
abbrev directory : Check Bool
directory = record {
  name = "directory";
  checker = λ there. (record { passed = there; message = "checked"; error = none }, there);
  fixer = some (λ there. (record { message = "made"; error = none }, true));
}

abbrev one_check : Helper Bool
one_check = record { items = directory ∷ []; report = none }

run_checks-Ran_example : Ran Bool true one_check false (run_checks Bool true one_check false)
run_checks-Ran_example = run_checks-Ran Bool true one_check false refl

next_data_network-Octets_example :
    (300 ≤ 4095 × ((x : Addresses) × (next_data_network 300 ≡ Run.ok x) × Octets 300 x))
    ⊎ (4096 ≤ 300 × (next_data_network 300 ≡ Run.err space_exhausted))
next_data_network-Octets_example = next_data_network-Octets 300
