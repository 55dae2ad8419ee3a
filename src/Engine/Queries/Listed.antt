-- ===== src/Engine/Queries/Listed.antt =====
-- The list that Tasks returns.
use canary_testing.Prelude.{
  List, [], ◌∷◌, ◌++◌, ◌≡◌, refl, sym, ap, ◌∙◌, if◌then◌else◌, Bool-cases, inl, inr,
}
use mathlib.Core.List.{append-nil, append_assoc}
use canary_testing.Prelude.Int.{ℤ}
use canary_testing.Prelude.Run.{Res, ok, err, and_then, Res-cases}
use canary_testing.Task.{Task, State}
use canary_testing.Task.{Error as TaskError}
use canary_testing.Engine.Queries.{
  TasksFilters, wanted, collect_tasks, tasks_of_states, tasks, time_or, zero_time,
}

-- The tasks that are wanted, the last one first.
unfoldable pub last_first : TasksFilters → List Task → List Task
last_first f [] = []
last_first f (t ∷ ts) = last_first f ts ++ (if wanted f t then t ∷ [] else [])

collect_tasks-last_first :
    (f : TasksFilters) (ts ires : List Task) → collect_tasks f ts ires ≡ last_first f ts ++ ires
unfolding collect_tasks last_first
collect_tasks-last_first f [] ires = refl
collect_tasks-last_first f (t ∷ ts) ires =
    collect_tasks-last_first f ts (if wanted f t then t ∷ ires else ires)
    ∙ elim (Bool-cases (wanted f t)) [
      | inl e ↦ rw e (sym (append_assoc (last_first f ts) (t ∷ []) ires))
      | inr e ↦ rw e (ap (λ l. l ++ ires) (sym (append-nil (last_first f ts))))
    ]

-- For each state the tasks that are wanted, the last one first; or the first error.
unfoldable pub listed :
    TasksFilters → (State → Res TaskError (List Task)) → List State → Res TaskError (List Task)
listed f filter [] = ok []
listed f filter (s ∷ ss) =
    and_then (filter s) λ ts. and_then (listed f filter ss) λ rest. ok (last_first f ts ++ rest)

and_then_assoc :
    (r : Res TaskError (List Task)) (xs ys : List Task)
    → and_then r (λ l. ok ((xs ++ ys) ++ l))
      ≡ and_then (and_then r λ l. ok (ys ++ l)) (λ l. ok (xs ++ l))
and_then_assoc (ok l) xs ys = ap ok (append_assoc xs ys l)
and_then_assoc (err e) xs ys = refl

tasks_of_states-listed :
    (f : TasksFilters) (filter : State → Res TaskError (List Task)) (ss : List State)
    (res : List Task)
    → tasks_of_states f filter ss res ≡ and_then (listed f filter ss) (λ l. ok (res ++ l))
unfolding tasks_of_states listed
tasks_of_states-listed f filter [] res = ap ok (sym (append-nil res))
tasks_of_states-listed f filter (s ∷ ss) res = elim (Res-cases (filter s)) [
  | inl (ts, e) ↦ rw e (
      ap (tasks_of_states f filter ss)
        (ap (λ l. res ++ l) (collect_tasks-last_first f ts [] ∙ append-nil (last_first f ts)))
      ∙ tasks_of_states-listed f filter ss (res ++ last_first f ts)
      ∙ and_then_assoc (listed f filter ss) res (last_first f ts))
  | inr (x, e) ↦ rw e
]

-- Tasks returns, state after state in the order of the filter, the stored tasks of the state whose plan,
-- case and type are wanted, the last one that the store returns first; or the store's first error. The
-- store is asked for the times from `before`, or the zero time, to `after`, or now.
pub tasks-listed :
    (filter : State → ℤ → ℤ → Res TaskError (List Task)) (now : ℤ) (f : TasksFilters)
    → tasks filter now f
      ≡ listed f (λ s. filter s (time_or f.before zero_time) (time_or f.after now)) f.states
unfolding tasks
tasks-listed filter now f =
    let stored = λ (s : State). filter s (time_or f.before zero_time) (time_or f.after now) in
    tasks_of_states-listed f stored f.states [] ∙ nothing_before (listed f stored f.states)
  where
    nothing_before : (r : Res TaskError (List Task)) → and_then r (λ l. ok ([] ++ l)) ≡ r
    nothing_before (ok l) = refl
    nothing_before (err e) = refl
