-- ===== src/Composition/Validate/Valid.antt =====
-- What the validation of groups and of runs establishes.
use canary_testing.Prelude.{subst, false, not, ◌&&◌, List, [], ◌∷◌, ◌≡◌, ◌↔◌, refl}
use canary_testing.Prelude.Text.{is_empty}
use canary_testing.Prelude.Run.{Res, ok, err, is_ok}
use canary_testing.Prelude.Res.{>>=-eq-ok, guard-eq-ok, ok-functional}
use canary_testing.Manifest.{
  Error, duplicate_group, duplicate_run, duplicate_run_group, missing_builder, no_such_group,
}
use canary_testing.Composition.{
  Global, Group, RunGroup, TestRun, Composition, effective_group_id, group_ids,
}
use canary_testing.Composition.Select.{get_group}
use canary_testing.Composition.Instances.{Floats, recalculate_instance_counts}
use canary_testing.Composition.Instances.Counting.{Recounted, recalculate-Recounted}
use canary_testing.Composition.Validate.{
  run_ids, run_group_ids, check_unique, check_builders, validate_groups, check_references,
  check_run_groups, recount, validate_runs,
}
use canary_testing.Composition.Validate.Unique.{Unique, check_unique-Unique}

-- Each group has a builder, or there is a global one.
unfoldable pub HaveBuilders : Global → List Group → Type 0
HaveBuilders global [] = Unit {0}
HaveBuilders global (g ∷ gs) =
    (is_empty g.builder && is_empty global.builder ≡ false) × HaveBuilders global gs

check_builders-HaveBuilders :
    (global : Global) (gs : List Group) → check_builders global gs ≡ ok tt ↔ HaveBuilders global gs
unfolding check_builders HaveBuilders
check_builders-HaveBuilders global [] = ((λ h. tt), λ h. refl)
check_builders-HaveBuilders global (g ∷ gs) = (
  (λ h.
      let (n, h1) =
        guard-eq-ok (is_empty g.builder && is_empty global.builder) (missing_builder g.id) h in
      (n, (check_builders-HaveBuilders global gs).0 h1)),
  λ (n, hs). rw n ((check_builders-HaveBuilders global gs).1 hs),
)

-- Groups.Validate passes exactly where the ids of the groups differ from each other and each group
-- has a builder or there is a global one.
pub validate_groups-Unique :
    (gs : List Group) (c : Composition)
    → validate_groups gs c ≡ ok tt ↔ (Unique (group_ids gs) × HaveBuilders c.global gs)
unfolding validate_groups
validate_groups-Unique gs c = (
  (λ h.
      let (x, hu, hb) = >>=-eq-ok (check_unique duplicate_group [] (group_ids gs)) _ h in
      (
        (check_unique-Unique duplicate_group (group_ids gs)).0 hu,
        (check_builders-HaveBuilders c.global gs).0 hb,
      )),
  λ (u, b).
      rw ((check_unique-Unique duplicate_group (group_ids gs)).1 u)
        ((check_builders-HaveBuilders c.global gs).1 b),
)

-- The group of each run group is there.
unfoldable pub References : Composition → List RunGroup → Type 0
References c [] = Unit {0}
References c (g ∷ gs) =
    ((x : Group) × (get_group c (effective_group_id g) ≡ ok x)) × References c gs

is_ok-value : (r : Res Error Group) → not (is_ok r) ≡ false → (x : Group) × (r ≡ ok x)
is_ok-value (ok x) h = (x, refl)
is_ok-value (err e) h = cc

check_references-References :
    (c : Composition) (r : TestRun) (gs : List RunGroup)
    → check_references c r gs ≡ ok tt
    → References c gs
unfolding check_references References
check_references-References c r [] h = tt
check_references-References c r (g ∷ gs) h =
    let id = effective_group_id g in
    let (there, h1) = guard-eq-ok (not (is_ok (get_group c id))) (no_such_group r.id g.id id) h in
    (is_ok-value (get_group c id) there, check_references-References c r gs h1)

unfoldable pub RunGroups : Composition → List TestRun → Type 0
RunGroups c [] = Unit {0}
RunGroups c (r ∷ rs) = References c r.groups × Unique (run_group_ids r.groups) × RunGroups c rs

check_run_groups-RunGroups :
    (c : Composition) (rs : List TestRun) → check_run_groups c rs ≡ ok tt → RunGroups c rs
unfolding check_run_groups RunGroups
check_run_groups-RunGroups c [] h = tt
check_run_groups-RunGroups c (r ∷ rs) h =
    let (x, hx, h1) = >>=-eq-ok (check_references c r r.groups) _ h in
    let (y, hy, h2) =
      >>=-eq-ok (check_unique (duplicate_run_group r.id) [] (run_group_ids r.groups)) _ h1 in
    (
      check_references-References c r r.groups hx,
      (check_unique-Unique (duplicate_run_group r.id) (run_group_ids r.groups)).0 hy,
      check_run_groups-RunGroups c rs h2,
    )

module _ (fl : Floats) where
  unfoldable pub AllRecounted : List TestRun → List TestRun → Type 0
  AllRecounted [] [] = Unit {0}
  AllRecounted (r ∷ rs) (r' ∷ rs') = Recounted fl r r' × AllRecounted rs rs'
  AllRecounted rs rs' = ⊥

  recount-AllRecounted : (rs rs' : List TestRun) → recount fl rs ≡ ok rs' → AllRecounted rs rs'
  unfolding recount AllRecounted
  recount-AllRecounted [] rs' h = subst (AllRecounted []) (ok-functional refl h) tt
  recount-AllRecounted (r ∷ rs) rs' h =
      let (r', hr, h1) = >>=-eq-ok (recalculate_instance_counts fl r) _ h in
      let (rest, hs, h2) = >>=-eq-ok (recount fl rs) _ h1 in
      subst (AllRecounted (r ∷ rs)) (ok-functional refl h2)
        (recalculate-Recounted fl r r' hr, recount-AllRecounted rs rest hs)

  -- What Runs.Validate establishes where it passes.
  pub record ValidRuns (rs : List TestRun) (c : Composition) (rs' : List TestRun) : Type 0 where
    pub unique_ids : Unique (run_ids rs)
    pub run_groups : RunGroups c rs
    pub recounted : AllRecounted rs rs'

  -- Where Runs.Validate passes, the ids of the runs differ from each other, those of the groups of a
  -- run do, each group of a run is one of the composition, and each run is counted: the counts of its
  -- groups are their shares, and their sum is its total, which is the one asked for if one was.
  pub validate_runs-ValidRuns :
      (rs : List TestRun) (c : Composition) (rs' : List TestRun)
      → validate_runs fl rs c ≡ ok rs'
      → ValidRuns rs c rs'
  unfolding validate_runs
  validate_runs-ValidRuns rs c rs' h =
      let (x, hx, h1) = >>=-eq-ok (check_unique duplicate_run [] (run_ids rs)) _ h in
      let (y, hy, h2) = >>=-eq-ok (check_run_groups c rs) _ h1 in
      record {
        unique_ids = (check_unique-Unique duplicate_run (run_ids rs)).0 hx;
        run_groups = check_run_groups-RunGroups c rs hy;
        recounted = recount-AllRecounted rs rs' h2;
      }
