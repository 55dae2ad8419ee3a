-- ===== src/Composition/Validate.antt =====
-- pkg/api/composition_validation.go. The checks of the struct tags, which go-playground/validator runs,
-- are a parameter; the one that the file registers with it is `instances_valid`.
pub mod Unique
pub mod Valid
use canary_testing.Prelude.{
  ℕ, String, Bool, true, false, not, ◌&&◌, ◌||◌, List, [], ◌∷◌, ◌==◌, if◌then◌else◌,
}
use canary_testing.Prelude.Text.{is_empty}
use canary_testing.Prelude.Run.{Res, ok, err, is_ok}
use canary_testing.Prelude.Res.{◌>>=◌}
use canary_testing.Manifest.{
  Error, duplicate_group, duplicate_run, duplicate_run_group, missing_builder, no_such_group,
}
use canary_testing.Composition.{
  Counts, Global, Group, RunGroup, TestRun, Composition, effective_group_id, group_ids,
}
use canary_testing.Composition.Select.{contains, get_group}
use canary_testing.Composition.Instances.{Floats, recalculate_instance_counts}

unfoldable pub run_ids : List TestRun → List String
run_ids [] = []
run_ids (r ∷ rs) = r.id ∷ run_ids rs

unfoldable pub run_group_ids : List RunGroup → List String
run_group_ids [] = []
run_group_ids (g ∷ gs) = g.id ∷ run_group_ids gs

-- The loop that looks each id up in the map of the ids before it, and then adds it.
unfoldable pub check_unique : (String → Error) → List String → List String → Res Error (Unit {0})
check_unique e seen [] = ok tt
check_unique e seen (id ∷ ids) =
    if contains id seen then err (e id) else check_unique e (id ∷ seen) ids

unfoldable pub check_builders : Global → List Group → Res Error (Unit {0})
check_builders global [] = ok tt
check_builders global (g ∷ gs) =
    if is_empty g.builder && is_empty global.builder
    then err (missing_builder g.id)
    else check_builders global gs

-- Groups.Validate
unfoldable pub validate_groups : List Group → Composition → Res Error (Unit {0})
validate_groups gs c = do
  x ← check_unique duplicate_group [] (group_ids gs)
  check_builders c.global gs

-- The loops of Runs.Validate: over the groups of a run, over the runs, and over the runs once more.
unfoldable pub check_references : Composition → TestRun → List RunGroup → Res Error (Unit {0})
check_references c r [] = ok tt
check_references c r (g ∷ gs) =
    if not (is_ok (get_group c (effective_group_id g)))
    then err (no_such_group r.id g.id (effective_group_id g))
    else check_references c r gs

unfoldable pub check_run_groups : Composition → List TestRun → Res Error (Unit {0})
check_run_groups c [] = ok tt
check_run_groups c (r ∷ rs) = do
  x ← check_references c r r.groups
  y ← check_unique (duplicate_run_group r.id) [] (run_group_ids r.groups)
  check_run_groups c rs

module _ (fl : Floats) where
  unfoldable pub recount : List TestRun → Res Error (List TestRun)
  recount [] = ok []
  recount (r ∷ rs) = do r' ← recalculate_instance_counts fl r; rs' ← recount rs; ok (r' ∷ rs')

  -- Runs.Validate, with the runs as it leaves them. On an error the runs counted so far keep their
  -- counts in Go; the callers give the composition up, so they are not returned here.
  unfoldable pub validate_runs : List TestRun → Composition → Res Error (List TestRun)
  validate_runs rs c = do
    x ← check_unique duplicate_run [] (run_ids rs)
    y ← check_run_groups c rs
    recount rs

  -- ValidateForRun
  unfoldable pub validate_for_run :
      (Composition → Res Error (Unit {0})) → Composition → Res Error Composition
  validate_for_run tags c = do
    x ← tags c
    y ← validate_groups c.groups c
    rs ← validate_runs c.runs c
    ok (record c { runs = rs })

  -- ValidateInstances
  unfoldable pub instances_valid : Counts → Bool
  instances_valid i =
      (i.count == 0 || fl.is_zero i.percentage) && fl.positive (fl.plus_count i.count i.percentage)

-- ValidateForBuild, where the tags of some fields are left out.
unfoldable pub validate_for_build :
    (Composition → Res Error (Unit {0})) → Composition → Res Error (Unit {0})
validate_for_build tags_but_run c = do x ← tags_but_run c; validate_groups c.groups c
