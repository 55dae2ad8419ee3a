-- ===== src/Composition/Prepare.antt =====
-- pkg/api/composition_preparation.go, PrepareForBuild and PrepareForRun of compositions, runs and
-- groups, with merge and mergeRun of pkg/api/composition.go. `mergo.Merge` is a parameter. A
-- BuildConfig or RunConfig that is not nil is shared with the composition that is prepared, in which
-- Go fills the defaults too; here only the prepared value is returned. The texts that wrap an error
-- are left out.
pub mod Build
pub mod Run
use canary_testing.Prelude.{
  ℕ, ◌+◌, ◌-◌, ◌^◌, String, Bool, true, false, not, ◌||◌, List, [], ◌∷◌, Option, none, some, ltb,
  if◌then◌else◌,
}
use canary_testing.Prelude.Text.{is_empty}
use canary_testing.Prelude.Int.{ℤ, pos, negsuc, ltb_ℤ}
use canary_testing.Prelude.Run.{Res, ok, err}
use canary_testing.Prelude.Res.{◌>>=◌}
use canary_testing.Manifest.{
  ConfigMap, TestCase, TestPlanManifest, Error, no_builders, no_runners, builder_unsupported,
  runner_unsupported, test_case_not_found, out_of_range, lookup, has_builder, has_runner,
  test_case_by_name, default_parameters,
}
use canary_testing.Composition.{
  Resources, Counts, Dependency, RunParams, Global, Group, RunGroup, TestRun, Composition,
  effective_group_id, generate_default_run,
}
use canary_testing.Composition.Select.{get_group}
use canary_testing.Composition.Defaults.{fill, default_build}
use canary_testing.Composition.Instances.{Floats, recalculate_instance_counts}

unfoldable pub or_empty : Option ConfigMap → ConfigMap
or_empty none = []
or_empty (some m) = m

-- The builder of a group: its own, or the global one.
unfoldable pub builder_of : Composition → Group → String
builder_of c g = if is_empty g.builder then c.global.builder else g.builder

module _ (order : List Dependency → List Dependency) where
  -- Group.PrepareForBuild
  unfoldable pub prepare_group : TestPlanManifest → Composition → Group → Res Error Group
  unfolding or_empty
  prepare_group m c g =
      let builder = builder_of c g in
      if not (has_builder m builder)
      then err (builder_unsupported c.global.builder)
      else ok (record g {
        builder = builder;
        build_config =
            fill (fill g.build_config c.global.build_config) (or_empty (lookup builder m.builders));
        build = default_build order g.build c.global.build;
      })

  unfoldable pub prepare_groups :
      TestPlanManifest → Composition → List Group → Res Error (List Group)
  prepare_groups m c [] = ok []
  prepare_groups m c (g ∷ gs) = do
    g' ← prepare_group m c g
    gs' ← prepare_groups m c gs
    ok (g' ∷ gs')

  with_builders : TestPlanManifest → Composition → List (String × ConfigMap) → Res Error Composition
  with_builders m c [] = err no_builders
  with_builders m c (b ∷ bs) = do
    groups ← prepare_groups m c c.groups
    ok (record c { groups = groups })

  -- Composition.PrepareForBuild
  unfoldable pub prepare_for_build : TestPlanManifest → Composition → Res Error Composition
  unfolding with_builders
  prepare_for_build m c =
      with_builders m (record c { global = record (c.global) { plan = m.name } }) m.builders

-- mergo.Merge at the types it is called with: the first argument with the second merged into it.
pub record Merge : Type 0 where
  pub params : List (String × String) → List (String × String) → Res Error (List (String × String))
  pub resources : Resources → Resources → Res Error Resources
  pub counts : Counts → Counts → Res Error Counts

-- int(u) of a `uint`, both of 64 bits
unfoldable pub to_int : ℕ → ℤ
to_int n = if ltb n (2 ^ 63) then pos n else negsuc (2 ^ 64 - 1 - n)

module _ (mg : Merge) (fl : Floats) where
  -- mergeRun
  unfoldable pub merge_run : RunGroup → RunParams → Res Error RunGroup
  merge_run g other = do
    params ← mg.params g.test_params other.test_params
    profiles ← mg.params g.profiles other.profiles
    ok (record g { test_params = params; profiles = profiles })

  -- merge
  unfoldable pub merge_group : RunGroup → Group → Res Error RunGroup
  merge_group g other = do
    resources ← mg.resources g.resources other.resources
    instances ← mg.counts g.instances other.instances
    merge_run (record g { resources = resources; instances = instances }) other.run

  merge_global : RunGroup → Option RunParams → Res Error RunGroup
  merge_global g none = ok g
  merge_global g (some p) = do
    g1 ← merge_run g p
    params ← mg.params g1.test_params p.test_params
    ok (record g1 { test_params = params })

  -- CompositionRunGroup.PrepareForRun
  unfoldable pub prepare_run_group :
      TestPlanManifest → Composition → TestRun → RunGroup → Res Error RunGroup
  unfolding merge_global
  prepare_run_group m c r g = do
    params ← mg.params g.test_params r.test_params
    build_group ← get_group c (effective_group_id g)
    g1 ← merge_group (record g { test_params = params }) build_group
    g2 ← merge_global g1 c.global.run
    defaults ← default_parameters m c.global.case
    merged ← mg.params g2.test_params defaults
    ok (record g2 { test_params = merged })

  unfoldable pub prepare_run_groups :
      TestPlanManifest → Composition → TestRun → List RunGroup → Res Error (List RunGroup)
  prepare_run_groups m c r [] = ok []
  prepare_run_groups m c r (g ∷ gs) = do
    g' ← prepare_run_group m c r g
    gs' ← prepare_run_groups m c r gs
    ok (g' ∷ gs')

  unfoldable pub check_bounds : Option (ℕ × TestCase) → TestRun → Res Error TestRun
  check_bounds none r = err test_case_not_found
  check_bounds (some (i, tc)) r =
      let t = to_int r.total_instances in
      if ltb_ℤ t tc.instances.minimum || ltb_ℤ tc.instances.maximum t
      then err (out_of_range t)
      else ok r

  -- Run.PrepareForRun
  unfoldable pub prepare_run : TestPlanManifest → Composition → TestRun → Res Error TestRun
  prepare_run m c r = do
    groups ← prepare_run_groups m c r r.groups
    r' ← recalculate_instance_counts fl (record r { groups = groups })
    check_bounds (test_case_by_name m c.global.case) r'

  unfoldable pub prepare_runs :
      TestPlanManifest → Composition → List TestRun → Res Error (List TestRun)
  prepare_runs m c [] = ok []
  prepare_runs m c (r ∷ rs) = do r' ← prepare_run m c r; rs' ← prepare_runs m c rs; ok (r' ∷ rs')

  -- The global part for a run: the plan of the manifest, and the defaults of the runner.
  unfoldable pub run_global : TestPlanManifest → Global → Global
  unfolding or_empty
  run_global m g = record g {
    plan = m.name;
    run_config = fill g.run_config (or_empty (lookup g.runner m.runners));
  }

  check_runner : TestPlanManifest → String → List (String × ConfigMap) → Res Error (Unit {0})
  check_runner m runner [] = err no_runners
  check_runner m runner (x ∷ xs) =
      if not (has_runner m runner) then err (runner_unsupported runner) else ok tt

  check_case : Option (ℕ × TestCase) → Res Error (Unit {0})
  check_case none = err test_case_not_found
  check_case (some tc) = ok tt

  -- Composition.PrepareForRun
  unfoldable pub prepare_for_run : TestPlanManifest → Composition → Res Error Composition
  unfolding check_runner check_case
  prepare_for_run m c0 = do
    let c1 = generate_default_run c0
    x ← check_case (test_case_by_name m c1.global.case)
    y ← check_runner m c1.global.runner m.runners
    let c = record c1 { global = run_global m c1.global }
    runs ← prepare_runs m c c.runs
    ok (record c { runs = runs })
