-- ===== src/Composition/Prepare/Run.antt =====
-- What PrepareForRun of a composition establishes.
use canary_testing.Prelude.{
  ℕ, String, Bool, true, false, not, ◌||◌, List, [], ◌∷◌, ◌≡◌, ◌≢◌, refl, ap, subst, ◌∙◌, Option,
  none, some, arith,
}
use canary_testing.Prelude.Int.{ltb_ℤ}
use canary_testing.Prelude.Run.{ok}
use canary_testing.Prelude.Res.{>>=-eq-ok, guard-eq-ok, ok-functional}
use canary_testing.Manifest.{
  ConfigMap, TestCase, TestPlanManifest, lookup, has_runner, out_of_range, runner_unsupported,
  test_case_by_name,
}
use canary_testing.Composition.{Global, TestRun, Composition, with_default, generate_default_run}
use canary_testing.Composition.Defaults.Kept.{or_default, fill-lookup}
use canary_testing.Composition.Instances.{recalculate_instance_counts, Floats}
use canary_testing.Composition.Instances.Counting.{sum_counts, recalculate-Recounted}
use canary_testing.Composition.Prepare.{
  Merge, or_empty, to_int, prepare_run_groups, check_bounds, prepare_run, prepare_runs, run_global,
  check_runner, check_case, prepare_for_run,
}

-- A run whose total is the sum of the counts of its groups and within the bounds of a test case.
pub record InBounds (tc : TestCase) (r r' : TestRun) : Type 0 where
  pub total_is_sum : r'.total_instances ≡ sum_counts 0 r'.groups
  pub as_asked : r.total_instances ≢ 0 → r'.total_instances ≡ r.total_instances
  pub at_least : ltb_ℤ (to_int r'.total_instances) tc.instances.minimum ≡ false
  pub at_most : ltb_ℤ tc.instances.maximum (to_int r'.total_instances) ≡ false

unfoldable pub AllInBounds : TestCase → List TestRun → List TestRun → Type 0
AllInBounds tc [] [] = Unit {0}
AllInBounds tc (r ∷ rs) (r' ∷ rs') = InBounds tc r r' × AllInBounds tc rs rs'
AllInBounds tc rs rs' = ⊥

with_default-global : (c : Composition) (rs : List TestRun) → (with_default c rs).global ≡ c.global
unfolding with_default
with_default-global c [] = refl
with_default-global c (r ∷ rs) = refl

same_global : (c : Composition) → (generate_default_run c).global ≡ c.global
unfolding generate_default_run
same_global c = with_default-global c c.runs

neither : (a b : Bool) → a || b ≡ false → (a ≡ false) × (b ≡ false)
neither true b h = cc
neither false b h = (refl, h)

module _ (mg : Merge) (fl : Floats) (m : TestPlanManifest) where
  check_bounds-InBounds :
      (i : ℕ) (tc : TestCase) (r r1 r' : TestRun)
      → r1.total_instances ≡ sum_counts 0 r1.groups
      → (r.total_instances ≢ 0 → r1.total_instances ≡ r.total_instances)
      → check_bounds mg fl (some (i, tc)) r1 ≡ ok r'
      → InBounds tc r r'
  unfolding check_bounds
  check_bounds-InBounds i tc r r1 r' s a h =
      let t = to_int r1.total_instances in
      let (b, h1) =
        guard-eq-ok (ltb_ℤ t tc.instances.minimum || ltb_ℤ tc.instances.maximum t) (out_of_range t)
          h in
      let (low, high) = neither (ltb_ℤ t tc.instances.minimum) (ltb_ℤ tc.instances.maximum t) b in
      subst (InBounds tc r) (ok-functional refl h1)
        (record { total_is_sum = s; as_asked = a; at_least = low; at_most = high })

  prepare_run-InBounds :
      (c : Composition) (i : ℕ) (tc : TestCase) (r r' : TestRun)
      → test_case_by_name m c.global.case ≡ some (i, tc)
      → prepare_run mg fl m c r ≡ ok r'
      → InBounds tc r r'
  unfolding prepare_run
  prepare_run-InBounds c i tc r r' e h =
      let (gs, hg, h1) = >>=-eq-ok (prepare_run_groups mg fl m c r r.groups) _ h in
      let counted = recalculate_instance_counts fl (record r { groups = gs }) in
      let (r1, hr, h2) = >>=-eq-ok counted _ h1 in
      let re = recalculate-Recounted fl (record r { groups = gs }) r1 hr in
      check_bounds-InBounds i tc r r1 r' re.total_is_sum re.as_asked (rw e at h2)

  prepare_runs-AllInBounds :
      (c : Composition) (i : ℕ) (tc : TestCase) (rs rs' : List TestRun)
      → test_case_by_name m c.global.case ≡ some (i, tc)
      → prepare_runs mg fl m c rs ≡ ok rs'
      → AllInBounds tc rs rs'
  unfolding prepare_runs AllInBounds
  prepare_runs-AllInBounds c i tc [] rs' e h = subst (AllInBounds tc []) (ok-functional refl h) tt
  prepare_runs-AllInBounds c i tc (r ∷ rs) rs' e h =
      let (r', hr, h1) = >>=-eq-ok (prepare_run mg fl m c r) _ h in
      let (rest, hs, h2) = >>=-eq-ok (prepare_runs mg fl m c rs) _ h1 in
      subst (AllInBounds tc (r ∷ rs)) (ok-functional refl h2)
        (prepare_run-InBounds c i tc r r' e hr, prepare_runs-AllInBounds c i tc rs rest e hs)

  -- What PrepareForRun establishes where it returns no error.
  pub record PreparedRun (c c' : Composition) : Type 0 where
    pub plan : c'.global.plan ≡ m.name
    pub index : ℕ
    pub test_case : TestCase
    pub found : test_case_by_name m c.global.case ≡ some (index, test_case)
    pub supported : has_runner m c.global.runner ≡ true
    pub config :
        (k : String)
        → lookup k c'.global.run_config
          ≡ or_default
              (lookup k c.global.run_config)
              (lookup k (or_empty (lookup c.global.runner m.runners)))
    pub runs : AllInBounds test_case (generate_default_run c).runs c'.runs

  check_case-some :
      (o : Option (ℕ × TestCase))
      → check_case mg fl o ≡ ok tt
      → (i : ℕ) × (tc : TestCase) × (o ≡ some (i, tc))
  unfolding check_case
  check_case-some none h = cc
  check_case-some (some (i, tc)) h = (i, tc, refl)

  check_runner-supported :
      (runner : String) (l : List (String × ConfigMap))
      → check_runner mg fl m runner l ≡ ok tt
      → has_runner m runner ≡ true
  unfolding check_runner
  check_runner-supported runner [] h = cc
  check_runner-supported runner (x ∷ xs) h =
      let (n, h1) = guard-eq-ok (not (has_runner m runner)) (runner_unsupported runner) h in
      ground arith

  config_from :
      (g g0 : Global)
      → g ≡ g0
      → (k : String)
      → lookup k (run_global mg fl m g).run_config
        ≡ or_default (lookup k g0.run_config) (lookup k (or_empty (lookup g0.runner m.runners)))
  unfolding run_global
  config_from g g0 e k =
      let defaults = or_empty (lookup g.runner m.runners) in
      fill-lookup g.run_config defaults k
      ∙ ap
          (λ (x : Global).
            or_default (lookup k x.run_config) (lookup k (or_empty (lookup x.runner m.runners))))
          e

  -- PrepareForRun, where it returns no error: the test case is in the manifest and the runner is
  -- supported, the plan is the manifest's name, under each key the configuration is what was set, else
  -- that of the manifest for the runner, and each run, the default one if there was none, has as its
  -- total the sum of the counts of its groups, which is the total asked for if one was, within the
  -- bounds of the test case.
  pub prepare_for_run-PreparedRun :
      (c c' : Composition) → prepare_for_run mg fl m c ≡ ok c' → PreparedRun c c'
  unfolding prepare_for_run run_global
  prepare_for_run-PreparedRun c c' h =
      let c1 = generate_default_run c in
      let (x, hx, h1) = >>=-eq-ok (check_case mg fl (test_case_by_name m c1.global.case)) _ h in
      let (y, hy, h2) = >>=-eq-ok (check_runner mg fl m c1.global.runner m.runners) _ h1 in
      let c2 = record c1 { global = run_global mg fl m c1.global } in
      let (rs, hr, h3) = >>=-eq-ok (prepare_runs mg fl m c2 c1.runs) _ h2 in
      let (i, tc, found) = check_case-some (test_case_by_name m c1.global.case) hx in
      subst (PreparedRun c) (ok-functional refl h3) (record {
        plan = refl;
        index = i;
        test_case = tc;
        found = rw (← same_global c) found;
        supported = rw (← same_global c) (check_runner-supported c1.global.runner m.runners hy);
        config = λ k. config_from c1.global c.global (same_global c) k;
        runs = prepare_runs-AllInBounds c2 i tc c1.runs rs found hr;
      })
