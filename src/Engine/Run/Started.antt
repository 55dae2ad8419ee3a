-- ===== src/Engine/Run/Started.antt =====
-- What doRun has established where it calls the runner.
use canary_testing.Prelude.{
  String, false, List, [], ◌∷◌, ◌≡◌, refl, ap, subst, Perm, str_eq, Bool-cases, inl, inr,
}
use canary_testing.Prelude.Run.{Res, ok, done}
use canary_testing.Prelude.Res.{>>=-eq-ok, ok-functional, guard-eq-ok}
use canary_testing.Prelude.Call.{◌>>=◌, call-ok, done-functional}
use canary_testing.Manifest.{lookup}
use canary_testing.Manifest.{Error as ApiError}
use canary_testing.Composition.{TestRun, Composition}
use canary_testing.Composition.Instances.{Floats}
use canary_testing.Composition.Instances.Counting.{sum_counts, Recounted}
use canary_testing.Composition.Select.{find_run, get_run, frame_for_runs}
use canary_testing.Composition.Prepare.{to_int, prepare_for_run}
use canary_testing.Composition.Validate.{validate_for_run, validate_groups, validate_runs}
use canary_testing.Composition.Validate.Valid.{AllRecounted, validate_runs-ValidRuns}
use canary_testing.Engine.Component.{from_api, runner_disabled, JobGroup, RunJob, Runner}
use canary_testing.Engine.Build.Shared.{from_api-ok}
use canary_testing.Engine.Build.{clean}
use canary_testing.Engine.Run.{
  Request, RunSetup, with_builds, runner_health, is_disabled, check_enabled, single_run, job_groups,
  start_run, prepared_for, checked_runner, job_of,
}
use canary_testing.Engine.Run.Groups.{Assigned, frame_for_runs-Assigned}

find_run-Recounted :
    (fl : Floats) (rs0 rs : List TestRun) (id : String) (r : TestRun)
    → AllRecounted fl rs0 rs
    → find_run rs id ≡ ok r
    → (r0 : TestRun) × Recounted fl r0 r
unfolding AllRecounted find_run
find_run-Recounted fl [] [] id r a h = cc
find_run-Recounted fl [] (x ∷ xs) id r a h = absurd a
find_run-Recounted fl (y ∷ ys) [] id r a h = absurd a
find_run-Recounted fl (y ∷ ys) (x ∷ xs) id r (a, rest) h = elim (Bool-cases (str_eq x.id id)) [
  | inl e ↦ (y, subst (Recounted fl y) (ok-functional refl (rw e at h)) a)
  | inr e ↦ find_run-Recounted fl ys xs id r rest (rw e at h)
]

validate_for_run-Recounted :
    (fl : Floats) (tags : Composition → Res ApiError (Unit {0})) (c c' : Composition) (id : String)
    (r : TestRun)
    → validate_for_run fl tags c ≡ ok c'
    → get_run c' id ≡ ok r
    → (r0 : TestRun) × Recounted fl r0 r
unfolding validate_for_run get_run
validate_for_run-Recounted fl tags c c' id r h hr =
    let (x, hx, h1) = >>=-eq-ok (tags c) _ h in
    let (y, hy, h2) = >>=-eq-ok (validate_groups c.groups c) _ h1 in
    let (rs, hs, h3) = >>=-eq-ok (validate_runs fl c.runs c) _ h2 in
    let v = validate_runs-ValidRuns fl c.runs c rs hs in
    let same = ap (λ (k : Composition). k.runs) (ok-functional refl h3) in
    find_run-Recounted fl c.runs rs id r v.recounted (rw (← same) at hr)

single_run-one : (ids : List String) (id : String) → single_run ids ≡ done (ok id) → ids ≡ id ∷ []
unfolding single_run
single_run-one [] id h = cc
single_run-one (x ∷ []) id h = ap (λ i. i ∷ []) (ok-functional refl (done-functional refl h))
single_run-one (x ∷ y ∷ ys) id h = cc

-- The composition is prepared and valid.
pub record PreparedFor (s : RunSetup) (q : Request) (comp : Composition) : Type 0 where
  pub built : Composition
  pub prepared : Composition
  pub builds : with_builds s q ≡ done (ok built)
  pub is_prepared : prepare_for_run s.merge s.floats q.manifest built ≡ ok prepared
  pub is_valid : validate_for_run s.floats s.build.tags prepared ≡ ok comp

prepared_for-PreparedFor :
    (s : RunSetup) (q : Request) (comp : Composition)
    → prepared_for s q ≡ done (ok comp)
    → PreparedFor s q comp
unfolding prepared_for
prepared_for-PreparedFor s q comp h =
    let (c, hc, h1) = call-ok (with_builds s q) _ h in
    let prepare = prepare_for_run s.merge s.floats q.manifest c in
    let (p, hp, h2) = call-ok (done (from_api prepare)) _ h1 in
    record {
      built = c;
      prepared = p;
      builds = hc;
      is_prepared = from_api-ok prepare (done-functional refl hp);
      is_valid = from_api-ok (validate_for_run s.floats s.build.tags p) (done-functional refl h2);
    }

checked_runner-enabled :
    (s : RunSetup) (comp : Composition) (rc : Runner × String)
    → checked_runner s comp ≡ done (ok rc)
    → is_disabled (s.runner_config comp.global.runner) ≡ false
unfolding checked_runner check_enabled
checked_runner-enabled s comp rc h =
    let env = s.runner_config comp.global.runner in
    let (x, hx, h1) = call-ok (done (runner_health (lookup comp.global.runner s.runners))) _ h in
    let (y, hy, h2) = call-ok (done (check_enabled env)) _ h1 in
    (guard-eq-ok (is_disabled env) runner_disabled (done-functional refl hy)).0

-- The run of a composition that the runner is given.
pub record JobOf (comp : Composition) (run_id : String) (job : RunJob) : Type 0 where
  pub the_run : TestRun
  pub found : get_run comp run_id ≡ ok the_run
  pub total : job.total_instances ≡ to_int the_run.total_instances
  pub assigned : Assigned comp the_run.groups job.groups

job_of-JobOf :
    (s : RunSetup) (comp : Composition) (run_id id config : String) (job : RunJob)
    → ((ks : List String) → Perm (s.required ks) ks)
    → job_of s comp run_id id config ≡ done (ok job)
    → JobOf comp run_id job
unfolding job_of
job_of-JobOf s comp run_id id config job perm h =
    let framing = frame_for_runs s.required comp (run_id ∷ []) in
    let (framed, hf, h1) = call-ok (done (from_api framing)) _ h in
    let (r, js, hr, first, hj, a) =
      frame_for_runs-Assigned s.required comp run_id framed perm
        (from_api-ok framing (done-functional refl hf)) in
    let next =
      λ (k : TestRun). job_groups framed k.groups >>= λ groups. done (ok (job_with k groups)) in
    let g : next r ≡ done (ok job) = rw first at h1 in
    let e : done (ok (job_with r js)) ≡ done (ok job) = rw hj at g in
    subst (JobOf comp run_id) (ok-functional refl (done-functional refl e))
      (record { the_run = r; found = hr; total = refl; assigned = a })
  where
    job_with : TestRun → List JobGroup → RunJob
    job_with r groups = record {
      run_id = id;
      config = config;
      test_plan = clean comp.global.plan;
      test_case = clean comp.global.case;
      total_instances = to_int r.total_instances;
      groups = groups;
      disable_metrics = comp.global.disable_metrics;
    }

-- What doRun has established where it calls the runner.
pub record StartedRun (s : RunSetup) (q : Request) (comp : Composition) (job : RunJob)
    : Type 0 where
  pub composition : PreparedFor s q comp
  pub enabled : is_disabled (s.runner_config comp.global.runner) ≡ false
  pub run_id : String
  pub one_run : q.run_ids ≡ run_id ∷ []
  pub given : JobOf comp run_id job
  pub total_is_sum : given.the_run.total_instances ≡ sum_counts 0 given.the_run.groups

started-lem :
    (s : RunSetup) (q : Request) (comp : Composition) (job : RunJob) (run_id : String)
    → PreparedFor s q comp
    → is_disabled (s.runner_config comp.global.runner) ≡ false
    → q.run_ids ≡ run_id ∷ []
    → JobOf comp run_id job
    → StartedRun s q comp job
started-lem s q comp job run_id p enabled one given =
    let (r0, counted) =
      validate_for_run-Recounted s.floats s.build.tags p.prepared comp run_id given.the_run
        p.is_valid given.found in
    record {
      composition = p;
      enabled = enabled;
      run_id = run_id;
      one_run = one;
      given = given;
      total_is_sum = counted.total_is_sum;
    }

-- Where doRun comes to the call of its runner, the composition that it returns, with the artifacts of
-- the builds that came first, is prepared and valid, the runner is not disabled, exactly one run was
-- asked for, and the runner is given this run: its total, which is the sum of the counts of its groups,
-- and its groups in order, each with the artifact of the group of the composition that it is of.
pub start_run-StartedRun :
    (s : RunSetup) (id : String) (q : Request) (runner : Runner) (comp : Composition) (job : RunJob)
    → ((ks : List String) → Perm (s.required ks) ks)
    → start_run s id q ≡ done (ok (runner, comp, job))
    → StartedRun s q comp job
unfolding start_run
start_run-StartedRun s id q runner comp job perm h =
    let (v, hv, h1) = call-ok (prepared_for s q) _ h in
    let (rc, hrc, h2) = call-ok (checked_runner s v) _ h1 in
    let (run_id, hid, h3) = call-ok (single_run q.run_ids) _ h2 in
    let (j, hj, h4) = call-ok (job_of s v run_id id rc.1) _ h3 in
    let last = ok-functional refl (done-functional refl h4) in
    subst (λ (k : Runner × Composition × RunJob). StartedRun s q k.1 k.2) last
      (started-lem s q v j run_id (prepared_for-PreparedFor s q v hv)
        (checked_runner-enabled s v rc hrc) (single_run-one q.run_ids run_id hid)
        (job_of-JobOf s v run_id id rc.1 j perm hj))
