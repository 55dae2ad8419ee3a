-- ===== src/Engine/Run/Groups.antt =====
-- The groups that doRun gives to the runner.
use canary_testing.Prelude.{
  String, true, List, [], ◌∷◌, ◌≡◌, refl, subst, Perm, str_eq, eq_iff, Bool-cases, inl, inr,
}
use canary_testing.Prelude.Run.{ok, done}
use canary_testing.Prelude.Res.{ok-functional}
use canary_testing.Composition.{
  Group, RunGroup, TestRun, Composition, effective_group_id, group_ids,
}
use canary_testing.Composition.Select.{contains, find_group, get_group, get_run, frame_for_runs}
use canary_testing.Composition.Select.Frame.{
  AllRefer, GroupsFound, Refers, RunsFound, frame_for_runs-Framed,
}
use canary_testing.Composition.Prepare.{to_int}
use canary_testing.Engine.Component.{from_api, JobGroup}
use canary_testing.Engine.Run.{first_run, job_group, job_groups}

-- A group of the runner: the id, the number of instances, parameters and profiles are those of the
-- group of the run, and the artifact that of the group of the composition that it is of.
pub record AssignedGroup (c : Composition) (g : RunGroup) (j : JobGroup) : Type 0 where
  pub id : j.id ≡ g.id
  pub instances : j.instances ≡ to_int g.calculated_instance_cnt
  pub parameters : (j.parameters ≡ g.test_params) × (j.profiles ≡ g.profiles)
  pub resources : j.resources ≡ g.resources
  pub built : Group
  pub built_found : get_group c (effective_group_id g) ≡ ok built
  pub artifact : j.artifact_path ≡ built.run.artifact

unfoldable pub Assigned : Composition → List RunGroup → List JobGroup → Type 0
Assigned c [] [] = Unit {0}
Assigned c (g ∷ gs) (j ∷ js) = AssignedGroup c g j × Assigned c gs js
Assigned c gs js = ⊥

find_group-there :
    (gs : List Group) (k : String)
    → contains k (group_ids gs) ≡ true
    → (g : Group) × (find_group gs k ≡ ok g)
unfolding find_group contains group_ids
find_group-there [] k h = cc
find_group-there (x ∷ xs) k h = elim (Bool-cases (str_eq x.id k)) [
  | inl e ↦ (x, rw e)
  | inr e ↦ let (g, hg) = find_group-there xs k (rw e at h) in (g, rw e hg)
]

-- A group that is found in the framed composition is the one of the whole composition.
find_group-framed :
    (c : Composition) (gs : List Group) (k : String) (g : Group)
    → GroupsFound c gs
    → find_group gs k ≡ ok g
    → get_group c k ≡ ok g
unfolding find_group GroupsFound
find_group-framed c [] k g f h = cc
find_group-framed c (x ∷ xs) k g (f, fs) h = elim (Bool-cases (str_eq x.id k)) [
  | inl e ↦ let same = ok-functional refl (rw e at h) in rw (← (eq_iff x.id k).0 e, ← same) f
  | inr e ↦ find_group-framed c xs k g fs (rw e at h)
]

job_groups-Assigned :
    (c c' : Composition) (gs : List RunGroup)
    → GroupsFound c c'.groups
    → Refers (group_ids c'.groups) gs
    → (js : List JobGroup) × (job_groups c' gs ≡ done (ok js)) × Assigned c gs js
unfolding job_groups Refers Assigned get_group job_group from_api
job_groups-Assigned c c' [] f r = ([], refl, tt)
job_groups-Assigned c c' (g ∷ gs) f (r, rs) =
    let (b, hb) = find_group-there c'.groups (effective_group_id g) r in
    let (js, hj, a) = job_groups-Assigned c c' gs f rs in
    (
      job_group g b ∷ js,
      rw (hb, hj),
      (
        record {
          id = refl;
          instances = refl;
          parameters = (refl, refl);
          resources = refl;
          built = b;
          built_found = find_group-framed c c'.groups (effective_group_id g) b f hb;
          artifact = refl;
        },
        a,
      ),
    )

-- The run that is found in a framed composition of one run.
RunsFound-one :
    (c : Composition) (id : String) (rs : List TestRun)
    → RunsFound c (id ∷ []) rs
    → (r : TestRun) × (rs ≡ r ∷ []) × (get_run c id ≡ ok r)
unfolding RunsFound
RunsFound-one c id [] h = absurd h
RunsFound-one c id (r ∷ []) (h, u) = (r, refl, h)
RunsFound-one c id (r ∷ r' ∷ rs) (h, u) = absurd u

-- Where FrameForRuns finds a run, the rest of doRun before the runner cannot fail: the first run is
-- there, and the loop over its groups finds the group of the composition that each of them is of, and
-- takes the artifact from it.
pub frame_for_runs-Assigned :
    (order : List String → List String) (c : Composition) (id : String) (c' : Composition)
    → ((ks : List String) → Perm (order ks) ks)
    → frame_for_runs order c (id ∷ []) ≡ ok c'
    → (r : TestRun) × (js : List JobGroup) × (get_run c id ≡ ok r)
      × (first_run c'.runs ≡ done (ok r))
      × (job_groups c' r.groups ≡ done (ok js))
      × Assigned c r.groups js
unfolding first_run AllRefer
frame_for_runs-Assigned order c id c' perm h =
    let f = frame_for_runs-Framed order c (id ∷ []) c' perm h in
    let (r, one, found) = RunsFound-one c id c'.runs f.runs_found in
    let closed = subst (AllRefer (group_ids c'.groups)) one f.closed in
    let (js, hj, a) = job_groups-Assigned c c' r.groups f.groups_found closed.0 in
    (r, js, found, rw one, hj, a)
