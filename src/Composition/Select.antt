-- ===== src/Composition/Select.antt =====
-- The choice of runs and groups of a composition, of pkg/api/composition.go: GetGroup, getRun,
-- FrameForRuns. The order in which Go ranges over a map is a parameter.
pub mod Frame
pub mod Pick
use canary_testing.Prelude.{
  ℕ, String, Bool, true, false, not, List, [], ◌∷◌, ◌≡◌, Perm, str_eq, if◌then◌else◌, length, ltb,
  get_elem?,
}
use canary_testing.Prelude.Run.{Res, ok, err}
use canary_testing.Prelude.Res.{◌>>=◌}
use canary_testing.Manifest.{Error, unknown_run, unknown_group}
use canary_testing.Composition.{Group, RunGroup, TestRun, Composition, effective_group_id}

-- The loops of getRun and GetGroup.
unfoldable pub find_run : List TestRun → String → Res Error TestRun
find_run [] id = err (unknown_run id)
find_run (r ∷ rs) id = if str_eq r.id id then ok r else find_run rs id

unfoldable pub find_group : List Group → String → Res Error Group
find_group [] id = err (unknown_group id)
find_group (g ∷ gs) id = if str_eq g.id id then ok g else find_group gs id

unfoldable pub get_run : Composition → String → Res Error TestRun
get_run c id = find_run c.runs id

unfoldable pub get_group : Composition → String → Res Error Group
get_group c id = find_group c.groups id

-- The keys of a `map[string]bool`: whether one is there, and the keys with one more.
unfoldable pub contains : String → List String → Bool
contains k [] = false
contains k (j ∷ js) = if str_eq j k then true else contains k js

unfoldable pub add_key : String → List String → List String
unfolding contains
add_key k ks = if contains k ks then ks else k ∷ ks

-- requiredGroupsIds, with the groups of one run.
unfoldable pub add_groups : List RunGroup → List String → List String
add_groups [] ks = ks
add_groups (g ∷ gs) ks = add_groups gs (add_key (effective_group_id g) ks)

-- The first loop of FrameForRuns: the runs, and requiredGroupsIds.
unfoldable pub gather :
    Composition → List String → List String → Res Error (List TestRun × List String)
gather c [] ks = ok ([], ks)
gather c (id ∷ ids) ks = do
  r ← get_run c id
  (rs, all) ← gather c ids (add_groups r.groups ks)
  ok (r ∷ rs, all)

-- The second loop.
unfoldable pub gather_groups : Composition → List String → Res Error (List Group)
gather_groups c [] = ok []
gather_groups c (k ∷ ks) = do g ← get_group c k; gs ← gather_groups c ks; ok (g ∷ gs)

-- FrameForRuns, where `order` is the order in which the map is ranged over.
unfoldable pub frame_for_runs :
    (List String → List String) → Composition → List String → Res Error Composition
frame_for_runs order c ids = do
  (runs, required) ← gather c ids []
  groups ← gather_groups c (order required)
  ok (record c { groups = groups; runs = runs })
