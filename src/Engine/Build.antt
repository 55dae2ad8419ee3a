-- ===== src/Engine/Build.antt =====
-- doBuild of pkg/engine/supervisor.go. The jobs of its errgroup write to different positions, so they
-- are taken one after the other, in the order in which they end; an error of one is what Wait returns,
-- and the outputs of the others are given up. The order in which the map of build keys is ranged over,
-- and that in which the jobs end, are parameters.
pub mod Positions
pub mod Shared
pub mod Stored
use Prim.Native.Char.{code}
use canary_testing.Prelude.{
  ℕ, zero, suc, ◌+◌, String, Bool, true, false, List, [], ◌∷◌, ◌++◌, Option, none, some, str_eq,
  ◌==◌, length, get_elem?, set, if◌then◌else◌,
}
use canary_testing.Prelude.Text.{◌⧺◌, is_empty, format_int}
use canary_testing.Prelude.Run.{Run, Res, ok, err, done, panic, expect}
use canary_testing.Prelude.Call.{Call, ◌>>=◌, lift}
use canary_testing.Manifest.{ConfigMap, TestPlanManifest, lookup}
use canary_testing.Manifest.{Error as ApiError}
use canary_testing.Composition.{Dependency, Group, Composition}
use canary_testing.Composition.BuildKey.{group_build_key, list_builders}
use canary_testing.Composition.Defaults.{as_map}
use canary_testing.Composition.Prepare.{prepare_for_build}
use canary_testing.Composition.Validate.{validate_for_build}
use canary_testing.Engine.Component.{
  Error, from_api, unrecognized_builder, copy_failed, coalesce_failed, component_failed, coalesced,
  Sources, BuildJob, BuildOutput, Builder, check_health,
}

-- uniq[k] = append(uniq[k], idx)
unfoldable pub add_index : String → ℕ → List (String × List ℕ) → List (String × List ℕ)
add_index k idx [] = (k, idx ∷ []) ∷ []
add_index k idx ((j, idxs) ∷ m) =
    if str_eq j k then (j, idxs ++ idx ∷ []) ∷ m else (j, idxs) ∷ add_index k idx m

-- The keys of all groups, and the map from a key to the positions of its groups.
unfoldable pub group_keys : (Group → Run String) → List Group → Call Error (List String)
group_keys key [] = done (ok [])
group_keys key (g ∷ gs) = do k ← lift (key g); ks ← group_keys key gs; done (ok (k ∷ ks))

unfoldable pub index_keys : ℕ → List String → List (String × List ℕ) → List (String × List ℕ)
index_keys i [] m = m
index_keys i (k ∷ ks) m = index_keys (i + 1) ks (add_index k i m)

-- All used builders are known.
unfoldable pub check_builders_known : List (String × Builder) → List String → Res Error (Unit {0})
check_builders_known bs [] = ok tt
check_builders_known bs (b ∷ rest) = elim (lookup b bs) [
  | none ↦ err (unrecognized_builder b)
  | some x ↦ check_builders_known bs rest
]

unfoldable pub check_builders_health : List (String × Builder) → List String → Res Error (Unit {0})
check_builders_health bs [] = ok tt
check_builders_health bs (b ∷ rest) = elim (health_of (lookup b bs)) [
  | ok x ↦ check_builders_health bs rest
  | err e ↦ err e
]
  where
    health_of : Option Builder → Res Error (Unit {0})
    health_of none = ok tt
    health_of (some x) = check_health x.healthcheck

-- The library functions on files that are called: strings.TrimSuffix(s, "/"), filepath.Base,
-- filepath.Join, and copy.Copy, of which it is given whether it succeeds.
pub record Files : Type 0 where
  pub trim : String → String
  pub base : String → String
  pub join_path : String → String → String
  pub copies : String → String → Bool

unfoldable pub copied : Files → Sources → String → Sources
copied fs s dst = record {
  base_dir = dst;
  plan_dir = fs.join_path dst (fs.base s.plan_dir);
  sdk_dir = if is_empty s.sdk_dir then "" else fs.join_path dst (fs.base s.sdk_dir);
  extra_dir = if is_empty s.extra_dir then "" else fs.join_path dst (fs.base s.extra_dir);
}

-- A copy of the sources for each of `n` jobs, from number `i` on.
unfoldable pub copy_sources : Files → Sources → ℕ → ℕ → Res Error (List Sources)
copy_sources fs s zero i = ok []
copy_sources fs s (suc n) i =
    let dst = fs.trim s.base_dir ⧺ "-" ⧺ format_int i in
    let rest = copy_sources fs s n (i + 1) in
    if fs.copies s.base_dir dst then consed (copied fs s dst) rest else err copy_failed
  where
    consed : Sources → Res Error (List Sources) → Res Error (List Sources)
    consed x (ok xs) = ok (x ∷ xs)
    consed x (err e) = err e

unfoldable pub final_sources : Files → Sources → ℕ → Res Error (List Sources)
final_sources fs s n = if n == 1 then ok (s ∷ []) else copy_sources fs s n 0

-- A job of the errgroup: a key, the positions of its groups, and its sources.
pub record Job : Type 0 where
  pub key : String
  pub indexes : List ℕ
  pub sources : Sources

unfoldable pub with_sources : List (String × List ℕ) → List Sources → Call Error (List Job)
with_sources [] srcs = done (ok [])
with_sources ((k, idxs) ∷ m) [] = panic
with_sources ((k, idxs) ∷ m) (src ∷ srcs) = do
  jobs ← with_sources m srcs
  done (ok ((record { key = k; indexes = idxs; sources = src }) ∷ jobs))

-- The engine's maps, the environment's configurations of builders, and the libraries.
pub record Setup : Type 0 where
  pub builders : List (String × Builder)
  pub config : String → ConfigMap
  pub files : Files
  pub marshal : String → ConfigMap → String → Option String
  pub tags : Composition → Res ApiError (Unit {0})

unfoldable pub store_all :
    List ℕ → BuildOutput → List (Option BuildOutput) → List (Option BuildOutput)
store_all [] o ress = ress
store_all (i ∷ is) o ress = store_all is o (set ress i (some o))

module _ (e : Setup) where
  finished : String → Res String BuildOutput → Call Error BuildOutput
  finished id (err s) = done (err (component_failed s))
  finished id (ok o) = done (ok (record o { builder_id = id }))

  with_builder : String → Group → Sources → Option Builder → Call Error BuildOutput
  with_builder plan g src none = panic
  with_builder plan g src (some bm) = do
    config ← coalesced (bm.coalesce (e.config g.builder ∷ g.build_config ∷ []))
    finished bm.id (
        bm.build (record {
          plan = plan;
          selectors = g.build.selectors;
          dependencies = as_map g.build.dependencies [];
          config = config;
          sources = src;
        }))

  with_group : String → Sources → Option Group → Call Error BuildOutput
  with_group plan src none = panic
  with_group plan src (some g) = with_builder plan g src (lookup g.builder e.builders)

  first_group : List Group → List ℕ → Option Group
  first_group gs [] = none
  first_group gs (i ∷ is) = get_elem? gs i

  -- The function of a job, up to its output.
  unfoldable pub run_job : String → List Group → Job → Call Error BuildOutput
  unfolding with_group with_builder first_group finished coalesced
  run_job plan gs j = with_group plan j.sources (first_group gs j.indexes)

  -- The jobs in the order in which they end.
  unfoldable pub run_jobs :
      String
      → List Group
      → List Job
      → List (Option BuildOutput)
      → Call Error (List (Option BuildOutput))
  run_jobs plan gs [] ress = done (ok ress)
  run_jobs plan gs (j ∷ js) ress = do
    o ← run_job plan gs j
    run_jobs plan gs js (store_all j.indexes o ress)

unfoldable pub blank : List Group → List (Option BuildOutput)
blank [] = []
blank (g ∷ gs) = none ∷ blank gs

-- The orders that the run of the program decides on: of the loop over the defaults' map, over the map
-- of the keys, and of the ends of the jobs.
pub record Orders : Type 0 where
  pub defaults : List Dependency → List Dependency
  pub keys : List (String × List ℕ) → List (String × List ℕ)
  pub ends : List Job → List Job

unfoldable pub build_groups :
    Orders → Setup → String → List Group → Sources → Call Error (List (Option BuildOutput))
build_groups o e plan gs srcs = do
  keys ← group_keys (group_build_key e.marshal) gs
  let uniq = o.keys (index_keys 0 keys [])
  finals ← done (final_sources e.files srcs (length uniq))
  jobs ← with_sources uniq finals
  run_jobs e plan gs (o.ends jobs) (blank gs)

-- clean: strings.Replace(name, "/", "-", -1)
unfoldable pub clean : String → String
clean String.[] = ""
clean (String.◌∷◌ c s) =
    let rest = clean s in if code c == 47 then "-" ⧺ rest else String.◌∷◌ c rest

-- doBuild
unfoldable pub do_build :
    Orders
    → Setup
    → TestPlanManifest
    → Composition
    → Sources
    → Call Error (List (Option BuildOutput))
do_build o e m c srcs = do
  comp ← done (from_api (prepare_for_build o.defaults m c))
  x ← done (from_api (validate_for_build e.tags comp))
  y ← done (check_builders_known e.builders (list_builders comp))
  z ← done (check_builders_health e.builders (list_builders comp))
  build_groups o e (clean comp.global.plan) comp.groups srcs
