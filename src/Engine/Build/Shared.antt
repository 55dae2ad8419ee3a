-- ===== src/Engine/Build/Shared.antt =====
-- What doBuild returns for each group.
use mathlib.Core.List.{Permᴰ}
use canary_testing.Prelude.{
  ℕ, suc, String, ◌≡◌, refl, sym, ap, ◌∙◌, true, List, [], ◌∷◌, Option, length, arith,
}
use canary_testing.Prelude.Run.{Run, Res, ok, err, done}
use canary_testing.Prelude.Res.{ok-functional}
use canary_testing.Prelude.Call.{◌>>=◌, call-ok, done-functional, lift}
use canary_testing.Prelude.Rearranged.{All-Permᴰ, any-Permᴰ}
use canary_testing.Manifest.{TestPlanManifest}
use canary_testing.Manifest.{Error as ApiError}
use canary_testing.Composition.{Group, Composition}
use canary_testing.Composition.Prepare.{prepare_for_build}
use canary_testing.Composition.Validate.{validate_for_build}
use canary_testing.Composition.BuildKey.{group_build_key, list_builders}
use canary_testing.Composition.Select.{contains}
use canary_testing.Engine.Component.{from_api, BuildOutput, Sources}
use canary_testing.Engine.Build.{
  Job, Setup, Orders, with_sources, index_keys, group_keys, build_groups, do_build, blank,
  final_sources, check_builders_known, check_builders_health, clean,
}
use canary_testing.Engine.Build.Positions.{index_keys-Indexed, has_key-index_keys}
use canary_testing.Engine.Build.Stored.{
  Placed, of_key, PlacedEntry, entry_of_key, Indexed-PlacedEntry, any-has_key, with_sources-Placed,
  length-run_jobs, Built, run_jobs-Built,
}

length-group_keys :
    (key : Group → Run String) (gs : List Group) {keys : List String}
    → group_keys key gs ≡ done (ok keys)
    → length keys ≡ length gs
unfolding group_keys
length-group_keys key [] h = ap length (sym (ok-functional refl (done-functional refl h)))
length-group_keys key (g ∷ gs) h =
    let (k, hk, h1) =
      call-ok (lift (key g)) (λ k. group_keys key gs >>= λ ks. done (ok (k ∷ ks))) h in
    let (ks, hs, h2) = call-ok (group_keys key gs) (λ ks. done (ok (k ∷ ks))) h1 in
    ap length (sym (ok-functional refl (done-functional refl h2)))
    ∙ ap suc (length-group_keys key gs hs)

length-blank : (gs : List Group) → length (blank gs) ≡ length gs
unfolding blank
length-blank [] = refl
length-blank (g ∷ gs) = ap suc (length-blank gs)

-- What the orders are: rearrangements.
pub record Rearrange (o : Orders) : Type 0 where
  pub keys : (m : List (String × List ℕ)) → Permᴰ m (o.keys m)
  pub ends : (js : List Job) → Permᴰ js (o.ends js)

pub from_api-ok {ℓ} : {A : Type ℓ} (r : Res ApiError A) {a : A} → from_api r ≡ ok a → r ≡ ok a
unfolding from_api
from_api-ok (ok x) h = ap ok (ok-functional refl h)
from_api-ok (err x) h = cc

-- For each of the keys one job has run, at which every group of this key has its output.
pub SharedOutputs : Setup → String → List Group → List String → List (Option BuildOutput) → Type 0
SharedOutputs e plan gs keys out =
    (length keys ≡ length gs)
    × (length out ≡ length gs)
    × ((x : String) → contains x keys ≡ true → Built e plan gs keys out x)

build_groups-SharedOutputs :
    (o : Orders) (e : Setup) (plan : String) (gs : List Group) (srcs : Sources)
    (out : List (Option BuildOutput))
    → Rearrange o
    → build_groups o e plan gs srcs ≡ done (ok out)
    → (keys : List String) × (group_keys (group_build_key e.marshal) gs ≡ done (ok keys))
      × SharedOutputs e plan gs keys out
unfolding build_groups SharedOutputs
build_groups-SharedOutputs o e plan gs srcs out r h =
    let (keys, hk, h1) = call-ok (group_keys (group_build_key e.marshal) gs) _ h in
    let m = index_keys 0 keys [] in
    let (finals, hf, h2) = call-ok (done (final_sources e.files srcs (length (o.keys m)))) _ h1 in
    let (jobs, hj, h3) = call-ok (with_sources (o.keys m) finals) _ h2 in
    let perm = r.keys m in
    let entries = Indexed-PlacedEntry keys m (index_keys-Indexed keys) in
    let (placed, same) =
      with_sources-Placed keys (o.keys m) finals jobs hj
        (All-Permᴰ (PlacedEntry keys) perm entries) in
    let placed' = All-Permᴰ (Placed keys) (r.ends jobs) placed in
    (
      keys,
      hk,
      (
        length-group_keys (group_build_key e.marshal) gs hk,
        length-run_jobs e plan gs (o.ends jobs) (blank gs) h3 ∙ length-blank gs,
        λ x hx. run_jobs-Built e plan gs keys (o.ends jobs) (blank gs) x h3 placed' (
            sym (any-Permᴰ (of_key x) (r.ends jobs))
            ∙ same x
            ∙ sym (any-Permᴰ (entry_of_key x) perm)
            ∙ any-has_key x m
            ∙ has_key-index_keys x 0 keys []
            ∙ rw hx (ground arith)),
      ),
    )

-- Where doBuild returns outputs, there is one for each group of the prepared composition, and groups
-- with equal build keys share one: for every key, one job of this key, with the positions of its groups
-- alone, has been run, and what it built stands at each of these positions, in whatever order the map
-- of the keys was ranged over and the jobs ended.
pub do_build-SharedOutputs :
    (o : Orders) (e : Setup) (m : TestPlanManifest) (c : Composition) (srcs : Sources)
    (out : List (Option BuildOutput))
    → Rearrange o
    → do_build o e m c srcs ≡ done (ok out)
    → (comp : Composition) × (keys : List String) × (prepare_for_build o.defaults m c ≡ ok comp)
      × (validate_for_build e.tags comp ≡ ok tt)
      × (group_keys (group_build_key e.marshal) comp.groups ≡ done (ok keys))
      × SharedOutputs e (clean comp.global.plan) comp.groups keys out
unfolding do_build
do_build-SharedOutputs o e m c srcs out r h =
    let (comp, hp, h1) = call-ok (done (from_api (prepare_for_build o.defaults m c))) _ h in
    let (x, hv, h2) = call-ok (done (from_api (validate_for_build e.tags comp))) _ h1 in
    let (y, hb, h3) = call-ok (done (check_builders_known e.builders (list_builders comp))) _ h2 in
    let (z, hh, h4) = call-ok (done (check_builders_health e.builders (list_builders comp))) _ h3 in
    let (keys, hk, shared) =
      build_groups-SharedOutputs o e (clean comp.global.plan) comp.groups srcs out r h4 in
    (
      comp,
      keys,
      from_api-ok (prepare_for_build o.defaults m c) (done-functional refl hp),
      from_api-ok (validate_for_build e.tags comp) (done-functional refl hv),
      hk,
      shared,
    )
