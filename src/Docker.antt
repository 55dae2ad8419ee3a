-- ===== src/Docker.antt =====
-- The calls of docker of pkg/docker: containers, images, volumes and networks that are made if they are
-- not there, the removal of containers, and the watch on containers. The docker client is a record of
-- functions on the state of the docker daemon; packing a directory (TarWithOptions) is one of them.
pub mod Found
pub mod Delete
pub mod Watch
use canary_testing.Prelude.{
  ℕ, zero, suc, length, ◌+◌, String, Bool, true, false, List, [], ◌∷◌, Option, none, some, str_eq,
  if◌then◌else◌,
}
use Prim.Native.Char.{Char, code}
use canary_testing.Prelude.{◌==◌, ◌&&◌}
use canary_testing.Prelude.Run.{Run, Res, ok, err, done, panic, ◌>>=◌}
use canary_testing.Prelude.Res.{with_ok}
use canary_testing.Prelude.Text.{◌⧺◌}

pub record Container : Type 0 where
  pub id : String
  pub status : String

pub record Image : Type 0 where
  pub id : String
  pub tags : List String

pub record VolumeOpts : Type 0 where
  pub name : String
  pub driver : String
  pub driver_opts : List (String × String)
  pub labels : List (String × String)

pub record Volume : Type 0 where
  pub name : String
  pub driver : String

pub data ImageStrategy : Type 0 where
  image_none image_pull image_build : ImageStrategy
  image_other : ℕ → ImageStrategy

-- types.ImageBuildOptions, whose other fields are passed on as they are.
pub record BuildOpts : Type 0 where
  pub suppress_output : Bool
  pub remove : Bool
  pub force_remove : Bool
  pub pull_parent : Bool
  pub tags : List String
  pub others : List (String × String)

pub record BuildImageOpts : Type 0 where
  pub name : String
  pub build_ctx : String
  pub build_opts : Option BuildOpts

pub record ContainerOpts : Type 0 where
  pub name : String
  pub image : String
  pub strategy : ImageStrategy
  pub build : Option BuildImageOpts

-- defaultBuildOptsFor
unfoldable pub default_build_opts_for : String → BuildOpts
default_build_opts_for name = record {
  suppress_output = false;
  remove = true;
  force_remove = true;
  pull_parent = true;
  tags = name ∷ [];
  others = [];
}

unfoldable pub build_opts_of : BuildImageOpts → BuildOpts
build_opts_of o = elim o.build_opts [ none ↦ default_build_opts_for o.name | some x ↦ x ]

-- The errors of docker, with their texts, and those of this package.
pub data Error : Type 0 where
  docker : String → Error
  image_not_found : Error
  many_volumes many_images : ℕ → Error

-- The calls of the client; those that write return the state of the daemon that they leave.
pub record Client : Type 1 where
  pub Daemon : Type 0
  pub container_list : String → Daemon → Res Error (List Container)
  pub container_inspect : String → Daemon → Res Error Container
  pub container_start : String → Daemon → Res Error (Unit {0}) × Daemon
  pub container_create : ContainerOpts → Daemon → Res Error String × Daemon
  pub image_list : Daemon → Res Error (List Image)
  pub image_list_of : String → Daemon → Res Error (List Image)
  pub image_pull : String → Daemon → Res Error (Unit {0}) × Daemon
  pub tar_with_options : String → List String → Daemon → Res Error String
  -- ImageBuild, and the end of the output that PipeOutput reads
  pub image_build : String → BuildOpts → Daemon → Res Error (Unit {0}) × Daemon
  pub volume_list : String → Daemon → Res Error (List Volume)
  pub volume_create : VolumeOpts → Daemon → Res Error Volume × Daemon
  pub network_list : String → Daemon → Res Error (List String)
  -- the name, whether it is internal, and the IPAM configurations
  pub network_create : String → Bool → List String → Daemon → Res Error String × Daemon

-- strings.HasPrefix
unfoldable pub has_prefix : String → String → Bool
has_prefix s String.[] = true
has_prefix String.[] (String.◌∷◌ c p) = false
has_prefix (String.◌∷◌ d s) (String.◌∷◌ c p) = let rest = has_prefix s p in code d == code c && rest

-- The loops of FindImage over the images and their tags.
unfoldable pub tagged : String → List String → Bool
tagged name [] = false
tagged name (t ∷ ts) = if has_prefix t name then true else tagged name ts

unfoldable pub find_tagged : String → List Image → Option Image
find_tagged name [] = none
find_tagged name (i ∷ is) = if tagged name i.tags then some i else find_tagged name is

unfoldable pub found_among : String → Res Error (List Image) → Res Error (Option Image)
found_among name (err e) = err e
found_among name (ok is) = ok (find_tagged name is)

module _ (cli : Client) where
  open cli use {Daemon}

  first_inspected : List Container → Daemon → Res Error (Option Container)
  first_inspected [] d = ok none
  first_inspected (c ∷ cs) d = elim (cli.container_inspect c.id d) [
    | err e ↦ err e
    | ok ci ↦ ok (some ci)
  ]

  -- CheckContainer
  unfoldable pub check_container : String → Daemon → Res Error (Option Container)
  unfolding first_inspected
  check_container name d = elim (cli.container_list ("^/" ⧺ name ⧺ "$") d) [
    | err e ↦ err e
    | ok cs ↦ first_inspected cs d
  ]

  -- FindImage
  unfoldable pub find_image : String → Daemon → Res Error (Option Image)
  unfolding found_among
  find_image name d = found_among name (cli.image_list d)

  -- BuildImage
  unfoldable pub build_image : BuildImageOpts → Daemon → Res Error (Unit {0}) × Daemon
  build_image o d =
      with_ok (cli.tar_with_options o.build_ctx ("plan/_*" ∷ "plan.zip" ∷ []) d) d
        λ tar. cli.image_build tar (build_opts_of o) d

  unfoldable pub ensured_image : BuildImageOpts → Option Image → Daemon → Res Error Bool × Daemon
  ensured_image o (some i) d = (ok false, d)
  ensured_image o none d = let (r, d') = build_image o d in with_ok r d' λ x. (ok true, d')

  -- EnsureImage: whether the image was created.
  unfoldable pub ensure_image : BuildImageOpts → Daemon → Res Error Bool × Daemon
  ensure_image o d = with_ok (find_image o.name d) d λ found. ensured_image o found d

  -- The switch over the strategy for the image; BuildImageOpts that are nil are dereferenced.
  unfoldable pub provide_image :
      ContainerOpts → ImageStrategy → Daemon → Run (Res Error (Unit {0}) × Daemon)
  provide_image opts image_none d = done (
      with_ok (find_image opts.image d) d
        λ found. elim found [ none ↦ (err image_not_found, d) | some i ↦ (ok tt, d) ])
  provide_image opts image_pull d = done (cli.image_pull opts.image d)
  provide_image opts image_build d = elim opts.build [
    | none ↦ panic
    | some o ↦ let (r, d') = ensure_image o d in done (with_ok r d' λ x. (ok tt, d'))
  ]
  provide_image opts (image_other n) d = done (ok tt, d)

  -- The part of EnsureContainerStarted for a container that is there.
  start_existing : String → Container → Daemon → Res Error (Option Container × Bool) × Daemon
  start_existing name c d =
      if str_eq c.status "running"
      then (ok (some c, false), d)
      else (let (r, d') = cli.container_start c.id d in
          with_ok r d' λ x. with_ok (check_container name d') d' λ ci. (ok (ci, false), d'))

  create_container :
      ContainerOpts → Res Error (Unit {0}) × Daemon → Res Error (Option Container × Bool) × Daemon
  create_container opts (r, d1) = with_ok r d1 λ x.
      let (created, d2) = cli.container_create opts d1 in
      with_ok created d2 λ id.
        let (started, d3) = cli.container_start id d2 in
        with_ok started d3
          λ y. with_ok (cli.container_inspect id d3) d3 λ c. (ok (some c, true), d3)

  -- EnsureContainerStarted: the container, and whether it was created.
  unfoldable pub ensure_container_started :
      ContainerOpts → Daemon → Run (Res Error (Option Container × Bool) × Daemon)
  unfolding start_existing create_container
  ensure_container_started opts d = elim (check_container opts.name d) [
    | err e ↦ done (err e, d)
    | ok found ↦ elim found [
      | some c ↦ done (start_existing opts.name c d)
      | none ↦ provide_image opts opts.strategy d >>= λ p. done (create_container opts p)
    ]
  ]

  unfoldable pub ensured_volume :
      VolumeOpts → List Volume → Daemon → Res Error (Volume × Bool) × Daemon
  ensured_volume opts [] d =
      let (r, d') = cli.volume_create opts d in with_ok r d' λ v. (ok (v, true), d')
  ensured_volume opts (v ∷ []) d = (ok (v, false), d)
  ensured_volume opts (v ∷ w ∷ vs) d = (err (many_volumes (count (v ∷ w ∷ vs))), d)
    where
      count : List Volume → ℕ
      count [] = 0
      count (x ∷ xs) = 1 + count xs

  -- EnsureVolume: the volume, and whether it was created.
  unfoldable pub ensure_volume : VolumeOpts → Daemon → Res Error (Volume × Bool) × Daemon
  unfolding ensured_volume
  ensure_volume opts d =
      with_ok (cli.volume_list ("^" ⧺ opts.name ⧺ "$") d) d λ vs. ensured_volume opts vs d

  unfoldable pub ensured_network :
      String → Bool → List String → List String → Daemon → Res Error String × Daemon
  ensured_network name internal config [] d = cli.network_create name internal config d
  ensured_network name internal config (id ∷ ids) d = (ok id, d)

  -- EnsureBridgeNetwork, with CheckBridgeNetwork and NewBridgeNetwork, which call docker only.
  unfoldable pub ensure_bridge_network :
      String → Bool → List String → Daemon → Res Error String × Daemon
  unfolding ensured_network
  ensure_bridge_network name internal config d =
      with_ok (cli.network_list name d) d λ ids. ensured_network name internal config ids d

unfoldable pub drop_text : ℕ → String → String
drop_text zero s = s
drop_text (suc n) String.[] = ""
drop_text (suc n) (String.◌∷◌ c s) = drop_text n s

unfoldable pub take_text : ℕ → String → Run String
take_text zero s = done ""
take_text (suc n) String.[] = panic
take_text (suc n) (String.◌∷◌ c s) = take_text n s >>= λ t. done (String.◌∷◌ c t)

-- images[0].ID[7 : 7+12], of an id with its prefix; an id that is too short panics.
unfoldable pub short_id : List Image → Run (Res Error String)
short_id (i ∷ []) =
    if has_prefix i.id "sha256:"
    then (take_text 12 (drop_text 7 i.id) >>= λ t. done (ok t))
    else panic
short_id is = done (err (many_images (length is)))

-- GetImageID
unfoldable pub get_image_id : (cli : Client) → String → cli.Daemon → Run (Res Error String)
get_image_id cli tag d = elim (cli.image_list_of tag d) [
  | err e ↦ done (err e)
  | ok is ↦ short_id is
]
