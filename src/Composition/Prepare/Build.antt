-- ===== src/Composition/Prepare/Build.antt =====
-- What PrepareForBuild of a composition establishes.
use canary_testing.Prelude.{String, true, List, [], ◌∷◌, ◌≡◌}
use canary_testing.Manifest.{TestPlanManifest, lookup, has_builder}
use canary_testing.Composition.{Dependency, Group, Composition}
use canary_testing.Composition.Defaults.{default_build}
use canary_testing.Composition.Defaults.Kept.{or_default}
use canary_testing.Composition.Prepare.{or_empty, builder_of}

module _ (order : List Dependency → List Dependency) (m : TestPlanManifest) where
  -- A group as it is prepared: its builder is its own or the global one, and the manifest supports it;
  -- under each key its configuration is its own, else the global one, else that of the manifest for
  -- the builder.
  pub record PreparedGroup (c : Composition) (g g' : Group) : Type 0 where
    pub same_id : g'.id ≡ g.id
    pub builder : g'.builder ≡ builder_of c g
    pub supported : has_builder m g'.builder ≡ true
    pub config :
        (k : String)
        → lookup k g'.build_config
          ≡ or_default
              (or_default (lookup k g.build_config) (lookup k c.global.build_config))
              (lookup k (or_empty (lookup g'.builder m.builders)))
    pub build : g'.build ≡ default_build order g.build c.global.build

  unfoldable pub PreparedGroups : Composition → List Group → List Group → Type 0
  PreparedGroups c [] [] = Unit {0}
  PreparedGroups c (g ∷ gs) (g' ∷ gs') = PreparedGroup c g g' × PreparedGroups c gs gs'
  PreparedGroups c gs gs' = ⊥

  -- The name of the plan is not read in the preparation of a group.
  abbrev named : Composition → Composition
  named c = record c { global = record (c.global) { plan = m.name } }

  pub record PreparedBuild (c c' : Composition) : Type 0 where
    pub plan : c'.global ≡ record (c.global) { plan = m.name }
    pub groups : PreparedGroups c c.groups c'.groups
    pub runs : c'.runs ≡ c.runs
