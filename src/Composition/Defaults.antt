-- ===== src/Composition/Defaults.antt =====
-- Defaults that are filled in where nothing explicit is set: the loops over configuration maps of
-- pkg/api/composition_preparation.go, and Dependencies.ApplyDefaults of pkg/api/composition.go.
pub mod Kept
pub mod Modules
use canary_testing.Prelude.{
  String, Bool, true, false, List, [], ◌∷◌, ◌++◌, Option, none, some, str_eq, if◌then◌else◌,
}
use canary_testing.Manifest.{ConfigMap, has_key}
use canary_testing.Composition.{Build, Dependency}

-- `for k, v := range defaults { if _, ok := m[k]; !ok { m[k] = v } }`. What the loop leaves under a key
-- is the same in every order of the keys.
unfoldable pub fill : ConfigMap → ConfigMap → ConfigMap
fill m [] = m
fill m ((k, v) ∷ defaults) = if has_key m k then fill m defaults else fill ((k, v) ∷ m) defaults

-- AsMap: the entries of the map, the last dependency of a module in the place of the first.
unfoldable pub put_dependency : Dependency → List Dependency → List Dependency
put_dependency d [] = d ∷ []
put_dependency d (x ∷ xs) =
    if str_eq x.module_path d.module_path then d ∷ xs else x ∷ put_dependency d xs

unfoldable pub as_map : List Dependency → List Dependency → List Dependency
as_map [] m = m
as_map (d ∷ ds) m = as_map ds (put_dependency d m)

unfoldable pub has_module : String → List Dependency → Bool
has_module m [] = false
has_module m (d ∷ ds) = if str_eq d.module_path m then true else has_module m ds

-- The loop of ApplyDefaults: what is appended.
unfoldable pub missing : List Dependency → List Dependency → List Dependency
missing into [] = []
missing into (d ∷ ds) =
    if has_module d.module_path into then missing into ds else d ∷ missing into ds

-- ApplyDefaults, where `order` is the order in which the map of the defaults is ranged over.
unfoldable pub apply_defaults :
    (List Dependency → List Dependency) → List Dependency → List Dependency → List Dependency
apply_defaults order [] defaults = defaults
apply_defaults order (d ∷ ds) defaults =
    (d ∷ ds) ++ missing (as_map (d ∷ ds) []) (order (as_map defaults []))

unfoldable pub default_selectors : List String → List String → List String
default_selectors [] defaults = defaults
default_selectors (s ∷ ss) defaults = s ∷ ss

-- The global build defaults, trickled down to a group.
unfoldable pub default_build : (List Dependency → List Dependency) → Build → Option Build → Build
unfolding default_selectors
default_build order b none = b
default_build order b (some def) = record {
  selectors = default_selectors b.selectors def.selectors;
  dependencies = apply_defaults order b.dependencies def.dependencies;
}
