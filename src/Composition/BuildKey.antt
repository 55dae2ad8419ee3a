-- ===== src/Composition/BuildKey.antt =====
-- The keys of builds and the sorted listings of pkg/api/composition.go: BuildKey of a build and of a
-- group, ListBuilders, ListRunIds and ListGroupsIds. The JSON text of a group's key is a parameter.
pub mod Canonical
use canary_testing.Prelude.{String, Bool, List, [], ◌∷◌, Option, none, some, map, if◌then◌else◌}
use canary_testing.Prelude.Run.{Run, done, panic}
use canary_testing.Prelude.Text.{◌⧺◌, is_empty, join}
use canary_testing.Prelude.Sort.{sort_by, sort_strings}
use canary_testing.Manifest.{ConfigMap}
use canary_testing.Composition.{Dependency, Build, Group, TestRun, Composition, group_ids}
use canary_testing.Composition.Select.{add_key}
use canary_testing.Composition.Validate.{run_ids}

unfoldable pub module_of : Dependency → String
module_of d = d.module_path

unfoldable pub write_dependencies : List Dependency → String
write_dependencies [] = ""
write_dependencies (d ∷ ds) = d.module_path ⧺ ":" ⧺ d.version ⧺ "|" ⧺ write_dependencies ds

-- Build.BuildKey
unfoldable pub build_key : Build → String
build_key b =
    "selectors="
    ⧺ join (sort_strings b.selectors) ","
    ⧺ ";"
    ⧺ "dependencies="
    ⧺ write_dependencies (sort_by module_of b.dependencies)

json_text : Option String → Run String
json_text none = panic
json_text (some s) = done s

-- Group.BuildKey, where `marshal` is json.Marshal of the builder, the configuration and the key.
unfoldable pub group_build_key : (String → ConfigMap → String → Option String) → Group → Run String
unfolding json_text
group_build_key marshal g =
    if is_empty g.builder
    then panic
    else json_text (marshal g.builder g.build_config (build_key g.build))

-- The loop of ListBuilders over the groups: the keys of its map.
unfoldable pub used_builders : String → List Group → List String → List String
used_builders global [] keys = keys
used_builders global (g ∷ gs) keys =
    used_builders global gs (add_key (if is_empty g.builder then global else g.builder) keys)

-- ListBuilders: sorted, so the order in which the map is ranged over is not seen.
unfoldable pub list_builders : Composition → List String
list_builders c = sort_strings (used_builders c.global.builder c.groups [])

unfoldable pub list_run_ids : Composition → List String
list_run_ids c = sort_strings (run_ids c.runs)

unfoldable pub list_groups_ids : Composition → List String
list_groups_ids c = sort_strings (group_ids c.groups)
