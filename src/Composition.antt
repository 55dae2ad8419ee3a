-- ===== src/Composition.antt =====
-- pkg/api/composition.go: compositions of a test run: groups of instances to build, and runs over them.
-- A Go map is an association list, read at its first entry for a key; a nil map is the empty list. A
-- `uint` is a number below 2^64. A `float64` is the number of its bits, on which the operations are
-- parameters; a pointer to a struct that may be nil is an Option.
pub mod BuildKey
pub mod Defaults
pub mod Select
pub mod Instances
pub mod Prepare
pub mod Validate
use canary_testing.Prelude.{ℕ, String, Bool, List, [], ◌∷◌, Option, none, some, if◌then◌else◌}
use canary_testing.Prelude.Text.{is_empty}
use canary_testing.Manifest.{ConfigMap}

pub record Metadata : Type 0 where
  pub name : String
  pub author : String

pub record Resources : Type 0 where
  pub memory : String
  pub cpu : String

-- `percentage` holds the bits of the float64.
pub record Counts : Type 0 where
  pub count : ℕ
  pub percentage : ℕ

-- `module_path` is the field `Module`.
pub record Dependency : Type 0 where
  pub module_path : String
  pub target : String
  pub version : String

pub record Build : Type 0 where
  pub selectors : List String
  pub dependencies : List Dependency

pub record RunParams : Type 0 where
  pub artifact : String
  pub test_params : List (String × String)
  pub profiles : List (String × String)

pub record Global : Type 0 where
  pub plan : String
  pub case : String
  pub total_instances : ℕ
  pub concurrent_builds : ℕ
  pub builder : String
  pub build_config : ConfigMap
  pub build : Option Build
  pub runner : String
  pub run_config : ConfigMap
  pub run : Option RunParams
  pub disable_metrics : Bool

pub record Group : Type 0 where
  pub id : String
  pub builder : String
  pub build_config : ConfigMap
  pub build : Build
  pub resources : Resources
  pub instances : Counts
  pub run : RunParams
  pub calculated_instance_cnt : ℕ

pub record RunGroup : Type 0 where
  pub id : String
  pub group_id : String
  pub resources : Resources
  pub instances : Counts
  pub test_params : List (String × String)
  pub profiles : List (String × String)
  pub calculated_instance_cnt : ℕ

pub record TestRun : Type 0 where
  pub id : String
  pub test_params : List (String × String)
  pub total_instances : ℕ
  pub groups : List RunGroup

pub record Composition : Type 0 where
  pub metadata : Metadata
  pub global : Global
  pub groups : List Group
  pub runs : List TestRun

unfoldable pub group_ids : List Group → List String
group_ids [] = []
group_ids (g ∷ gs) = g.id ∷ group_ids gs

-- EffectiveGroupId
unfoldable pub effective_group_id : RunGroup → String
effective_group_id x = if is_empty x.group_id then x.id else x.group_id

-- DefaultRunGroup
unfoldable pub default_run_group : Group → RunGroup
default_run_group g = record {
  id = g.id;
  group_id = g.id;
  resources = g.resources;
  instances = g.instances;
  test_params = g.run.test_params;
  profiles = g.run.profiles;
  calculated_instance_cnt = 0;
}

unfoldable pub default_groups : List Group → List RunGroup
default_groups [] = []
default_groups (g ∷ gs) = default_run_group g ∷ default_groups gs

unfoldable pub with_default : Composition → List TestRun → Composition
with_default c [] = record c {
  runs =
      (record {
        id = "default";
        test_params = [];
        total_instances = c.global.total_instances;
        groups = default_groups c.groups;
      })
      ∷ [];
}
with_default c (r ∷ rs) = c

-- GenerateDefaultRun
unfoldable pub generate_default_run : Composition → Composition
unfolding with_default default_groups default_run_group
generate_default_run c = with_default c c.runs
