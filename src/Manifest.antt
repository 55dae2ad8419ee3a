-- ===== src/Manifest.antt =====
-- pkg/api/manifest.go: the manifest of a test plan. A Go map is an association list, read at its first
-- entry for a key; a nil map is the empty list. An `interface{}` value is the text of its JSON value.
pub mod Found
use canary_testing.Prelude.{
  ℕ, ◌+◌, String, Bool, true, false, List, [], ◌∷◌, Option, none, some, str_eq, if◌then◌else◌,
}
use canary_testing.Prelude.Run.{Res, ok, err}
use canary_testing.Prelude.Res.{◌>>=◌}
use canary_testing.Prelude.Int.{ℤ}

abbrev pub ConfigMap : Type 0
ConfigMap = List (String × String)

pub record InstanceConstraints : Type 0 where
  pub minimum : ℤ
  pub maximum : ℤ

-- The default of a parameter: a string, or a value with its JSON text, if it has one.
pub data DefaultValue : Type 0 where
  text : String → DefaultValue
  value : Option String → DefaultValue

pub record Parameter : Type 0 where
  pub type : String
  pub description : String
  pub unit : String
  pub default : DefaultValue

pub record TestCase : Type 0 where
  pub name : String
  pub instances : InstanceConstraints
  pub parameters : List (String × Parameter)

pub record TestPlanManifest : Type 0 where
  pub name : String
  pub builders : List (String × ConfigMap)
  pub runners : List (String × ConfigMap)
  pub test_cases : List TestCase

-- The errors of pkg/api.
pub data Error : Type 0 where
  test_case_not_found bad_parameter no_builders no_runners merge_failed invalid_struct : Error
  builder_unsupported runner_unsupported unknown_run unknown_group : String → Error
  duplicate_group duplicate_run missing_builder : String → Error
  duplicate_run_group : String → String → Error
  no_such_group : String → String → String → Error
  bad_group_index : ℤ → Error
  percentage_needs_total : Error
  total_mismatch : ℕ → ℕ → Error
  out_of_range : ℤ → Error

module _ {V : Type 0} where
  -- m[k]
  unfoldable pub lookup : String → List (String × V) → Option V
  lookup k [] = none
  lookup k ((j, v) ∷ m) = if str_eq j k then some v else lookup k m

  -- The loop of HasBuilder and HasRunner over the keys of a map.
  unfoldable pub has_key : List (String × V) → String → Bool
  has_key [] name = false
  has_key ((k, v) ∷ m) name = if str_eq k name then true else has_key m name

  -- The loop of SupportedBuilders and SupportedRunners, in the order of the list.
  unfoldable pub keys : List (String × V) → List String
  keys [] = []
  keys ((k, v) ∷ m) = k ∷ keys m

unfoldable pub find_case : String → ℕ → List TestCase → Option (ℕ × TestCase)
find_case name i [] = none
find_case name i (tc ∷ rest) =
    if str_eq tc.name name then some (i, tc) else find_case name (i + 1) rest

-- TestCaseByName: the index and the test case, or `none` for (-1, nil, false)
unfoldable pub test_case_by_name : TestPlanManifest → String → Option (ℕ × TestCase)
unfolding find_case
test_case_by_name tp name = find_case name 0 tp.test_cases

default_text : DefaultValue → Res Error String
default_text (text s) = ok s
default_text (value none) = err bad_parameter
default_text (value (some j)) = ok j

default_params : List (String × Parameter) → Res Error (List (String × String))
default_params [] = ok []
default_params ((n, p) ∷ rest) = do
  v ← default_text p.default
  vs ← default_params rest
  ok ((n, v) ∷ vs)

parameters_of : Option (ℕ × TestCase) → Res Error (List (String × String))
parameters_of none = err test_case_not_found
parameters_of (some (i, tc)) = default_params tc.parameters

-- defaultParameters
unfoldable pub default_parameters : TestPlanManifest → String → Res Error (List (String × String))
unfolding parameters_of default_params default_text test_case_by_name
default_parameters tp name = parameters_of (test_case_by_name tp name)

unfoldable pub has_builder : TestPlanManifest → String → Bool
has_builder tp name = has_key tp.builders name

unfoldable pub supported_builders : TestPlanManifest → List String
supported_builders tp = keys tp.builders

unfoldable pub has_runner : TestPlanManifest → String → Bool
has_runner tp name = has_key tp.runners name

unfoldable pub supported_runners : TestPlanManifest → List String
supported_runners tp = keys tp.runners
