-- ===== src/Manifest/Found.antt =====
-- Which test case TestCaseByName of pkg/api/manifest.go finds.
use canary_testing.Prelude.{
  ℕ, zero, suc, ◌+◌, ◌<◌, String, ◌≡◌, ◌≢◌, refl, subst, false, Option, none, some, List, [], ◌∷◌,
  str_eq, eq_iff, Bool-cases, inl, inr, arith, get_elem?,
}
use canary_testing.Manifest.{TestCase, TestPlanManifest, find_case, test_case_by_name}

-- The test case at an index has the name, and none before it has.
pub record FirstNamed (name : String) (tcs : List TestCase) (i : ℕ) (tc : TestCase) : Type 0 where
  pub there : get_elem? tcs i ≡ some tc
  pub named : tc.name ≡ name
  pub first : (j : ℕ) (x : TestCase) → j < i → get_elem? tcs j ≡ some x → x.name ≢ name

-- No test case has the name.
unfoldable pub Unnamed : String → List TestCase → Type 0
Unnamed name [] = Unit {0}
Unnamed name (tc ∷ tcs) = (tc.name ≢ name) × Unnamed name tcs

-- What the loop returns from an index on.
unfoldable pub Found : String → List TestCase → ℕ → Option (ℕ × TestCase) → Type 0
Found name tcs i none = Unnamed name tcs
Found name tcs i (some (k, tc)) = (j : ℕ) × (k ≡ i + j) × FirstNamed name tcs j tc

apart : (s t : String) → str_eq s t ≡ false → s ≢ t
apart s t e p = let f = (eq_iff s t).1 p in cc

Found-cons :
    (name : String) (x : TestCase) (tcs : List TestCase) (i : ℕ) (o : Option (ℕ × TestCase))
    → x.name ≢ name
    → Found name tcs (i + 1) o
    → Found name (x ∷ tcs) i o
unfolding Found Unnamed
Found-cons name x tcs i none h f = (h, f)
Found-cons name x tcs i (some (k, tc)) h (j, e, f) =
    (suc j, omega (arith, e), record { there = f.there; named = f.named; first = before })
  where
    before : (l : ℕ) (y : TestCase) → l < suc j → get_elem? (x ∷ tcs) l ≡ some y → y.name ≢ name
    before zero y b g = subst (λ (z : TestCase). z.name ≢ name) (some_injective g) h
      where
        some_injective : {a c : TestCase} → some a ≡ some c → a ≡ c
        some_injective p = cc
    before (suc l) y b g = f.first l y (omega arith) g

find_case-Found :
    (name : String) (i : ℕ) (tcs : List TestCase) → Found name tcs i (find_case name i tcs)
unfolding find_case Found Unnamed
find_case-Found name i [] = tt
find_case-Found name i (tc ∷ tcs) = elim (Bool-cases (str_eq tc.name name)) [
  | inl e ↦ rw e (
    0,
    omega arith,
    record {
      there = refl;
      named = (eq_iff tc.name name).0 e;
      first = λ j x b. absurd (omega arith);
    },
  )
  | inr e ↦ rw e (
      Found-cons name tc tcs i (find_case name (i + 1) tcs) (apart tc.name name e)
        (find_case-Found name (i + 1) tcs))
]

-- TestCaseByName returns the first test case of the name with its index, or none if no test case has
-- the name.
pub test_case_by_name-Found :
    (m : TestPlanManifest) (name : String) → Found name m.test_cases 0 (test_case_by_name m name)
unfolding test_case_by_name
test_case_by_name-Found m name = find_case-Found name 0 m.test_cases
