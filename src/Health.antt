-- ===== src/Health.antt =====
-- Healthchecks: the report of pkg/api/healthcheck.go and RunChecks of pkg/healthcheck/helper.go.
-- Checkers and fixers are parameters: functions on the state of the machine, `S`, which they may
-- change. The mutex is left out. The texts of messages are those that a checker or a fixer returns.
pub mod Ran
use canary_testing.Prelude.{
  String, Bool, true, false, not, ◌&&◌, List, [], ◌∷◌, ◌++◌, Option, none, some, if◌then◌else◌,
}
use canary_testing.Prelude.Text.{◌⧺◌}

pub data Status : Type 0 where
  ok failed aborted omitted unnecessary : Status
  other_status : String → Status

pub record Item : Type 0 where
  pub name : String
  pub status : Status
  pub message : String

pub record Report : Type 0 where
  pub checks : List Item
  pub fixes : List Item

-- `continue` on these statuses, `return false` on the others
unfoldable pub is_good : Status → Bool
is_good ok = true
is_good omitted = true
is_good unnecessary = true
is_good s = false

unfoldable pub all_good : List Item → Bool
all_good [] = true
all_good (c ∷ cs) = if is_good c.status then all_good cs else false

unfoldable pub checks_succeeded : Report → Bool
checks_succeeded r = all_good r.checks

unfoldable pub fixes_succeeded : Report → Bool
fixes_succeeded r = all_good r.fixes

-- What a checker returns: whether the check passed, a message, and the text of its error.
pub record Checked : Type 0 where
  pub passed : Bool
  pub message : String
  pub error : Option String

pub record Fixed : Type 0 where
  pub message : String
  pub error : Option String

module _ (S : Type 0) where
  pub record Check : Type 0 where
    pub name : String
    pub checker : S → Checked × S
    pub fixer : Option (S → Fixed × S)

  -- The items that one check adds to the report, and the state after it.
  pub record Step : Type 0 where
    pub check : Item
    pub fixes : List Item
    pub state : S

  unfoldable pub fixed_status : Option String → Status
  fixed_status none = ok
  fixed_status (some e) = failed

  -- The item of the fixes, where one is added without a fix.
  unfoldable pub unfixed : Bool → Option (S → Fixed × S) → String → Status → List Item
  unfixed fix (some f) name s =
      if fix then (record { name = name; status = s; message = "" }) ∷ [] else []
  unfixed fix none name s = []

  -- The default case: the check failed, and a fix is attempted if there is one and it is wanted.
  unfoldable pub attempt : Bool → Option (S → Fixed × S) → String → Item → S → Step
  unfolding fixed_status
  attempt fix none name check st = record { check = check; fixes = []; state = st }
  attempt fix (some f) name check st =
      if not fix
      then record {
        check = check;
        fixes = (record { name = name; status = omitted; message = "" }) ∷ [];
        state = st;
      }
      else record {
        check = check;
        fixes =
            (record {
              name = name;
              status = fixed_status (f st).0.error;
              message = (f st).0.message;
            })
            ∷ [];
        state = (f st).1;
      }

  unfoldable pub after_check : Bool → Check → Checked × S → Step
  unfolding attempt unfixed
  after_check fix c (r, st) = elim r.error [
    | some e ↦ record {
      check = record { name = c.name; status = aborted; message = r.message ⧺ "; error: " ⧺ e };
      fixes = unfixed fix c.fixer c.name omitted;
      state = st;
    }
    | none ↦
        if r.passed
        then record {
          check = record { name = c.name; status = ok; message = r.message };
          fixes = unfixed fix c.fixer c.name unnecessary;
          state = st;
        }
        else attempt fix c.fixer c.name
            (record { name = c.name; status = failed; message = r.message }) st
  ]

  -- The loop of RunChecks over the checks that are enlisted.
  unfoldable pub run_all : Bool → List Check → S → Report × S
  run_all fix [] st = (record { checks = []; fixes = [] }, st)
  run_all fix (c ∷ cs) st =
      let step = after_check fix c (c.checker st) in
      let (rest, st') = run_all fix cs step.state in
      (record { checks = step.check ∷ rest.checks; fixes = step.fixes ++ rest.fixes }, st')

  pub record Helper : Type 0 where
    pub items : List Check
    pub report : Option Report

  -- Enlist
  unfoldable pub enlist : Check → Helper → Helper
  enlist c h = record h { items = h.items ++ c ∷ [] }

  -- RunChecks: the report of an earlier call, or a new one. Its error is never set.
  unfoldable pub run_checks : Bool → Helper → S → Report × Helper × S
  run_checks fix h st = elim h.report [
    | some r ↦ (r, h, st)
    | none ↦ let (r, st') = run_all fix h.items st in (r, record h { report = some r }, st')
  ]
