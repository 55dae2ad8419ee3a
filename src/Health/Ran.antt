-- ===== src/Health/Ran.antt =====
-- What a run of healthchecks reports and does.
use canary_testing.Prelude.{
  String, Bool, true, false, List, [], ◌∷◌, ◌++◌, ◌≡◌, ◌↔◌, refl, sym, subst, ap, ◌∙◌, Option, none,
  some, Bool-cases, inl, inr, false≢true,
}
use canary_testing.Health.{
  Status, Item, Report, Checked, Fixed, Check, Step, Helper, is_good, all_good, checks_succeeded,
  fixes_succeeded, unfixed, attempt, after_check, run_all, run_checks,
}

unfoldable pub item_names : List Item → List String
item_names [] = []
item_names (i ∷ is) = i.name ∷ item_names is

module _ (S : Type 0) where
  unfoldable pub check_names : List (Check S) → List String
  check_names [] = []
  check_names (c ∷ cs) = c.name ∷ check_names cs

  -- The state after the checkers alone, one after the other.
  unfoldable pub checked_only : List (Check S) → S → S
  checked_only [] st = st
  checked_only (c ∷ cs) st = checked_only cs (c.checker st).1

  -- Every checker passes, without an error, on the state that the checks before it leave.
  unfoldable pub AllPass : List (Check S) → S → Type 0
  AllPass [] st = Unit {0}
  AllPass (c ∷ cs) st =
      ((c.checker st).0.error ≡ none)
      × ((c.checker st).0.passed ≡ true)
      × AllPass cs (c.checker st).1

  record OneStep (fix : Bool) (c : Check S) (r : Checked) (st : S) (step : Step S) : Type 0 where
    pub name : step.check.name ≡ c.name
    pub not_fixed : fix ≡ false → (step.state ≡ st) × (all_good step.fixes ≡ true)
    pub passed :
        is_good step.check.status ≡ true → (r.error ≡ none) × (r.passed ≡ true) × (step.state ≡ st)
    pub good :
        r.error ≡ none → r.passed ≡ true → (is_good step.check.status ≡ true) × (step.state ≡ st)

  attempt-OneStep :
      (fix : Bool) (c : Check S) (f : Option (S → Fixed × S)) (r : Checked) (st : S)
      → r.passed ≡ false
      → OneStep fix c r st (
          attempt S fix f c.name
            (record { name = c.name; status = Status.failed; message = r.message })
            st)
  unfolding attempt all_good is_good
  attempt-OneStep fix c none r st e = record {
    name = refl;
    not_fixed = λ h. (refl, refl);
    passed = λ h. absurd (false≢true h);
    good = λ h p. absurd (false≢true (sym e ∙ p));
  }
  attempt-OneStep true c (some f) r st e = record {
    name = refl;
    not_fixed = λ h. absurd (false≢true (sym h));
    passed = λ h. absurd (false≢true h);
    good = λ h p. absurd (false≢true (sym e ∙ p));
  }
  attempt-OneStep false c (some f) r st e = record {
    name = refl;
    not_fixed = λ h. (refl, refl);
    passed = λ h. absurd (false≢true h);
    good = λ h p. absurd (false≢true (sym e ∙ p));
  }

  unfixed-good :
      (fix : Bool) (f : Option (S → Fixed × S)) (n : String) (s : Status)
      → fix ≡ false
      → all_good (unfixed S fix f n s) ≡ true
  unfolding unfixed all_good
  unfixed-good fix none n s h = refl
  unfixed-good fix (some f) n s h = rw h

  abbrev checked : Bool → String → Option String → Checked
  checked p msg e = record { passed = p; message = msg; error = e }

  by_result :
      (fix : Bool) (c : Check S) (p : Bool) (msg : String) (e : Option String) (st : S)
      → OneStep fix c (checked p msg e) st (after_check S fix c (checked p msg e, st))
  unfolding after_check is_good
  by_result fix c p msg (some x) st = record {
    name = refl;
    not_fixed = λ h. (refl, unfixed-good fix c.fixer c.name Status.omitted h);
    passed = λ h. absurd (false≢true h);
    good = λ h q. cc;
  }
  by_result fix c true msg none st = record {
    name = refl;
    not_fixed = λ h. (refl, unfixed-good fix c.fixer c.name Status.unnecessary h);
    passed = λ h. (refl, refl, refl);
    good = λ h q. (refl, refl);
  }
  by_result fix c false msg none st = attempt-OneStep fix c c.fixer (checked false msg none) st refl

  after_check-OneStep :
      (fix : Bool) (c : Check S) (r : Checked) (st : S)
      → OneStep fix c r st (after_check S fix c (r, st))
  after_check-OneStep fix c r st = by_result fix c r.passed r.message r.error st

  -- The report of all the checks.
  record RanAll (fix : Bool) (cs : List (Check S)) (st : S) (r : Report) (st' : S) : Type 0 where
    pub one_each : item_names r.checks ≡ check_names cs
    pub not_fixed : fix ≡ false → (st' ≡ checked_only cs st) × (all_good r.fixes ≡ true)
    pub all_pass : all_good r.checks ≡ true ↔ AllPass cs st

  all_good-append :
      (xs ys : List Item) → all_good xs ≡ true → all_good ys ≡ true → all_good (xs ++ ys) ≡ true
  unfolding all_good
  all_good-append [] ys h k = k
  all_good-append (x ∷ xs) ys h k = elim (Bool-cases (is_good x.status)) [
    | inl e ↦ rw e (all_good-append xs ys (rw e at h) k)
    | inr e ↦ let f : false ≡ true = rw e at h in absurd (false≢true f)
  ]

  all_good-cons :
      (x : Item) (xs : List Item)
      → all_good (x ∷ xs) ≡ true ↔ ((is_good x.status ≡ true) × (all_good xs ≡ true))
  unfolding all_good
  all_good-cons x xs = elim (Bool-cases (is_good x.status)) [
    | inl e ↦ rw e ((λ h. (refl, h)), λ (p, q). q)
    | inr e ↦ rw e ((λ h. absurd (false≢true h)), λ (p, q). absurd (false≢true p))
  ]

  RanAll-cons :
      (fix : Bool) (c : Check S) (cs : List (Check S)) (st : S) (step : Step S) (r : Report)
      (st' : S)
      → OneStep fix c (c.checker st).0 (c.checker st).1 step
      → RanAll fix cs step.state r st'
      → RanAll fix
          (c ∷ cs)
          st
          (record { checks = step.check ∷ r.checks; fixes = step.fixes ++ r.fixes })
          st'
  unfolding item_names check_names checked_only AllPass
  RanAll-cons fix c cs st step r st' o a = record {
    one_each = rw (o.name, a.one_each);
    not_fixed = λ h.
        let (same, g) = o.not_fixed h in
        let (e, gs) = a.not_fixed h in
        (e ∙ ap (checked_only cs) same, all_good-append step.fixes r.fixes g gs);
    all_pass = (
      (λ h.
          let (x, xs) = (all_good-cons step.check r.checks).0 h in
          let (n, p, same) = o.passed x in (n, p, subst (AllPass cs) same (a.all_pass.0 xs))),
      λ (n, p, ps).
          let (x, same) = o.good n p in
          (all_good-cons step.check r.checks).1
            (x, a.all_pass.1 (subst (AllPass cs) (sym same) ps)),
    );
  }

  run_all-RanAll :
      (fix : Bool) (cs : List (Check S)) (st : S)
      → RanAll fix cs st (run_all S fix cs st).0 (run_all S fix cs st).1
  unfolding run_all item_names check_names checked_only AllPass all_good
  run_all-RanAll fix [] st = record {
    one_each = refl;
    not_fixed = λ h. (refl, refl);
    all_pass = ((λ h. tt), λ h. refl);
  }
  run_all-RanAll fix (c ∷ cs) st =
      let step = after_check S fix c (c.checker st) in
      RanAll-cons fix c cs st step (run_all S fix cs step.state).0 (run_all S fix cs step.state).1
        (after_check-OneStep fix c (c.checker st).0 (c.checker st).1)
        (run_all-RanAll fix cs step.state)

  -- What a first call of RunChecks returns and leaves.
  pub record Ran (fix : Bool) (h : Helper S) (st : S) (x : Report × Helper S × S) : Type 0 where
    pub one_each : item_names x.0.checks ≡ check_names h.items
    pub passes : checks_succeeded x.0 ≡ true ↔ AllPass h.items st
    pub not_fixed : fix ≡ false → (x.2 ≡ checked_only h.items st) × (fixes_succeeded x.0 ≡ true)
    pub again : (fix' : Bool) (st' : S) → run_checks S fix' x.1 st' ≡ (x.0, x.1, st')

  -- A first call of RunChecks reports one item for each check, in their order. ChecksSucceeded holds of
  -- the report exactly where each checker passed without an error on the state that the checkers before it
  -- leave. Without `fix` only the checkers run, and FixesSucceeded holds. A later call returns the same
  -- report and runs nothing.
  pub run_checks-Ran :
      (fix : Bool) (h : Helper S) (st : S) → h.report ≡ none → Ran fix h st (run_checks S fix h st)
  unfolding run_checks checks_succeeded fixes_succeeded
  run_checks-Ran fix h st e =
      let a = run_all-RanAll fix h.items st in
      rw e (record {
        one_each = a.one_each;
        passes = a.all_pass;
        not_fixed = a.not_fixed;
        again = λ f s. refl;
      })
