-- ===== src/Engine/Queries/Compatible.antt =====
-- Which requests QueueRun passes on to the queue.
use canary_testing.Prelude.{
  ℕ, String, Bool, true, false, not, ◌||◌, List, [], ◌∷◌, ◌≡◌, ◌↔◌, ◌⊎◌, refl, sym, ap, ◌∙◌, subst,
  Option, none, some, str_eq, eq_iff, if◌then◌else◌, Bool-cases, inl, inr, arith,
}
use canary_testing.Prelude.Text.{is_empty}
use canary_testing.Prelude.Rearranged.{any}
use canary_testing.Prelude.Sort.{sort_strings, same}
use canary_testing.Prelude.Sort.Order.{sort_by-perm}
use canary_testing.Prelude.Run.{ok, err, done, Res-cases}
use canary_testing.Prelude.Res.{guard-eq-ok}
use canary_testing.Manifest.{lookup}
use canary_testing.Composition.{Group, Composition}
use canary_testing.Composition.BuildKey.{used_builders, list_builders}
use canary_testing.Composition.Select.{contains, add_key}
use canary_testing.Composition.Select.Frame.{contains-perm}
use canary_testing.Task.Backend.{Backend}
use canary_testing.Task.Queue.{Queue, push_unique_by_branch}
use canary_testing.Engine.Component.{Error, Runner, incompatible_builder, unknown_runner}
use canary_testing.Engine.Queries.{
  Request, run_task, check_compatible, runnable, with_id, queue_run, queue_checked,
}

-- A group uses a builder.
unfoldable pub uses : String → String → Group → Bool
uses global b g = str_eq (if is_empty g.builder then global else g.builder) b

-- The runner is there, and every builder that a group uses is compatible with it.
unfoldable pub Compatible : List (String × Runner) → Composition → Type 0
Compatible runners c =
    (r : Runner) × (lookup c.global.runner runners ≡ some r)
    × ((b : String)
        → any (uses c.global.builder b) c.groups ≡ true
        → contains b r.compatible_builders ≡ true)

contains-add_key :
    (j k : String) (ks : List String) → contains j (add_key k ks) ≡ contains j ks || str_eq k j
unfolding add_key contains
contains-add_key j k ks = elim (Bool-cases (contains k ks)) [
  | inl e ↦ rw e (elim (Bool-cases (str_eq k j)) [
    | inl f ↦ rw (f, ← (eq_iff k j).0 f, e)
    | inr f ↦ rw f (or_false (contains j ks))
  ])
  | inr e ↦ rw e (ground arith)
]
  where
    or_false : (a : Bool) → a ≡ a || false
    or_false true = refl
    or_false false = refl

contains-used_builders :
    (global b : String) (gs : List Group) (keys : List String)
    → contains b (used_builders global gs keys) ≡ contains b keys || any (uses global b) gs
unfolding used_builders uses
contains-used_builders global b [] keys = ground arith
contains-used_builders global b (g ∷ gs) keys =
    let k = if is_empty g.builder then global else g.builder in
    contains-used_builders global b gs (add_key k keys)
    ∙ rw (contains-add_key b k keys)
        (or_assoc (contains b keys) (str_eq k b) (any (uses global b) gs))
  where
    or_assoc : (a b c : Bool) → (a || b) || c ≡ a || (b || c)
    or_assoc true b c = refl
    or_assoc false b c = refl

contains-list_builders :
    (b : String) (c : Composition)
    → contains b (list_builders c) ≡ any (uses c.global.builder b) c.groups
unfolding list_builders sort_strings contains
contains-list_builders b c =
    contains-perm b (sort_by-perm same (used_builders c.global.builder c.groups []))
    ∙ contains-used_builders c.global.builder b c.groups []

-- The loop over the builders passes exactly where each is among those that are compatible.
check_compatible-all :
    (runner : String) (known bs : List String)
    → check_compatible runner known bs ≡ ok tt
      ↔ ((b : String) → contains b bs ≡ true → contains b known ≡ true)
unfolding check_compatible contains
check_compatible-all runner known [] = ((λ h b c. cc), λ h. refl)
check_compatible-all runner known (x ∷ xs) = (
  (λ h b c.
      let (n, h1) = guard-eq-ok (not (contains x known)) (incompatible_builder runner x) h in
      let rest = (check_compatible-all runner known xs).0 h1 b in
      elim (Bool-cases (str_eq x b)) [
        | inl e ↦ rw (← (eq_iff x b).0 e) (ground arith)
        | inr e ↦ rest (rw e at c)
      ]),
  λ all.
      let here = all x (rw ((eq_iff x x).1 refl) refl) in
      rw here (
        (check_compatible-all runner known xs).1
          λ b c. all b (elim (Bool-cases (str_eq x b)) [ inl e ↦ rw e | inr e ↦ rw e c ])),
)

same_runner : {r r' : Runner} → some r ≡ some r' → r ≡ r'
same_runner e = cc

runnable-Compatible :
    (runners : List (String × Runner)) (c : Composition)
    → runnable runners c ≡ ok tt ↔ Compatible runners c
unfolding runnable Compatible
runnable-Compatible runners c = go (lookup c.global.runner runners) refl
  where
    among : Runner → Type 0
    among r =
        (b : String)
        → any (uses c.global.builder b) c.groups ≡ true
        → contains b r.compatible_builders ≡ true

    passes :
        (r : Runner)
        → check_compatible c.global.runner r.compatible_builders (list_builders c) ≡ ok tt ↔ among r
    passes r =
        let all = check_compatible-all c.global.runner r.compatible_builders (list_builders c) in
        (
          (λ h b u. all.0 h b (contains-list_builders b c ∙ u)),
          λ a. all.1 λ b u. a b (sym (contains-list_builders b c) ∙ u),
        )

    go :
        (o : Option Runner)
        → lookup c.global.runner runners ≡ o
        → (elim o [
          | none ↦ err (unknown_runner c.global.runner)
          | some r ↦ check_compatible c.global.runner r.compatible_builders (list_builders c)
        ])
            ≡ ok tt
          ↔ ((r : Runner) × (lookup c.global.runner runners ≡ some r) × among r)
    go none e = ((λ h. cc), λ (r, f, a). absurd (none_some (sym e ∙ f)))
      where
        none_some : {r : Runner} → none ≡ some r → ⊥
        none_some p = cc
    go (some r) e = (
      (λ h. (r, e, (passes r).0 h)),
      λ (r', f, a). (passes r).1 (subst among (sym (same_runner (sym e ∙ f))) a),
    )

only_unit : (x : Unit {0}) → x ≡ tt
only_unit x = refl

-- Where the runner is known and every builder that a group uses, its own or the global one, is compatible
-- with it, QueueRun calls PushUniqueByBranch with the task of the run, and returns the id, the error of
-- this call, and the queue that the call leaves. In every other case it makes no call: it returns an
-- error, no id, and the queue as it was.
pub queue_run-Compatible :
    (b : Backend) (runners : List (String × Runner)) (id : String) (now : ℕ) (clock : ℕ → ℕ)
    (r : Request) (q : Queue b)
    → (Compatible runners r.composition
        × (queue_run b runners id now clock r q
            ≡ with_id b id (push_unique_by_branch b clock (run_task id now r) q)))
      ⊎ ((Compatible runners r.composition → ⊥)
          × ((e : Error) × (queue_run b runners id now clock r q ≡ done ("", err e, q))))
unfolding queue_run queue_checked
queue_run-Compatible b runners id now clock r q =
    elim (Res-cases (runnable runners r.composition)) [
      | inl (x, e) ↦
          let passed = e ∙ ap ok (only_unit x) in
          inl ((runnable-Compatible runners r.composition).0 passed, rw passed)
      | inr (x, e) ↦
          inr ((λ c. ok_err (sym ((runnable-Compatible runners r.composition).1 c) ∙ e)), (x, rw e))
    ]
  where
    ok_err : {y : Unit {0}} {x : Error} → ok y ≡ err x → ⊥
    ok_err p = cc
