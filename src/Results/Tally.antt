-- ===== src/Results/Tally.antt =====
-- The outcome of a run against the successes that its groups reported.
use canary_testing.Prelude.{
  ℕ, ◌+◌, String, true, false, List, [], ◌∷◌, ◌≡◌, ◌↔◌, refl, sym, ap, ◌∙◌, Option, none, some,
  str_eq, eq_iff, ◌==◌, if◌then◌else◌, Bool-cases, inl, inr, arith,
}
use canary_testing.Prelude.Run.{Run, done, ◌>>=◌, Returns, returns, Returns-then, Returns-weaken}
use canary_testing.Manifest.{lookup}
use canary_testing.Task.{Outcome}
use canary_testing.Results.{
  GroupOutcome, Result, count_success, add_outcome, all_succeeded, update_outcome,
}

unfoldable pub AllSucceeded : List (String × GroupOutcome) → Type 0
AllSucceeded [] = Unit {0}
AllSucceeded ((k, g) ∷ m) = (g.succeeded ≡ g.total) × AllSucceeded m

all_succeeded-AllSucceeded :
    (m : List (String × GroupOutcome)) → all_succeeded m ≡ Outcome.success ↔ AllSucceeded m
unfolding all_succeeded AllSucceeded
all_succeeded-AllSucceeded [] = ((λ h. tt), λ h. refl)
all_succeeded-AllSucceeded ((k, g) ∷ m) = elim (Bool-cases (g.total == g.succeeded)) [
  | inl e ↦ rw e (
    (λ h. (ground arith, (all_succeeded-AllSucceeded m).0 h)),
    λ (h, hs). (all_succeeded-AllSucceeded m).1 hs,
  )
  | inr e ↦ rw e ((λ h. cc), λ (h, hs). absurd (ground arith))
]

-- updateOutcome sets the outcome "success" exactly where all the instances of each group succeeded.
pub update_outcome-AllSucceeded :
    (r : Result) → (update_outcome r).outcome ≡ Outcome.success ↔ AllSucceeded r.outcomes
unfolding update_outcome
update_outcome-AllSucceeded r = all_succeeded-AllSucceeded r.outcomes

-- The events of a run, one after the other.
unfoldable pub play : List (String × Outcome) → Result → Run Result
play [] r = done r
play ((id, o) ∷ events) r = add_outcome r id o >>= λ r'. play events r'

-- The number of successes of a group.
is_success_of : String → String × Outcome → ℕ
is_success_of k (id, Outcome.success) = if str_eq id k then 1 else 0
is_success_of k (id, o) = 0

unfoldable pub successes : String → List (String × Outcome) → ℕ
unfolding is_success_of
successes k [] = 0
successes k (e ∷ events) = is_success_of k e + successes k events

unfoldable pub more : ℕ → Option GroupOutcome → Option GroupOutcome
more n none = none
more n (some g) = some (record g { succeeded = g.succeeded + n })

-- Each group of the events is there.
unfoldable pub Known : List (String × GroupOutcome) → List (String × Outcome) → Type 0
Known m [] = Unit {0}
Known m ((id, o) ∷ events) = ((g : GroupOutcome) × (lookup id m ≡ some g)) × Known m events

more-zero : (o : Option GroupOutcome) → more 0 o ≡ o
unfolding more
more-zero none = refl
more-zero (some g) = ap some (same_count g (g.succeeded + 0) (omega arith))
  where
    same_count : (g : GroupOutcome) (n : ℕ) → n ≡ g.succeeded → record g { succeeded = n } ≡ g
    same_count g n e = rw e

more-more : (a b : ℕ) (o : Option GroupOutcome) → more b (more a o) ≡ more (a + b) o
unfolding more
more-more a b none = refl
more-more a b (some g) = let e : g.succeeded + a + b ≡ g.succeeded + (a + b) = omega arith in rw e

str_eq_apart : (j id k : String) → str_eq j k ≡ true → str_eq j id ≡ false → str_eq id k ≡ false
str_eq_apart j id k f e = elim (Bool-cases (str_eq id k)) [
  | inl p ↦
      let same : str_eq j id ≡ true =
        (eq_iff j id).1 ((eq_iff j k).0 f ∙ sym ((eq_iff id k).0 p)) in
      cc
  | inr p ↦ p
]

-- What counting a success of `id` leaves under each key.
Counted : String → List (String × GroupOutcome) → List (String × GroupOutcome) → Type 0
Counted id m m' = (k : String) → lookup k m' ≡ more (if str_eq id k then 1 else 0) (lookup k m)

count_success-Counted :
    (id : String) (m : List (String × GroupOutcome)) (g : GroupOutcome)
    → lookup id m ≡ some g
    → Returns (Counted id m) (count_success id m)
unfolding count_success lookup Counted more
count_success-Counted id [] g h = cc
count_success-Counted id ((j, x) ∷ m) g h = elim (Bool-cases (str_eq j id)) [
  | inl e ↦
      let same = (eq_iff j id).0 e in
      rw e (
        returns λ k. elim (Bool-cases (str_eq j k)) [
          | inl f ↦ rw (← same, f)
          | inr f ↦ rw (← same, f) (sym (more-zero (lookup k m)))
        ])
  | inr e ↦ rw e (
      Returns-then (count_success-Counted id m g (rw e at h)) λ m' c. returns λ k.
        elim (Bool-cases (str_eq j k)) [
          | inl f ↦ rw (f, str_eq_apart j id k f e) (sym (more-zero (some x)))
          | inr f ↦ rw f (c k)
        ])
]

more-some :
    (n : ℕ) (o : Option GroupOutcome) (g : GroupOutcome)
    → o ≡ some g
    → (g' : GroupOutcome) × (more n o ≡ some g')
unfolding more
more-some n none g h = cc
more-some n (some x) g h = (record x { succeeded = x.succeeded + n }, refl)

Known-counted :
    (id : String) (m m' : List (String × GroupOutcome)) (events : List (String × Outcome))
    → Counted id m m'
    → Known m events
    → Known m' events
unfolding Known Counted
Known-counted id m m' [] c k = tt
Known-counted id m m' ((j, o) ∷ events) c ((g, h), hs) =
    let (g', h') = more-some (if str_eq id j then 1 else 0) (lookup j m) g h in
    ((g', c j ∙ h'), Known-counted id m m' events c hs)

-- Each group has as many more successes as the events have for it.
unfoldable pub Tallied : List (String × Outcome) → Result → Result → Type 0
Tallied events r r' =
    (k : String) → lookup k r'.outcomes ≡ more (successes k events) (lookup k r.outcomes)

Tallied-skip :
    (id : String) (o : Outcome) (events : List (String × Outcome)) (r r' : Result)
    → ((k : String) → is_success_of k (id, o) ≡ 0)
    → Tallied events r r'
    → Tallied ((id, o) ∷ events) r r'
unfolding Tallied successes
Tallied-skip id o events r r' z t k =
    let e : is_success_of k (id, o) + successes k events ≡ successes k events =
      omega (arith, z k) in
    rw e (t k)

Tallied-count :
    (id : String) (events : List (String × Outcome)) (r r' : Result)
    (m : List (String × GroupOutcome))
    → Counted id r.outcomes m
    → Tallied events (record r { outcomes = m }) r'
    → Tallied ((id, Outcome.success) ∷ events) r r'
unfolding Tallied successes Counted
Tallied-count id events r r' m c t k =
    t k
    ∙ ap (more (successes k events)) (c k)
    ∙ more-more (if str_eq id k then 1 else 0) (successes k events) (lookup k r.outcomes)

-- One event: the groups of the events after it are still there, and it counts where it should.
Step : String × Outcome → List (String × Outcome) → Result → Result → Type 0
Step e events r r1 =
    Known r1.outcomes events × ((r' : Result) → Tallied events r1 r' → Tallied (e ∷ events) r r')

add_outcome-Step :
    (id : String) (o : Outcome) (events : List (String × Outcome)) (r : Result)
    → Known r.outcomes ((id, o) ∷ events)
    → Returns (Step (id, o) events r) (add_outcome r id o)
unfolding add_outcome Known Step is_success_of
add_outcome-Step id Outcome.success events r ((g, h), hs) =
    Returns-then (count_success-Counted id r.outcomes g h) λ m c.
      returns
        (Known-counted id r.outcomes m events c hs, λ r' t. Tallied-count id events r r' m c t)
add_outcome-Step id Outcome.unknown events r (h, hs) =
    returns (hs, λ r' t. Tallied-skip id Outcome.unknown events r r' (λ k. refl) t)
add_outcome-Step id Outcome.failure events r (h, hs) =
    returns (hs, λ r' t. Tallied-skip id Outcome.failure events r r' (λ k. refl) t)
add_outcome-Step id Outcome.canceled events r (h, hs) =
    returns (hs, λ r' t. Tallied-skip id Outcome.canceled events r r' (λ k. refl) t)
add_outcome-Step id (Outcome.other_outcome s) events r (h, hs) =
    returns (hs, λ r' t. Tallied-skip id (Outcome.other_outcome s) events r r' (λ k. refl) t)

-- Where each event is of a group of the run, nothing panics, and each group has as many more
-- successes as the events have for it.
pub play-Tallied :
    (events : List (String × Outcome)) (r : Result)
    → Known r.outcomes events
    → Returns (Tallied events r) (play events r)
unfolding play Tallied successes Step
play-Tallied [] r h = returns λ k. sym (more-zero (lookup k r.outcomes))
play-Tallied ((id, o) ∷ events) r h =
    Returns-then (add_outcome-Step id o events r h)
      λ r1 (known, step). Returns-weaken (play-Tallied events r1 known) step
