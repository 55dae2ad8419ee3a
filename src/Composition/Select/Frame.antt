-- ===== src/Composition/Select/Frame.antt =====
-- What FrameForRuns of pkg/api/composition.go keeps.
use mathlib.Core.Logic.{∥∥₁_elim}
use mathlib.Core.List.{Permᴰ}
use mathlib.Core.Bool.{Bool-set}
use canary_testing.Prelude.{
  String, true, List, [], ◌∷◌, ◌≡◌, refl, subst, ◌∙◌, Perm, str_eq, eq_iff, Bool-cases, inl, inr,
  arith,
}
use canary_testing.Prelude.Run.{ok}
use canary_testing.Prelude.Res.{>>=-eq-ok, ok-functional}
use canary_testing.Composition.{
  Group, RunGroup, TestRun, Composition, effective_group_id, group_ids,
}
use canary_testing.Composition.Select.{
  find_group, get_group, get_run, contains, add_key, add_groups, gather, gather_groups,
  frame_for_runs,
}

-- The groups that a run refers to are among the keys; and so are those of each run of a list.
unfoldable pub Refers : List String → List RunGroup → Type 0
Refers ks [] = Unit {0}
Refers ks (g ∷ gs) = (contains (effective_group_id g) ks ≡ true) × Refers ks gs

unfoldable pub AllRefer : List String → List TestRun → Type 0
AllRefer ks [] = Unit {0}
AllRefer ks (r ∷ rs) = Refers ks r.groups × AllRefer ks rs

-- The runs are those that getRun finds, one for each id; and the groups those of GetGroup.
unfoldable pub RunsFound : Composition → List String → List TestRun → Type 0
RunsFound c [] [] = Unit {0}
RunsFound c (id ∷ ids) (r ∷ rs) = (get_run c id ≡ ok r) × RunsFound c ids rs
RunsFound c ids rs = ⊥

unfoldable pub GroupsFound : Composition → List Group → Type 0
GroupsFound c [] = Unit {0}
GroupsFound c (g ∷ gs) = (get_group c g.id ≡ ok g) × GroupsFound c gs

find_group-id : (gs : List Group) (k : String) (g : Group) → find_group gs k ≡ ok g → g.id ≡ k
unfolding find_group
find_group-id [] k g h = cc
find_group-id (x ∷ xs) k g h = elim (Bool-cases (str_eq x.id k)) [
  | inl e ↦ let f : ok x ≡ ok g = rw e at h in rw (← ok-functional refl f) ((eq_iff x.id k).0 e)
  | inr e ↦ find_group-id xs k g (rw e at h)
]

gather_groups-ids :
    (c : Composition) (ks : List String) (gs : List Group)
    → gather_groups c ks ≡ ok gs
    → (group_ids gs ≡ ks) × GroupsFound c gs
unfolding gather_groups group_ids GroupsFound get_group
gather_groups-ids c [] gs h = let e = ok-functional refl h in rw (← e) (refl, tt)
gather_groups-ids c (k ∷ ks) gs h =
    let (g, hg, h1) = >>=-eq-ok (get_group c k) _ h in
    let (rest, hr, h2) = >>=-eq-ok (gather_groups c ks) _ h1 in
    let (ids, found) = gather_groups-ids c ks rest hr in
    let e = ok-functional refl h2 in
    let same = find_group-id c.groups k g hg in rw (← e, ids, same) (refl, (hg, found))

contains-add_key :
    (j k : String) (ks : List String) → contains j ks ≡ true → contains j (add_key k ks) ≡ true
unfolding add_key contains
contains-add_key j k ks h = ground arith

contains-added : (k : String) (ks : List String) → contains k (add_key k ks) ≡ true
unfolding add_key contains
contains-added k ks = elim (Bool-cases (contains k ks)) [
  | inl e ↦ rw e e
  | inr e ↦ rw (e, (eq_iff k k).1 refl)
]

contains-add_groups :
    (j : String) (gs : List RunGroup) (ks : List String)
    → contains j ks ≡ true
    → contains j (add_groups gs ks) ≡ true
unfolding add_groups
contains-add_groups j [] ks h = h
contains-add_groups j (g ∷ gs) ks h =
    contains-add_groups j gs (add_key (effective_group_id g) ks)
      (contains-add_key j (effective_group_id g) ks h)

Refers-more :
    (ks js : List String) (gs : List RunGroup)
    → ((j : String) → contains j ks ≡ true → contains j js ≡ true)
    → Refers ks gs
    → Refers js gs
unfolding Refers
Refers-more ks js [] more h = tt
Refers-more ks js (g ∷ gs) more (h, hs) =
    (more (effective_group_id g) h, Refers-more ks js gs more hs)

AllRefer-more :
    (ks js : List String) (rs : List TestRun)
    → ((j : String) → contains j ks ≡ true → contains j js ≡ true)
    → AllRefer ks rs
    → AllRefer js rs
unfolding AllRefer
AllRefer-more ks js [] more h = tt
AllRefer-more ks js (r ∷ rs) more (h, hs) =
    (Refers-more ks js r.groups more h, AllRefer-more ks js rs more hs)

Refers-added : (gs : List RunGroup) (ks : List String) → Refers (add_groups gs ks) gs
unfolding Refers add_groups
Refers-added [] ks = tt
Refers-added (g ∷ gs) ks = (
  contains-add_groups (effective_group_id g) gs (add_key (effective_group_id g) ks)
      (contains-added (effective_group_id g) ks),
  Refers-added gs (add_key (effective_group_id g) ks),
)

-- What the first loop gathers.
record Gathered (c : Composition) (ids ks : List String) (rs : List TestRun) (all : List String)
    : Type 0 where
  pub found : RunsFound c ids rs
  pub grown : (j : String) → contains j ks ≡ true → contains j all ≡ true
  pub referred : AllRefer all rs

gather-Gathered :
    (c : Composition) (ids ks : List String) (p : List TestRun × List String)
    → gather c ids ks ≡ ok p
    → Gathered c ids ks p.0 p.1
unfolding gather RunsFound AllRefer
gather-Gathered c [] ks p h =
    subst (λ p. Gathered c [] ks p.0 p.1) (ok-functional refl h)
      (record { found = tt; grown = λ j m. m; referred = tt })
gather-Gathered c (id ∷ ids) ks p h =
    let (r, hr, h1) = >>=-eq-ok (get_run c id) _ h in
    let (q, hq, h2) = >>=-eq-ok (gather c ids (add_groups r.groups ks)) _ h1 in
    let g = gather-Gathered c ids (add_groups r.groups ks) q hq in
    subst (λ p. Gathered c (id ∷ ids) ks p.0 p.1) (ok-functional refl h2)
      (record {
        found = (hr, g.found);
        grown = λ j m. g.grown j (contains-add_groups j r.groups ks m);
        referred = (
          Refers-more (add_groups r.groups ks) q.1 r.groups g.grown (Refers-added r.groups ks),
          g.referred,
        );
      })

contains-Permᴰ : (j : String) {ks js : List String} → Permᴰ ks js → contains j ks ≡ contains j js
unfolding contains
contains-Permᴰ j Permᴰ.nil = refl
contains-Permᴰ j (Permᴰ.cons x p) = rw (x, contains-Permᴰ j p)
contains-Permᴰ j (Permᴰ.swap x y) = ground arith
contains-Permᴰ j (Permᴰ.trans p q) = contains-Permᴰ j p ∙ contains-Permᴰ j q

pub contains-perm : (j : String) {ks js : List String} → Perm ks js → contains j ks ≡ contains j js
contains-perm j p = ∥∥₁_elim p (Bool-set _ _) (contains-Permᴰ j)

-- What FrameForRuns returns without an error: the runs of the ids, in their order, and groups of the
-- composition among which is each group that one of the runs refers to.
pub record Framed (order : List String → List String) (c : Composition) (ids : List String)
    (c' : Composition) : Type 0 where
  pub runs_found : RunsFound c ids c'.runs
  pub groups_found : GroupsFound c c'.groups
  pub closed : AllRefer (group_ids c'.groups) c'.runs
  pub rest : (c'.global ≡ c.global) × (c'.metadata ≡ c.metadata)

-- FrameForRuns, if it returns no error, keeps the runs of the ids, in their order, and groups of the
-- composition with each group that one of these runs refers to, if the loop over the map of required
-- groups visits each key once, in any order.
pub frame_for_runs-Framed :
    (order : List String → List String) (c : Composition) (ids : List String) (c' : Composition)
    → ((ks : List String) → Perm (order ks) ks)
    → frame_for_runs order c ids ≡ ok c'
    → Framed order c ids c'
unfolding frame_for_runs
frame_for_runs-Framed order c ids c' perm h =
    let (p, hp, h1) = >>=-eq-ok (gather c ids []) _ h in
    let (gs, hg, h2) = >>=-eq-ok (gather_groups c (order p.1)) _ h1 in
    let g = gather-Gathered c ids [] p hp in
    let (same, found) = gather_groups-ids c (order p.1) gs hg in
    let e = ok-functional refl h2 in
    record {
      runs_found = rw (← e) g.found;
      groups_found = rw (← e) found;
      closed =
          rw (← e, same)
            (AllRefer-more p.1 (order p.1) p.0 (λ j m. contains-perm j (perm p.1) ∙ m) g.referred);
      rest = rw (← e) (refl, refl);
    }
