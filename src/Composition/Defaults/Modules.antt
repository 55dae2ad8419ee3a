-- ===== src/Composition/Defaults/Modules.antt =====
-- The modules of dependencies after Dependencies.ApplyDefaults of pkg/api/composition.go.
use mathlib.Core.Logic.{∥∥₁_elim}
use mathlib.Core.List.{Permᴰ}
use mathlib.Core.Bool.{Bool-set}
use canary_testing.Prelude.{
  String, Bool, true, false, ◌||◌, List, [], ◌∷◌, ◌++◌, ◌≡◌, refl, subst, sym, ◌∙◌, ap, str_eq,
  eq_iff, Bool-cases, inl, inr, arith, Perm, false≢true,
}
use canary_testing.Composition.{Dependency}
use canary_testing.Composition.Defaults.{
  put_dependency, as_map, has_module, missing, apply_defaults,
}

has_module-append :
    (k : String) (xs ys : List Dependency)
    → has_module k (xs ++ ys) ≡ has_module k xs || has_module k ys
unfolding has_module
has_module-append k [] ys = refl
has_module-append k (x ∷ xs) ys = elim (Bool-cases (str_eq x.module_path k)) [
  | inl e ↦ rw e
  | inr e ↦ rw e (has_module-append k xs ys)
]

-- A dependency that takes the place of another has its module.
has_module-put :
    (k : String) (d : Dependency) (m : List Dependency)
    → has_module k (put_dependency d m) ≡ has_module k (d ∷ m)
unfolding has_module put_dependency
has_module-put k d [] = refl
has_module-put k d (x ∷ m) = elim (Bool-cases (str_eq x.module_path d.module_path)) [
  | inl e ↦ rw (e, (eq_iff x.module_path d.module_path).0 e) (ground arith)
  | inr e ↦ rw (e, has_module-put k d m) (ground arith)
]

has_module-as_map :
    (k : String) (ds m : List Dependency)
    → has_module k (as_map ds m) ≡ has_module k ds || has_module k m
unfolding has_module as_map
has_module-as_map k [] m = refl
has_module-as_map k (d ∷ ds) m =
    has_module-as_map k ds (put_dependency d m) ∙ rw (has_module-put k d m) (ground arith)

has_module-missing :
    (k : String) (into ds : List Dependency)
    → has_module k into || has_module k (missing into ds) ≡ has_module k into || has_module k ds
unfolding has_module missing
has_module-missing k into [] = refl
has_module-missing k into (d ∷ ds) = elim (Bool-cases (has_module d.module_path into)) [
  | inl there ↦ rw there (elim (Bool-cases (str_eq d.module_path k)) [
    | inl e ↦
        let t : has_module k into ≡ true =
          subst (λ x. has_module x into ≡ true) ((eq_iff d.module_path k).0 e) there in
        rw t
    | inr e ↦ rw e (has_module-missing k into ds)
  ])
  | inr new ↦ rw new (elim (Bool-cases (str_eq d.module_path k)) [
    | inl e ↦ rw e
    | inr e ↦ rw e (has_module-missing k into ds)
  ])
]

-- What is appended is of no module that is there.
missing_new :
    (k : String) (into ds : List Dependency)
    → has_module k (missing into ds) ≡ true
    → has_module k into ≡ false
unfolding has_module missing
missing_new k into [] h = absurd (false≢true h)
missing_new k into (d ∷ ds) h = elim (Bool-cases (has_module d.module_path into)) [
  | inl there ↦ missing_new k into ds (rw there at h)
  | inr new ↦
      let h1 : has_module k (d ∷ missing into ds) ≡ true = rw new at h in
      elim (Bool-cases (str_eq d.module_path k)) [
        | inl e ↦ subst (λ x. has_module x into ≡ false) ((eq_iff d.module_path k).0 e) new
        | inr e ↦ missing_new k into ds (rw e at h1)
      ]
]

has_module-Permᴰ :
    (k : String) {xs ys : List Dependency} → Permᴰ xs ys → has_module k xs ≡ has_module k ys
unfolding has_module
has_module-Permᴰ k Permᴰ.nil = refl
has_module-Permᴰ k (Permᴰ.cons e p) = rw (e, has_module-Permᴰ k p)
has_module-Permᴰ k (Permᴰ.swap e f) = rw (e, f) (ground arith)
has_module-Permᴰ k (Permᴰ.trans p q) = has_module-Permᴰ k p ∙ has_module-Permᴰ k q

has_module-perm :
    (k : String) {xs ys : List Dependency} → Perm xs ys → has_module k xs ≡ has_module k ys
has_module-perm k p = ∥∥₁_elim p (Bool-set _ _) (has_module-Permᴰ k)

or_false : (a : Bool) → a || false ≡ a
or_false true = refl
or_false false = refl

has_module-entries :
    (k : String) (ds : List Dependency) → has_module k (as_map ds []) ≡ has_module k ds
unfolding has_module
has_module-entries k ds = has_module-as_map k ds [] ∙ or_false (has_module k ds)

-- What ApplyDefaults makes of explicit dependencies: they stay in front, what comes behind them is of
-- other modules, and there is a dependency on a module exactly where there was one or a default.
pub record Defaulted (ds defaults result : List Dependency) : Type 0 where
  pub rest : List Dependency
  pub in_front : result ≡ ds ++ rest
  pub new : (k : String) → has_module k rest ≡ true → has_module k ds ≡ false
  pub modules : (k : String) → has_module k result ≡ has_module k ds || has_module k defaults

-- Where there is an explicit dependency, ApplyDefaults leaves the explicit ones in front and as they
-- are, what it appends is of other modules, and in the result there is a dependency on a module exactly
-- where there was one, explicit or by default, if the loop over the map of the defaults visits each
-- entry once, in any order.
pub apply_defaults-Defaulted :
    (order : List Dependency → List Dependency) (d : Dependency) (ds defaults : List Dependency)
    → ((xs : List Dependency) → Perm (order xs) xs)
    → Defaulted (d ∷ ds) defaults (apply_defaults order (d ∷ ds) defaults)
unfolding apply_defaults
apply_defaults-Defaulted order d ds defaults perm =
    let into = as_map (d ∷ ds) [] in
    let entries = order (as_map defaults []) in
    record {
      rest = missing into entries;
      in_front = refl;
      new = λ k h. sym (has_module-entries k (d ∷ ds)) ∙ missing_new k into entries h;
      modules = λ k.
          has_module-append k (d ∷ ds) (missing into entries)
          ∙ rw (has_module-entries k (d ∷ ds)) at (has_module-missing k into entries)
          ∙ ap (◌||◌ (has_module k (d ∷ ds)))
              (has_module-perm k (perm (as_map defaults [])) ∙ has_module-entries k defaults);
    }
