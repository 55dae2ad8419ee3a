-- ===== src/Composition/BuildKey/Canonical.antt =====
-- On what the key of a build depends.
use canary_testing.Prelude.{List, [], ◌∷◌, ◌≡◌, refl, sym, ap, ◌∙◌, Perm, map, Bool-cases, inl, inr}
use canary_testing.Prelude.Sort.{sort_by, insert, text_leb}
use canary_testing.Prelude.Sort.Order.{sort_strings-perm}
use canary_testing.Composition.{Dependency, Build}
use canary_testing.Composition.BuildKey.{module_of, write_dependencies, build_key}

-- A dependency without its target.
abbrev pub untargeted : Dependency → Dependency
untargeted d = record d { target = "" }

insert-untargeted :
    (d : Dependency) (ds : List Dependency)
    → map untargeted (insert module_of d ds) ≡ insert module_of (untargeted d) (map untargeted ds)
unfolding insert module_of
insert-untargeted d [] = refl
insert-untargeted d (x ∷ xs) = elim (Bool-cases (text_leb d.module_path x.module_path)) [
  | inl e ↦ rw e
  | inr e ↦ rw (e, insert-untargeted d xs)
]

sort-untargeted :
    (ds : List Dependency)
    → map untargeted (sort_by module_of ds) ≡ sort_by module_of (map untargeted ds)
unfolding sort_by
sort-untargeted [] = refl
sort-untargeted (d ∷ ds) =
    insert-untargeted d (sort_by module_of ds)
    ∙ ap (insert module_of (untargeted d)) (sort-untargeted ds)

write-untargeted :
    (ds : List Dependency) → write_dependencies (map untargeted ds) ≡ write_dependencies ds
unfolding write_dependencies
write-untargeted [] = refl
write-untargeted (d ∷ ds) = rw (write-untargeted ds)

write-sorted :
    (ds : List Dependency)
    → write_dependencies (sort_by module_of ds)
      ≡ write_dependencies (sort_by module_of (map untargeted ds))
write-sorted ds =
    sym (write-untargeted (sort_by module_of ds)) ∙ ap write_dependencies (sort-untargeted ds)

-- Two builds have one key if their selectors are the same in any order, and their dependencies are
-- the same in module and version, whatever their targets are.
pub build_key-Canonical :
    (b b' : Build)
    → Perm b.selectors b'.selectors
    → map untargeted b.dependencies ≡ map untargeted b'.dependencies
    → build_key b ≡ build_key b'
unfolding build_key
build_key-Canonical b b' p e =
    rw (sort_strings-perm p, write-sorted b.dependencies, write-sorted b'.dependencies, e)
