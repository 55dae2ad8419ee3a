-- ===== src/Composition/Select/Pick.antt =====
-- PickGroups of pkg/api/composition.go: the groups at given indexes.
use canary_testing.Prelude.{
  ℕ, ◌<◌, not, List, [], ◌∷◌, ◌≡◌, refl, length, get_elem?, get_or, get_elem?-get_or, if◌then◌else◌,
  map, arith,
}
use canary_testing.Prelude.Run.{Run, Res, ok, err, done, panic, expect, ◌>>=◌}
use canary_testing.Prelude.Int.{ℤ, pos, negsuc, ltb_ℤ}
use canary_testing.Manifest.{Error, bad_group_index}
use canary_testing.Composition.{Group, Composition}

-- The two loops of PickGroups.
unfoldable pub check_indices : ℕ → List ℤ → Res Error (Unit {0})
check_indices n [] = ok tt
check_indices n (i ∷ is) =
    if not (ltb_ℤ i (pos n)) then err (bad_group_index i) else check_indices n is

unfoldable pub group_at : List Group → ℤ → Run Group
group_at gs (pos i) = expect (get_elem? gs i)
group_at gs (negsuc i) = panic

unfoldable pub groups_at : List Group → List ℤ → Run (List Group)
groups_at gs [] = done []
groups_at gs (i ∷ is) = group_at gs i >>= λ g. groups_at gs is >>= λ rest. done (g ∷ rest)

picked : Composition → List ℤ → Res Error (Unit {0}) → Run (Res Error Composition)
picked c is (err e) = done (err e)
picked c is (ok x) = groups_at c.groups is >>= λ gs. done (ok (record c { groups = gs }))

-- PickGroups
unfoldable pub pick_groups : Composition → List ℤ → Run (Res Error Composition)
unfolding picked
pick_groups c is = picked c is (check_indices (length c.groups) is)

unfoldable pub InRange : ℕ → List ℕ → Type 0
InRange n [] = Unit {0}
InRange n (i ∷ is) = (i < n) × InRange n is

check_indices-InRange : (n : ℕ) (is : List ℕ) → InRange n is → check_indices n (map pos is) ≡ ok tt
unfolding check_indices InRange
check_indices-InRange n [] h = refl
check_indices-InRange n (i ∷ is) (h, hs) = rw (check_indices-InRange n is hs) (ground arith)

groups_at-InRange :
    (gs : List Group) (d : Group) (is : List ℕ)
    → InRange (length gs) is
    → groups_at gs (map pos is) ≡ done (map (λ i. get_or gs i d) is)
unfolding groups_at group_at InRange
groups_at-InRange gs d [] h = refl
groups_at-InRange gs d (i ∷ is) (h, hs) =
    rw (get_elem?-get_or d gs i h, groups_at-InRange gs d is hs)

-- PickGroups with indexes in range keeps the rest of the composition, and has the group at each index,
-- in the order of the indexes, an index that is given twice included.
pub pick_groups-InRange :
    (c : Composition) (d : Group) (is : List ℕ)
    → InRange (length c.groups) is
    → pick_groups c (map pos is)
      ≡ done (ok (record c { groups = map (λ i. get_or c.groups i d) is }))
unfolding pick_groups picked
pick_groups-InRange c d is h =
    rw (check_indices-InRange (length c.groups) is h, groups_at-InRange c.groups d is h)
