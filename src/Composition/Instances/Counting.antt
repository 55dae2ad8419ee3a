-- ===== src/Composition/Instances/Counting.antt =====
-- What a successful count of the instances establishes, and that counting again changes nothing.
use canary_testing.Prelude.{
  ℕ, ◌+◌, ◌%◌, ◌^◌, ◌≡◌, ◌≢◌, refl, false, not, ◌&&◌, List, [], ◌∷◌, arith, ◌==◌,
}
use canary_testing.Prelude.Run.{ok}
use canary_testing.Prelude.Res.{>>=-eq-ok, guard-eq-ok, ok-functional}
use canary_testing.Manifest.{percentage_needs_total, total_mismatch}
use canary_testing.Composition.{RunGroup, TestRun}
use canary_testing.Composition.Instances.{
  Floats, Counted, calculated, count_groups, set_total, recalculate_instance_counts,
}

-- The sum of the counts, from `sum` on.
unfoldable pub sum_counts : ℕ → List RunGroup → ℕ
sum_counts sum [] = sum
sum_counts sum (g ∷ gs) = sum_counts ((sum + g.calculated_instance_cnt) % 2 ^ 64) gs

module _ (fl : Floats) where
  -- The groups of a run of `total` instances, counted.
  unfoldable pub counted_groups : ℕ → List RunGroup → List RunGroup
  counted_groups total [] = []
  counted_groups total (g ∷ gs) =
      (record g { calculated_instance_cnt = calculated fl total g }) ∷ counted_groups total gs

  count_groups-lem :
      (total sum : ℕ) (gs : List RunGroup) (c : Counted fl)
      → count_groups fl total sum gs ≡ ok c
      → (c.groups ≡ counted_groups total gs)
        × (c.computed_total ≡ sum_counts sum (counted_groups total gs))
        × (count_groups fl total sum (counted_groups total gs) ≡ ok c)
  unfolding count_groups counted_groups sum_counts calculated
  count_groups-lem total sum [] c h = let e = ok-functional refl h in (rw (← e), rw (← e), h)
  count_groups-lem total sum (g ∷ gs) c h =
      let n = calculated fl total g in
      let (passed, h1) =
        guard-eq-ok (fl.positive g.instances.percentage && total == 0) percentage_needs_total h in
      let (rest, hr, hb) = >>=-eq-ok (count_groups fl total ((sum + n) % 2 ^ 64) gs) _ h1 in
      let (groups, sums, again) = count_groups-lem total ((sum + n) % 2 ^ 64) gs rest hr in
      let e = ok-functional refl hb in (rw (← e, groups), rw (← e, sums), rw (passed, again) hb)

  set_total-agreed :
      (r : TestRun) (c : Counted fl)
      → let r' = record r { total_instances = c.computed_total; groups = c.groups } in
        set_total fl r' c ≡ ok r'
  unfolding set_total
  set_total-agreed r c =
      let tests : not (c.computed_total == 0) && not (c.computed_total == c.computed_total)
          ≡ false =
        ground arith in
      rw tests

  -- What a successful count establishes: each group has its count, the total is their sum and is
  -- the total that was asked for if one was, and then counting again changes nothing.
  pub record Recounted (r r' : TestRun) : Type 0 where
    pub groups_counted : r'.groups ≡ counted_groups r.total_instances r.groups
    pub total_is_sum : r'.total_instances ≡ sum_counts 0 r'.groups
    pub as_asked : r.total_instances ≢ 0 → r'.total_instances ≡ r.total_instances
    pub same_run : (r'.id ≡ r.id) × (r'.test_params ≡ r.test_params)
    pub again : r.total_instances ≢ 0 → recalculate_instance_counts fl r' ≡ ok r'

  -- recalculateInstanceCounts, where it returns no error, gives each group its own count or its share of
  -- the total that was asked for, and sets the total to the sum of the counts, which is the total that
  -- was asked for if one was; in that case a second call changes nothing.
  pub recalculate-Recounted :
      (r r' : TestRun) → recalculate_instance_counts fl r ≡ ok r' → Recounted r r'
  unfolding recalculate_instance_counts set_total
  recalculate-Recounted r r' h =
      let (c, hc, hs) = >>=-eq-ok (count_groups fl r.total_instances 0 r.groups) _ h in
      let (groups, sums, again) = count_groups-lem r.total_instances 0 r.groups c hc in
      let (passed, hr) =
        guard-eq-ok (not (r.total_instances == 0) && not (c.computed_total == r.total_instances))
          (total_mismatch c.computed_total r.total_instances) hs in
      let e = ok-functional refl hr in
      record {
        groups_counted = rw (← e) groups;
        total_is_sum = rw (← e, groups) sums;
        as_asked = λ nz. rw (← e) (ground arith);
        same_run = (rw (← e), rw (← e));
        again = λ nz.
            let total : c.computed_total ≡ r.total_instances = ground arith in
            let counts_again : count_groups fl c.computed_total 0 c.groups ≡ ok c =
              rw (total, groups) again in
            rw (← e, counts_again) (set_total-agreed r c);
      }
