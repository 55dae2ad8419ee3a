-- ===== src/Composition/Instances.antt =====
-- Run.recalculateInstanceCounts of pkg/api/composition_preparation.go: how many instances each group
-- of a run has. `uint` sums wrap at 2^64.
pub mod Counting
use canary_testing.Prelude.{ℕ, ◌+◌, ◌%◌, ◌^◌, Bool, not, ◌&&◌, List, [], ◌∷◌, ◌==◌, if◌then◌else◌}
use canary_testing.Prelude.Run.{Res, ok, err}
use canary_testing.Prelude.Res.{◌>>=◌}
use canary_testing.Manifest.{Error, percentage_needs_total, total_mismatch}
use canary_testing.Composition.{RunGroup, TestRun}

-- The operations on float64 that are used: `p > 0`, `p == 0`, `uint(math.Round(p * float64(n)))`, and
-- `float64(n) + p`.
pub record Floats : Type 0 where
  pub positive : ℕ → Bool
  pub is_zero : ℕ → Bool
  pub share : ℕ → ℕ → ℕ
  pub plus_count : ℕ → ℕ → ℕ

module _ (fl : Floats) where
  -- The groups with their counts, and the sum.
  pub record Counted : Type 0 where
    pub groups : List RunGroup
    pub computed_total : ℕ

  unfoldable pub calculated : ℕ → RunGroup → ℕ
  calculated total g =
      if g.instances.count == 0 then fl.share g.instances.percentage total else g.instances.count

  count_groups : ℕ → ℕ → List RunGroup → Res Error Counted
  unfolding calculated
  count_groups total sum [] = ok (record { groups = []; computed_total = sum })
  count_groups total sum (g ∷ gs) =
      if fl.positive g.instances.percentage && total == 0 then err percentage_needs_total else (do
        let n = calculated total g
        rest ← count_groups total ((sum + n) % 2 ^ 64) gs
        ok (record {
          groups = (record g { calculated_instance_cnt = n }) ∷ rest.groups;
          computed_total = rest.computed_total;
        }))

  set_total : TestRun → Counted → Res Error TestRun
  set_total r c =
      if not (r.total_instances == 0) && not (c.computed_total == r.total_instances)
      then err (total_mismatch c.computed_total r.total_instances)
      else ok (record r { groups = c.groups; total_instances = c.computed_total })

  -- recalculateInstanceCounts. On an error the groups counted so far keep their new counts in Go; the
  -- callers give the run up, so it is not returned here.
  unfoldable pub recalculate_instance_counts : TestRun → Res Error TestRun
  unfolding count_groups set_total
  recalculate_instance_counts r = do c ← count_groups r.total_instances 0 r.groups; set_total r c
