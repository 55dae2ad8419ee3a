-- ===== src/Task/Queue/Remove.antt =====
-- removeExisting and PushUniqueByBranch of pkg/task/queue.go: which tasks stay in the slice.
use mathlib.Core.List.{append_assoc}
use canary_testing.Prelude.{
  ℕ, suc, ◌≡◌, refl, sym, ap, subst, ◌∙◌, String, true, false, some, List, [], ◌∷◌, ◌++◌, arith,
  length, length-append, get_elem?, Bool-cases, inl, inr, if◌then◌else◌,
}
use canary_testing.Prelude.Run.{Res, ok, done, Res-cases, Returns, returns}
use canary_testing.Task.{Task, Error}
use canary_testing.Task.Backend.{Backend}
use canary_testing.Task.Queue.{
  Queue, Scan, Canceled, matches, scan, scan_canceled, scan_kept, cancel_task, keep_tasks,
  remove_existing, removed,
}

-- The tasks of other branches or repositories, in their order.
unfoldable pub others : String → String → List Task → List Task
others branch repo [] = []
others branch repo (t ∷ ts) =
    if matches branch repo t then others branch repo ts else t ∷ others branch repo ts

get_elem?-append_end :
    (pre : List Task) (t : Task) (rest : List Task)
    → get_elem? (pre ++ t ∷ rest) (length pre) ≡ some t
get_elem?-append_end [] t rest = refl
get_elem?-append_end (u ∷ pre) t rest = get_elem?-append_end pre t rest

length-grow : (pre : List Task) (t : Task) → length (pre ++ t ∷ []) ≡ suc (length pre)
length-grow pre t = omega (arith, length-append pre (t ∷ []))

module _ (b : Backend) (clock : ℕ → ℕ) (branch repo : String) where
  -- Without an error, the indexes kept are those of the tasks that do not match.
  abbrev KeepsOthers : List Task → List Task → Scan b → Type 0
  KeepsOthers pre ts l =
      l.error ≡ ok tt → keep_tasks (pre ++ l.slice) l.keep_indexes ≡ done (others branch repo ts)

  KeepsOthers-hit :
      (c : Canceled b) (pre : List Task) (t : Task) (ts : List Task) (next : b.Db → Scan b)
      → matches branch repo t ≡ true
      → ((d : b.Db) → KeepsOthers (pre ++ c.task ∷ []) ts (next d))
      → KeepsOthers pre (t ∷ ts) (scan_canceled b c ts next)
  unfolding scan_canceled others
  KeepsOthers-hit c pre t ts next hit keeps = elim (Res-cases c.error) [
    | inl (x, e) ↦
        rw (e, scan_canceled)
          (λ h. rw (hit, ← append_assoc pre (c.task ∷ []) (next c.db).slice) (keeps c.db h))
    | inr (x, e) ↦ rw (e, scan_canceled) (λ h. cc)
  ]

  KeepsOthers-miss :
      (pre : List Task) (t : Task) (ts : List Task) (l : Scan b)
      → matches branch repo t ≡ false
      → KeepsOthers (pre ++ t ∷ []) ts l
      → KeepsOthers pre (t ∷ ts) (scan_kept b (length pre) t l)
  unfolding scan_kept others keep_tasks
  KeepsOthers-miss pre t ts l miss keeps h =
      let there = get_elem?-append_end pre t l.slice in
      let whole = append_assoc pre (t ∷ []) l.slice in
      rw (miss, there)
        (rw (ap (λ (s : List Task). keep_tasks s l.keep_indexes) (sym whole) ∙ keeps h))

  KeepsOthers-nil :
      (pre : List Task) (d : b.Db)
      → KeepsOthers pre [] (record { error = ok tt; slice = []; keep_indexes = []; db = d })
  unfolding keep_tasks others
  KeepsOthers-nil pre d h = refl

  scan-KeepsOthers :
      (pre ts : List Task) (d : b.Db)
      → KeepsOthers pre ts (scan b clock branch repo (length pre) ts d)
  unfolding scan
  scan-KeepsOthers pre [] d = KeepsOthers-nil pre d
  scan-KeepsOthers pre (t ∷ ts) d = elim (Bool-cases (matches branch repo t)) [
    | inl hit ↦
        let c = cancel_task b (clock (length pre)) t d in
        rw hit (
          KeepsOthers-hit c pre t ts (scan b clock branch repo (suc (length pre)) ts) hit
            (λ d'. rw (← length-grow pre c.task) (scan-KeepsOthers (pre ++ c.task ∷ []) ts d')))
    | inr miss ↦ rw miss (
        KeepsOthers-miss pre t ts (scan b clock branch repo (suc (length pre)) ts d) miss
          (rw (← length-grow pre t) (scan-KeepsOthers (pre ++ t ∷ []) ts d)))
  ]

  -- What removeExisting returns: without an error, the tasks that do not match are left, in their
  -- order; with one, the slice as the loop left it.
  pub record Removed (q : Queue b) (r : Res Error (Unit {0}) × Queue b) : Type 0 where
    pub left : r.0 ≡ ok tt → r.1.tq ≡ others branch repo q.tq
    pub error : r.0 ≡ (scan b clock branch repo 0 q.tq q.ts).error
    pub stored : r.1.ts ≡ (scan b clock branch repo 0 q.tq q.ts).db
    pub same_max : r.1.max ≡ q.max

  removed-Removed :
      (q : Queue b) (l : Scan b)
      → scan b clock branch repo 0 q.tq q.ts ≡ l
      → Returns (Removed q) (removed b l q)
  unfolding removed
  removed-Removed q l e = elim (Res-cases l.error) [
    | inl (x, f) ↦
        let kept : keep_tasks l.slice l.keep_indexes ≡ done (others branch repo q.tq) =
          subst (λ (l : Scan b). KeepsOthers [] q.tq l) e (scan-KeepsOthers [] q.tq q.ts) f in
        rw (f, removed)
          (rw kept (
            returns
              (record { left = λ h. refl; error = rw (e, f); stored = rw e; same_max = refl })))
    | inr (x, f) ↦
        rw (f, removed)
          (returns (record { left = λ h. cc; error = rw (e, f); stored = rw e; same_max = refl }))
  ]

  -- removeExisting returns, even where it stops at an error. Without an error the tasks of the branch
  -- and repository are gone, and the other tasks stay in their order. Its error and the database are
  -- those of its loop over the tasks.
  pub remove_existing-Removed :
      (q : Queue b) → Returns (Removed q) (remove_existing b clock branch repo q)
  unfolding remove_existing
  remove_existing-Removed q = removed-Removed q (scan b clock branch repo 0 q.tq q.ts) refl
