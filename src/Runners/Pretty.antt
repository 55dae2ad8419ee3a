-- ===== src/Runners/Pretty.antt =====
-- processStdout of pkg/runner/pretty.go: whether an instance counts as failed, from the lines of its
-- output. The decoding of a line and of its event is a parameter: what a line is.
use canary_testing.Prelude.{
  ℕ, Bool, true, false, not, ◌&&◌, ◌||◌, List, [], ◌∷◌, ◌≡◌, ◌↔◌, refl, if◌then◌else◌, arith,
}

-- A line: no JSON, the end of the stream, no event, or an event.
pub data Line : Type 0 where
  no_json end_of_stream no_event : Line
  success failure crash message start stage unknown_event : Line

pub record Seen : Type 0 where
  pub ok : Bool
  pub failed : Bool

-- The loop over the lines.
unfoldable pub process : List Line → Seen → Seen
process [] s = s
process (end_of_stream ∷ ls) s = s
process (unknown_event ∷ ls) s = s
process (success ∷ ls) s = process ls (record s { ok = true })
process (failure ∷ ls) s = process ls (record s { failed = true })
process (crash ∷ ls) s = process ls (record s { failed = true })
process (l ∷ ls) s = process ls s

-- The deferred function: whether "incomplete" is printed, and how many more instances have failed.
unfoldable pub prints_incomplete : Seen → Bool
prints_incomplete s = not s.ok && not s.failed

unfoldable pub counts_failed : Seen → ℕ
counts_failed s = if not s.ok || s.failed then 1 else 0

-- processStdout
unfoldable pub process_stdout : List Line → Bool × ℕ
process_stdout ls =
    let s = process ls (record { ok = false; failed = false }) in
    (prints_incomplete s, counts_failed s)

-- The lines that the loop reads: those before the end of the stream or an event it does not know.
unfoldable pub lines_read : List Line → List Line
lines_read [] = []
lines_read (end_of_stream ∷ ls) = []
lines_read (unknown_event ∷ ls) = []
lines_read (l ∷ ls) = l ∷ lines_read ls

unfoldable pub has_success : List Line → Bool
has_success [] = false
has_success (success ∷ ls) = true
has_success (l ∷ ls) = has_success ls

unfoldable pub has_failure : List Line → Bool
has_failure [] = false
has_failure (failure ∷ ls) = true
has_failure (crash ∷ ls) = true
has_failure (l ∷ ls) = has_failure ls

or_true : (a : Bool) → a || true ≡ true
or_true true = refl
or_true false = refl

or_false : (a : Bool) → a || false ≡ a
or_false true = refl
or_false false = refl

process-ok : (ls : List Line) (s : Seen) → (process ls s).ok ≡ s.ok || has_success (lines_read ls)
unfolding process lines_read has_success
process-ok [] s = rw (or_false s.ok)
process-ok (end_of_stream ∷ ls) s = rw (or_false s.ok)
process-ok (unknown_event ∷ ls) s = rw (or_false s.ok)
process-ok (success ∷ ls) s = rw (process-ok ls (record s { ok = true }), or_true s.ok)
process-ok (failure ∷ ls) s = process-ok ls (record s { failed = true })
process-ok (crash ∷ ls) s = process-ok ls (record s { failed = true })
process-ok (no_json ∷ ls) s = process-ok ls s
process-ok (no_event ∷ ls) s = process-ok ls s
process-ok (message ∷ ls) s = process-ok ls s
process-ok (start ∷ ls) s = process-ok ls s
process-ok (stage ∷ ls) s = process-ok ls s

process-failed :
    (ls : List Line) (s : Seen) → (process ls s).failed ≡ s.failed || has_failure (lines_read ls)
unfolding process lines_read has_failure
process-failed [] s = rw (or_false s.failed)
process-failed (end_of_stream ∷ ls) s = rw (or_false s.failed)
process-failed (unknown_event ∷ ls) s = rw (or_false s.failed)
process-failed (success ∷ ls) s = process-failed ls (record s { ok = true })
process-failed (failure ∷ ls) s =
    rw (process-failed ls (record s { failed = true }), or_true s.failed)
process-failed (crash ∷ ls) s =
    rw (process-failed ls (record s { failed = true }), or_true s.failed)
process-failed (no_json ∷ ls) s = process-failed ls s
process-failed (no_event ∷ ls) s = process-failed ls s
process-failed (message ∷ ls) s = process-failed ls s
process-failed (start ∷ ls) s = process-failed ls s
process-failed (stage ∷ ls) s = process-failed ls s

-- An instance does not count as failed exactly where, among the lines that are read, one reports its
-- success and none a failure or a crash; and "incomplete" is printed exactly where none reports any.
pub process_stdout-passed :
    (ls : List Line)
    → ((process_stdout ls).1 ≡ 0
        ↔ ((has_success (lines_read ls) ≡ true) × (has_failure (lines_read ls) ≡ false)))
      × ((process_stdout ls).0 ≡ true
          ↔ ((has_success (lines_read ls) ≡ false) × (has_failure (lines_read ls) ≡ false)))
unfolding process_stdout prints_incomplete counts_failed
process_stdout-passed ls =
    let s : Seen = record { ok = false; failed = false } in
    rw (process-ok ls s, process-failed ls s)
      (((λ h. ground arith), λ (a, b). ground arith), ((λ h. ground arith), λ (a, b). ground arith))
