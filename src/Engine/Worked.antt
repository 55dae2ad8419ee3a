-- ===== src/Engine/Worked.antt =====
-- What the worker leaves in the store, on a database that does not fail.
use canary_testing.Prelude.{String, ◌≡◌, refl, ap, ◌∙◌, Bool, true, false, ◌&&◌, Option, none, some}
use canary_testing.Prelude.Run.{Run, ok, done, panic, out_of_fuel, ◌>>=◌}
use canary_testing.Task.{Task, State, Kind, build, run, other_kind, current_state, created_by_ci}
use canary_testing.Task.Backend.{Backend, Documented, NeverFails}
use canary_testing.Task.Storage.{get_task, persist_processing, archive_task}
use canary_testing.Task.Storage.Phases.{Phase, persist_processing-Phase, archive_task-Phase}
use canary_testing.Task.Storage.Reads.{get_task-latest}
use canary_testing.Task.Queue.Cancel.{last_state-append}
use canary_testing.Engine.{
  TaskError, Environment, with_state, wrapped, execute, final_state, finished, archived,
  after_execution, persisted, switched, after_status, work, or_same, counts_as_canceled, Executed,
  after_run, after_build, execute, post_status_to_github,
}

-- The end of a task: "complete" without an error, "canceled" with any error.
unfoldable pub end_of : Option TaskError → State
end_of none = State.complete
end_of (some e) = State.canceled

-- The execution of a task of a known type.
unfoldable pub execution : Environment → Kind → Task → Run Executed
execution env build t = env.do_build t
execution env k t = env.do_run t

unfoldable pub is_done : {A : Type 0} → Run A → Bool
is_done (done a) = true
is_done m = false

unfoldable pub IsKnown : Kind → Type 0
IsKnown (other_kind k) = ⊥
IsKnown k = Unit {0}

final_state-wrapped :
    (type : String) (e : Option TaskError) → final_state (wrapped type e) ≡ end_of e
unfolding final_state wrapped end_of counts_as_canceled
final_state-wrapped type none = refl
final_state-wrapped type (some e) = refl

-- How the messages to GitHub end, which do not depend on what the worker changes in the task.
unfoldable pub posts : Environment → Task → Run (Unit {0})
posts env t = post_status_to_github env.has_token t

module _ {b : Backend} {s : Documented b} (n : NeverFails s) where
  pub record Worked (env : Environment) (t : Task) (x : Executed) (u : b.Xid) (d' : b.Db)
      : Type 0 where
    pub task : Task
    pub stored : get_task b d' t.id ≡ ok task
    pub same_id : task.id ≡ t.id
    pub state : current_state task ≡ done (record { created = env.ended; state = end_of x.error })
    pub result : task.result ≡ x.result
    pub value : b.Bytes
    pub phase : Phase s d' u none none (some value)

  -- The worker ended, and the task is in the archive; or it panicked, and the task is still processing.
  pub data WorkedOr (env : Environment) (t : Task) (u : b.Xid) (c : Option b.Bytes)
      (r : Run (Unit {0}) × b.Db) : Type 0 where
    worked :
        (x : Executed)
        → posts env t ≡ done tt
        → execution env t.type (with_state State.processing env.started t) ≡ done x
        → r.0 ≡ done tt
        → Worked env t x u r.1
        → WorkedOr env t u c r
    crashed :
        (v : b.Bytes)
        → is_done (posts env t)
            && is_done (execution env t.type (with_state State.processing env.started t))
          ≡ false
        → is_done r.0 ≡ false
        → Phase s r.1 u none (some v) c
        → WorkedOr env t u c r

  finish :
      (env : Environment) (t t1 : Task) (e : Option TaskError) (x : Executed) (u : b.Xid) (d : b.Db)
      (p : b.Bytes) (c : Option b.Bytes)
      → t1.id ≡ t.id
      → b.from_string t.id ≡ ok u
      → Phase s d u none (some p) c
      → final_state e ≡ end_of x.error
      → (after_execution b env (done (e, x.result, t1)) d).0
          ≡ post_status_to_github env.has_token (finished env (e, x.result, t1))
        × Worked env t x u (after_execution b env (done (e, x.result, t1)) d).1
  unfolding after_execution persisted finished with_state current_state archived
  finish env t t1 e x u d p c same parsed h st =
      let t2 = finished env (e, x.result, t1) in
      let k : b.from_string t2.id ≡ ok u = ap b.from_string same ∙ parsed in
      let (r₁, (v, m, h₁)) = persist_processing-Phase n t2 u k d none (some p) c h in
      let d₁ = (persist_processing b t2 d).1 in
      let (r₂, h₂) = archive_task-Phase n t2 u k d₁ v none none c h₁ in
      let d₂ = (archive_task b t2 d₁).1 in
      rw (r₁, r₂)
        (
          refl,
          record {
            task = t2;
            stored = rw (← same) (get_task-latest n t2.id u k d₂ none none (some v) v t2 h₂ refl m);
            same_id = same;
            state = last_state-append t1.states _ ∙ rw st;
            result = refl;
            value = v;
            phase = h₂;
          },
        )

  -- The execution, by how it ends.
  after_call :
      (env : Environment) (t : Task) (f : Executed → Option TaskError × String × Task) (u : b.Xid)
      (d : b.Db) (p : b.Bytes) (c : Option b.Bytes) (m : Run Executed)
      → posts env t ≡ done tt
      → execution env t.type (with_state State.processing env.started t) ≡ m
      → Phase s d u none (some p) c
      → ((x : Executed)
          → (after_execution b env (done (f x)) d).0 ≡ posts env t
            × Worked env t x u (after_execution b env (done (f x)) d).1)
      → WorkedOr env t u c (after_execution b env (m >>= λ x. done (f x)) d)
  unfolding after_execution is_done
  after_call env t f u d p c (done x) posted e h ends =
      let (q, w) = ends x in worked x posted e (q ∙ posted) w
  after_call env t f u d p c panic posted e h ends = crashed p (rw (posted, e) refl) refl h
  after_call env t f u d p c out_of_fuel posted e h ends = crashed p (rw (posted, e) refl) refl h

  processed :
      (env : Environment) (k : Kind) (t : Task) (u : b.Xid) (d : b.Db) (p : b.Bytes)
      (c : Option b.Bytes)
      → t.type ≡ k
      → IsKnown k
      → posts env t ≡ done tt
      → b.from_string t.id ≡ ok u
      → Phase s d u none (some p) c
      → WorkedOr env t u c
          (switched b env (execute env k (with_state State.processing env.started t)) d)
  unfolding switched execute IsKnown with_state execution after_run after_build posts finished
      post_status_to_github created_by_ci
  processed env run t u d p c f x posted parsed h =
      let t1 = with_state State.processing env.started t in
      after_call env t (after_run t1) u d p c (env.do_run t1) posted
        (ap (λ k. execution env k t1) f) h
        λ y.
          finish env t (record t1 { composition = or_same y.composition t1.composition })
            (wrapped "run" y.error) y u d p c refl parsed h (final_state-wrapped "run" y.error)
  processed env build t u d p c f x posted parsed h =
      let t1 = with_state State.processing env.started t in
      after_call env t (after_build t1) u d p c (env.do_build t1) posted
        (ap (λ k. execution env k t1) f) h
        λ y.
          finish env t t1 (wrapped "build" y.error) y u d p c refl parsed h
            (final_state-wrapped "build" y.error)
  processed env (other_kind y) t u d p c f x posted parsed h = absurd x

  started :
      (env : Environment) (t : Task) (u : b.Xid) (d : b.Db) (p : b.Bytes) (c : Option b.Bytes)
      (m : Run (Unit {0}))
      → posts env t ≡ m
      → env.log_opens ≡ true
      → IsKnown t.type
      → b.from_string t.id ≡ ok u
      → Phase s d u none (some p) c
      → WorkedOr env t u c (after_status b env (with_state State.processing env.started t) m d)
  unfolding after_status with_state is_done
  started env t u d p c (done x) posted opens known parsed h =
      simp opens (processed env t.type t u d p c refl known posted parsed h)
  started env t u d p c panic posted opens known parsed h = crashed p (rw posted refl) refl h
  started env t u d p c out_of_fuel posted opens known parsed h = crashed p (rw posted refl) refl h

  -- Where the database does not fail and holds a build or a run as processing and not as scheduled, as
  -- Pop leaves it, and where the log file opens, the worker ends in one of two ways. Where the status
  -- message and the execution of the task return, so does the worker, and it leaves the task in the
  -- archive and nowhere else, with the result of the execution, and with the state "complete" if this
  -- returned no error, and "canceled" if it returned any. Where one of them panics, so does the worker,
  -- and it leaves the task as processing.
  pub work-Worked :
      (env : Environment) (t : Task) (u : b.Xid) (d : b.Db) (p : b.Bytes) (c : Option b.Bytes)
      → env.log_opens ≡ true
      → IsKnown t.type
      → b.from_string t.id ≡ ok u
      → Phase s d u none (some p) c
      → WorkedOr env t u c (work b env t d)
  unfolding work with_state posts post_status_to_github created_by_ci
  work-Worked env t u d p c opens known parsed h =
      let t1 = with_state State.processing env.started t in
      let (r₁, (v, m, h₁)) = persist_processing-Phase n t1 u parsed d none (some p) c h in
      started env t u (persist_processing b t1 d).1 v c (posts env t) refl opens known parsed h₁
