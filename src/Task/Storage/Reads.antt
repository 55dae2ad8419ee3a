-- ===== src/Task/Storage/Reads.antt =====
-- Get and Delete of pkg/task/storage.go, which look for the latest phase of a task, and a task's
-- whole life in the store.
use text.Mathlib.TextPositions.{eq_refl}
use canary_testing.Prelude.{String, ◌≡◌, refl, ap, ◌∙◌, Option, none, some}
use canary_testing.Prelude.Run.{ok, err}
use canary_testing.Task.{Task, not_found}
use canary_testing.Task.Backend.{Backend, Documented, NeverFails}
use canary_testing.Task.Storage.{
  get, get_task, delete, process_task, archive_task, persist_processing, persist_scheduled,
  prefix_scheduled, prefix_processing, prefix_complete,
}
use canary_testing.Task.Storage.Keys.{key_text}
use canary_testing.Task.Storage.Lifecycle.{task_key-ok, get-present, get-absent}
use canary_testing.Task.Storage.Phases.{
  Phase, scheduled-processing, scheduled_complete, processing-scheduled, processing_complete,
  complete-scheduled, complete-processing, persist_scheduled-Phase, persist_processing-Phase,
  process_task-Phase, archive_task-Phase,
}

-- The copy in the latest phase, of a queued, a current and an archived one.
abbrev pub latest : {V : Type 0} → Option V → Option V → Option V → Option V
latest q p (some v) = some v
latest q (some v) none = some v
latest q none none = q

-- The three copies without the latest.
abbrev pub queue_left : {V : Type 0} → Option V → Option V → Option V → Option V
queue_left q none none = none
queue_left q (some v) none = q
queue_left q p (some v) = q

abbrev pub current_left : {V : Type 0} → Option V → Option V → Option V
current_left p none = none
current_left p (some v) = p

module _ {b : Backend} {s : Documented b} (n : NeverFails s) where
  module _ (id : String) (u : b.Xid) (e : b.from_string id ≡ ok u) (d : b.Db) where
    -- Where a database that does not fail holds copies of a task in some phases, Get returns the one in
    -- the latest: archived before processing before scheduled.
    pub get_task-latest :
        (q p c : Option b.Bytes) (v : b.Bytes) (t : Task)
        → Phase s d u q p c
        → latest q p c ≡ some v
        → b.marshal t ≡ ok v
        → get_task b d id ≡ ok t
    unfolding get_task
    get_task-latest q p (some w) v t h l m =
        rw (get-present n d prefix_complete id u v t e (h.in_archive ∙ l) m)
    get_task-latest q (some w) none v t h l m = rw (
      get-absent n d prefix_complete id u e h.in_archive,
      get-present n d prefix_processing id u v t e (h.in_current ∙ l) m,
    )
    get_task-latest q none none v t h l m =
        rw
          (
            get-absent n d prefix_complete id u e h.in_archive,
            get-absent n d prefix_processing id u e h.in_current,
          )
          (get-present n d prefix_scheduled id u v t e (h.in_queue ∙ l) m)

    -- Get reports a task that is in no phase.
    pub get_task-absent : Phase s d u none none none → get_task b d id ≡ err not_found
    unfolding get_task
    get_task-absent h =
        rw
          (
            get-absent n d prefix_complete id u e h.in_archive,
            get-absent n d prefix_processing id u e h.in_current,
          )
          (get-absent n d prefix_scheduled id u e h.in_queue)

    -- Where a database that does not fail holds copies of a task in some phases, Delete removes the one
    -- in the latest phase and leaves the others.
    pub delete-latest :
        (q p c : Option b.Bytes) (v : b.Bytes) (t : Task)
        → Phase s d u q p c
        → latest q p c ≡ some v
        → b.marshal t ≡ ok v
        → t.id ≡ id
        → ((delete b id d).0 ≡ ok tt)
          × Phase s (delete b id d).1 u (queue_left q p c) (current_left p c) none
    unfolding delete
    delete-latest q p (some w) v t h l m i =
        let k = key_text s prefix_complete u in
        let at = s.delete_ok d k (n.delete_works d k) in
        rw
          (
            get-present n d prefix_complete id u v t e (h.in_archive ∙ l) m,
            i,
            task_key-ok n prefix_complete id u e,
          )
          (
            n.delete_works d k,
            record {
              in_queue = rw (at (key_text s prefix_scheduled u), complete-scheduled s u) h.in_queue;
              in_current =
                  rw (at (key_text s prefix_processing u), complete-processing s u) h.in_current;
              in_archive = rw (at k, eq_refl);
            },
          )
    delete-latest q (some w) none v t h l m i =
        let k = key_text s prefix_processing u in
        let at = s.delete_ok d k (n.delete_works d k) in
        rw
          (
            get-absent n d prefix_complete id u e h.in_archive,
            get-present n d prefix_processing id u v t e (h.in_current ∙ l) m,
            i,
            task_key-ok n prefix_processing id u e,
          )
          (
            n.delete_works d k,
            record {
              in_queue =
                  rw (at (key_text s prefix_scheduled u), processing-scheduled s u) h.in_queue;
              in_current = rw (at k, eq_refl);
              in_archive =
                  rw (at (key_text s prefix_complete u), processing_complete s u) h.in_archive;
            },
          )
    delete-latest q none none v t h l m i =
        let k = key_text s prefix_scheduled u in
        let at = s.delete_ok d k (n.delete_works d k) in
        rw
          (
            get-absent n d prefix_complete id u e h.in_archive,
            get-absent n d prefix_processing id u e h.in_current,
            get-present n d prefix_scheduled id u v t e (h.in_queue ∙ l) m,
            i,
            task_key-ok n prefix_scheduled id u e,
          )
          (
            n.delete_works d k,
            record {
              in_queue = rw (at k, eq_refl);
              in_current =
                  rw (at (key_text s prefix_processing u), scheduled-processing s u) h.in_current;
              in_archive =
                  rw (at (key_text s prefix_complete u), scheduled_complete s u) h.in_archive;
            },
          )

  module _ (t t' : Task) (u : b.Xid) (d : b.Db) where
    abbrev pub queued_db : b.Db
    queued_db = (persist_scheduled b t d).1

    abbrev pub processing_db : b.Db
    processing_db = (process_task b t queued_db).1

    abbrev pub finished_db : b.Db
    finished_db = (persist_processing b t' processing_db).1

    abbrev pub archived_db : b.Db
    archived_db = (archive_task b t' finished_db).1

    -- Every write of a task's life succeeds, Get returns the task as it was last written, and at
    -- the end the archive alone holds it.
    pub record Lived : Type 0 where
      pub queues : (persist_scheduled b t d).0 ≡ ok tt
      pub processes : (process_task b t queued_db).0 ≡ ok tt
      pub finishes : (persist_processing b t' processing_db).0 ≡ ok tt
      pub archives : (archive_task b t' finished_db).0 ≡ ok tt
      pub get_queued : get_task b queued_db t.id ≡ ok t
      pub get_processing : get_task b processing_db t.id ≡ ok t
      pub get_finished : get_task b finished_db t.id ≡ ok t'
      pub get_archived : get_task b archived_db t.id ≡ ok t'
      pub not_queued : get b archived_db prefix_scheduled t.id ≡ err not_found
      pub not_processing : get b archived_db prefix_processing t.id ≡ err not_found

    -- The life of a task with an id that parses and that the database, which does not fail, does not
    -- hold yet: PersistScheduled, ProcessTask, PersistProcessing of the task as it was changed and
    -- ArchiveTask all succeed, Get returns the task after each of the first two and the changed one
    -- after the others, and in the end neither the scheduled nor the processing phase holds it.
    pub lifecycle : b.from_string t.id ≡ ok u → t'.id ≡ t.id → Phase s d u none none none → Lived
    lifecycle e same h =
        let e' : b.from_string t'.id ≡ ok u = ap b.from_string same ∙ e in
        let (r₁, (v, m, h₁)) = persist_scheduled-Phase n t u e d none none none h in
        let (r₂, h₂) = process_task-Phase n t u e queued_db v none none none h₁ in
        let (r₃, (v', m', h₃)) =
          persist_processing-Phase n t' u e' processing_db none (some v) none h₂ in
        let (r₄, h₄) = archive_task-Phase n t' u e' finished_db v' none none none h₃ in
        record {
          queues = r₁;
          processes = r₂;
          finishes = r₃;
          archives = r₄;
          get_queued = get_task-latest t.id u e queued_db (some v) none none v t h₁ refl m;
          get_processing = get_task-latest t.id u e processing_db none (some v) none v t h₂ refl m;
          get_finished = get_task-latest t.id u e finished_db none (some v') none v' t' h₃ refl m';
          get_archived = get_task-latest t.id u e archived_db none none (some v') v' t' h₄ refl m';
          not_queued = get-absent n archived_db prefix_scheduled t.id u e h₄.in_queue;
          not_processing = get-absent n archived_db prefix_processing t.id u e h₄.in_current;
        }
