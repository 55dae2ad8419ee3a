-- ===== src/Task/Storage/Phases.antt =====
-- A task on its way through the store of pkg/task/storage.go: scheduled, processing, archived.
use text.Mathlib.TextPositions.{eq_refl}
use canary_testing.Prelude.{◌≡◌, sym, Option, none, some, false, str_eq}
use canary_testing.Prelude.Run.{ok}
use canary_testing.Task.{Task}
use canary_testing.Task.Backend.{Backend, Documented, NeverFails}
use canary_testing.Task.Storage.{
  process_task, archive_task, persist_processing, persist_scheduled, prefix_scheduled,
  prefix_processing, prefix_complete,
}
use canary_testing.Task.Storage.Keys.{
  key_text, scheduled-ne-processing, processing-ne_complete, scheduled-ne_complete,
}
use canary_testing.Task.Storage.Lifecycle.{
  str_eq_ne, put_works, change_prefix_works, change_prefix_holds,
}

module _ {b : Backend} (s : Documented b) where
  -- What the database holds for one id, in the three phases.
  pub record Phase (d : b.Db) (u : b.Xid) (queued current archived : Option b.Bytes) : Type 0 where
    pub in_queue : s.contents d (key_text s prefix_scheduled u) ≡ queued
    pub in_current : s.contents d (key_text s prefix_processing u) ≡ current
    pub in_archive : s.contents d (key_text s prefix_complete u) ≡ archived

  module _ (u : b.Xid) where
    pub scheduled-processing :
        str_eq (key_text s prefix_scheduled u) (key_text s prefix_processing u) ≡ false
    scheduled-processing = str_eq_ne _ _ (scheduled-ne-processing s u u)

    pub scheduled_complete :
        str_eq (key_text s prefix_scheduled u) (key_text s prefix_complete u) ≡ false
    scheduled_complete = str_eq_ne _ _ (scheduled-ne_complete s u u)

    pub processing-scheduled :
        str_eq (key_text s prefix_processing u) (key_text s prefix_scheduled u) ≡ false
    processing-scheduled = str_eq_ne _ _ (λ e. scheduled-ne-processing s u u (sym e))

    pub processing_complete :
        str_eq (key_text s prefix_processing u) (key_text s prefix_complete u) ≡ false
    processing_complete = str_eq_ne _ _ (processing-ne_complete s u u)

    pub complete-scheduled :
        str_eq (key_text s prefix_complete u) (key_text s prefix_scheduled u) ≡ false
    complete-scheduled = str_eq_ne _ _ (λ e. scheduled-ne_complete s u u (sym e))

    pub complete-processing :
        str_eq (key_text s prefix_complete u) (key_text s prefix_processing u) ≡ false
    complete-processing = str_eq_ne _ _ (λ e. processing-ne_complete s u u (sym e))

module _ {b : Backend} {s : Documented b} (n : NeverFails s) where
  module _ (t : Task) (u : b.Xid) (e : b.from_string t.id ≡ ok u) (d : b.Db)
      (q p c : Option b.Bytes) (h : Phase s d u q p c) where
    abbrev pub Wrote : Option b.Bytes → Type 0
    Wrote o = (v : b.Bytes) × (b.marshal t ≡ ok v) × (o ≡ some v)

    pub persist_scheduled-Phase :
        ((persist_scheduled b t d).0 ≡ ok tt)
        × ((v : b.Bytes) × (b.marshal t ≡ ok v)
            × Phase s (persist_scheduled b t d).1 u (some v) p c)
    unfolding persist_scheduled
    persist_scheduled-Phase =
        let (worked, w) = put_works n prefix_scheduled t u d e in
        let at = w.holds in
        (
          worked,
          (
            w.value,
            w.encoded,
            record {
              in_queue = rw (at (key_text s prefix_scheduled u), eq_refl);
              in_current =
                  rw (at (key_text s prefix_processing u), scheduled-processing s u) h.in_current;
              in_archive =
                  rw (at (key_text s prefix_complete u), scheduled_complete s u) h.in_archive;
            },
          ),
        )

    pub persist_processing-Phase :
        ((persist_processing b t d).0 ≡ ok tt)
        × ((v : b.Bytes) × (b.marshal t ≡ ok v)
            × Phase s (persist_processing b t d).1 u q (some v) c)
    unfolding persist_processing
    persist_processing-Phase =
        let (worked, w) = put_works n prefix_processing t u d e in
        let at = w.holds in
        (
          worked,
          (
            w.value,
            w.encoded,
            record {
              in_queue =
                  rw (at (key_text s prefix_scheduled u), processing-scheduled s u) h.in_queue;
              in_current = rw (at (key_text s prefix_processing u), eq_refl);
              in_archive =
                  rw (at (key_text s prefix_complete u), processing_complete s u) h.in_archive;
            },
          ),
        )

  module _ (t : Task) (u : b.Xid) (e : b.from_string t.id ≡ ok u) (d : b.Db) (v : b.Bytes)
      (q p c : Option b.Bytes) where
    pub process_task-Phase :
        Phase s d u (some v) p c
        → ((process_task b t d).0 ≡ ok tt) × Phase s (process_task b t d).1 u none (some v) c
    unfolding process_task
    process_task-Phase h =
        let at = change_prefix_holds n d prefix_processing prefix_scheduled t.id u v e h.in_queue in
        (
          change_prefix_works n d prefix_processing prefix_scheduled t.id u v e h.in_queue,
          record {
            in_queue = rw (at (key_text s prefix_scheduled u), eq_refl);
            in_current =
                rw (at (key_text s prefix_processing u), scheduled-processing s u, eq_refl)
                  h.in_queue;
            in_archive =
                rw
                  (
                    at (key_text s prefix_complete u),
                    scheduled_complete s u,
                    processing_complete s u,
                  )
                  h.in_archive;
          },
        )

    pub archive_task-Phase :
        Phase s d u q (some v) c
        → ((archive_task b t d).0 ≡ ok tt) × Phase s (archive_task b t d).1 u q none (some v)
    unfolding archive_task
    archive_task-Phase h =
        let at =
          change_prefix_holds n d prefix_complete prefix_processing t.id u v e h.in_current in
        (
          change_prefix_works n d prefix_complete prefix_processing t.id u v e h.in_current,
          record {
            in_queue =
                rw
                  (
                    at (key_text s prefix_scheduled u),
                    processing-scheduled s u,
                    complete-scheduled s u,
                  )
                  h.in_queue;
            in_current = rw (at (key_text s prefix_processing u), eq_refl);
            in_archive =
                rw (at (key_text s prefix_complete u), processing_complete s u, eq_refl)
                  h.in_current;
          },
        )
