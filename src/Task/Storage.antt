-- ===== src/Task/Storage.antt =====
-- pkg/task/storage.go: tasks in a key-value database, under a key made of the phase of the task and
-- its id. The database is the store's whole state. An operation that writes returns its error, if
-- any, and the database that it leaves.
pub mod Keys
pub mod Moves
pub mod Lifecycle
pub mod Phases
pub mod Reads
use canary_testing.Prelude.{String}
use canary_testing.Prelude.Run.{Res, ok, err, and_then}
use canary_testing.Prelude.Res.{with_ok}
use canary_testing.Prelude.Text.{◌⧺◌, format_int, join}
use canary_testing.Prelude.{List, [], ◌∷◌}
use canary_testing.Task.{Task, Error, bad_id, leveldb_not_found, not_found, should_have_found}
use canary_testing.Task.Backend.{Backend}

abbrev pub prefix_scheduled : String
prefix_scheduled = "queue"

abbrev pub prefix_processing : String
prefix_processing = "current"

abbrev pub prefix_complete : String
prefix_complete = "archive"

-- Any error of xid.FromString becomes one error.
key_of : {X : Type 0} → Res Error X → (X → String) → Res Error String
key_of (ok u) f = ok (f u)
key_of (err e) f = err bad_id

-- What a read makes of the database's answer.
decoded : {V : Type 0} → Res Error V → (V → Res Error Task) → Res Error Task
decoded (ok v) f = f v
decoded (err leveldb_not_found) f = err not_found
decoded (err e) f = err e

-- Tries the next prefix only if this one does not hold the task.
or_next : Res Error Task → Res Error Task → Res Error Task
or_next (ok t) next = ok t
or_next (err not_found) next = next
or_next (err e) next = err e

module _ (b : Backend) where
  open b use {Db, Bytes, Xid}

  -- taskKey
  unfoldable pub task_key : String → String → Res Error String
  unfolding key_of join
  task_key prefix id =
      key_of (b.from_string id)
        λ u. let tskey = format_int (b.unix u) ⧺ "_" ⧺ b.text u in join (prefix ∷ tskey ∷ []) ":"

  -- get
  unfoldable pub get : Db → String → String → Res Error Task
  unfolding decoded
  get d prefix id = and_then (task_key prefix id) λ key. decoded (b.get d key) b.unmarshal

  -- put
  unfoldable pub put : String → Task → Db → Res Error (Unit {0}) × Db
  put prefix t d =
      with_ok (b.marshal t) d λ val. with_ok (task_key prefix t.id) d λ key. b.put d key val

  -- delete
  unfoldable pub delete_at : String → Task → Db → Res Error (Unit {0}) × Db
  delete_at prefix t d = with_ok (task_key prefix t.id) d λ key. b.delete d key

  delete_or_next :
      Res Error Task → String → Db → Res Error (Unit {0}) × Db → Res Error (Unit {0}) × Db
  delete_or_next (ok t) prefix d next = delete_at prefix t d
  delete_or_next (err not_found) prefix d next = next
  delete_or_next (err e) prefix d next = (err e, d)

  -- Delete
  unfoldable pub delete : String → Db → Res Error (Unit {0}) × Db
  unfolding delete_or_next delete_at
  delete id d = delete_or_next (get d prefix_complete id) prefix_complete d (
      delete_or_next (get d prefix_processing id) prefix_processing d
        (delete_or_next (get d prefix_scheduled id) prefix_scheduled d (err should_have_found, d)))

  -- Get
  unfoldable pub get_task : Db → String → Res Error Task
  unfolding or_next
  get_task d id =
      or_next (get d prefix_complete id)
        (or_next (get d prefix_processing id) (get d prefix_scheduled id))

  unfoldable pub persist_processing : Task → Db → Res Error (Unit {0}) × Db
  persist_processing t d = put prefix_processing t d

  unfoldable pub persist_scheduled : Task → Db → Res Error (Unit {0}) × Db
  persist_scheduled t d = put prefix_scheduled t d

  -- changePrefix: in one transaction, discarded on every error but that of Commit.
  unfoldable pub change_prefix : String → String → String → Db → Res Error (Unit {0}) × Db
  change_prefix dst src id d = with_ok (task_key src id) d λ oldkey.
      with_ok (task_key dst id) d λ newkey. with_ok (b.open_transaction d) d λ trans.
        with_ok (b.tx_get trans oldkey) (b.discard trans) λ val.
          let (put_error, trans1) = b.tx_put trans newkey val in
          with_ok put_error (b.discard trans1) λ _.
            let (delete_error, trans2) = b.tx_delete trans1 oldkey in
            with_ok delete_error (b.discard trans2) λ _. b.commit trans2

  unfoldable pub process_task : Task → Db → Res Error (Unit {0}) × Db
  process_task t d = change_prefix prefix_processing prefix_scheduled t.id d

  unfoldable pub archive_task : Task → Db → Res Error (Unit {0}) × Db
  archive_task t d = change_prefix prefix_complete prefix_processing t.id d
