-- ===== src/Task/Backend.antt =====
-- What pkg/task/storage.go calls and this repository does not hold: goleveldb, rs/xid and the JSON
-- coding of tasks, as a record of operations, with their documented behaviour as a record of laws.
use Prim.Native.String.{count}
use canary_testing.Prelude.{String, ◌≡◌, Option, none, some, List, str_eq, if◌then◌else◌}
use canary_testing.Prelude.Run.{Res, ok, err}
use canary_testing.Prelude.{ℕ}
use canary_testing.Task.{Task, Error, leveldb_not_found}

-- An operation that writes returns its error, if any, and the database that it leaves.
pub record Backend : Type 1 where
  pub Db : Type 0
  pub Tx : Type 0
  pub Bytes : Type 0
  pub Xid : Type 0
  pub get : Db → String → Res Error Bytes
  pub put : Db → String → Bytes → Res Error (Unit {0}) × Db
  pub delete : Db → String → Res Error (Unit {0}) × Db
  -- the values whose keys begin with a prefix, in the order of the keys
  pub values : Db → String → List Bytes
  pub open_transaction : Db → Res Error Tx
  pub tx_get : Tx → String → Res Error Bytes
  pub tx_put : Tx → String → Bytes → Res Error (Unit {0}) × Tx
  pub tx_delete : Tx → String → Res Error (Unit {0}) × Tx
  pub commit : Tx → Res Error (Unit {0}) × Db
  pub discard : Tx → Db
  -- xid.FromString, ID.Time().Unix() and ID.String()
  pub from_string : String → Res Error Xid
  pub unix : Xid → ℕ
  pub text : Xid → String
  -- json.Marshal and json.Unmarshal at Task
  pub marshal : Task → Res Error Bytes
  pub unmarshal : Bytes → Res Error Task

-- What holds of the operations, whether or not some of them fail.
pub record Documented (b : Backend) : Type 1 where
  pub contents : b.Db → String → Option b.Bytes
  pub tx_contents : b.Tx → String → Option b.Bytes
  -- what the database held when the transaction was opened
  pub tx_before : b.Tx → String → Option b.Bytes
  pub get_ok : (d : b.Db) (k : String) (v : b.Bytes) → b.get d k ≡ ok v → contents d k ≡ some v
  pub get_missing :
      (d : b.Db) (k : String) → b.get d k ≡ err leveldb_not_found → contents d k ≡ none
  pub put_ok :
      (d : b.Db) (k : String) (v : b.Bytes)
      → (b.put d k v).0 ≡ ok tt
      → (j : String) → contents (b.put d k v).1 j ≡ (if str_eq k j then some v else contents d j)
  pub delete_ok :
      (d : b.Db) (k : String)
      → (b.delete d k).0 ≡ ok tt
      → (j : String) → contents (b.delete d k).1 j ≡ (if str_eq k j then none else contents d j)
  pub open_ok :
      (d : b.Db) (t : b.Tx)
      → b.open_transaction d ≡ ok t
      → (j : String) → (tx_contents t j ≡ contents d j) × (tx_before t j ≡ contents d j)
  pub tx_get_ok :
      (t : b.Tx) (k : String) (v : b.Bytes) → b.tx_get t k ≡ ok v → tx_contents t k ≡ some v
  pub tx_put_ok :
      (t : b.Tx) (k : String) (v : b.Bytes)
      → (b.tx_put t k v).0 ≡ ok tt
      → (j : String)
      → tx_contents (b.tx_put t k v).1 j ≡ (if str_eq k j then some v else tx_contents t j)
  pub tx_put_before :
      (t : b.Tx) (k : String) (v : b.Bytes) (j : String)
      → tx_before (b.tx_put t k v).1 j ≡ tx_before t j
  pub tx_delete_ok :
      (t : b.Tx) (k : String)
      → (b.tx_delete t k).0 ≡ ok tt
      → (j : String)
      → tx_contents (b.tx_delete t k).1 j ≡ (if str_eq k j then none else tx_contents t j)
  pub tx_delete_before : (t : b.Tx) (k j : String) → tx_before (b.tx_delete t k).1 j ≡ tx_before t j
  pub commit_ok :
      (t : b.Tx)
      → (b.commit t).0 ≡ ok tt
      → (j : String) → contents (b.commit t).1 j ≡ tx_contents t j
  pub commit_err :
      (t : b.Tx) (e : Error)
      → (b.commit t).0 ≡ err e
      → (j : String) → contents (b.commit t).1 j ≡ tx_before t j
  pub discard_undoes : (t : b.Tx) (j : String) → contents (b.discard t) j ≡ tx_before t j
  -- an xid is written in 20 characters
  pub text-count : (u : b.Xid) → count (b.text u) ≡ 20
  pub text_injective : (u v : b.Xid) → b.text u ≡ b.text v → u ≡ v
  -- what was encoded decodes to the same task, payloads being JSON values
  pub unmarshal-marshal : (t : Task) (v : b.Bytes) → b.marshal t ≡ ok v → b.unmarshal v ≡ ok t

-- No operation fails for a reason of its own: a read finds what is there.
pub record NeverFails {b : Backend} (s : Documented b) : Type 0 where
  pub get_present :
      (d : b.Db) (k : String) (v : b.Bytes) → s.contents d k ≡ some v → b.get d k ≡ ok v
  pub get_absent :
      (d : b.Db) (k : String) → s.contents d k ≡ none → b.get d k ≡ err leveldb_not_found
  pub put_works : (d : b.Db) (k : String) (v : b.Bytes) → (b.put d k v).0 ≡ ok tt
  pub delete_works : (d : b.Db) (k : String) → (b.delete d k).0 ≡ ok tt
  pub open_works : (d : b.Db) → (t : b.Tx) × (b.open_transaction d ≡ ok t)
  pub tx_get_present :
      (t : b.Tx) (k : String) (v : b.Bytes) → s.tx_contents t k ≡ some v → b.tx_get t k ≡ ok v
  pub tx_get_absent :
      (t : b.Tx) (k : String) → s.tx_contents t k ≡ none → b.tx_get t k ≡ err leveldb_not_found
  pub tx_put_works : (t : b.Tx) (k : String) (v : b.Bytes) → (b.tx_put t k v).0 ≡ ok tt
  pub tx_delete_works : (t : b.Tx) (k : String) → (b.tx_delete t k).0 ≡ ok tt
  pub commit_works : (t : b.Tx) → (b.commit t).0 ≡ ok tt
  pub marshal_works : (t : Task) → (v : b.Bytes) × (b.marshal t ≡ ok v)
