-- ===== src/Task/Storage/Lifecycle.antt =====
-- The phases of a task in the store of pkg/task/storage.go, on a database that does not fail.
use canary_testing.Prelude.{
  String, ◌≡◌, ◌≢◌, ◌∙◌, none, some, false, str_eq, eq_iff, if◌then◌else◌, Bool-cases, inl, inr,
}
use canary_testing.Prelude.Run.{ok, err}
use canary_testing.Task.{Task, not_found}
use canary_testing.Task.Backend.{Backend, Documented, NeverFails}
use canary_testing.Task.Storage.{task_key, put, get, change_prefix}
use canary_testing.Task.Storage.Keys.{key_text}
use canary_testing.Task.Storage.Moves.{moved, change_prefix-Atomic}

pub str_eq_ne : (s t : String) → s ≢ t → str_eq s t ≡ false
str_eq_ne s t h = elim (Bool-cases (str_eq s t)) [
  | inl e ↦ absurd (h ((eq_iff s t).0 e))
  | inr e ↦ e
]

module _ {b : Backend} {s : Documented b} (n : NeverFails s) where
  pub task_key-ok :
      (prefix id : String) (u : b.Xid)
      → b.from_string id ≡ ok u
      → task_key b prefix id ≡ ok (key_text s prefix u)
  unfolding task_key
  task_key-ok prefix id u e = rw e

  -- A read of a key that holds an encoded task finds it.
  pub get-present :
      (d : b.Db) (prefix id : String) (u : b.Xid) (v : b.Bytes) (t : Task)
      → b.from_string id ≡ ok u
      → s.contents d (key_text s prefix u) ≡ some v
      → b.marshal t ≡ ok v
      → get b d prefix id ≡ ok t
  unfolding get
  get-present d prefix id u v t e c m =
      rw (task_key-ok prefix id u e, n.get_present d (key_text s prefix u) v c)
        (s.unmarshal-marshal t v m)

  pub get-absent :
      (d : b.Db) (prefix id : String) (u : b.Xid)
      → b.from_string id ≡ ok u
      → s.contents d (key_text s prefix u) ≡ none
      → get b d prefix id ≡ err not_found
  unfolding get
  get-absent d prefix id u e c =
      rw (task_key-ok prefix id u e, n.get_absent d (key_text s prefix u) c)

  -- What a successful write of a task under a prefix does.
  pub record Written (prefix : String) (t : Task) (u : b.Xid) (d d' : b.Db) : Type 0 where
    pub value : b.Bytes
    pub encoded : b.marshal t ≡ ok value
    pub holds :
        (j : String)
        → s.contents d' j ≡ (if str_eq (key_text s prefix u) j then some value else s.contents d j)

  pub put_works :
      (prefix : String) (t : Task) (u : b.Xid) (d : b.Db)
      → b.from_string t.id ≡ ok u
      → ((put b prefix t d).0 ≡ ok tt) × Written prefix t u d (put b prefix t d).1
  unfolding put
  put_works prefix t u d e =
      let (v, m) = n.marshal_works t in
      let k = key_text s prefix u in
      rw (m, task_key-ok prefix t.id u e)
        (
          n.put_works d k v,
          record { value = v; encoded = m; holds = s.put_ok d k v (n.put_works d k v) },
        )

  pub change_prefix_works :
      (d : b.Db) (dst src id : String) (u : b.Xid) (v : b.Bytes)
      → b.from_string id ≡ ok u
      → s.contents d (key_text s src u) ≡ some v
      → (change_prefix b dst src id d).0 ≡ ok tt
  unfolding change_prefix
  change_prefix_works d dst src id u v e c =
      let (t, o) = n.open_works d in
      let old = key_text s src u in
      let new = key_text s dst u in
      let read = n.tx_get_present t old v ((s.open_ok d t o old).0 ∙ c) in
      rw
        (
          task_key-ok src id u e,
          task_key-ok dst id u e,
          o,
          read,
          n.tx_put_works t new v,
          n.tx_delete_works (b.tx_put t new v).1 old,
        )
        (n.commit_works (b.tx_delete (b.tx_put t new v).1 old).1)

  -- The contents after a successful move of the value of a task.
  pub change_prefix_holds :
      (d : b.Db) (dst src id : String) (u : b.Xid) (v : b.Bytes)
      → b.from_string id ≡ ok u
      → s.contents d (key_text s src u) ≡ some v
      → (j : String)
      → s.contents (change_prefix b dst src id d).1 j
        ≡ moved s d (key_text s src u) (key_text s dst u) j
  change_prefix_holds d dst src id u v e c =
      let atomic =
        change_prefix-Atomic s d (key_text s src u) (key_text s dst u) dst src id
          (task_key-ok src id u e) (task_key-ok dst id u e) in
      atomic.done (change_prefix_works d dst src id u v e c)
