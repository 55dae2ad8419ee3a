-- ===== src/Tests/Memory.antt =====
-- A backend that keeps its entries in memory and never fails: the hypotheses on the database, the ids
-- and the JSON coding can be met.
use Prim.Native.String.{count}
use native.Mathlib.Decide.{ℕ_discrete}
use native.Mathlib.Nat.{ℕ_set}
use mathlib.Core.HLevel.{Σ_prop_path}
use text.Mathlib.Text.{starts_with}
use canary_testing.Prelude.{
  String, ◌≡◌, refl, sym, ap, Option, none, some, List, [], ◌∷◌, arith, str_eq, eq_iff,
  if◌then◌else◌,
}
use canary_testing.Prelude.Run.{Res, ok, err}
use canary_testing.Task.{Task, Error, bad_id, leveldb_not_found}
use canary_testing.Task.Backend.{Backend, Documented, NeverFails}

abbrev pub Entries : Type 0
Entries = List (String × Task)

unfoldable pub find : String → Entries → Option Task
find k [] = none
find k ((j, v) ∷ d) = if str_eq j k then some v else find k d

unfoldable pub remove : String → Entries → Entries
remove k [] = []
remove k ((j, v) ∷ d) = let rest = remove k d in if str_eq j k then rest else (j, v) ∷ rest

pub find-remove :
    (k j : String) (d : Entries) → find j (remove k d) ≡ (if str_eq k j then none else find j d)
unfolding find remove
find-remove k j [] = ground arith
find-remove k j ((i, v) ∷ d) = ground (arith, find-remove k j d, eq_iff i k, eq_iff i j, eq_iff k j)

pub find-store :
    (k j : String) (v : Task) (d : Entries)
    → find j ((k, v) ∷ remove k d) ≡ (if str_eq k j then some v else find j d)
unfolding find
find-store k j v d = ground (arith, find-remove k j d)

unfoldable pub read : Option Task → Res Error Task
read none = err leveldb_not_found
read (some v) = ok v

pub read-ok : (o : Option Task) (v : Task) → read o ≡ ok v → o ≡ some v
unfolding read
read-ok o v h = ground arith

pub read-missing : (o : Option Task) → read o ≡ err leveldb_not_found → o ≡ none
unfolding read
read-missing o h = ground arith

unfoldable pub with_prefix : String → Entries → List Task
with_prefix p [] = []
with_prefix p ((k, v) ∷ d) =
    let rest = with_prefix p d in if starts_with k p then v ∷ rest else rest

-- An id is a text of 20 characters.
abbrev pub TaskId : Type 0
TaskId = (t : String) × (count t ≡ 20)

unfoldable pub parse_id : String → Res Error TaskId
parse_id t = elim (ℕ_discrete (count t) 20) [ yes h ↦ ok (t, h) | no h ↦ err bad_id ]

-- A transaction: the entries when it was opened, and its own.
abbrev pub memory : Backend
memory = record {
  Db = Entries;
  Tx = Entries × Entries;
  Bytes = Task;
  Xid = TaskId;
  get = λ d k. read (find k d);
  put = λ d k v. (ok tt, (k, v) ∷ remove k d);
  delete = λ d k. (ok tt, remove k d);
  values = λ d p. with_prefix p d;
  open_transaction = λ d. ok (d, d);
  tx_get = λ t k. read (find k t.1);
  tx_put = λ t k v. (ok tt, (t.0, (k, v) ∷ remove k t.1));
  tx_delete = λ t k. (ok tt, (t.0, remove k t.1));
  commit = λ t. (ok tt, t.1);
  discard = λ t. t.0;
  from_string = parse_id;
  unix = λ u. 0;
  text = λ u. u.0;
  marshal = λ t. ok t;
  unmarshal = λ v. ok v;
}

pub never_err : (e : Error) → ◌≡◌ {A = Res Error (Unit {0})} (ok tt) (err e) → ⊥
never_err e h = cc

pub ok_injective : {A : Type 0} {a c : A} → ◌≡◌ {A = Res Error A} (ok a) (ok c) → a ≡ c
ok_injective h = cc

pub opened_now :
    (d : Entries) (t : Entries × Entries)
    → ◌≡◌ {A = Res Error (Entries × Entries)} (ok (d, d)) (ok t)
    → (j : String) → find j t.1 ≡ find j d
opened_now d t h j = ap (λ (t : Entries × Entries). find j t.1) (sym (ok_injective h))

pub opened_before :
    (d : Entries) (t : Entries × Entries)
    → ◌≡◌ {A = Res Error (Entries × Entries)} (ok (d, d)) (ok t)
    → (j : String) → find j t.0 ≡ find j d
opened_before d t h j = ap (λ (t : Entries × Entries). find j t.0) (sym (ok_injective h))

abbrev pub documented : Documented memory
documented = record {
  contents = λ d k. find k d;
  tx_contents = λ t k. find k t.1;
  tx_before = λ t k. find k t.0;
  get_ok = λ d k v h. read-ok (find k d) v h;
  get_missing = λ d k h. read-missing (find k d) h;
  put_ok = λ d k v h j. find-store k j v d;
  delete_ok = λ d k h j. find-remove k j d;
  open_ok = λ d t h j. (opened_now d t h j, opened_before d t h j);
  tx_get_ok = λ t k v h. read-ok (find k t.1) v h;
  tx_put_ok = λ t k v h j. find-store k j v t.1;
  tx_put_before = λ t k v j. refl;
  tx_delete_ok = λ t k h j. find-remove k j t.1;
  tx_delete_before = λ t k j. refl;
  commit_ok = λ t h j. refl;
  commit_err = λ t e h j. absurd (never_err e h);
  discard_undoes = λ t j. refl;
  text-count = λ u. u.1;
  text_injective = λ u v h. Σ_prop_path (λ t. ℕ_set (count t) 20) h;
  unmarshal-marshal = λ t v h. sym h;
}

abbrev pub never_fails : NeverFails documented
unfolding read
never_fails = record {
  get_present = λ d k v h. rw h;
  get_absent = λ d k h. rw h;
  put_works = λ d k v. refl;
  delete_works = λ d k. refl;
  open_works = λ d. ((d, d), refl);
  tx_get_present = λ t k v h. rw h;
  tx_get_absent = λ t k h. rw h;
  tx_put_works = λ t k v. refl;
  tx_delete_works = λ t k. refl;
  commit_works = λ t. refl;
  marshal_works = λ t. (t, refl);
}
