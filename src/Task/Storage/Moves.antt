-- ===== src/Task/Storage/Moves.antt =====
-- changePrefix of pkg/task/storage.go is atomic.
use canary_testing.Prelude.{
  String, ◌≡◌, ◌≢◌, refl, sym, ◌∙◌, Option, none, some, arith, str_eq, if◌then◌else◌,
}
use canary_testing.Prelude.Run.{Res, ok, err}
use canary_testing.Task.{Error}
use canary_testing.Task.Backend.{Backend, Documented}
use canary_testing.Prelude.Res.{with_ok}
use canary_testing.Task.Storage.{task_key, change_prefix}

module _ {b : Backend} (s : Documented b) where
  -- What the database holds after the value of one key has moved to another.
  abbrev pub moved : b.Db → String → String → String → Option b.Bytes
  moved d old new j =
      if str_eq old j then none else if str_eq new j then s.contents d old else s.contents d j

  -- The result of a move from `old` to `new`: it happened as a whole, or not at all.
  pub record Atomic (d : b.Db) (old new : String) (r : Res Error (Unit {0}) × b.Db) : Type 0 where
    pub there : r.0 ≡ ok tt → s.contents d old ≢ none
    pub done : r.0 ≡ ok tt → (j : String) → s.contents r.1 j ≡ moved d old new j
    pub undone : (e : Error) → r.0 ≡ err e → (j : String) → s.contents r.1 j ≡ s.contents d j

  module _ (d : b.Db) (old new : String) where
    abbrev Move : Res Error (Unit {0}) × b.Db → Type 0
    Move r = Atomic d old new r

    untouched : (e : Error) → Move (err e, d)
    untouched e = record { there = λ h. cc; done = λ h. cc; undone = λ x h j. refl }

    -- A transaction on `d`, with what the database held when it was opened.
    abbrev Opened : b.Tx → Type 0
    Opened t = (j : String) → s.tx_before t j ≡ s.contents d j

    discarded : (t : b.Tx) (e : Error) → Opened t → Move (err e, b.discard t)
    discarded t e o = record {
      there = λ h. cc;
      done = λ h. cc;
      undone = λ x h j. s.discard_undoes t j ∙ o j;
    }

    committed :
        (t : b.Tx)
        → Opened t
        → s.contents d old ≢ none
        → ((j : String) → s.tx_contents t j ≡ moved d old new j)
        → Move (b.commit t)
    committed t o p m = record {
      there = λ h. p;
      done = λ h j. s.commit_ok t h j ∙ m j;
      undone = λ e h j. s.commit_err t e h j ∙ o j;
    }

    after_delete :
        (t : b.Tx) (r : Res Error (Unit {0}) × b.Tx)
        → b.tx_delete t old ≡ r
        → Opened t
        → s.contents d old ≢ none
        → ((j : String)
            → s.tx_contents t j ≡ (if str_eq new j then s.contents d old else s.contents d j))
        → Move (with_ok r.0 (b.discard r.1) λ _. b.commit r.1)
    after_delete t (ok tt, t') e o p w =
        let ok_delete : (b.tx_delete t old).0 ≡ ok tt = rw e in
        let same : (b.tx_delete t old).1 ≡ t' = rw e in
        committed t' (λ j. rw (← same) (s.tx_delete_before t old j ∙ o j)) p
          (λ j. rw (← same) (s.tx_delete_ok t old ok_delete j ∙ ground (arith, w j)))
    after_delete t (err x, t') e o p w =
        let same : (b.tx_delete t old).1 ≡ t' = rw e in
        discarded t' x (λ j. rw (← same) (s.tx_delete_before t old j ∙ o j))

    after_put :
        (t : b.Tx) (v : b.Bytes) (r : Res Error (Unit {0}) × b.Tx)
        → b.tx_put t new v ≡ r
        → Opened t
        → s.contents d old ≡ some v
        → ((j : String) → s.tx_contents t j ≡ s.contents d j)
        → Move (
            with_ok r.0 (b.discard r.1) λ _.
              let (delete_error, trans2) = b.tx_delete r.1 old in
              with_ok delete_error (b.discard trans2) λ _. b.commit trans2)
    after_put t v (ok tt, t') e o p w =
        let ok_put : (b.tx_put t new v).0 ≡ ok tt = rw e in
        let same : (b.tx_put t new v).1 ≡ t' = rw e in
        after_delete t' (b.tx_delete t' old) refl
          (λ j. rw (← same) (s.tx_put_before t new v j ∙ o j)) (λ q. cc)
          (λ j. rw (← same) (s.tx_put_ok t new v ok_put j ∙ ground (arith, w j)))
    after_put t v (err x, t') e o p w =
        let same : (b.tx_put t new v).1 ≡ t' = rw e in
        discarded t' x (λ j. rw (← same) (s.tx_put_before t new v j ∙ o j))

    in_transaction :
        (t : b.Tx) (r : Res Error b.Bytes)
        → b.tx_get t old ≡ r
        → Opened t
        → ((j : String) → s.tx_contents t j ≡ s.contents d j)
        → Move (
            with_ok r (b.discard t) λ val.
              let (put_error, trans1) = b.tx_put t new val in
              with_ok put_error (b.discard trans1) λ _.
                let (delete_error, trans2) = b.tx_delete trans1 old in
                with_ok delete_error (b.discard trans2) λ _. b.commit trans2)
    in_transaction t (ok v) e o w =
        after_put t v (b.tx_put t new v) refl o (sym (w old) ∙ s.tx_get_ok t old v e) w
    in_transaction t (err x) e o w = discarded t x o

    with_transaction :
        (r : Res Error b.Tx)
        → b.open_transaction d ≡ r
        → Move (
            with_ok r d λ trans. with_ok (b.tx_get trans old) (b.discard trans) λ val.
              let (put_error, trans1) = b.tx_put trans new val in
              with_ok put_error (b.discard trans1) λ _.
                let (delete_error, trans2) = b.tx_delete trans1 old in
                with_ok delete_error (b.discard trans2) λ _. b.commit trans2)
    with_transaction (ok t) e =
        in_transaction t (b.tx_get t old) refl (λ j. (s.open_ok d t e j).1)
          (λ j. (s.open_ok d t e j).0)
    with_transaction (err x) e = untouched x

    -- changePrefix moves the value from one key to the other in a database that is otherwise the
    -- same, if it returns no error, and leaves the database as it was, if it returns one.
    pub change_prefix-Atomic :
        (dst src id : String)
        → task_key b src id ≡ ok old
        → task_key b dst id ≡ ok new
        → Atomic d old new (change_prefix b dst src id d)
    unfolding change_prefix
    change_prefix-Atomic dst src id ko kn =
        rw (ko, kn) (with_transaction (b.open_transaction d) refl)
