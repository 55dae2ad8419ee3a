-- ===== src/Task/Queue/Load.antt =====
-- NewQueue of pkg/task/queue.go: the queue that a restarted daemon builds from its store.
use mathlib.Core.List.{perm_middle, perm_append_comm, append-nil, append_assoc}
use mathlib.Core.List.Perm
use canary_testing.Prelude.{
  ◌≡◌, refl, ap, ◌∙◌, String, List, [], ◌∷◌, ◌++◌, Perm, arith, inl, inr, ◌⊎◌,
}
use canary_testing.Prelude.Run.{
  Res, ok, err, done, and_then, Res-cases, Returns, returns, Returns-then, Returns-weaken,
}
use canary_testing.Prelude.Int.{ℤ}
use canary_testing.Heap.Ops.{Heaped, heap_push_keeps}
use canary_testing.Task.{Task, HasState, Error}
use canary_testing.Task.Order.{task_queue_laws}
use canary_testing.Task.Backend.{Backend}
use canary_testing.Task.Storage.{prefix_scheduled, prefix_processing}
use canary_testing.Task.Queue.{Queue, load_values, load_prefixes, new_queue}

abbrev HeapOf : List Task → Type 0
HeapOf tq = Heaped task_queue_laws tq

-- The tasks that a converter makes of stored values, or its first error.
pub decoded_all : {V : Type 0} → (V → Res Error Task) → List V → Res Error (List Task)
decoded_all converter [] = ok []
decoded_all converter (v ∷ vs) =
    and_then (converter v) λ t. and_then (decoded_all converter vs) λ ts. ok (t ∷ ts)

decoded_all-append :
    {V : Type 0} (converter : V → Res Error Task) (vs ws : List V)
    → decoded_all converter (vs ++ ws)
      ≡ and_then
          (decoded_all converter vs)
          (λ ts. and_then (decoded_all converter ws) λ us. ok (ts ++ us))
unfolding decoded_all
decoded_all-append converter [] ws = ground arith
decoded_all-append converter (v ∷ vs) ws = ground (arith, decoded_all-append converter vs ws)

-- The result of pushing decoded tasks onto a heap.
record Grown (tq : List Task) (decoded : Res Error (List Task)) (r : Res Error (List Task))
    : Type 0 where
  failed : (e : Error) → decoded ≡ err e → r ≡ err e
  grown :
      (ts : List Task)
      → decoded ≡ ok ts
      → (tq' : List Task) × (r ≡ ok tq') × HeapOf tq' × Perm tq' (ts ++ tq)

-- One task pushed, then the others.
Grown-cons :
    (t : Task) (tq tq' : List Task) (decoded : Res Error (List Task)) (r : Res Error (List Task))
    → Perm tq' (t ∷ tq)
    → Grown tq' decoded r
    → Grown tq (and_then decoded λ ts. ok (t ∷ ts)) r
Grown-cons t tq tq' (err x) r p g = record {
  failed = λ e h. g.failed e (ground arith);
  grown = λ ts h. cc;
}
Grown-cons t tq tq' (ok us) r p g = record {
  failed = λ e h. cc;
  grown = λ ts h.
      let (tq'', e, heaped, same) = g.grown us refl in
      let cons : ts ≡ t ∷ us = ground arith in
      (
        tq'',
        e,
        heaped,
        rw cons (Perm.trans same (Perm.trans (Perm.append_left us p) (perm_middle us tq))),
      );
}

-- One prefix pushed, then the others.
Grown-then :
    (tq tq' ts : List Task) (decoded : Res Error (List Task)) (r : Res Error (List Task))
    → Perm tq' (ts ++ tq)
    → Grown tq' decoded r
    → Grown tq (and_then decoded λ us. ok (ts ++ us)) r
Grown-then tq tq' ts (err x) r p g = record {
  failed = λ e h. g.failed e (ground arith);
  grown = λ vs h. cc;
}
Grown-then tq tq' ts (ok us) r p g = record {
  failed = λ e h. cc;
  grown = λ vs h.
      let (tq'', e, heaped, same) = g.grown us refl in
      let whole : vs ≡ ts ++ us = ground arith in
      (
        tq'',
        e,
        heaped,
        rw (whole, append_assoc)
            (Perm.trans same (Perm.trans (Perm.append_left us p) (swap_front us ts tq))),
      );
}
  where
    swap_front : (us ts tq : List Task) → Perm (us ++ (ts ++ tq)) (ts ++ (us ++ tq))
    swap_front us ts tq =
        rw (← append_assoc us ts tq, ← append_assoc ts us tq)
          (Perm.append_right tq (perm_append_comm us ts))

module _ (b : Backend) (converter : b.Bytes → Res Error Task)
    (with_state : (v : b.Bytes) (t : Task) → converter v ≡ ok t → HasState t) where
  load_values-Grown :
      (vs : List b.Bytes) (tq : List Task)
      → HeapOf tq
      → Returns (Grown tq (decoded_all converter vs)) (load_values b converter vs tq)
  unfolding load_values decoded_all
  load_values-Grown [] tq h = returns (record {
    failed = λ e x. cc;
    grown =
        λ ts e. let nothing : ts ≡ [] = ground arith in (tq, refl, h, rw nothing (Perm.refl tq));
  })
  load_values-Grown (v ∷ vs) tq h = elim (Res-cases (converter v)) [
    | inl (t, e) ↦
        rw (e, load_values)
          (Returns-then (heap_push_keeps task_queue_laws tq t h (with_state v t e))
            λ tq' (heaped, same).
              Returns-weaken (load_values-Grown vs tq' heaped)
                λ r g. Grown-cons t tq tq' (decoded_all converter vs) r same g)
    | inr (x, e) ↦
        rw (e, load_values) (returns (record { failed = λ y h. ground arith; grown = λ ts h. cc }))
  ]

  abbrev values_of : b.Db → List String → List b.Bytes
  values_of d [] = []
  values_of d (p ∷ ps) = b.values d p ++ values_of d ps

  load_prefixes-Grown :
      (d : b.Db) (ps : List String) (tq : List Task)
      → HeapOf tq
      → Returns
          (Grown tq (decoded_all converter (values_of d ps)))
          (load_prefixes b converter d ps tq)
  unfolding load_prefixes decoded_all
  load_prefixes-Grown d [] tq h = returns (record {
    failed = λ e x. cc;
    grown =
        λ ts e. let nothing : ts ≡ [] = ground arith in (tq, refl, h, rw nothing (Perm.refl tq));
  })
  load_prefixes-Grown d (p ∷ ps) tq h =
      rw (decoded_all-append converter (b.values d p) (values_of d ps)) (
        Returns-then (load_values-Grown (b.values d p) tq h)
          λ r g. next (load_prefixes-Grown d ps) r g (Res-cases decoded))
    where
      decoded : Res Error (List Task)
      decoded = decoded_all converter (b.values d p)

      next :
          ((tq' : List Task)
            → HeapOf tq'
            → Returns
                (Grown tq' (decoded_all converter (values_of d ps)))
                (load_prefixes b converter d ps tq'))
          → (r : Res Error (List Task)) → Grown tq decoded r
          → ((ts : List Task) × (decoded ≡ ok ts)) ⊎ ((e : Error) × (decoded ≡ err e))
          → Returns
              (Grown tq (
                and_then decoded
                  λ ts. and_then (decoded_all converter (values_of d ps)) λ us. ok (ts ++ us)))
              (elim r [ err e ↦ done (err e) | ok tq' ↦ load_prefixes b converter d ps tq' ])
      next again r g (inl (ts, e)) =
          let (tq', re, heaped, same) = g.grown ts e in
          rw (e, re)
            (Returns-weaken (again tq' heaped)
              λ r' g'. Grown-then tq tq' ts (decoded_all converter (values_of d ps)) r' same g')
      next again r g (inr (x, e)) =
          rw (e, g.failed x e)
            (returns (record { failed = λ y h. ground arith; grown = λ ts h. cc }))

  -- What NewQueue returns: the error of the first value that does not convert, or a queue of all the
  -- tasks stored as scheduled and as processing.
  pub record Loaded (d : b.Db) (max : ℤ) (r : Res Error (Queue b)) : Type 0 where
    pub failed :
        (e : Error)
        → decoded_all converter (b.values d prefix_scheduled ++ b.values d prefix_processing)
          ≡ err e
        → r ≡ err e
    pub loaded :
        (ts : List Task)
        → decoded_all converter (b.values d prefix_scheduled ++ b.values d prefix_processing)
          ≡ ok ts
        → (q : Queue b) × (r ≡ ok q)
          × Heaped task_queue_laws q.tq
          × Perm q.tq ts
          × (q.ts ≡ d)
          × (q.max ≡ max)

  -- NewQueue returns, with the first conversion error or with a heap of exactly the tasks stored as
  -- scheduled and as processing, over the same database, if each task converted has a state.
  pub new_queue-Loaded : (d : b.Db) (max : ℤ) → Returns (Loaded d max) (new_queue b d max converter)
  unfolding new_queue
  new_queue-Loaded d max =
      Returns-then
        (load_prefixes-Grown d (prefix_scheduled ∷ prefix_processing ∷ []) []
          (record { ordered = λ c p q. absurd (omega arith); known = λ i p. absurd (omega arith) }))
        λ r g.
          let both =
            ap (λ (vs : List b.Bytes). decoded_all converter (b.values d prefix_scheduled ++ vs))
              (append-nil (b.values d prefix_processing)) in
          returns (record {
            failed = λ e h. rw (g.failed e (both ∙ h));
            loaded = λ ts h.
                let (tq, e, heaped, same) = g.grown ts (both ∙ h) in
                (
                  record { tq = tq; ts = d; max = max },
                  rw e,
                  heaped,
                  rw (append-nil ts) at same,
                  refl,
                  refl,
                );
          })
