-- ===== src/Engine/Signals/Kill.antt =====
-- What Kill does to a task that is worked on, while other tasks start, end and are killed.
use canary_testing.Prelude.{
  ℕ, ◌<◌, String, true, false, ◌≡◌, refl, sym, ◌∙◌, some, str_eq, eq_iff, ◌==◌, if◌then◌else◌,
  Bool-cases, inl, inr, arith,
}
use canary_testing.Prelude.Run.{done, panic}
use canary_testing.Engine.Signals.{
  Signals, add_signal, delete_signal, start_task, stop_waiting, collect, close, close_signal, kill,
  Step, started, collected, expired, finished, killed, Reachable, after, Meanwhile, nothing, step,
}
use canary_testing.Engine.Signals.Owned.{Owned, Killed, missed, hit, kill-Killed, Reachable-Owned}

-- A task that has its channel, which is closed or not, with its goroutine.
record Closed (id : String) (ch : ℕ) (s : Signals) : Type 0 where
  pub there : s.channel_of id ≡ some ch
  pub is_closed : s.closed ch ≡ true

Closed-Killed :
    (id j : String) (ch : ℕ) (s s' : Signals) → Killed j s s' → Closed id ch s → Closed id ch s'
Closed-Killed id j ch s _ (missed e) c = c
Closed-Killed id j ch s _ (hit k e f) c = record {
  there = c.there;
  is_closed = ground (arith, c.is_closed);
}

Closed-step :
    (id j : String) (ch : ℕ) {s s' : Signals}
    → str_eq j id ≡ false
    → Step j s s'
    → Closed id ch s
    → Closed id ch s'
unfolding start_task add_signal delete_signal collect stop_waiting
Closed-step id _ ch o (started j) c = record { there = rw o c.there; is_closed = c.is_closed }
Closed-step id _ ch o (collected j k w h) c = record {
  there = rw o c.there;
  is_closed = c.is_closed;
}
Closed-step id _ ch o (expired j k w) c = record { there = c.there; is_closed = c.is_closed }
Closed-step id _ ch o (finished j) c = record { there = rw o c.there; is_closed = c.is_closed }
Closed-step id _ ch {s} {s'} o (killed j h) c = Closed-Killed id j ch s s' (kill-Killed j s s' h) c

Closed-Meanwhile :
    (id : String) (ch : ℕ) {s s' : Signals} → Meanwhile id s s' → Closed id ch s → Closed id ch s'
Closed-Meanwhile id ch nothing c = c
Closed-Meanwhile id ch (step j o t m) c = Closed-Meanwhile id ch m (Closed-step id j ch o t c)

Killed-Closed :
    (id : String) (ch : ℕ) (s s' : Signals)
    → s.channel_of id ≡ some ch
    → Killed id s s'
    → Closed id ch s'
Killed-Closed id ch s _ h (missed e) = cc
Killed-Closed id ch s _ h (hit k e f) =
    let same : ch ≡ k = cc in record { there = h; is_closed = ground arith }

-- A second Kill of a task that is worked on panics, whatever the other tasks do between the two, unless
-- the task's own goroutine or worker has taken a step in between.
pub kill-twice :
    (id : String) (ch : ℕ) (s s1 s2 : Signals)
    → s.channel_of id ≡ some ch
    → kill id s ≡ done s1
    → Meanwhile id s1 s2
    → kill id s2 ≡ panic
unfolding kill close_signal close
kill-twice id ch s s1 s2 there first m =
    let c = Closed-Meanwhile id ch m (Killed-Closed id ch s s1 there (kill-Killed id s s1 first)) in
    rw (c.there, c.is_closed)

-- A task that runs: its channel is open, and its goroutine waits.
record Running (id : String) (ch : ℕ) (s : Signals) : Type 0 where
  pub there : s.channel_of id ≡ some ch
  pub is_open : s.closed ch ≡ false
  pub waits : s.waiting ch ≡ some id
  pub made : ch < s.next

some_injective : {j id : String} → some j ≡ some id → j ≡ id
some_injective e = cc

-- A goroutine of another task does not wait on the channel.
other_channel :
    (id j : String) (k ch : ℕ) (s : Signals)
    → str_eq j id ≡ false
    → s.waiting ch ≡ some id
    → s.waiting k ≡ some j
    → ch == k ≡ false
other_channel id j k ch s o w w' = elim (Bool-cases (ch == k)) [
  | inl e ↦
      let same : ch ≡ k = ground arith in
      let ids : j ≡ id = some_injective (sym w' ∙ rw (← same) w) in
      let eq = (eq_iff j id).1 ids in cc
  | inr e ↦ e
]

Running-Killed :
    (id j : String) (ch : ℕ) (s s' : Signals)
    → Owned s
    → str_eq j id ≡ false
    → Killed j s s'
    → Running id ch s
    → Running id ch s'
Running-Killed id j ch s _ w o (missed e) r = r
Running-Killed id j ch s _ w o (hit k e f) r = record {
  there = r.there;
  is_open = ground (arith, r.is_open, w.one_owner j id ch, eq_iff j id, r.there, e);
  waits = r.waits;
  made = r.made;
}

Running-step :
    (id j : String) (ch : ℕ) {s s' : Signals}
    → Owned s
    → str_eq j id ≡ false
    → Step j s s'
    → Running id ch s
    → Running id ch s'
unfolding start_task add_signal delete_signal collect stop_waiting
Running-step id _ ch w o (started j) r = record {
  there = rw o r.there;
  is_open = r.is_open;
  waits = ground (arith, r.waits, r.made);
  made = ground (arith, r.made);
}
Running-step id _ ch {s} w o (collected j k h c) r = record {
  there = rw o r.there;
  is_open = r.is_open;
  waits = rw (other_channel id j k ch s o r.waits h) r.waits;
  made = r.made;
}
Running-step id _ ch {s} w o (expired j k h) r = record {
  there = r.there;
  is_open = r.is_open;
  waits = rw (other_channel id j k ch s o r.waits h) r.waits;
  made = r.made;
}
Running-step id _ ch w o (finished j) r = record {
  there = rw o r.there;
  is_open = r.is_open;
  waits = r.waits;
  made = r.made;
}
Running-step id _ ch {s} {s'} w o (killed j h) r =
    Running-Killed id j ch s s' w o (kill-Killed j s s' h) r

Running-Meanwhile :
    (id : String) (ch : ℕ) {s s' : Signals}
    → Reachable s
    → Meanwhile id s s'
    → Running id ch s
    → Running id ch s'
Running-Meanwhile id ch reach nothing r = r
Running-Meanwhile id ch reach (step j o t m) r =
    Running-Meanwhile id ch (after j reach t) m (Running-step id j ch (Reachable-Owned reach) o t r)

Running-started : (id : String) (s : Signals) → Owned s → Running id s.next (start_task id s)
unfolding start_task add_signal
Running-started id s w = record {
  there = rw ((eq_iff id id).1 refl);
  is_open = elim (Bool-cases (s.closed s.next)) [
    | inl e ↦ absurd (omega (arith, w.closed_made s.next e))
    | inr e ↦ e
  ];
  waits = ground arith;
  made = omega arith;
}

-- A Kill of a task that a worker has started, whatever other tasks have done since, closes the channel
-- on which this task's goroutine waits; so the goroutine can take its step, and after it a further Kill
-- changes nothing.
pub kill-Running :
    (id : String) (s s1 : Signals)
    → Reachable s
    → Meanwhile id (start_task id s) s1
    → (s2 : Signals) × (kill id s1 ≡ done s2)
      × (s2.waiting s.next ≡ some id)
      × (s2.closed s.next ≡ true)
      × Step id s2 (collect id s.next s2)
      × (kill id (collect id s.next s2) ≡ done (collect id s.next s2))
unfolding kill close_signal close collect stop_waiting delete_signal
kill-Running id s s1 reach m =
    let r0 = Running-started id s (Reachable-Owned reach) in
    let r = Running-Meanwhile id s.next (after id reach (started id)) m r0 in
    let s2 = record s1 { closed = λ c. if c == s.next then true else s1.closed c } in
    let here : s2.closed s.next ≡ true = ground arith in
    (
      s2,
      rw (r.there, r.is_open),
      r.waits,
      here,
      collected id s.next r.waits here,
      rw ((eq_iff id id).1 refl),
    )
