-- ===== src/Engine/Signals/Owned.antt =====
-- Which channels the tasks of the signal map have.
use canary_testing.Prelude.{
  ℕ, ◌<◌, String, true, false, ◌≡◌, ◌⊎◌, refl, subst, Option, none, some, eq_iff, ◌==◌,
  if◌then◌else◌, Bool-cases, inl, inr, arith,
}
use canary_testing.Prelude.Run.{done, panic}
use canary_testing.Engine.Signals.{
  Signals, add_signal, delete_signal, start_task, stop_waiting, collect, close, close_signal, kill,
  Step, started, collected, expired, finished, killed, Reachable, initially, after,
}

-- Each task of the map has a channel of its own, and a channel is closed after it is made.
pub record Owned (s : Signals) : Type 0 where
  pub made : (id : String) (ch : ℕ) → s.channel_of id ≡ some ch → ch < s.next
  pub closed_made : (ch : ℕ) → s.closed ch ≡ true → ch < s.next
  pub one_owner :
      (id j : String) (ch : ℕ) → s.channel_of id ≡ some ch → s.channel_of j ≡ some ch → id ≡ j

-- What a Kill that does not panic does.
pub data Killed (id : String) (s : Signals) : Signals → Type 0 where
  missed : s.channel_of id ≡ none → Killed id s s
  hit :
      (ch : ℕ)
      → s.channel_of id ≡ some ch
      → s.closed ch ≡ false
      → Killed id s (record s { closed = λ c. if c == ch then true else s.closed c })

Option-cases : (o : Option ℕ) → ((o ≡ none) ⊎ ((ch : ℕ) × (o ≡ some ch)))
Option-cases none = inl refl
Option-cases (some ch) = inr (ch, refl)

done_injective : {s s' : Signals} → done s ≡ done s' → s ≡ s'
done_injective h = cc

pub kill-Killed : (id : String) (s s' : Signals) → kill id s ≡ done s' → Killed id s s'
unfolding kill close close_signal
kill-Killed id s s' h = elim (Option-cases (s.channel_of id)) [
  | inl e ↦ subst (Killed id s) (done_injective (rw e at h)) (missed e)
  | inr (ch, e) ↦ elim (Bool-cases (s.closed ch)) [
    | inl f ↦ let g : panic ≡ done s' = rw (e, f) at h in cc
    | inr f ↦ subst (Killed id s) (done_injective (rw (e, f) at h)) (hit ch e f)
  ]
]

Owned-start : (id : String) (s : Signals) → Owned s → Owned (start_task id s)
unfolding start_task add_signal
Owned-start id s o = record {
  made = λ j ch h. ground (arith, o.made j ch);
  closed_made = λ ch h. ground (arith, o.closed_made ch);
  one_owner = λ j k ch h h'.
      ground (arith, o.one_owner j k ch, eq_iff id j, eq_iff id k, o.made j ch, o.made k ch);
}

Owned-delete : (id : String) (s : Signals) → Owned s → Owned (delete_signal id s)
unfolding delete_signal
Owned-delete id s o = record {
  made = λ j ch h. ground (arith, o.made j ch);
  closed_made = o.closed_made;
  one_owner = λ j k ch h h'. ground (arith, o.one_owner j k ch);
}

Owned-stop : (ch : ℕ) (s : Signals) → Owned s → Owned (stop_waiting ch s)
unfolding stop_waiting
Owned-stop ch s o = record { made = o.made; closed_made = o.closed_made; one_owner = o.one_owner }

Owned-Killed : (id : String) (s s' : Signals) → Owned s → Killed id s s' → Owned s'
Owned-Killed id s _ o (missed e) = o
Owned-Killed id s _ o (hit ch e f) = record {
  made = o.made;
  closed_made = λ c h. ground (arith, o.closed_made c, o.made id ch e);
  one_owner = o.one_owner;
}

Owned-step : (id : String) {s s' : Signals} → Owned s → Step id s s' → Owned s'
unfolding collect
Owned-step _ {s} o (started id) = Owned-start id s o
Owned-step _ {s} o (collected id ch w c) = Owned-stop ch (delete_signal id s) (Owned-delete id s o)
Owned-step _ {s} o (expired id ch w) = Owned-stop ch s o
Owned-step _ {s} o (finished id) = Owned-delete id s o
Owned-step _ {s} {s'} o (killed id h) = Owned-Killed id s s' o (kill-Killed id s s' h)

-- In every state that the workers and Kill reach, each task has a channel of its own, which was open
-- when it was made.
pub Reachable-Owned : {s : Signals} → Reachable s → Owned s
Reachable-Owned initially = record {
  made = λ id ch h. cc;
  closed_made = λ ch h. cc;
  one_owner = λ id j ch h h'. cc;
}
Reachable-Owned (after id r t) = Owned-step id (Reachable-Owned r) t
