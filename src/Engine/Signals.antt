-- ===== src/Engine/Signals.antt =====
-- The signals of pkg/engine: the map `e.signals` from the id of a task that is being worked on to the
-- channel that Kill closes, and the goroutine of the worker that waits for it. A step is what one
-- goroutine does under the lock of the map; the steps of several workers and of Kill interleave. The
-- channel that a worker makes has the next free number.
pub mod Owned
pub mod Kill
use canary_testing.Prelude.{
  ℕ, ◌+◌, ◌<◌, String, Bool, true, false, ◌≡◌, refl, sym, ◌∙◌, ap, subst, Option, none, some,
  str_eq, eq_iff, ◌==◌, if◌then◌else◌, Bool-cases, inl, inr, arith,
}
use canary_testing.Prelude.Run.{Run, done, panic}

-- `waiting` has the id of the task whose goroutine waits on a channel.
pub record Signals : Type 0 where
  pub channel_of : String → Option ℕ
  pub closed : ℕ → Bool
  pub waiting : ℕ → Option String
  pub next : ℕ

abbrev pub no_signals : Signals
no_signals = record { channel_of = λ id. none; closed = λ c. false; waiting = λ c. none; next = 0 }

-- addSignal
unfoldable pub add_signal : String → ℕ → Signals → Signals
add_signal id ch s = record s { channel_of = λ j. if str_eq id j then some ch else s.channel_of j }

-- deleteSignal
unfoldable pub delete_signal : String → Signals → Signals
delete_signal id s = record s { channel_of = λ j. if str_eq id j then none else s.channel_of j }

-- The start of the worker's function: make(chan int), addSignal, and the goroutine.
unfoldable pub start_task : String → Signals → Signals
unfolding add_signal
start_task id s = record (add_signal id s.next s) {
  waiting = λ c. if c == s.next then some id else s.waiting c;
  next = s.next + 1;
}

unfoldable pub stop_waiting : ℕ → Signals → Signals
stop_waiting ch s = record s { waiting = λ c. if c == ch then none else s.waiting c }

-- The goroutine, where its channel is closed; it then cancels the context.
unfoldable pub collect : String → ℕ → Signals → Signals
unfolding stop_waiting delete_signal
collect id ch s = stop_waiting ch (delete_signal id s)

unfoldable pub close : ℕ → Signals → Run Signals
close ch s =
    if s.closed ch
    then panic
    else done (record s { closed = λ c. if c == ch then true else s.closed c })

-- Kill, and Logs where the request is canceled: a channel that is closed twice panics.
unfoldable pub close_signal : Option ℕ → Signals → Run Signals
close_signal none s = done s
close_signal (some ch) s = close ch s

unfoldable pub kill : String → Signals → Run Signals
kill id s = close_signal (s.channel_of id) s

-- A step of a task: of its worker, its goroutine, or a Kill of it. The worker's function ends by
-- deleting the signal; the goroutine ends on its channel, or where the context is done.
pub data Step : String → Signals → Signals → Type 0 where
  started : {s : Signals} (id : String) → Step id s (start_task id s)
  collected :
      {s : Signals} (id : String) (ch : ℕ)
      → s.waiting ch ≡ some id
      → s.closed ch ≡ true
      → Step id s (collect id ch s)
  expired :
      {s : Signals} (id : String) (ch : ℕ) → s.waiting ch ≡ some id → Step id s (stop_waiting ch s)
  finished : {s : Signals} (id : String) → Step id s (delete_signal id s)
  killed : {s s' : Signals} (id : String) → kill id s ≡ done s' → Step id s s'

pub data Reachable : Signals → Type 0 where
  initially : Reachable no_signals
  after : {s s' : Signals} (id : String) → Reachable s → Step id s s' → Reachable s'

-- What happens between two states, where all steps are of other tasks than `id`.
pub data Meanwhile (id : String) : Signals → Signals → Type 0 where
  nothing : {s : Signals} → Meanwhile id s s
  step :
      {s s1 s2 : Signals} (j : String)
      → str_eq j id ≡ false
      → Step j s s1
      → Meanwhile id s1 s2
      → Meanwhile id s s2
