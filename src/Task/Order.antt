-- ===== src/Task/Order.antt =====
-- taskQueue of pkg/task/queue.go: the slice of tasks as a heap.Interface, tasks with a higher priority
-- first and older tasks first among equals. `Len` is the length of the list.
use canary_testing.Prelude.{
  ℕ, suc, ◌≡◌, refl, Bool, true, false, not, List, [], ◌∷◌, ◌++◌, arith, length, get_elem?, get_or,
  set, take, ltb, if◌then◌else◌, get_elem?-get_or, Bool-cases, inl, inr,
}
use canary_testing.Prelude.Run.{Run, done, panic, ◌>>=◌, expect}
use canary_testing.Prelude.Int.{ℤ, pos, negsuc, ltb_ℤ, eqb_ℤ}
use canary_testing.Heap.{Interface}
use canary_testing.Heap.Laws.{Laws}
use canary_testing.Task.{Task, Kind, DatedState, NonEmpty, HasState, created, first_created}

-- Less on two tasks; Created panics on a task with no state.
unfoldable pub task_before : Task → Task → Run Bool
unfolding created
task_before a b =
    if not (eqb_ℤ a.priority b.priority)
    then done (ltb_ℤ b.priority a.priority)
    else created a >>= λ s. created b >>= λ t. done (ltb s t)

-- Less(i, j)
unfoldable pub less : List Task → ℕ → ℕ → Run Bool
unfolding task_before
less q i j = expect (get_elem? q i) >>= λ a. expect (get_elem? q j) >>= λ b. task_before a b

-- Swap(i, j): both elements are read, then written.
unfoldable pub swap : List Task → ℕ → ℕ → Run (List Task)
swap q i j =
    expect (get_elem? q i) >>= λ a. expect (get_elem? q j) >>= λ b. done (set (set q j a) i b)

-- Push(x)
unfoldable pub push : List Task → Task → List Task
push q t = q ++ t ∷ []

-- Pop(): the last element, and the slice without it.
unfoldable pub pop : List Task → Run (Task × List Task)
pop [] = panic
pop (t ∷ q) = expect (get_elem? (t ∷ q) (length q)) >>= λ last. done (last, take (length q) (t ∷ q))

abbrev pub task_queue : Interface Task
task_queue = record { less = less; swap = swap; push = push; pop = pop }

abbrev created_or : List DatedState → ℕ
created_or [] = 0
created_or (s ∷ rest) = s.created

-- The order that Less decides on tasks that have a state: `a` is to be run before `b`.
unfoldable pub runs_before : Task → Task → Bool
runs_before a b =
    if eqb_ℤ a.priority b.priority
    then ltb (created_or a.states) (created_or b.states)
    else ltb_ℤ b.priority a.priority

pub task_before-done :
    (a b : Task) → HasState a → HasState b → task_before a b ≡ done (runs_before a b)
unfolding task_before runs_before
task_before-done a b ha hb = with_states a.states b.states ha hb
  where
    with_states :
        (ss ts : List DatedState)
        → NonEmpty ss
        → NonEmpty ts
        → (if not (eqb_ℤ a.priority b.priority)
            then done (ltb_ℤ b.priority a.priority)
            else first_created ss >>= λ s. first_created ts >>= λ t. done (ltb s t))
          ≡ done (
              if eqb_ℤ a.priority b.priority
              then ltb (created_or ss) (created_or ts)
              else ltb_ℤ b.priority a.priority)
    with_states [] ts h k = absurd h
    with_states (s ∷ ss) [] h k = absurd k
    with_states (s ∷ ss) (t ∷ ts) h k = elim (Bool-cases (eqb_ℤ a.priority b.priority)) [
      | inl e ↦ rw e
      | inr e ↦ rw e
    ]

abbrev pub blank : Task
blank = record {
  version = pos 0;
  priority = pos 0;
  id = "";
  runner = "";
  plan = "";
  case = "";
  states = [];
  type = Kind.other_kind "";
  composition = "";
  input = "";
  result = "";
  error = "";
  created_by = record { user = ""; repo = ""; branch = ""; commit = "" };
}

-- The laws on plain keys: a priority and a time.
unfoldable pub key_before : ℤ → ℕ → ℤ → ℕ → Bool
key_before p s q t = if eqb_ℤ p q then ltb s t else ltb_ℤ q p

pub key_asym :
    (p : ℤ) (s : ℕ) (q : ℤ) (t : ℕ) → key_before p s q t ≡ true → key_before q t p s ≡ false
unfolding key_before
key_asym (pos a) s (pos b) t h = ground arith
key_asym (pos a) s (negsuc b) t h = ground arith
key_asym (negsuc a) s (pos b) t h = ground arith
key_asym (negsuc a) s (negsuc b) t h = ground arith

-- a comes no later than b, and b no later than c
pub key_trans :
    (p : ℤ) (s : ℕ) (q : ℤ) (t : ℕ) (r : ℤ) (u : ℕ)
    → key_before q t p s ≡ false
    → key_before r u q t ≡ false
    → key_before r u p s ≡ false
unfolding key_before
key_trans (pos a) s (pos b) t (pos c) u h k = ground arith
key_trans (pos a) s (pos b) t (negsuc c) u h k = ground arith
key_trans (pos a) s (negsuc b) t (pos c) u h k = ground arith
key_trans (pos a) s (negsuc b) t (negsuc c) u h k = ground arith
key_trans (negsuc a) s (pos b) t (pos c) u h k = ground arith
key_trans (negsuc a) s (pos b) t (negsuc c) u h k = ground arith
key_trans (negsuc a) s (negsuc b) t (pos c) u h k = ground arith
key_trans (negsuc a) s (negsuc b) t (negsuc c) u h k = ground arith

pub pop-done :
    (n : ℕ) (q : List Task) → length q ≡ suc n → pop q ≡ done (get_or q n blank, take n q)
unfolding pop
pop-done n [] h = absurd (omega arith)
pop-done n (t ∷ q) h =
    let e : length q ≡ n = omega arith in rw e (rw (get_elem?-get_or blank (t ∷ q) n (omega arith)))

-- The methods of taskQueue satisfy what container/heap asks for, on tasks that have a state.
unfoldable pub task_queue_laws : Laws task_queue HasState
unfolding less swap push runs_before key_before
task_queue_laws = record {
  default = blank;
  before = runs_before;
  less-done = λ q i j hi hj ki kj.
      rw (get_elem?-get_or blank q i hi, get_elem?-get_or blank q j hj)
        (task_before-done (get_or q i blank) (get_or q j blank) ki kj);
  swap-done = λ q i j hi hj. rw (get_elem?-get_or blank q i hi, get_elem?-get_or blank q j hj);
  push-eq = λ q t. refl;
  pop-done = pop-done;
  asym = λ a b. key_asym a.priority (created_or a.states) b.priority (created_or b.states);
  trans = λ a b c.
      key_trans a.priority (created_or a.states) b.priority (created_or b.states) c.priority
        (created_or c.states);
}
