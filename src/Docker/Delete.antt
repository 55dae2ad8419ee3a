-- ===== src/Docker/Delete.antt =====
-- DeleteContainers of pkg/docker/container.go. Each of its goroutines sends the result of one removal
-- on a channel; these are the messages, in the order in which the loop receives them. A receive after
-- the last of them blocks for ever, since the channel is closed only after the loop.
use canary_testing.Prelude.{
  ℕ, zero, suc, ◌<◌, String, List, [], ◌∷◌, ◌++◌, ◌≡◌, ◌↔◌, refl, Option, none, some, length, arith,
}

-- The loop returns the errors that it has gathered, or it blocks.
pub data Ending : Type 0 where
  returned : List String → Ending
  blocked : Ending

-- multierror.Append: of no error nothing is kept.
unfoldable pub append_error : List String → Option String → List String
append_error merr none = merr
append_error merr (some e) = merr ++ e ∷ []

-- The loop, with the number of its rounds that are left. After an error it receives once more, for
-- the error that it appends.
unfoldable pub receive_all : ℕ → List (Option String) → List String → Ending
receive_all zero ms merr = returned merr
receive_all (suc n) [] merr = blocked
receive_all (suc n) (none ∷ ms) merr = receive_all n ms merr
receive_all (suc n) (some e ∷ []) merr = blocked
receive_all (suc n) (some e ∷ m ∷ ms) merr = receive_all n ms (append_error merr m)

-- DeleteContainers, on the results of the removals.
unfoldable pub delete_containers : List (Option String) → Ending
delete_containers ms = receive_all (length ms) ms []

unfoldable pub AllRemoved : List (Option String) → Type 0
AllRemoved [] = Unit {0}
AllRemoved (none ∷ ms) = AllRemoved ms
AllRemoved (some e ∷ ms) = ⊥

receive_all-short :
    (n : ℕ) (ms : List (Option String)) (merr : List String)
    → length ms < n
    → receive_all n ms merr ≡ blocked
unfolding receive_all
receive_all-short zero ms merr h = absurd (omega arith)
receive_all-short (suc n) [] merr h = refl
receive_all-short (suc n) (none ∷ ms) merr h = receive_all-short n ms merr (omega arith)
receive_all-short (suc n) (some e ∷ []) merr h = refl
receive_all-short (suc n) (some e ∷ m ∷ ms) merr h =
    receive_all-short n ms (append_error merr m) (omega arith)

receive_all-AllRemoved :
    (ms : List (Option String)) (merr : List String)
    → AllRemoved ms
    → receive_all (length ms) ms merr ≡ returned merr
unfolding receive_all AllRemoved
receive_all-AllRemoved [] merr h = refl
receive_all-AllRemoved (none ∷ ms) merr h = receive_all-AllRemoved ms merr h
receive_all-AllRemoved (some e ∷ ms) merr h = absurd h

receive_all-returned :
    (ms : List (Option String)) (merr errors : List String)
    → receive_all (length ms) ms merr ≡ returned errors
    → AllRemoved ms
unfolding receive_all AllRemoved
receive_all-returned [] merr errors h = tt
receive_all-returned (none ∷ ms) merr errors h = receive_all-returned ms merr errors h
receive_all-returned (some e ∷ []) merr errors h = cc
receive_all-returned (some e ∷ m ∷ ms) merr errors h =
    let stuck = receive_all-short (suc (length ms)) ms (append_error merr m) (omega arith) in cc

-- DeleteContainers returns exactly where every removal succeeds, and then it returns no error; where a
-- removal fails it never returns.
pub delete_containers-returned :
    (ms : List (Option String)) (errors : List String)
    → delete_containers ms ≡ returned errors ↔ (AllRemoved ms × (errors ≡ []))
unfolding delete_containers
delete_containers-returned ms errors = (
  (λ h.
      let all = receive_all-returned ms [] errors h in
      let none_kept = receive_all-AllRemoved ms [] all in (all, cc)),
  λ (all, e). rw e (receive_all-AllRemoved ms [] all),
)
