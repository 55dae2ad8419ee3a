-- ===== src/Prelude/Run.antt =====
-- How a Go call ends: it returns, it panics, or the fuel that a model gives a loop runs out.
-- An error value is a returned value, `Res`: Go returns it beside a state that stays changed.
use mathlib.Core.Path.{◌≡◌, refl, subst}
use mathlib.Core.Logic.{◌⊎◌, inl, inr}
use mathlib.Core.Bool.{Bool, true, false}
use mathlib.Core.Option.{Option, none, some}
use canary_testing.Prelude.Tests.{if◌then◌else◌}

pub data Run {ℓ} (A : Type ℓ) : Type ℓ where
  done : A → Run A
  panic out_of_fuel : Run A

pub data Res {ℓ κ} (E : Type ℓ) (A : Type κ) : Type (ℓ ⊔ κ) where
  ok : A → Res E A
  err : E → Res E A

infixl 5 ◌>>=◌
abbrev pub ◌>>=◌ {ℓ κ} : {A : Type ℓ} {B : Type κ} → Run A → (A → Run B) → Run B
done a >>= f = f a
panic >>= f = panic
out_of_fuel >>= f = out_of_fuel

-- `if err != nil { return …, err }`
abbrev pub and_then {ℓ κ λ'} :
    {E : Type ℓ} {A : Type κ} {B : Type λ'} → Res E A → (A → Res E B) → Res E B
and_then (ok a) f = f a
and_then (err e) f = err e

abbrev pub is_ok {ℓ κ} : {E : Type ℓ} {A : Type κ} → Res E A → Bool
is_ok (ok a) = true
is_ok (err e) = false

pub Res-cases {ℓ κ} :
    {E : Type ℓ} {A : Type κ} (r : Res E A) → ((a : A) × (r ≡ ok a)) ⊎ ((e : E) × (r ≡ err e))
Res-cases (ok a) = inl (a, refl)
Res-cases (err e) = inr (e, refl)

-- A value that must be there: reading past the end of a slice panics.
abbrev pub expect {ℓ} : {A : Type ℓ} → Option A → Run A
expect (some a) = done a
expect none = panic

done_injective {ℓ} : {A : Type ℓ} {a c : A} → done a ≡ done c → a ≡ c
done_injective e = cc

-- The call returns, with a value that satisfies `P`.
pub data Returns {ℓ κ} {A : Type ℓ} (P : A → Type κ) : Run A → Type (ℓ ⊔ κ) where
  returns : {a : A} → P a → Returns P (done a)

module _ {ℓ κ} {A : Type ℓ} {P : A → Type κ} where
  pub Returns-then {ℓ' κ'} :
      {B : Type ℓ'} {Q : B → Type κ'} {m : Run A} {f : A → Run B}
      → Returns P m
      → ((a : A) → P a → Returns Q (f a))
      → Returns Q (m >>= f)
  Returns-then (returns p) next = next _ p

  pub Returns-weaken {κ'} :
      {Q : A → Type κ'} {m : Run A} → Returns P m → ((a : A) → P a → Q a) → Returns Q m
  Returns-weaken (returns p) imp = returns (imp _ p)

  pub Returns-branch :
      {m n : Run A} (b : Bool)
      → (b ≡ true → Returns P m)
      → (b ≡ false → Returns P n)
      → Returns P (if b then m else n)
  Returns-branch true p q = p refl
  Returns-branch false p q = q refl

  pub Returns-value : {m : Run A} → Returns P m → (a : A) × (m ≡ done a) × P a
  Returns-value (returns p) = (_, refl, p)

  pub Returns-done : {m : Run A} {a : A} → m ≡ done a → Returns P m → P a
  Returns-done {m} {a} e (returns {a = c} p) = subst P (done_injective e) p
