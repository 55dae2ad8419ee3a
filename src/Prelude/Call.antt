-- ===== src/Prelude/Call.antt =====
-- A call that may panic and may return an error, for `do` blocks.
use mathlib.Core.Path.{◌≡◌, refl}
use canary_testing.Prelude.Run.{Run, Res, done, panic, out_of_fuel, ok, err}

abbrev pub Call {ℓ κ} : Type ℓ → Type κ → Type (ℓ ⊔ κ)
Call E A = Run (Res E A)

infixl 5 ◌>>=◌
abbrev pub ◌>>=◌ {ℓ κ λ'} :
    {E : Type ℓ} {A : Type κ} {B : Type λ'} → Call E A → (A → Call E B) → Call E B
done (ok a) >>= next = next a
done (err e) >>= next = done (err e)
panic >>= next = panic
out_of_fuel >>= next = out_of_fuel

-- A call that returns no error.
abbrev pub lift {ℓ κ} : {E : Type ℓ} {A : Type κ} → Run A → Call E A
lift (done a) = done (ok a)
lift panic = panic
lift out_of_fuel = out_of_fuel

-- What a chain of calls that returned a value has passed through.
pub call-ok {ℓ κ λ'} :
    {E : Type ℓ} {A : Type κ} {B : Type λ'} (c : Call E A) (next : A → Call E B) {b : B}
    → (c >>= next) ≡ done (ok b)
    → (a : A) × (c ≡ done (ok a)) × (next a ≡ done (ok b))
call-ok (done (ok a)) next h = (a, refl, h)
call-ok (done (err e)) next h = cc
call-ok panic next h = cc
call-ok out_of_fuel next h = cc

pub done-functional {ℓ} : {A : Type ℓ} {m : Run A} {a c : A} → m ≡ done a → m ≡ done c → a ≡ c
done-functional e f = cc
