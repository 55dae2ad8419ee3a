-- ===== src/Prelude/Res.antt =====
-- A chain of calls that may return an error, as `do` blocks.
use mathlib.Core.Path.{◌≡◌, refl, ap}
use mathlib.Core.Bool.{Bool, true, false}
use canary_testing.Prelude.Run.{Res, ok, err}
use canary_testing.Prelude.Tests.{if◌then◌else◌}

infixl 5 ◌>>=◌
abbrev pub ◌>>=◌ {ℓ κ λ'} :
    {E : Type ℓ} {A : Type κ} {B : Type λ'} → Res E A → (A → Res E B) → Res E B
err e >>= next = err e
ok a >>= next = next a

-- The parts of a chain that returned a value.
pub >>=-eq-ok {ℓ κ λ'} :
    {E : Type ℓ} {A : Type κ} {B : Type λ'} (r : Res E A) (next : A → Res E B) {c : B}
    → (r >>= next) ≡ ok c
    → (a : A) × (r ≡ ok a) × (next a ≡ ok c)
>>=-eq-ok (err e) next h = cc
>>=-eq-ok (ok a) next h = (a, refl, h)

-- `if b { return …, e }`, passed.
pub guard-eq-ok {ℓ κ} :
    {E : Type ℓ} {A : Type κ} (b : Bool) (e : E) {m : Res E A} {a : A}
    → (if b then err e else m) ≡ ok a
    → (b ≡ false) × (m ≡ ok a)
guard-eq-ok true e h = cc
guard-eq-ok false e h = (refl, h)

pub ok-functional {ℓ κ} :
    {E : Type ℓ} {A : Type κ} {m : Res E A} {a c : A} → m ≡ ok a → m ≡ ok c → a ≡ c
ok-functional e f = cc

-- `if err != nil { return err }` after a call that leaves a state, from which the rest goes on.
abbrev pub with_ok : {E A B S : Type 0} → Res E A → S → (A → Res E B × S) → Res E B × S
with_ok (ok a) s next = next a
with_ok (err e) s next = (err e, s)

-- What a chain that returned a value has passed through.
pub with_ok-ok :
    {E A B S : Type 0} (r : Res E A) (s : S) (next : A → Res E B × S) {b : B} {s' : S}
    → with_ok r s next ≡ (ok b, s')
    → (a : A) × (r ≡ ok a) × (next a ≡ (ok b, s'))
with_ok-ok (ok a) s next h = (a, refl, h)
with_ok-ok {E = E} {B = B} (err e) s next h = absurd (no_value (ap (λ p. p.0) h))
  where
    no_value : {x : E} {b' : B} → err x ≡ ok b' → ⊥
    no_value p = cc
