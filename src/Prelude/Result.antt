-- ===== src/Prelude/Result.antt =====
-- What a Go function that returns an error does: a value, an error, or a fault of the run itself.
use mathlib.Core.Path.{◌≡◌, refl, subst}
use mathlib.Core.Logic.{◌⊎◌, inl, inr}
use mathlib.Core.Bool.{Bool, true, false}
use xfx1_dns.Prelude.Tests.{if◌then◌else◌}

-- `panic` is a run-time panic (an index or slice out of range, an explicit call of panic);
-- `stuck` is no Go value: a loop of the model ran out of its fuel.
pub data Fault : Type 0 where
  panic stuck : Fault

pub data Result {ℓ κ} (E : Type ℓ) (A : Type κ) : Type (ℓ ⊔ κ) where
  ok : A → Result E A
  err : E → Result E A
  fault : Fault → Result E A

infixl 5 ◌>>=◌
abbrev pub ◌>>=◌ {ℓ κ μ} :
    {E : Type ℓ} {A : Type κ} {B : Type μ} → Result E A → (A → Result E B) → Result E B
ok a >>= f = f a
err e >>= f = err e
fault x >>= f = fault x

abbrev NotFault {ℓ κ} : {E : Type ℓ} {A : Type κ} → Result E A → Type 0
NotFault (ok a) = Unit
NotFault (err e) = Unit
NotFault (fault x) = ⊥

-- No panic and no missing fuel: the call returns, with a value or an error.
pub record Returns {ℓ κ} {E : Type ℓ} {A : Type κ} (r : Result E A) : Type 0 where
  pub holds : NotFault r

module _ {ℓ κ} {E : Type ℓ} {A : Type κ} where
  pub Returns-ok : (a : A) → Returns {E = E} (ok a)
  Returns-ok a = record { holds = tt }

  pub Returns-err : (e : E) → Returns {A = A} (err e)
  Returns-err e = record { holds = tt }

  pub Returns-cases :
      (r : Result E A) → Returns r → ((a : A) × (r ≡ ok a)) ⊎ ((e : E) × (r ≡ err e))
  Returns-cases (ok a) h = inl (a, refl)
  Returns-cases (err e) h = inr (e, refl)
  Returns-cases (fault x) h = absurd h.holds

  pub Returns-if :
      (b : Bool) (r s : Result E A)
      → (b ≡ true → Returns r)
      → (b ≡ false → Returns s)
      → Returns (if b then r else s)
  Returns-if true r s h k = h refl
  Returns-if false r s h k = k refl

module _ {ℓ κ μ} {E : Type ℓ} {A : Type κ} {B : Type μ} where
  pub Returns-bind :
      (r : Result E A) (f : A → Result E B)
      → Returns r
      → ((a : A) → r ≡ ok a → Returns (f a))
      → Returns (r >>= f)
  Returns-bind (ok a) f h k = k a refl
  Returns-bind (err e) f h k = record { holds = tt }
  Returns-bind (fault x) f h k = absurd h.holds

-- A call without an error result; its panic stays a panic.
abbrev pub no_error {ℓ κ μ} :
    {E : Type ℓ} {F : Type κ} {A : Type μ} → Result E A → Result F (Unit {0})
no_error (ok a) = ok tt
no_error (err e) = ok tt
no_error (fault x) = fault x

pub no_error-Returns {ℓ κ μ} :
    {E : Type ℓ} {F : Type κ} {A : Type μ} (r : Result E A)
    → Returns r
    → Returns {E = F} (no_error r)
no_error-Returns (ok a) h = record { holds = tt }
no_error-Returns (err e) h = record { holds = tt }
no_error-Returns (fault x) h = absurd h.holds

pub ruleset returns_rules = (Returns-ok, Returns-err, Returns-if, Returns-bind)

-- A chain that gives a value has given one at its first step.
pub >>=-eq-ok {ℓ κ μ} :
    {E : Type ℓ} {A : Type κ} {B : Type μ} (first : Result E A) (next : A → Result E B) {b : B}
    → (first >>= next) ≡ ok b
    → (a : A) × (first ≡ ok a) × (next a ≡ ok b)
>>=-eq-ok (ok a) next run = (a, refl, run)
>>=-eq-ok (err e) next run = cc
>>=-eq-ok (fault x) next run = cc

ok_injective {ℓ κ} :
    {E : Type ℓ} {A : Type κ} {a b : A} → ◌≡◌ {A = Result E A} (ok a) (ok b) → a ≡ b
ok_injective h = cc

-- What holds of the value, if one is returned.
pub record Ensures {ℓ κ μ} {E : Type ℓ} {A : Type κ} (P : A → Type μ) (r : Result E A)
    : Type (ℓ ⊔ κ ⊔ μ) where
  pub on_ok : (a : A) → r ≡ ok a → P a

module _ {ℓ κ μ} {E : Type ℓ} {A : Type κ} {P : A → Type μ} where
  pub Ensures-ok : (a : A) → P a → Ensures {E = E} P (ok a)
  Ensures-ok a h = record { on_ok = λ b e. subst P (ok_injective e) h }

  pub Ensures-err : (e : E) → Ensures P (err e)
  Ensures-err e = record { on_ok = λ b h. cc }

  pub Ensures-fault : (x : Fault) → Ensures {E = E} P (fault x)
  Ensures-fault x = record { on_ok = λ b h. cc }

  pub Ensures-if :
      (b : Bool) (r s : Result E A)
      → (b ≡ true → Ensures P r)
      → (b ≡ false → Ensures P s)
      → Ensures P (if b then r else s)
  Ensures-if true r s h k = h refl
  Ensures-if false r s h k = k refl

module _ {ℓ κ μ ν} {E : Type ℓ} {A : Type κ} {B : Type μ} {P : B → Type ν} where
  pub Ensures-bind :
      (r : Result E A) (f : A → Result E B)
      → ((a : A) → r ≡ ok a → Ensures P (f a))
      → Ensures P (r >>= f)
  Ensures-bind (ok a) f k = k a refl
  Ensures-bind (err e) f k = Ensures-err e
  Ensures-bind (fault x) f k = Ensures-fault x

pub Ensures-weaken {ℓ κ μ ν} :
    {E : Type ℓ} {A : Type κ} {P : A → Type μ} {Q : A → Type ν} (r : Result E A)
    → ((a : A) → P a → Q a)
    → Ensures P r
    → Ensures Q r
Ensures-weaken r f h = record { on_ok = λ a e. f a (h.on_ok a e) }
