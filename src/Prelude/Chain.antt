-- ===== src/Prelude/Chain.antt =====
-- Chains of steps that may fail, as `Option`, and what their results have. The operator is shut,
-- so that a rule can be applied to a chain.
use mathlib.Core.Path.{◌≡◌, refl, subst}
use mathlib.Core.Bool.{Bool, true, false}
use mathlib.Core.Option.{Option, none, some}

infixl 5 ◌>>=◌ ◌>>◌
unfoldable pub ◌>>=◌ {ℓ κ} : {A : Type ℓ} {B : Type κ} → Option A → (A → Option B) → Option B
none >>= f = none
some a >>= f = f a

abbrev pub ◌>>◌ {ℓ} : {B : Type ℓ} → Option (Unit {0}) → Option B → Option B
m >> k = m >>= λ _. k

unfoldable pub guard : Bool → Option (Unit {0})
guard true = some tt
guard false = none

-- The result, where there is one, has the property.
unfoldable pub Ensures {ℓ κ} : {A : Type ℓ} → (A → Type κ) → Option A → Type κ
Ensures P none = Unit
Ensures P (some a) = P a

pub bind-Ensures {ℓ κ ι μ} :
    {A : Type ℓ} {B : Type κ} (P : B → Type μ) {Q : A → Type ι} (m : Option A) (f : A → Option B)
    → Ensures Q m
    → ((a : A) → Q a → Ensures P (f a))
    → Ensures P (m >>= f)
unfolding Ensures ◌>>=◌
bind-Ensures P none f q h = tt
bind-Ensures P (some a) f q h = h a q

-- The same, where nothing is used of the step's result.
pub skip-Ensures {ℓ κ μ} :
    {A : Type ℓ} {B : Type κ} (P : B → Type μ) (m : Option A) (f : A → Option B)
    → ((a : A) → Ensures P (f a))
    → Ensures P (m >>= f)
unfolding Ensures ◌>>=◌
skip-Ensures P none f h = tt
skip-Ensures P (some a) f h = h a

pub some-Ensures {ℓ κ} : {A : Type ℓ} (P : A → Type κ) {a : A} → P a → Ensures P (some a)
unfolding Ensures
some-Ensures P h = h

pub guard-Ensures : (b : Bool) → Ensures (λ _. b ≡ true) (guard b)
unfolding Ensures guard
guard-Ensures true = refl
guard-Ensures false = tt

pub Ensures-of {ℓ κ} :
    {A : Type ℓ} {P : A → Type κ} (o : Option A) → ((a : A) → o ≡ some a → P a) → Ensures P o
unfolding Ensures
Ensures-of none h = tt
Ensures-of (some a) h = h a refl

pub Ensures-some {ℓ κ} :
    {A : Type ℓ} (P : A → Type κ) (o : Option A) (a : A) → Ensures P o → o ≡ some a → P a
unfolding Ensures
Ensures-some P none a h e = cc
Ensures-some P (some b) a h e = let same : b ≡ a = cc in subst P same h
