-- ===== src/Common/Errors.antt =====
-- Go's (value, error) pair, for functions that return one or the other.
use mathlib.Core.Path.{◌≡◌, refl, ap}
use mathlib.Core.Bool.{Bool, true, false, not}
use mathlib.Core.Option.{Option, none, some}
use lattice_sdk.Common.Tests.{if◌then◌else◌}

pub data Result {ℓ κ} (E : Type κ) (A : Type ℓ) : Type (ℓ ⊔ κ) where
  ok : A → Result E A
  err : E → Result E A

infixl 5 ◌>>=◌
abbrev pub ◌>>=◌ {ℓ μ κ} :
    {E : Type κ} {A : Type ℓ} {B : Type μ} → Result E A → (A → Result E B) → Result E B
ok a >>= f = f a
err e >>= f = err e

-- A function that returned a value went past its guard.
pub guard-eq-ok {ℓ κ} :
    {E : Type κ} {A : Type ℓ} (b : Bool) (e : E) (r : Result E A) (a : A)
    → (if not b then err e else r) ≡ ok a
    → (b ≡ true) × (r ≡ ok a)
guard-eq-ok true e r a h = (refl, h)
guard-eq-ok false e r a h = cc

-- The same where the error is an Option, and `none` is Go's nil.
pub guard-eq-none {κ} :
    {E : Type κ} (b : Bool) (e : E) (r : Option E)
    → (if not b then some e else r) ≡ none
    → (b ≡ true) × (r ≡ none)
guard-eq-none true e r h = (refl, h)
guard-eq-none false e r h = cc

-- A sequence that returned a value did so in both parts.
pub bind-eq-ok {ℓ μ κ} :
    {E : Type κ} {A : Type ℓ} {B : Type μ} (r : Result E A) (f : A → Result E B) (b : B)
    → (r >>= f) ≡ ok b
    → (a : A) × (r ≡ ok a) × (f a ≡ ok b)
bind-eq-ok (ok a) f b h = (a, refl, h)
bind-eq-ok (err e) f b h = cc

pub if-eq-ok {ℓ κ} :
    {E : Type κ} {A : Type ℓ} (b : Bool) (e : E) (r : Result E A) (a : A)
    → (if b then err e else r) ≡ ok a
    → (b ≡ false) × (r ≡ ok a)
if-eq-ok true e r a h = cc
if-eq-ok false e r a h = (refl, h)

pub ok-injective {ℓ κ} :
    {E : Type κ} {A : Type ℓ} (a b : A) → ◌≡◌ {A = Result E A} (ok a) (ok b) → a ≡ b
ok-injective {E = E} {A = A} a b e = ap value e
  where
    value : Result E A → A
    value (ok x) = x
    value (err x) = a

pub if-eq-none {κ} :
    {E : Type κ} (b : Bool) (e : E) (r : Option E)
    → (if b then some e else r) ≡ none
    → (b ≡ false) × (r ≡ none)
if-eq-none true e r h = cc
if-eq-none false e r h = (refl, h)
