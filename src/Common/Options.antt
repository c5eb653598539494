-- ===== src/Common/Options.antt =====
-- Go's (value, bool) pair, for functions whose value counts only when the bool is true.
use mathlib.Core.Path.{◌≡◌, refl}
use mathlib.Core.Bool.{Bool, true, false, not}
use mathlib.Core.Option.{Option, none, some}
use lattice_sdk.Common.Tests.{if◌then◌else◌}

infixl 5 ◌>>=◌
abbrev pub ◌>>=◌ {ℓ κ} : {A : Type ℓ} {B : Type κ} → Option A → (A → Option B) → Option B
none >>= f = none
some a >>= f = f a

-- A sequence that gave a value did so in both parts.
pub bind-eq-some {ℓ κ} :
    {A : Type ℓ} {B : Type κ} (r : Option A) (f : A → Option B) (b : B)
    → (r >>= f) ≡ some b
    → (a : A) × (r ≡ some a) × (f a ≡ some b)
bind-eq-some none f b h = cc
bind-eq-some (some a) f b h = (a, refl, h)

-- A test that gave a value held, and the value is the one written.
pub if-eq-some {ℓ} :
    {A : Type ℓ} (t : Bool) (r : Option A) (b : A)
    → (if t then r else none) ≡ some b
    → (t ≡ true) × (r ≡ some b)
if-eq-some true r b h = (refl, h)
if-eq-some false r b h = cc

pub unless-eq-some {ℓ} :
    {A : Type ℓ} (t : Bool) (r : Option A) (b : A)
    → (if t then none else r) ≡ some b
    → (t ≡ false) × (r ≡ some b)
unless-eq-some true r b h = cc
unless-eq-some false r b h = (refl, h)

pub guard-eq-some {ℓ} :
    {A : Type ℓ} (t : Bool) (r : Option A) (b : A)
    → (if not t then none else r) ≡ some b
    → (t ≡ true) × (r ≡ some b)
guard-eq-some true r b h = (refl, h)
guard-eq-some false r b h = cc
