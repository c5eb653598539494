-- ===== src/Common/Int64.antt =====
-- Go's int64: its bit pattern, a number below 2 ^ 64, with wrap-around arithmetic and the signed
-- order. A conversion between int64 and uint64 keeps the pattern.
use Prim.Native.Nat.{ℕ, ◌+◌, ◌-◌, ◌%◌, ◌^◌, ◌<◌}
use mathlib.Core.Path.{◌≡◌}
use mathlib.Core.Logic.{◌↔◌}
use mathlib.Core.Bool.{Bool, true, false}
use native.Mathlib.Omega.{arith}
use lattice_sdk.Common.Tests.{ltb, if◌then◌else◌}

abbrev pub IsU64 : ℕ → Type 0
IsU64 a = a < 2 ^ 64

abbrev pub IsU32 : ℕ → Type 0
IsU32 a = a < 2 ^ 32

-- A pattern that stands for a number that is not negative.
abbrev pub IsNonneg : ℕ → Type 0
IsNonneg a = a < 2 ^ 63

abbrev pub add : ℕ → ℕ → ℕ
add a b = (a + b) % 2 ^ 64

abbrev pub sub : ℕ → ℕ → ℕ
sub a b = (a + 2 ^ 64 - b) % 2 ^ 64

-- `a < b` on int64: flipping the sign bit turns the signed order into the plain one.
unfoldable pub slt : ℕ → ℕ → Bool
slt a b = ltb ((a + 2 ^ 63) % 2 ^ 64) ((b + 2 ^ 63) % 2 ^ 64)

abbrev pub smin : ℕ → ℕ → ℕ
smin a b = if slt b a then b else a

-- The order that `slt` decides is total.
pub slt-ge_trans : (a b c : ℕ) → slt a b ≡ false → slt b c ≡ false → slt a c ≡ false
unfolding slt
slt-ge_trans a b c h k = ltb-ge_trans _ _ _ h k
  where
    ltb-ge_trans : (x y z : ℕ) → ltb x y ≡ false → ltb y z ≡ false → ltb x z ≡ false
    ltb-ge_trans x y z h k = ground arith

pub slt-lt_ge : (a b c : ℕ) → slt a b ≡ true → slt c b ≡ false → slt a c ≡ true
unfolding slt
slt-lt_ge a b c h k = ltb-lt_ge _ _ _ h k
  where
    ltb-lt_ge : (x y z : ℕ) → ltb x y ≡ true → ltb z y ≡ false → ltb x z ≡ true
    ltb-lt_ge x y z h k = ground arith

pub slt_asymm : (a b : ℕ) → slt a b ≡ true → slt b a ≡ false
unfolding slt
slt_asymm a b h = ltb_asymm _ _ h
  where
    ltb_asymm : (x y : ℕ) → ltb x y ≡ true → ltb y x ≡ false
    ltb_asymm x y h = ground arith

pub slt_irrefl : (a : ℕ) → slt a a ≡ false
unfolding slt
slt_irrefl a = ltb_irrefl _
  where
    ltb_irrefl : (x : ℕ) → ltb x x ≡ false
    ltb_irrefl x = ground arith

pub slt-zero : (a : ℕ) → IsNonneg a → slt a 0 ≡ false
unfolding slt
slt-zero a h = ground arith

-- Between numbers that are not negative the signed order is the plain one.
pub slt_iff : (a b : ℕ) → IsNonneg a → IsNonneg b → (slt a b ≡ true) ↔ (a < b)
unfolding slt
slt_iff a b h k = ground arith
