-- ===== src/Common/Masks.antt =====
-- `x & (size - 1)` for a size that is a power of two is the remainder by that size.
use Prim.Native.Nat.{
  ℕ, zero, suc, ◌+◌, ◌-◌, ◌*◌, ◌/◌, ◌%◌, ◌≤◌, ◌<◌, min, bit_and, digits, bit_and-bitwise,
}
use mathlib.Core.Path.{◌≡◌, refl, sym, ap, ap₂, ◌∙◌}
use native.Mathlib.Nat.{mul-add-mod_self_right, mod-eq_of_lt, mod-lt, div-add-mod'}
use native.Mathlib.Omega.{arith}

-- The number of `k` ones in binary.
abbrev pub ones : ℕ → ℕ
ones zero = 0
ones (suc k) = ones k * 2 + 1

-- A power of two.
abbrev pub IsSize : ℕ → Type 0
IsSize n = (k : ℕ) × (n ≡ ones k + 1)

mod_double : (q r m : ℕ) → 0 < m → r < 2 → (q * 2 + r) % (m * 2) ≡ q % m * 2 + r
mod_double q r m pos small =
    let whole : q * 2 + r ≡ q / m * (m * 2) + (q % m * 2 + r) =
      omega (arith, ap (λ (t : ℕ). t * 2) (div-add-mod' q m)) in
    ap (λ t. t % (m * 2)) whole
    ∙ mul-add-mod_self_right (q / m) (m * 2) (q % m * 2 + r)
    ∙ mod-eq_of_lt (omega (arith, mod-lt q pos))

low_digits : ℕ → ℕ → ℕ → ℕ
low_digits = digits (λ b. zero) min

low_digits-zero : (n a : ℕ) → low_digits n a 0 ≡ 0
unfolding low_digits
low_digits-zero zero a = refl
low_digits-zero (suc n) zero = refl
low_digits-zero (suc n) (suc a) = omega (arith, low_digits-zero n (suc a / 2))

low_digits-ones : (k n a : ℕ) → a ≤ n → low_digits n a (ones k) ≡ a % (ones k + 1)
unfolding low_digits
low_digits-ones zero n a h = low_digits-zero n a ∙ omega arith
low_digits-ones (suc k) zero a h = omega arith
low_digits-ones (suc k) (suc n) zero h = omega arith
low_digits-ones (suc k) (suc n) (suc a) h =
    let q = suc a / 2 in
    let r = suc a % 2 in
    let low : (ones k * 2 + 1) / 2 ≡ ones k = omega arith in
    let whole : suc a % (ones k * 2 + 1 + 1) ≡ (q * 2 + r) % ((ones k + 1) * 2) =
      ap₂ ◌%◌ (omega arith) (omega arith) in
    ap (λ t. low_digits n q t * 2 + min r ((ones k * 2 + 1) % 2)) low
    ∙ ap₂ (λ x y. x * 2 + y) (low_digits-ones k n q (omega arith)) (omega arith)
    ∙ sym (whole ∙ mod_double q r (ones k + 1) (omega arith) (omega arith))

pub bit_and-ones : (k a : ℕ) → bit_and a (ones k) ≡ a % (ones k + 1)
unfolding low_digits
bit_and-ones k a = bit_and-bitwise a (ones k) ∙ low_digits-ones k a a (omega arith)

-- The mask of a size.
pub bit_and-mask : (n a : ℕ) → IsSize n → bit_and a (n - 1) ≡ a % n
bit_and-mask n a (k, e) =
    let mask : n - 1 ≡ ones k = omega arith in
    ap (bit_and a) mask ∙ bit_and-ones k a ∙ ap (◌%◌ a) (sym e)
