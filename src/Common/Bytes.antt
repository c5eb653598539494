-- ===== src/Common/Bytes.antt =====
-- Byte slices as lists of numbers, the copies Go makes into them, and big-endian integers.
use Prim.Native.Nat.{ℕ, zero, suc, ◌+◌, ◌*◌, ◌/◌, ◌%◌, ◌^◌, ◌<◌}
use Prim.Native.Nat.add
use mathlib.Core.Path.{◌≡◌, refl}
use mathlib.Core.Logic.{◌↔◌}
use mathlib.Core.Bool.{Bool, true, false, ◌&&◌}
use mathlib.Core.List.{List, [], ◌∷◌, ◌++◌}
use native.Mathlib.Omega.{arith}
use lattice_sdk.Common.Tests.{◌==◌}
use lattice_sdk.Common.Lists.{length, take, drop}

abbrev pub IsByte : ℕ → Type 0
IsByte b = b < 256

-- `bytes.Equal`, and the answer of `subtle.ConstantTimeCompare`.
unfoldable pub bytes_eq : List ℕ → List ℕ → Bool
bytes_eq [] [] = true
bytes_eq [] (y ∷ ys) = false
bytes_eq (x ∷ xs) [] = false
bytes_eq (x ∷ xs) (y ∷ ys) = x == y && bytes_eq xs ys

pub bytes_eq_iff : (xs ys : List ℕ) → (bytes_eq xs ys ≡ true) ↔ (xs ≡ ys)
unfolding bytes_eq
bytes_eq_iff [] [] = ground arith
bytes_eq_iff [] (y ∷ ys) = ground arith
bytes_eq_iff (x ∷ xs) [] = ground arith
bytes_eq_iff (x ∷ xs) (y ∷ ys) = ground (arith, bytes_eq_iff xs ys)

pub bytes_eq_refl : (xs : List ℕ) → bytes_eq xs xs ≡ true
bytes_eq_refl xs = (bytes_eq_iff xs xs).1 refl

-- `copy(dst, src)`: as many bytes as both have.
abbrev pub copy : List ℕ → List ℕ → List ℕ
copy [] src = []
copy (y ∷ ys) [] = y ∷ ys
copy (y ∷ ys) (x ∷ xs) = x ∷ copy ys xs

-- `copy(dst[off:], src)`.
abbrev pub copy_at : ℕ → List ℕ → List ℕ → List ℕ
copy_at zero dst src = copy dst src
copy_at (suc n) [] src = []
copy_at (suc n) (y ∷ ys) src = y ∷ copy_at n ys src

-- `clear(b)` on `n` bytes.
abbrev pub zeros : ℕ → List ℕ
zeros zero = []
zeros (suc n) = 0 ∷ zeros n

-- `s[lo:lo+n]`.
abbrev pub slice : ℕ → ℕ → List ℕ → List ℕ
slice lo n s = take n (drop lo s)

-- `b[i]`, for an index the code keeps in range.
abbrev pub byte_at : ℕ → List ℕ → ℕ
byte_at i [] = 0
byte_at zero (x ∷ xs) = x
byte_at (suc i) (x ∷ xs) = byte_at i xs

-- `binary.BigEndian.PutUint32` and `PutUint64`.
abbrev pub be32 : ℕ → List ℕ
be32 v = (v / 2 ^ 24 % 256) ∷ (v / 2 ^ 16 % 256) ∷ (v / 2 ^ 8 % 256) ∷ (v % 256) ∷ []

abbrev pub be64 : ℕ → List ℕ
be64 v = be32 (v / 2 ^ 32) ++ be32 v

-- The number a big-endian string of bytes spells.
abbrev pub be_value : ℕ → List ℕ → ℕ
be_value acc [] = acc
be_value acc (b ∷ bs) = be_value (acc * 256 + b) bs

-- `binary.BigEndian.Uint32(s[off:])` and `Uint64`.
abbrev pub uint32_at : ℕ → List ℕ → ℕ
uint32_at off s = be_value 0 (slice off 4 s)

abbrev pub uint64_at : ℕ → List ℕ → ℕ
uint64_at off s = be_value 0 (slice off 8 s)

pub be32_value : (v : ℕ) → v < 2 ^ 32 → be_value 0 (be32 v) ≡ v
be32_value v h = omega arith

pub be64_value : (v : ℕ) → v < 2 ^ 64 → be_value 0 (be64 v) ≡ v
be64_value v h = omega arith

module _ {ℓ} {A : Type ℓ} where
  pub take-append : (n : ℕ) (xs ys : List A) → length xs ≡ n → take n (xs ++ ys) ≡ xs
  take-append zero [] ys h = refl
  take-append zero (x ∷ xs) ys h = absurd (omega arith)
  take-append (suc n) [] ys h = absurd (omega arith)
  take-append (suc n) (x ∷ xs) ys h = rw (take-append n xs ys (omega arith))

  pub drop-append : (n : ℕ) (xs ys : List A) → length xs ≡ n → drop n (xs ++ ys) ≡ ys
  drop-append zero [] ys h = refl
  drop-append zero (x ∷ xs) ys h = absurd (omega arith)
  drop-append (suc n) [] ys h = absurd (omega arith)
  drop-append (suc n) (x ∷ xs) ys h = drop-append n xs ys (omega arith)

  pub take-length : (n : ℕ) (xs : List A) → length xs ≡ n → take n xs ≡ xs
  take-length zero [] h = refl
  take-length zero (x ∷ xs) h = absurd (omega arith)
  take-length (suc n) [] h = absurd (omega arith)
  take-length (suc n) (x ∷ xs) h = rw (take-length n xs (omega arith))

  pub drop-drop : (m n : ℕ) (xs : List A) → drop n (drop m xs) ≡ drop (m + n) xs
  drop-drop zero n xs = rw add.zero
  drop-drop (suc m) zero [] = rw add.suc
  drop-drop (suc m) (suc n) [] = rw add.suc
  drop-drop (suc m) n (x ∷ xs) = rw add.suc (drop-drop m n xs)

-- A copy that fits replaces the first bytes.
pub copy-append : (a b s : List ℕ) → length s ≡ length a → copy (a ++ b) s ≡ s ++ b
copy-append [] [] [] h = refl
copy-append [] (y ∷ b) [] h = refl
copy-append [] b (x ∷ s) h = absurd (omega arith)
copy-append (y ∷ a) b [] h = absurd (omega arith)
copy-append (y ∷ a) b (x ∷ s) h = rw (copy-append a b s (omega arith))

pub copy_at-append : (n : ℕ) (p q s : List ℕ) → length p ≡ n → copy_at n (p ++ q) s ≡ p ++ copy q s
copy_at-append zero [] q s h = refl
copy_at-append zero (x ∷ p) q s h = absurd (omega arith)
copy_at-append (suc n) [] q s h = absurd (omega arith)
copy_at-append (suc n) (x ∷ p) q s h = rw (copy_at-append n p q s (omega arith))
