-- ===== src/Common/Decimals.antt =====
-- Go's strconv in base 10, on the bytes of a string: `ParseUint` and `ParseInt` with 64 bits, `FormatUint`
-- and `FormatInt`. An int64 is its pattern.
use Prim.Native.Nat.{ℕ, zero, suc, ◌+◌, ◌-◌, ◌*◌, ◌/◌, ◌%◌, ◌^◌, ◌<◌}
use mathlib.Core.Path.{◌≡◌, refl, sym, ap, subst, ◌∙◌}
use mathlib.Core.Logic.{inl, inr}
use mathlib.Core.Bool.{Bool, true, false, ◌&&◌}
use mathlib.Core.Option.{Option, none, some, some-injective}
use mathlib.Core.List.{List, [], ◌∷◌}
use native.Mathlib.Omega.{arith}
use lattice_sdk.Common.Tests.{ltb, leb, ◌==◌, if◌then◌else◌, Bool-cases, lt→ltb, ltb→lt}
use lattice_sdk.Common.Options.{◌>>=◌, bind-eq-some, if-eq-some}
use lattice_sdk.Common.Int64.{slt}

abbrev is_decimal : ℕ → Bool
is_decimal c = leb b'0' c && leb c b'9'

unfoldable pub all_decimal : List ℕ → Bool
all_decimal [] = true
all_decimal (c ∷ cs) = is_decimal c && all_decimal cs

unfoldable pub decimal_value : ℕ → List ℕ → ℕ
decimal_value n [] = n
decimal_value n (c ∷ cs) = decimal_value (n * 10 + (c - b'0')) cs

abbrev bounded : ℕ → ℕ → Option ℕ
bounded limit n = if ltb n limit then some n else none

unfoldable pub parse_uint : List ℕ → Option ℕ
parse_uint [] = none
parse_uint (c ∷ cs) =
    if all_decimal (c ∷ cs) then bounded (2 ^ 64) (decimal_value 0 (c ∷ cs)) else none

-- The sign is cut off first; the smallest number has one more below zero.
unfoldable pub parse_int : List ℕ → Option ℕ
parse_int [] = none
parse_int (c ∷ cs) =
    if c == b'-'
    then (parse_uint cs >>= bounded (2 ^ 63 + 1) >>= λ n. some ((2 ^ 64 - n) % 2 ^ 64))
    else if c == b'+'
    then parse_uint cs >>= bounded (2 ^ 63)
    else parse_uint (c ∷ cs) >>= bounded (2 ^ 63)

-- The digits of a number in front of others, at most as many as the fuel.
unfoldable pub format_from : ℕ → ℕ → List ℕ → List ℕ
format_from zero n later = later
format_from (suc fuel) n later =
    if ltb n 10 then (b'0' + n) ∷ later else format_from fuel (n / 10) ((b'0' + n % 10) ∷ later)

-- A number below 2 ^ 64 has at most 20 digits.
abbrev pub format_uint : ℕ → List ℕ
format_uint n = format_from 20 n []

abbrev pub format_int : ℕ → List ℕ
format_int n = if slt n 0 then b'-' ∷ format_uint (2 ^ 64 - n) else format_uint n

pub format_value :
    (fuel n : ℕ) (later : List ℕ)
    → n < 10 ^ suc fuel
    → decimal_value 0 (format_from (suc fuel) n later) ≡ decimal_value n later
unfolding format_from decimal_value
format_value zero n later h = rw (lt→ltb n 10 h) (ap (λ m. decimal_value m later) (omega arith))
format_value (suc fuel) n later h = elim (Bool-cases (ltb n 10)) [
  | inl e ↦ rw e (ap (λ m. decimal_value m later) (omega arith))
  | inr e ↦ rw e (
      format_value fuel (n / 10) ((b'0' + n % 10) ∷ later) (omega arith)
      ∙ ap (λ m. decimal_value m later) (omega arith))
]

is_decimal-digit : (d : ℕ) → d < 10 → is_decimal (b'0' + d) ≡ true
is_decimal-digit d h = ground arith

abbrev pub IsNumeral : List ℕ → Type 0
IsNumeral s = (c : ℕ) × (cs : List ℕ) × (s ≡ c ∷ cs) × (all_decimal (c ∷ cs) ≡ true)

-- A formatted number is one digit at least, and digits only.
format_from-IsNumeral :
    (fuel n : ℕ) (later : List ℕ)
    → n < 10 ^ suc fuel
    → all_decimal later ≡ true
    → IsNumeral (format_from (suc fuel) n later)
unfolding format_from all_decimal
format_from-IsNumeral zero n later h all =
    (b'0' + n, later, rw (lt→ltb n 10 h) refl, rw (is_decimal-digit n h) all)
format_from-IsNumeral (suc fuel) n later h all = elim (Bool-cases (ltb n 10)) [
  | inl e ↦ (b'0' + n, later, rw e refl, rw (is_decimal-digit n (ltb→lt n 10 e)) all)
  | inr e ↦ rw e (
      format_from-IsNumeral fuel (n / 10) ((b'0' + n % 10) ∷ later) (omega arith)
        (rw (is_decimal-digit (n % 10) (omega arith)) all))
]

pub format_uint-IsNumeral : (n : ℕ) → n < 10 ^ 20 → IsNumeral (format_uint n)
unfolding all_decimal
format_uint-IsNumeral n h = format_from-IsNumeral 19 n [] h refl

format_uint_value : (n : ℕ) → n < 10 ^ 20 → decimal_value 0 (format_uint n) ≡ n
unfolding decimal_value
format_uint_value n h = format_value 19 n [] h

within : (limit n : ℕ) → n < limit → bounded limit n ≡ some n
within limit n h = rw (lt→ltb n limit h) refl

numeral_uint :
    (s : List ℕ) (n : ℕ) → IsNumeral s → decimal_value 0 s ≡ n → n < 2 ^ 64 → parse_uint s ≡ some n
unfolding parse_uint
numeral_uint s n (c, cs, eq, all) v h =
    rw (eq, all, (sym (ap (decimal_value 0) eq) ∙ v)) (within (2 ^ 64) n h)

unsigned :
    (c : ℕ) (cs : List ℕ)
    → all_decimal (c ∷ cs) ≡ true
    → ((c == b'-') ≡ false) × ((c == b'+') ≡ false)
unfolding all_decimal
unsigned c cs all = (ground arith, ground arith)

numeral_int :
    (s : List ℕ) (n : ℕ) → IsNumeral s → parse_uint s ≡ some n → n < 2 ^ 63 → parse_int s ≡ some n
unfolding parse_int
numeral_int s n (c, cs, eq, all) u h =
    let (plus, minus) = unsigned c cs all in
    rw (eq, plus, minus, sym (ap parse_uint eq) ∙ u) (within (2 ^ 63) n h)

pub parse-format_uint : (n : ℕ) → n < 2 ^ 64 → parse_uint (format_uint n) ≡ some n
parse-format_uint n h =
    numeral_uint (format_uint n) n (format_uint-IsNumeral n (omega arith))
      (format_uint_value n (omega arith)) h

pub parse-format_int : (n : ℕ) → n < 2 ^ 63 → parse_int (format_uint n) ≡ some n
parse-format_int n h =
    numeral_int (format_uint n) n (format_uint-IsNumeral n (omega arith))
      (parse-format_uint n (omega arith)) h

bounded_lem : (limit n m : ℕ) → bounded limit n ≡ some m → (n ≡ m) × m < limit
bounded_lem limit n m h =
    let (below, eq) = if-eq-some (ltb n limit) (some n) m h in
    let e = some-injective n m eq in (e, subst (λ x. x < limit) e (ltb→lt n limit below))

nonneg-below : (r : Option ℕ) (n : ℕ) → (r >>= bounded (2 ^ 63)) ≡ some n → n < 2 ^ 64
nonneg-below r n h =
    let (m, read, e) = bind-eq-some r (bounded (2 ^ 63)) n h in
    let (same, below) = bounded_lem (2 ^ 63) m n e in omega arith

negative-below :
    (r : Option ℕ) (n : ℕ) → (r >>= λ m. some ((2 ^ 64 - m) % 2 ^ 64)) ≡ some n → n < 2 ^ 64
negative-below r n h =
    let (m, read, e) = bind-eq-some r (λ m. some ((2 ^ 64 - m) % 2 ^ 64)) n h in
    let same = some-injective ((2 ^ 64 - m) % 2 ^ 64) n e in omega arith

-- What is read is an int64's pattern.
pub parse_int-below : (s : List ℕ) (n : ℕ) → parse_int s ≡ some n → n < 2 ^ 64
unfolding parse_int
parse_int-below [] n h = cc
parse_int-below (c ∷ cs) n h = elim (Bool-cases (c == b'-')) [
  | inl minus ↦ negative-below (parse_uint cs >>= bounded (2 ^ 63 + 1)) n (rw minus at h)
  | inr e ↦ elim (Bool-cases (c == b'+')) [
    | inl plus ↦ nonneg-below (parse_uint cs) n (rw (e, plus) at h)
    | inr e2 ↦ nonneg-below (parse_uint (c ∷ cs)) n (rw (e, e2) at h)
  ]
]

-- A positive number is its digits.
pub format_int-positive :
    (n : ℕ) → n < 2 ^ 64 → slt 0 n ≡ true → (0 < n) × (n < 2 ^ 63) × (format_int n ≡ format_uint n)
unfolding slt
format_int-positive n h pos =
    let above : 2 ^ 63 < (n + 2 ^ 63) % 2 ^ 64 = ltb→lt _ _ pos in
    let small : n < 2 ^ 63 = omega arith in
    let plain : ltb ((n + 2 ^ 63) % 2 ^ 64) (2 ^ 63) ≡ false = ground arith in
    (omega arith, small, rw plain refl)

pub positive-format_int :
    (n : ℕ) → 0 < n → n < 2 ^ 63 → (slt 0 n ≡ true) × (format_int n ≡ format_uint n)
unfolding slt
positive-format_int n p h =
    let sum : (n + 2 ^ 63) % 2 ^ 64 ≡ n + 2 ^ 63 = omega arith in
    let above : ltb (2 ^ 63) (n + 2 ^ 63) ≡ true = lt→ltb (2 ^ 63) (n + 2 ^ 63) (omega arith) in
    let plain : ltb (n + 2 ^ 63) (2 ^ 63) ≡ false = ground arith in
    (rw (sum) above, rw (sum, plain) refl)

pub parse_uint-below : (s : List ℕ) (n : ℕ) → parse_uint s ≡ some n → n < 2 ^ 64
unfolding parse_uint
parse_uint-below [] n h = cc
parse_uint-below (c ∷ cs) n h =
    let (all, e) =
      if-eq-some (all_decimal (c ∷ cs)) (bounded (2 ^ 64) (decimal_value 0 (c ∷ cs))) n h in
    (bounded_lem (2 ^ 64) (decimal_value 0 (c ∷ cs)) n e).1
