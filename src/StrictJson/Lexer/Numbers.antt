-- ===== src/StrictJson/Lexer/Numbers.antt =====
-- strictjson/strictjson.go: the loops over spaces and digits, and `number` against the grammar.
use lattice_sdk.Common.{
  ℕ, ◌≡◌, refl, ap, Bool, true, false, ◌||◌, Option, none, some, [], ◌∷◌, ◌++◌, append_assoc, ◌==◌,
  arith, some-injective, ◌∙◌,
}
use lattice_sdk.Common.Options.{bind-eq-some, if-eq-some}
use lattice_sdk.StrictJson.Lexer.{
  Bytes, between, starts_with, is_digit, is_exponent, skip_minus, integer, fraction, exponent,
  float_test, number,
}
use lattice_sdk.StrictJson.Grammar.{
  Exponent, Number, print_minus, print_fraction, print_exponent, print_number, IsWhole, IsFraction,
  IsExponent, has_exponent,
}
use lattice_sdk.StrictJson.Lexer.NumberParts.{
  between-append, skip_minus-split, skip_minus-append, integer-split, integer-append,
  fraction-split, fraction-append, exponent-split, exponent-append,
}

-- A byte that would go on with a number.
abbrev pub is_number_byte : ℕ → Bool
is_number_byte c = is_digit c || c == b'.' || is_exponent c

-- A number that the scanner reads.
pub number-split :
    (parse_float : Bytes → Bool) (bs r : Bytes)
    → number parse_float bs ≡ some r
    → (n : Number) × (bs ≡ print_number n ++ r)
      × IsWhole n.whole
      × IsFraction n.fraction
      × IsExponent n.exponent
      × (float_test parse_float (has_exponent n.exponent) (print_number n) ≡ true)
unfolding number
number-split parse_float bs r h =
    let (m, minus) = skip_minus-split bs in
    let (r1, whole, h1) = bind-eq-some (integer (skip_minus bs)) _ r h in
    let (ds, iswhole, eq1) = integer-split (skip_minus bs) r1 whole in
    let (r2, frac, h2) = bind-eq-some (fraction r1) _ r h1 in
    let (f, isfraction, eq2) = fraction-split r1 r2 frac in
    let (r3, expo, h3) = bind-eq-some (exponent r2) _ r h2 in
    let (e, isexponent, eq3, marked) = exponent-split r2 r3 expo in
    let (test, last) =
      if-eq-some (float_test parse_float (starts_with is_exponent r2) (between bs r3)) _ r h3 in
    let same = some-injective r3 r last in
    let n : Number = record { minus = m; whole = ds; fraction = f; exponent = e } in
    let split : bs ≡ print_number n ++ r3 = minus ∙ simp (eq1, eq2, eq3, append_assoc) in
    let text : between bs r3 ≡ print_number n =
      ap (λ b. between b r3) split ∙ between-append (print_number n) r3 in
    (n, rw (← same) split, iswhole, isfraction, isexponent, rw (marked, text) at test)

number-steps :
    (parse_float : Bytes → Bool) (bs b1 r1 r2 r3 : Bytes)
    → skip_minus bs ≡ b1
    → integer b1 ≡ some r1
    → fraction r1 ≡ some r2
    → exponent r2 ≡ some r3
    → float_test parse_float (starts_with is_exponent r2) (between bs r3) ≡ true
    → number parse_float bs ≡ some r3
unfolding number
number-steps parse_float bs b1 r1 r2 r3 minus whole fractional exponential float =
    rw (minus, whole, fractional, exponential, float) refl

-- What the first bytes of a number's parts are not.
whole-no_minus : (ds bs : Bytes) → IsWhole ds → starts_with (λ c. c == b'-') (ds ++ bs) ≡ false
whole-no_minus [] bs h = absurd h
whole-no_minus (d ∷ ds) bs h = ground arith

stop-no_digit :
    (f : Option Bytes) (e : Option Exponent) (r : Bytes)
    → IsExponent e
    → starts_with is_number_byte r ≡ false
    → starts_with is_digit (print_fraction f ++ (print_exponent e ++ r)) ≡ false
stop-no_digit (some ds) e r h stop = refl
stop-no_digit none (some e) r h stop = ground (arith, h.0)
stop-no_digit none none [] h stop = refl
stop-no_digit none none (c ∷ r) h stop = ground arith

exponent-no_point :
    (e : Option Exponent) (r : Bytes)
    → IsExponent e
    → starts_with is_number_byte r ≡ false
    → (starts_with (λ c. is_digit c || c == b'.') (print_exponent e ++ r) ≡ false)
      × (starts_with is_exponent (print_exponent e ++ r) ≡ has_exponent e)
      × (starts_with (λ c. is_digit c || is_exponent c) r ≡ false)
exponent-no_point none [] h stop = (refl, refl, refl)
exponent-no_point none (c ∷ r) h stop = (ground arith, ground arith, ground arith)
exponent-no_point (some e) [] h stop = (ground (arith, h.0), h.0, refl)
exponent-no_point (some e) (c ∷ r) h stop = (ground (arith, h.0), h.0, ground arith)

-- Any number of the grammar is read, up to a byte that does not go on with it.
pub number-append :
    (parse_float : Bytes → Bool) (n : Number) (r : Bytes)
    → IsWhole n.whole
    → IsFraction n.fraction
    → IsExponent n.exponent
    → float_test parse_float (has_exponent n.exponent) (print_number n) ≡ true
    → starts_with is_number_byte r ≡ false
    → number parse_float (print_number n ++ r) ≡ some r
number-append parse_float n r whole fractional exponential float stop =
    let (point, marked, after) = exponent-no_point n.exponent r exponential stop in
    let r1 = print_fraction n.fraction ++ (print_exponent n.exponent ++ r) in
    let split : print_number n ++ r ≡ print_minus n.minus ++ (n.whole ++ r1) = simp append_assoc in
    number-steps parse_float (print_number n ++ r) (n.whole ++ r1) r1
      (print_exponent n.exponent ++ r) r
      (rw split (skip_minus-append n.minus (n.whole ++ r1) (whole-no_minus n.whole r1 whole)))
      (integer-append n.whole r1 whole (stop-no_digit n.fraction n.exponent r exponential stop))
      (fraction-append n.fraction (print_exponent n.exponent ++ r) fractional point)
      (exponent-append n.exponent r exponential after)
      (rw (marked, between-append (print_number n) r) float)
