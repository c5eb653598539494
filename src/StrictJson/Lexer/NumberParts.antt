-- ===== src/StrictJson/Lexer/NumberParts.antt =====
-- strictjson/strictjson.go: the loops over spaces and digits, and the parts of a number.
use lattice_sdk.Common.{
  ℕ, ◌-◌, ◌≡◌, refl, ap, inl, inr, Bool, true, false, ◌||◌, ◌&&◌, Option, none, some, [], ◌∷◌, ◌++◌,
  append_assoc, All, Bool-cases, leb, ◌==◌, arith, length, length-append, some-injective, ◌∙◌,
}
use lattice_sdk.Common.Bytes.{take-append}
use lattice_sdk.Common.Options.{if-eq-some}
use lattice_sdk.StrictJson.Lexer.{
  Bytes, between, starts_with, skip, is_digit, is_exponent, is_sign, digits, skip_minus, integer,
  fraction, skip_sign, exponent,
}
use lattice_sdk.StrictJson.Grammar.{
  Exponent, print_minus, print_fraction, print_sign, print_exponent, IsWhole, IsDigits, IsFraction,
  IsSign, IsExponent, has_exponent,
}

pub between-append : (text rest : Bytes) → between (text ++ rest) rest ≡ text
between-append text rest =
    take-append (length (text ++ rest) - length rest) text rest
      (omega (arith, length-append text rest))

-- What a loop goes over passes its test.
pub skip-split :
    (p : ℕ → Bool) (bs : Bytes) → (w : Bytes) × All (λ c. p c ≡ true) w × (bs ≡ w ++ skip p bs)
unfolding skip
skip-split p [] = ([], tt, refl)
skip-split p (c ∷ cs) = elim (Bool-cases (p c)) [
  | inl e ↦ (let (w, all, eq) = skip-split p cs in (c ∷ w, (e, all), rw e (ap (λ t. c ∷ t) eq)))
  | inr e ↦ ([], tt, rw e refl)
]

pub skip-append :
    (p : ℕ → Bool) (w r : Bytes)
    → All (λ c. p c ≡ true) w
    → starts_with p r ≡ false
    → skip p (w ++ r) ≡ r
unfolding skip
skip-append p [] [] all stop = refl
skip-append p [] (c ∷ r) all stop = rw stop refl
skip-append p (c ∷ w) r all stop = rw all.0 (skip-append p w r all.1 stop)

pub skip-stops : (p : ℕ → Bool) (bs : Bytes) → starts_with p (skip p bs) ≡ false
unfolding skip
skip-stops p [] = refl
skip-stops p (c ∷ cs) = elim (Bool-cases (p c)) [ inl e ↦ rw e (skip-stops p cs) | inr e ↦ rw e e ]

digits-split : (bs r : Bytes) → digits bs ≡ some r → (ds : Bytes) × IsDigits ds × (bs ≡ ds ++ r)
unfolding digits skip
digits-split [] r h = cc
digits-split (c ∷ cs) r h =
    let (e, eq) = if-eq-some (is_digit c) _ r h in
    let (ds, all, split) = skip-split is_digit cs in
    let same = some-injective _ r (rw e at eq) in (c ∷ ds, ((λ p. cc), (e, all)), cc)

digits-append :
    (ds r : Bytes) → IsDigits ds → starts_with is_digit r ≡ false → digits (ds ++ r) ≡ some r
unfolding digits
digits-append [] r h stop = absurd (h.0 refl)
digits-append (d ∷ ds) r h stop = rw h.1.0 (ap some (skip-append is_digit (d ∷ ds) r h.1 stop))

pub skip_minus-split : (bs : Bytes) → (m : Bool) × (bs ≡ print_minus m ++ skip_minus bs)
unfolding skip_minus
skip_minus-split [] = (false, refl)
skip_minus-split (c ∷ cs) = elim (Bool-cases (c == b'-')) [
  | inl e ↦ (true, rw e (ground arith))
  | inr e ↦ (false, rw e refl)
]

pub skip_minus-append :
    (m : Bool) (bs : Bytes)
    → starts_with (λ c. c == b'-') bs ≡ false
    → skip_minus (print_minus m ++ bs) ≡ bs
unfolding skip_minus
skip_minus-append true bs h = refl
skip_minus-append false [] h = refl
skip_minus-append false (c ∷ bs) h = rw h refl

pub integer-split :
    (bs r : Bytes) → integer bs ≡ some r → (ds : Bytes) × IsWhole ds × (bs ≡ ds ++ r)
unfolding integer skip
integer-split [] r h = cc
integer-split (c ∷ cs) r h = elim (Bool-cases (c == b'0')) [
  | inl e ↦ (let same = some-injective _ r (rw e at h) in (c ∷ [], inl (ground arith, refl), cc))
  | inr e ↦
      (let (d, eq) = if-eq-some (leb b'1' c && leb c b'9') _ r (rw e at h) in
        let (ds, all, split) = skip-split is_digit cs in
        let digit : is_digit c ≡ true = ground arith in
        let same = some-injective _ r (rw digit at eq) in (c ∷ ds, inr (d, all), cc))
]

pub integer-append :
    (ds r : Bytes) → IsWhole ds → starts_with is_digit r ≡ false → integer (ds ++ r) ≡ some r
unfolding integer skip
integer-append [] r h stop = absurd h
integer-append (d ∷ ds) r (inl (e, none_left)) stop = rw (e, none_left) refl
integer-append (d ∷ ds) r (inr (e, all)) stop =
    let digit : is_digit d ≡ true = ground arith in
    let more : (d == b'0') ≡ false = ground arith in
    rw (more, e, digit) (ap some (skip-append is_digit ds r all stop))

pub fraction-split :
    (bs r : Bytes)
    → fraction bs ≡ some r
    → (f : Option Bytes) × IsFraction f × (bs ≡ print_fraction f ++ r)
unfolding fraction
fraction-split [] r h = (none, tt, some-injective [] r h)
fraction-split (c ∷ cs) r h = elim (Bool-cases (c == b'.')) [
  | inl e ↦
      (let (ds, digits, split) = digits-split cs r (rw e at h) in (some ds, digits, ground arith))
  | inr e ↦ (none, tt, some-injective (c ∷ cs) r (rw e at h))
]

pub fraction-append :
    (f : Option Bytes) (r : Bytes)
    → IsFraction f
    → starts_with (λ c. is_digit c || c == b'.') r ≡ false
    → fraction (print_fraction f ++ r) ≡ some r
unfolding fraction
fraction-append none [] h stop = refl
fraction-append none (c ∷ r) h stop = ground arith
fraction-append (some ds) [] h stop = digits-append ds [] h refl
fraction-append (some ds) (c ∷ r) h stop = digits-append ds (c ∷ r) h (ground arith)

skip_sign-split : (bs : Bytes) → (s : Option ℕ) × IsSign s × (bs ≡ print_sign s ++ skip_sign bs)
unfolding skip_sign
skip_sign-split [] = (none, tt, refl)
skip_sign-split (c ∷ cs) = elim (Bool-cases (is_sign c)) [
  | inl e ↦ (some c, e, rw e refl)
  | inr e ↦ (none, tt, rw e refl)
]

skip_sign-append :
    (s : Option ℕ) (ds r : Bytes)
    → IsSign s
    → IsDigits ds
    → skip_sign (print_sign s ++ (ds ++ r)) ≡ ds ++ r
unfolding skip_sign
skip_sign-append none [] r h d = absurd (d.0 refl)
skip_sign-append none (c ∷ ds) r h d =
    let unsigned : is_sign c ≡ false = ground (arith, d.1.0) in rw unsigned refl
skip_sign-append (some c) ds r h d = rw h refl

pub exponent-split :
    (bs r : Bytes)
    → exponent bs ≡ some r
    → (e : Option Exponent) × IsExponent e
      × (bs ≡ print_exponent e ++ r)
      × (starts_with is_exponent bs ≡ has_exponent e)
unfolding exponent
exponent-split [] r h = (none, tt, some-injective [] r h, refl)
exponent-split (c ∷ cs) r h = elim (Bool-cases (is_exponent c)) [
  | inl e ↦
      (let (ds, digits, split) = digits-split (skip_sign cs) r (rw e at h) in
        let (s, sign, signed) = skip_sign-split cs in
        (
          some (record { mark = c; sign = s; power = ds }),
          (e, sign, digits),
          rw append_assoc (ap (λ t. c ∷ t) (signed ∙ ap (λ t. print_sign s ++ t) split)),
          e,
        ))
  | inr e ↦ (none, tt, some-injective (c ∷ cs) r (rw e at h), e)
]

pub exponent-append :
    (e : Option Exponent) (r : Bytes)
    → IsExponent e
    → starts_with (λ c. is_digit c || is_exponent c) r ≡ false
    → exponent (print_exponent e ++ r) ≡ some r
unfolding exponent
exponent-append none [] h stop = refl
exponent-append none (c ∷ r) h stop = ground arith
exponent-append (some e) r (mark, sign, power) stop =
    rw (mark, append_assoc, skip_sign-append e.sign e.power r sign power)
      (digits-append e.power r power (no_digit r stop))
  where
    no_digit :
        (r : Bytes)
        → starts_with (λ c. is_digit c || is_exponent c) r ≡ false
        → starts_with is_digit r ≡ false
    no_digit [] stop = refl
    no_digit (c ∷ r) stop = ground arith
