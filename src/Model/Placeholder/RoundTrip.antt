-- ===== src/Model/Placeholder/RoundTrip.antt =====
-- model/selection_plan.go: `ParsePlanPlaceholder` reads what `NewPlanPlaceholder` makes.
use lattice_sdk.Common.{
  ℕ, zero, suc, ◌-◌, ◌*◌, ◌/◌, ◌%◌, ◌≤◌, ◌<◌, ◌≡◌, refl, ap, subst, inl, inr, Bool, true, false,
  ◌&&◌, some, List, [], ◌∷◌, ◌++◌, length, length-append, drop, ltb, leb, ◌==◌, Bool-cases, ok,
  guard-eq-ok, ok-injective, All, arith,
}
use lattice_sdk.Common.Bytes.{IsByte, byte_at, take-append}
use lattice_sdk.Model.Placeholder.{
  line_uuid, field_name, plan_placeholder_prefix, is_hex, is_uuidv4, plan_placeholder_field,
  field_chars, all_hex, hex_digit, encode_to_string, new_plan_placeholder, split_rest,
  split_placeholder_body, cut_prefix, parse_plan_placeholder,
}

byte_at-append : (n : ℕ) (xs ys : List ℕ) (y : ℕ) → length xs ≡ n → byte_at n (xs ++ (y ∷ ys)) ≡ y
byte_at-append zero [] ys y h = refl
byte_at-append zero (x ∷ xs) ys y h = absurd (omega arith)
byte_at-append (suc n) [] ys y h = absurd (omega arith)
byte_at-append (suc n) (x ∷ xs) ys y h = byte_at-append n xs ys y (omega arith)

drop-append_suc :
    (n : ℕ) (xs ys : List ℕ) (y : ℕ) → length xs ≡ n → drop (suc n) (xs ++ (y ∷ ys)) ≡ ys
drop-append_suc zero [] ys y h = refl
drop-append_suc zero (x ∷ xs) ys y h = absurd (omega arith)
drop-append_suc (suc n) [] ys y h = absurd (omega arith)
drop-append_suc (suc n) (x ∷ xs) ys y h = drop-append_suc n xs ys y (omega arith)

is_hex-hex_digit : (d : ℕ) → d < 16 → is_hex (hex_digit d) ≡ true
is_hex-hex_digit d h = ground arith

all_hex-encode_to_string : (bs : List ℕ) → All IsByte bs → all_hex (encode_to_string bs) ≡ true
unfolding all_hex encode_to_string
all_hex-encode_to_string [] v = refl
all_hex-encode_to_string (b ∷ bs) (h, v) =
    rw (is_hex-hex_digit (b / 16) (omega arith), is_hex-hex_digit (b % 16) (omega arith))
      (all_hex-encode_to_string bs v)

length-encode_to_string : (bs : List ℕ) → length (encode_to_string bs) ≡ length bs * 2
unfolding encode_to_string
length-encode_to_string [] = refl
length-encode_to_string (b ∷ bs) = omega (arith, length-encode_to_string bs)

cut_prefix-append : (ps s : List ℕ) → cut_prefix (ps ++ s) ps ≡ some s
unfolding cut_prefix
cut_prefix-append [] [] = refl
cut_prefix-append [] (c ∷ cs) = refl
cut_prefix-append (p ∷ ps) s =
    let self : (p == p) ≡ true = ground arith in rw self (cut_prefix-append ps s)

is_uuidv4-length : (s : List ℕ) → is_uuidv4 s ≡ true → length s ≡ 36
unfolding is_uuidv4
is_uuidv4-length s h = elim (Bool-cases (length s == 36)) [
  | inl e ↦ ground arith
  | inr e ↦ let bad : false ≡ true = rw (is_uuidv4, e) at h in cc
]

field_chars-positive : (s : List ℕ) → field_chars s ≡ true → 0 < length s
unfolding field_chars
field_chars-positive [] h = cc
field_chars-positive (c ∷ cs) h = omega arith

module _ (field hex : List ℕ) (chars : field_chars field ≡ true) (short : length field ≤ 32)
    (hexed : all_hex hex ≡ true) where
  split_rest-some : split_rest (length field) (field ++ (b'-' ∷ hex)) ≡ some field
  unfolding split_rest
  split_rest-some =
      let some_field = field_chars-positive field chars in
      let wide : ltb (length field) 1 ≡ false = ground arith in
      let narrow : ltb 32 (length field) ≡ false = ground arith in
      let hyphen : byte_at (length field) (field ++ (b'-' ∷ hex)) == b'-' ≡ true =
        ap (λ c. c == b'-') (byte_at-append (length field) field hex b'-' refl) in
      let front = take-append (length field) field (b'-' ∷ hex) refl in
      let behind = drop-append_suc (length field) field hex b'-' refl in
      rw (wide, narrow, hyphen, front, behind, chars, hexed)

  split_placeholder_body-some :
      (line : List ℕ)
      → is_uuidv4 line ≡ true
      → length hex ≡ 32
      → split_placeholder_body (line ++ (b'-' ∷ (field ++ (b'-' ∷ hex)))) ≡ some (line, field)
  unfolding split_placeholder_body
  split_placeholder_body-some line uuid long =
      let rest = field ++ (b'-' ∷ hex) in
      let body = line ++ (b'-' ∷ rest) in
      let width = is_uuidv4-length line uuid in
      let some_field = field_chars-positive field chars in
      let sum = length-append field (b'-' ∷ hex) in
      let total : ltb (length body) 71 ≡ false =
        ground (arith, length-append line (b'-' ∷ rest), sum) in
      let front = take-append 36 line (b'-' ∷ rest) width in
      let hyphen : byte_at 36 body == b'-' ≡ true =
        ap (λ c. c == b'-') (byte_at-append 36 line rest b'-' width) in
      let behind = drop-append_suc 36 line rest b'-' width in
      let n : length rest - 33 ≡ length field = omega arith in
      rw (total, front, uuid, hyphen, behind, n, split_rest-some) (ap (λ l. some (l, field)) front)

-- A placeholder made for a line and a field, with 16 random bytes, parses to that line and field.
pub parse-new_plan_placeholder :
    (line field random value : List ℕ)
    → length random ≡ 16
    → All IsByte random
    → new_plan_placeholder line field random ≡ ok value
    → parse_plan_placeholder value ≡ ok (line, field)
unfolding new_plan_placeholder parse_plan_placeholder
parse-new_plan_placeholder line field random value long bytes e =
    let (uuid, e1) = guard-eq-ok (is_uuidv4 line) line_uuid _ value e in
    let (named, e2) = guard-eq-ok (plan_placeholder_field field) field_name _ value e1 in
    let (short, chars) = both (leb (length field) 32) (field_chars field) named in
    let hex = encode_to_string random in
    let body = line ++ (b'-' ∷ (field ++ (b'-' ∷ hex))) in
    let parts =
      split_placeholder_body-some field hex chars (ground arith)
        (all_hex-encode_to_string random bytes) line uuid
        (omega (arith, length-encode_to_string random)) in
    let made = ok-injective (plan_placeholder_prefix ++ body) value e2 in
    subst (λ v. parse_plan_placeholder v ≡ ok (line, field)) made
      (rw (parse_plan_placeholder, cut_prefix-append plan_placeholder_prefix body, parts))
  where
    both : (a b : Bool) → (a && b) ≡ true → (a ≡ true) × (b ≡ true)
    both true b e = (refl, e)
    both false b e = cc
