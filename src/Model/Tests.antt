-- ===== src/Model/Tests.antt =====
-- The data contracts at concrete inputs.
use lattice_sdk.Common.{ℕ, ◌<◌, ◌≡◌, refl, List, [], ◌∷◌, ◌++◌, replicate, ok, All, arith}
use lattice_sdk.Model.StatusSet.{MonitorStatusSet}
use lattice_sdk.Model.Placeholder.{
  plan_placeholder_prefix, uuid_from, is_uuidv4, all_field, field_chars, encode_to_string,
  new_plan_placeholder, parse_plan_placeholder,
}
use lattice_sdk.Model.Placeholder.RoundTrip.{parse-new_plan_placeholder}

-- "300-310, 200,201-299 ".
abbrev status_list : List ℕ
status_list =
    b'3' ∷ b'0' ∷ b'0' ∷ b'-' ∷ b'3' ∷ b'1' ∷ b'0' ∷ b',' ∷ b' ' ∷ b'2' ∷ b'0' ∷ b'0' ∷ b',' ∷ b'2'
    ∷ b'0' ∷ b'1' ∷ b'-' ∷ b'2' ∷ b'9' ∷ b'9' ∷ b' ' ∷ []

abbrev status_set : MonitorStatusSet
status_set = record { lo = 200; hi = 310 } ∷ []

-- "01234567-89ab-4cde-8f01-23456789abcd".
abbrev line : List ℕ
line =
    b'0' ∷ b'1' ∷ b'2' ∷ b'3' ∷ b'4' ∷ b'5' ∷ b'6' ∷ b'7' ∷ b'-' ∷ b'8' ∷ b'9' ∷ b'a' ∷ b'b' ∷ b'-'
    ∷ b'4' ∷ b'c' ∷ b'd' ∷ b'e' ∷ b'-' ∷ b'8' ∷ b'f' ∷ b'0' ∷ b'1' ∷ b'-' ∷ b'2' ∷ b'3' ∷ b'4'
    ∷ b'5' ∷ b'6' ∷ b'7' ∷ b'8' ∷ b'9' ∷ b'a' ∷ b'b' ∷ b'c' ∷ b'd' ∷ []

abbrev field : List ℕ
field = b'p' ∷ b'w' ∷ b'_' ∷ b'2' ∷ []

abbrev random : List ℕ
random = 3 ∷ 171 ∷ replicate 14 255

abbrev placeholder : List ℕ
placeholder =
    plan_placeholder_prefix ++ (line ++ (b'-' ∷ (field ++ (b'-' ∷ encode_to_string random))))

placeholder_made : new_plan_placeholder line field random ≡ ok placeholder
unfolding new_plan_placeholder is_uuidv4 uuid_from field_chars all_field
placeholder_made = refl

random-IsByte : All (λ (b : ℕ). b < 256) random
random-IsByte = (
  omega arith,
  (
    omega arith,
    (
      omega arith,
      (
        omega arith,
        (
          omega arith,
          (
            omega arith,
            (
              omega arith,
              (
                omega arith,
                (
                  omega arith,
                  (
                    omega arith,
                    (
                      omega arith,
                      (omega arith, (omega arith, (omega arith, (omega arith, (omega arith, tt))))),
                    ),
                  ),
                ),
              ),
            ),
          ),
        ),
      ),
    ),
  ),
)

parse-new_plan_placeholder_example : parse_plan_placeholder placeholder ≡ ok (line, field)
parse-new_plan_placeholder_example =
    parse-new_plan_placeholder line field random placeholder refl random-IsByte placeholder_made
