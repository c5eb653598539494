-- ===== src/Model/Placeholder.antt =====
-- model/selection_plan.go: the placeholders of a selection plan, and `isUUIDv4` of
-- model/subscription_source_manifest.go. A string is the list of its bytes.
pub mod RoundTrip
use lattice_sdk.Common.{
  ℕ, zero, suc, ◌+◌, ◌-◌, ◌/◌, ◌%◌, Bool, true, false, ◌||◌, ◌&&◌, not, Option, none, some, List,
  [], ◌∷◌, ◌++◌, length, take, drop, ltb, leb, ◌==◌, if◌then◌else◌, Result, ok, err,
}
use lattice_sdk.Common.Bytes.{byte_at}
use lattice_sdk.Common.Runes.{is_digit}

-- "LATTICE-SYN-".
abbrev pub plan_placeholder_prefix : List ℕ
plan_placeholder_prefix =
    b'L' ∷ b'A' ∷ b'T' ∷ b'T' ∷ b'I' ∷ b'C' ∷ b'E' ∷ b'-' ∷ b'S' ∷ b'Y' ∷ b'N' ∷ b'-' ∷ []

abbrev pub max_plan_placeholder_field_bytes : ℕ
max_plan_placeholder_field_bytes = 32

pub data PlaceholderError : Type 0 where
  line_uuid field_name not_a_placeholder malformed : PlaceholderError

abbrev pub is_lower : ℕ → Bool
is_lower c = leb b'a' c && leb c b'z'

abbrev pub is_hex : ℕ → Bool
is_hex c = is_digit c || (leb b'a' c && leb c b'f')

-- The `switch` of `isUUIDv4` on the byte at an index.
abbrev pub uuid_byte : ℕ → ℕ → Bool
uuid_byte i c =
    if i == 8 || i == 13 || i == 18 || i == 23
    then c == b'-'
    else if i == 14
    then c == b'4'
    else if i == 19
    then c == b'8' || c == b'9' || c == b'a' || c == b'b'
    else is_hex c

-- Its loop, from an index on.
unfoldable pub uuid_from : ℕ → List ℕ → Bool
uuid_from i [] = true
uuid_from i (c ∷ cs) = uuid_byte i c && uuid_from (suc i) cs

unfoldable pub is_uuidv4 : List ℕ → Bool
is_uuidv4 s = length s == 36 && uuid_from 0 s

-- `[a-z0-9_]*`, the loop over the rest of a field.
unfoldable pub all_field : List ℕ → Bool
all_field [] = true
all_field (c ∷ cs) = (is_lower c || is_digit c || c == b'_') && all_field cs

-- `[a-z][a-z0-9_]*`.
unfoldable pub field_chars : List ℕ → Bool
field_chars [] = false
field_chars (c ∷ cs) = is_lower c && all_field cs

-- `planPlaceholderField`.
abbrev pub plan_placeholder_field : List ℕ → Bool
plan_placeholder_field field =
    leb (length field) max_plan_placeholder_field_bytes && field_chars field

unfoldable pub all_hex : List ℕ → Bool
all_hex [] = true
all_hex (c ∷ cs) = is_hex c && all_hex cs

-- `hex.EncodeToString`.
abbrev pub hex_digit : ℕ → ℕ
hex_digit d = if ltb d 10 then b'0' + d else b'a' + (d - 10)

unfoldable pub encode_to_string : List ℕ → List ℕ
encode_to_string [] = []
encode_to_string (b ∷ bs) = hex_digit (b / 16) ∷ hex_digit (b % 16) ∷ encode_to_string bs

-- `NewPlanPlaceholder`, with the 16 bytes that crypto/rand gives.
unfoldable pub new_plan_placeholder : List ℕ → List ℕ → List ℕ → Result PlaceholderError (List ℕ)
new_plan_placeholder line field random =
    if not (is_uuidv4 line)
    then err line_uuid
    else if not (plan_placeholder_field field)
    then err field_name
    else ok
        (plan_placeholder_prefix ++ (line ++ (b'-' ∷ (field ++ (b'-' ∷ encode_to_string random)))))

-- `splitPlaceholderBody` behind the hyphen that follows the UUID, with the field's length `n`.
unfoldable pub split_rest : ℕ → List ℕ → Option (List ℕ)
split_rest n rest =
    if ltb n 1 || ltb max_plan_placeholder_field_bytes n || not (byte_at n rest == b'-')
    then none
    else if not (field_chars (take n rest))
    then none
    else if not (all_hex (drop (suc n) rest))
    then none
    else some (take n rest)

-- `splitPlaceholderBody`. The length test leaves room for what is taken off.
unfoldable pub split_placeholder_body : List ℕ → Option (List ℕ × List ℕ)
split_placeholder_body body =
    let rest = drop 37 body in
    let n = length rest - 33 in
    if ltb (length body) 71 || not (is_uuidv4 (take 36 body)) || not (byte_at 36 body == b'-')
    then none
    else elim (split_rest n rest) [ none ↦ none | some field ↦ some (take 36 body, field) ]

-- `strings.CutPrefix`.
unfoldable pub cut_prefix : List ℕ → List ℕ → Option (List ℕ)
cut_prefix s [] = some s
cut_prefix [] (p ∷ ps) = none
cut_prefix (c ∷ cs) (p ∷ ps) = let rest = cut_prefix cs ps in if c == p then rest else none

unfoldable pub parse_plan_placeholder : List ℕ → Result PlaceholderError (List ℕ × List ℕ)
parse_plan_placeholder value = elim (cut_prefix value plan_placeholder_prefix) [
  | none ↦ err not_a_placeholder
  | some body ↦ elim (split_placeholder_body body) [ none ↦ err malformed | some parts ↦ ok parts ]
]
