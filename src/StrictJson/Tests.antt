-- ===== src/StrictJson/Tests.antt =====
-- The strict JSON scanner at concrete inputs.
use lattice_sdk.Common.{
  ◌≡◌, ◌↔◌, ◌++◌, refl, Bool, true, false, Option, none, some, List, [], ◌∷◌, All, inl, inr, arith,
}
use lattice_sdk.Common.Bytes.{bytes_eq}
use lattice_sdk.StrictJson.Lexer.{
  Bytes, skip, str, str_from, number, integer, digits, exponent, float_test, fraction, literal,
  skip_minus, skip_sign,
}
use lattice_sdk.StrictJson.Grammar.{Value, Char, IsChar, quoted}
use lattice_sdk.StrictJson.Trees.{print, IsValue}
use lattice_sdk.StrictJson.Scanner.{
  Field, valid, fields, elements, compact, document, value, dispatch, enter, entered, read_key,
  decode_key, add_key, add_seen, add_linear, has_key, collect_element, collect_field, next,
}
use lattice_sdk.StrictJson.Scanner.After.{has_space}
use lattice_sdk.StrictJson.Unquote.{string}
use lattice_sdk.StrictJson.Unquote.Literals.{string_iff}
use lattice_sdk.StrictJson.Unquote.Written.{Written, plain, escaped, write_all, utf8, IsWritten}
use lattice_sdk.StrictJson.Unquote.Texts.{string-utf8}
use lattice_sdk.StrictJson.Documents.{
  IsDocument, members_of, elements_of, fields_iff, elements_iff, compact_iff,
}

-- Stand-ins for `strconv.ParseFloat` and `json.Unmarshal`: every number fits, and no key that has
-- an escape decodes.
abbrev fits : Bytes → Bool
fits text = true

abbrev refuses : Bytes → Option Bytes
refuses quoted = none

-- {"a": [1,-2.5e3] }
abbrev sample : Bytes
sample =
    b'{' ∷ b'"' ∷ b'a' ∷ b'"' ∷ b':' ∷ b' ' ∷ b'[' ∷ b'1' ∷ b',' ∷ b'-' ∷ b'2' ∷ b'.' ∷ b'5' ∷ b'e'
    ∷ b'3' ∷ b']' ∷ b' ' ∷ b'}' ∷ []

-- {"a":1,"a":2}
abbrev twice : Bytes
twice =
    b'{' ∷ b'"' ∷ b'a' ∷ b'"' ∷ b':' ∷ b'1' ∷ b',' ∷ b'"' ∷ b'a' ∷ b'"' ∷ b':' ∷ b'2' ∷ b'}' ∷ []

-- [01]
abbrev padded : Bytes
padded = b'[' ∷ b'0' ∷ b'1' ∷ b']' ∷ []

abbrev array_text : Bytes
array_text = b'[' ∷ b'1' ∷ b' ' ∷ b',' ∷ b'"' ∷ b'x' ∷ b'"' ∷ b']' ∷ b'\n' ∷ []

sample_valid : valid fits refuses sample ≡ true
unfolding valid document value dispatch skip enter entered read_key str str_from decode_key add_key
    add_seen add_linear has_key number integer bytes_eq digits exponent float_test fraction literal
    skip_minus skip_sign collect_element collect_field next
sample_valid = refl

twice_refused : valid fits refuses twice ≡ false
unfolding valid document value dispatch skip enter entered read_key str str_from decode_key add_key
    add_seen add_linear has_key number integer bytes_eq digits exponent float_test fraction literal
    skip_minus skip_sign collect_element collect_field next
twice_refused = refl

padded_refused : valid fits refuses padded ≡ false
unfolding valid document value dispatch skip enter entered read_key str str_from decode_key add_key
    add_seen add_linear has_key number integer bytes_eq digits exponent float_test fraction literal
    skip_minus skip_sign collect_element collect_field next
padded_refused = refl

abbrev sample_fields : List Field
sample_fields =
    (record {
      key = b'a' ∷ [];
      value = b'[' ∷ b'1' ∷ b',' ∷ b'-' ∷ b'2' ∷ b'.' ∷ b'5' ∷ b'e' ∷ b'3' ∷ b']' ∷ [];
    })
    ∷ []

sample_members : fields fits refuses sample ≡ some sample_fields
unfolding fields document value dispatch skip enter entered read_key str str_from decode_key add_key
    add_seen add_linear has_key number integer bytes_eq digits exponent float_test fraction literal
    skip_minus skip_sign collect_element collect_field next
sample_members = refl

fields_iff_example : (fields fits refuses sample ≡ some sample_fields) ↔ (
    (t : Value) × IsDocument fits refuses sample t
    × (members_of fits refuses t ≡ some sample_fields))
fields_iff_example = fields_iff fits refuses sample sample_fields

elements_iff_example :
    (elements fits refuses array_text ≡ some ((b'1' ∷ []) ∷ (b'"' ∷ b'x' ∷ b'"' ∷ []) ∷ [])) ↔ (
      (t : Value) × IsDocument fits refuses array_text t
      × (elements_of fits refuses t ≡ some ((b'1' ∷ []) ∷ (b'"' ∷ b'x' ∷ b'"' ∷ []) ∷ [])))
elements_iff_example =
    elements_iff fits refuses array_text ((b'1' ∷ []) ∷ (b'"' ∷ b'x' ∷ b'"' ∷ []) ∷ [])

compact_iff_example :
    (compact fits refuses sample ≡ true)
    ↔ ((t : Value) × (sample ≡ print t) × IsValue fits refuses 0 t × (has_space t ≡ false))
compact_iff_example = compact_iff fits refuses sample

string_iff_example :
    ((out : Bytes) × (string (b'"' ∷ b'\\' ∷ b'n' ∷ b'"' ∷ []) ≡ some out))
    ↔ ((cs : List Char) × All IsChar cs × (b'"' ∷ b'\\' ∷ b'n' ∷ b'"' ∷ [] ≡ quoted cs))
string_iff_example = string_iff (b'"' ∷ b'\\' ∷ b'n' ∷ b'"' ∷ [])

-- The letter a, an e with an acute accent, and an emoji as a surrogate pair.
abbrev three_runes : List Written
three_runes = plain b'a' ∷ plain 0xe9 ∷ escaped 0x1f600 ∷ []

three_runes-written : All IsWritten three_runes
three_runes-written = (
  ((omega arith, inl (omega arith)), omega arith, omega arith, omega arith),
  (
    ((omega arith, inl (omega arith)), omega arith, omega arith, omega arith),
    ((omega arith, inr (omega arith)), tt),
  ),
)

string-utf8_example : string (b'"' ∷ write_all three_runes ++ b'"' ∷ []) ≡ some (utf8 three_runes)
string-utf8_example = string-utf8 three_runes three_runes-written
