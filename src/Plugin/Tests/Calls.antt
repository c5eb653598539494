-- ===== src/Plugin/Tests/Calls.antt =====
-- plugin/frame_fast.go at a concrete call, and the ids of plugin/host.go.
use lattice_sdk.Common.{ℕ, ◌≡◌, refl, Option, some, none, true, false, [], ◌∷◌, Bool}
use lattice_sdk.Common.Bytes.{bytes_eq}
use lattice_sdk.StrictJson.Lexer.{
  Bytes, skip, str, str_from, number, integer, digits, exponent, float_test, fraction, literal,
  skip_minus, skip_sign,
}
use lattice_sdk.StrictJson.Unquote.{string_into, string, unquoted, decoded, unescape, round}
use lattice_sdk.StrictJson.Scanner
use lattice_sdk.StrictJson.Scanner.{
  document, value, dispatch, enter, entered, read_key, decode_key, add_key, add_seen, add_linear,
  has_key, collect_element, collect_field, next,
}
use lattice_sdk.Plugin.Frames.{
  call_payload_fast, all_known, CallPayload, strict_members, decode_members, decode_member,
  target_of, decode_into,
}
use lattice_sdk.Plugin.Ids.{
  valid_invocation_id, valid_host_call_id, is_canonical_int, is_canonical_call,
}
use lattice_sdk.Common.Int64.{slt}
use lattice_sdk.Common.Decimals.{parse_uint, parse_int, format_from, all_decimal, decimal_value}

-- Stand-ins for `strconv.ParseFloat`, `json.Unmarshal` of a key, and of a number.
abbrev fits : Bytes → Bool
fits number = true

abbrev refuses : Bytes → Option Bytes
refuses quoted = none

abbrev refuses_number : Bytes → ℕ → Option ℕ
refuses_number value old = none

-- {"method":"m","payload":[1]}
abbrev call_text : Bytes
call_text =
    b'{' ∷ b'"' ∷ b'm' ∷ b'e' ∷ b't' ∷ b'h' ∷ b'o' ∷ b'd' ∷ b'"' ∷ b':' ∷ b'"' ∷ b'm' ∷ b'"' ∷ b','
    ∷ b'"' ∷ b'p' ∷ b'a' ∷ b'y' ∷ b'l' ∷ b'o' ∷ b'a' ∷ b'd' ∷ b'"' ∷ b':' ∷ b'[' ∷ b'1' ∷ b']'
    ∷ b'}' ∷ []

abbrev sample_call : CallPayload
sample_call = record { service = []; method = b'm' ∷ []; payload = b'[' ∷ b'1' ∷ b']' ∷ [] }

call_text_decoded :
    call_payload_fast fits refuses refuses_number refuses_number call_text ≡ some sample_call
unfolding call_payload_fast strict_members all_known decode_members decode_member target_of
    decode_into Scanner.fields document value dispatch skip enter entered read_key str str_from
    decode_key add_key add_seen add_linear has_key number integer bytes_eq digits exponent
    float_test fraction literal skip_minus skip_sign collect_element collect_field next string_into
    string unquoted decoded unescape round
call_text_decoded = refl

-- 12 is an invocation's id; 012, +12 and 0 are none.
invocation_ids :
    (valid_invocation_id (b'1' ∷ b'2' ∷ []) ≡ true)
    × (valid_invocation_id (b'0' ∷ b'1' ∷ b'2' ∷ []) ≡ false)
    × (valid_invocation_id (b'+' ∷ b'1' ∷ b'2' ∷ []) ≡ false)
    × (valid_invocation_id (b'0' ∷ []) ≡ false)
unfolding valid_invocation_id is_canonical_int parse_int parse_uint all_decimal decimal_value
    format_from slt bytes_eq
invocation_ids = (refl, refl, refl, refl)

-- h7 is a host call's id; h and h07 are none.
host_call_ids :
    (valid_host_call_id (b'h' ∷ b'7' ∷ []) ≡ true)
    × (valid_host_call_id (b'h' ∷ []) ≡ false)
    × (valid_host_call_id (b'h' ∷ b'0' ∷ b'7' ∷ []) ≡ false)
unfolding valid_host_call_id is_canonical_call parse_uint all_decimal decimal_value format_from
    bytes_eq
host_call_ids = (refl, refl, refl)
