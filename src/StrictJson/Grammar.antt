-- ===== src/StrictJson/Grammar.antt =====
-- JSON (RFC 8259) with its white space, as trees: what the scanner of strictjson/strictjson.go is to
-- read. Nothing here computes with the scanner.
use lattice_sdk.Common.{
  ℕ, ◌≤◌, ◌≡◌, ◌≢◌, ◌⊎◌, Bool, true, false, ◌&&◌, Option, none, some, List, [], ◌∷◌, ◌++◌, length,
  All, leb, ltb, ◌||◌, ◌==◌,
}
use lattice_sdk.StrictJson.Lexer.{Bytes}

-- The bytes that the grammar names.
abbrev pub space_byte : ℕ → Bool
space_byte c = c == b' ' || c == b'\t' || c == b'\n' || c == b'\r'

abbrev pub digit_byte : ℕ → Bool
digit_byte c = leb b'0' c && leb c b'9'

abbrev pub exponent_byte : ℕ → Bool
exponent_byte c = c == b'e' || c == b'E'

abbrev pub sign_byte : ℕ → Bool
sign_byte c = c == b'+' || c == b'-'

abbrev pub hex_byte : ℕ → Bool
hex_byte c = (leb b'0' c && leb c b'9') || (leb b'a' c && leb c b'f') || (leb b'A' c && leb c b'F')

abbrev pub escape_byte : ℕ → Bool
escape_byte c =
    c == b'"'
    || c == b'\\'
    || c == b'/'
    || c == b'b'
    || c == b'f'
    || c == b'n'
    || c == b'r'
    || c == b't'

abbrev pub IsSpace : Bytes → Type 0
IsSpace = All (λ c. space_byte c ≡ true)

abbrev pub AreDigits : Bytes → Type 0
AreDigits ds = All (λ c. digit_byte c ≡ true) ds

pub record Exponent : Type 0 where
  pub mark : ℕ
  pub sign : Option ℕ
  pub power : Bytes

pub record Number : Type 0 where
  pub minus : Bool
  pub whole : Bytes
  pub fraction : Option Bytes
  pub exponent : Option Exponent

abbrev pub print_minus : Bool → Bytes
print_minus true = b'-' ∷ []
print_minus false = []

abbrev pub print_fraction : Option Bytes → Bytes
print_fraction none = []
print_fraction (some ds) = b'.' ∷ ds

abbrev pub print_sign : Option ℕ → Bytes
print_sign none = []
print_sign (some c) = c ∷ []

abbrev pub print_exponent : Option Exponent → Bytes
print_exponent none = []
print_exponent (some e) = e.mark ∷ print_sign e.sign ++ e.power

abbrev pub print_number : Number → Bytes
print_number n =
    print_minus n.minus ++ (n.whole ++ (print_fraction n.fraction ++ print_exponent n.exponent))

-- 0, or digits of which the first is not 0.
abbrev pub IsWhole : Bytes → Type 0
IsWhole [] = ⊥
IsWhole (d ∷ ds) = ((d ≡ b'0') × (ds ≡ [])) ⊎ ((leb b'1' d && leb d b'9' ≡ true) × AreDigits ds)

abbrev pub IsDigits : Bytes → Type 0
IsDigits ds = (ds ≢ []) × AreDigits ds

abbrev pub IsFraction : Option Bytes → Type 0
IsFraction none = Unit
IsFraction (some ds) = IsDigits ds

abbrev pub IsSign : Option ℕ → Type 0
IsSign none = Unit
IsSign (some c) = sign_byte c ≡ true

abbrev pub IsExponent : Option Exponent → Type 0
IsExponent none = Unit
IsExponent (some e) = (exponent_byte e.mark ≡ true) × IsSign e.sign × IsDigits e.power

abbrev pub has_exponent : Option Exponent → Bool
has_exponent none = false
has_exponent (some e) = true

-- A character of a string, as it is written.
pub data Char : Type 0 where
  char : ℕ → Char
  escape : ℕ → Char
  unicode : Bytes → Char

abbrev pub print_char : Char → Bytes
print_char (char c) = c ∷ []
print_char (escape c) = b'\\' ∷ c ∷ []
print_char (unicode hs) = b'\\' ∷ b'u' ∷ hs

abbrev pub IsChar : Char → Type 0
IsChar (char c) = (c ≢ b'"') × (c ≢ b'\\') × (0x20 ≤ c)
IsChar (escape c) = escape_byte c ≡ true
IsChar (unicode hs) = (length hs ≡ 4) × All (λ h. hex_byte h ≡ true) hs

abbrev pub print_chars : List Char → Bytes
print_chars [] = []
print_chars (c ∷ cs) = print_char c ++ print_chars cs

abbrev pub is_ascii_char : Char → Bool
is_ascii_char (char c) = ltb c 0x80
is_ascii_char (escape c) = false
is_ascii_char (unicode hs) = false

-- Whether the characters are their own decoded form.
abbrev pub is_ascii : List Char → Bool
is_ascii [] = true
is_ascii (c ∷ cs) = is_ascii_char c && is_ascii cs

abbrev pub quoted : List Char → Bytes
quoted cs = b'"' ∷ print_chars cs ++ b'"' ∷ []

mutual
  pub data Value : Type 0 where
    true_literal false_literal null_literal : Value
    number : Number → Value
    string : List Char → Value
    -- The space after the opening bracket, and what follows it.
    empty_array empty_object : Bytes → Value
    array : Bytes → Items → Value
    object : Bytes → Members → Value

  -- A value and the space after it.
  pub data Items : Type 0 where
    item : Value → Bytes → MoreItems → Items

  -- The space after a comma.
  pub data MoreItems : Type 0 where
    end_array : MoreItems
    next_item : Bytes → Items → MoreItems

  -- A key, the spaces on the two sides of the colon, a value and the space after it.
  pub data Members : Type 0 where
    member : List Char → Bytes → Bytes → Value → Bytes → MoreMembers → Members

  pub data MoreMembers : Type 0 where
    end_object : MoreMembers
    next_member : Bytes → Members → MoreMembers
