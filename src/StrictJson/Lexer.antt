-- ===== src/StrictJson/Lexer.antt =====
-- strictjson/strictjson.go: the tokens that the scanner reads. The scanner's position stands as the
-- bytes that follow it, `data[pos:]`: each function takes them and gives what is left.
pub mod NumberParts
pub mod Numbers
pub mod Strings
use lattice_sdk.Common.{
  ℕ, zero, suc, ◌-◌, Bool, true, false, not, ◌&&◌, ◌||◌, Option, none, some, List, [], ◌∷◌, ◌++◌,
  length, take, ltb, leb, ◌==◌, if◌then◌else◌,
}
use lattice_sdk.Common.Options.{◌>>=◌}

abbrev pub Bytes : Type 0
Bytes = List ℕ

-- `data[start:pos]`, from what stood before each of the two positions.
abbrev pub between : Bytes → Bytes → Bytes
between start pos = take (length start - length pos) start

abbrev pub starts_with : (ℕ → Bool) → Bytes → Bool
starts_with p [] = false
starts_with p (c ∷ cs) = p c

abbrev pub is_space : ℕ → Bool
is_space c = c == b' ' || c == b'\t' || c == b'\n' || c == b'\r'

-- The bytes from the first one that fails the test: the loops of `space` and `digits`.
unfoldable pub skip : (ℕ → Bool) → Bytes → Bytes
skip p [] = []
skip p (c ∷ cs) = if p c then skip p cs else c ∷ cs

abbrev pub skip_space : Bytes → Bytes
skip_space = skip is_space

unfoldable pub literal : Bytes → Bytes → Option Bytes
literal [] bs = some bs
literal (w ∷ word) [] = none
literal (w ∷ word) (b ∷ bs) = if b == w then literal word bs else none

abbrev pub is_digit : ℕ → Bool
is_digit c = leb b'0' c && leb c b'9'

abbrev pub skip_digits : Bytes → Bytes
skip_digits = skip is_digit

-- `none` is the answer false.
unfoldable pub digits : Bytes → Option Bytes
digits bs = if starts_with is_digit bs then some (skip_digits bs) else none

unfoldable pub skip_minus : Bytes → Bytes
skip_minus [] = []
skip_minus (c ∷ cs) = if c == b'-' then cs else c ∷ cs

unfoldable pub integer : Bytes → Option Bytes
integer [] = none
integer (c ∷ cs) =
    if c == b'0'
    then some cs
    else if leb b'1' c && leb c b'9'
    then some (skip_digits (c ∷ cs))
    else none

unfoldable pub fraction : Bytes → Option Bytes
fraction [] = some []
fraction (c ∷ cs) = if c == b'.' then digits cs else some (c ∷ cs)

abbrev pub is_exponent : ℕ → Bool
is_exponent c = c == b'e' || c == b'E'

abbrev pub is_sign : ℕ → Bool
is_sign c = c == b'+' || c == b'-'

unfoldable pub skip_sign : Bytes → Bytes
skip_sign [] = []
skip_sign (c ∷ cs) = if is_sign c then cs else c ∷ cs

unfoldable pub exponent : Bytes → Option Bytes
exponent [] = some []
exponent (c ∷ cs) = if is_exponent c then digits (skip_sign cs) else some (c ∷ cs)

-- The test on a number that has an exponent, or more than fifteen bytes. `parse_float` is whether
-- `strconv.ParseFloat` reads the text without an error.
unfoldable pub float_test : (Bytes → Bool) → Bool → Bytes → Bool
float_test parse_float exponent text = not (exponent || ltb 15 (length text)) || parse_float text

unfoldable pub number : (Bytes → Bool) → Bytes → Option Bytes
number parse_float bs = do
  r1 ← integer (skip_minus bs)
  r2 ← fraction r1
  r3 ← exponent r2
  if float_test parse_float (starts_with is_exponent r2) (between bs r3) then some r3 else none

abbrev pub is_hex : ℕ → Bool
is_hex c = (leb b'0' c && leb c b'9') || (leb b'a' c && leb c b'f') || (leb b'A' c && leb c b'F')

abbrev pub is_escape : ℕ → Bool
is_escape c =
    c == b'"'
    || c == b'\\'
    || c == b'/'
    || c == b'b'
    || c == b'f'
    || c == b'n'
    || c == b'r'
    || c == b't'

-- What `str` answers: the bytes between the quotes, whether they are their decoded form, and what
-- follows the closing quote.
pub record Lexeme : Type 0 where
  pub contents : Bytes
  pub plain : Bool
  pub rest : Bytes

abbrev pub prepend : Bytes → Bool → Option Lexeme → Option Lexeme
prepend bs plain none = none
prepend bs plain (some l) =
    some (record l { contents = bs ++ l.contents; plain = plain && l.plain })

-- The loop of `str` after the opening quote. The first argument is how many hexadecimal digits of
-- a `\u` are still to come: they are read one by one.
unfoldable pub str_from : ℕ → Bytes → Option Lexeme
str_from (suc k) [] = none
str_from (suc k) (c ∷ cs) =
    let rest = prepend (c ∷ []) false (str_from k cs) in if is_hex c then rest else none
str_from zero [] = none
str_from zero (c ∷ []) =
    if c == b'"' then some (record { contents = []; plain = true; rest = [] }) else none
str_from zero (c ∷ d ∷ cs) =
    let char = prepend (c ∷ []) (ltb c 0x80) (str_from zero (d ∷ cs)) in
    let escape = prepend (c ∷ d ∷ []) false (str_from zero cs) in
    let unicode = prepend (c ∷ d ∷ []) false (str_from 4 cs) in
    if c == b'"'
    then some (record { contents = []; plain = true; rest = d ∷ cs })
    else if c == b'\\'
    then (if is_escape d then escape else if d == b'u' then unicode else none)
    else if ltb c 0x20
    then none
    else char

unfoldable pub str : Bytes → Option Lexeme
str bs = str_from zero bs
