-- ===== src/StrictJson/Unquote.antt =====
-- strictjson/unquote.go: the string that a JSON string literal stands for, as UTF-8. What the code
-- calls of unicode/utf8 and unicode/utf16 is written out.
pub mod Rounds
pub mod Progress
pub mod Literals
pub mod Runes
pub mod Written
pub mod Texts
use lattice_sdk.Common.{
  ℕ, zero, suc, ◌+◌, ◌-◌, ◌*◌, ◌/◌, ◌%◌, Bool, true, false, not, ◌&&◌, ◌||◌, Option, none, some,
  List, [], ◌∷◌, ◌++◌, length, take, drop, ltb, leb, ◌==◌, if◌then◌else◌,
}
use lattice_sdk.Common.Bytes.{bytes_eq}
use lattice_sdk.Common.Options.{◌>>=◌}
use lattice_sdk.StrictJson.Lexer.{Bytes, between, starts_with, skip}

abbrev pub tail : Bytes → Bytes
tail [] = []
tail (c ∷ cs) = cs

-- U+FFFD in UTF-8.
abbrev pub rune_error : Bytes
rune_error = 0xef ∷ 0xbf ∷ 0xbd ∷ []

-- `utf8.AppendRune`, for a code point that is not a surrogate.
unfoldable pub append_rune : ℕ → Bytes
append_rune r =
    if ltb r 0x80
    then r ∷ []
    else if ltb r 0x800
    then (0xc0 + r / 64) ∷ (0x80 + r % 64) ∷ []
    else if ltb r 0x10000
    then (0xe0 + r / 4096) ∷ (0x80 + r / 64 % 64) ∷ (0x80 + r % 64) ∷ []
    else (0xf0 + r / 262144) ∷ (0x80 + r / 4096 % 64) ∷ (0x80 + r / 64 % 64) ∷ (0x80 + r % 64) ∷ []

abbrev pub between_bytes : ℕ → ℕ → ℕ → Bool
between_bytes lo hi c = leb lo c && leb c hi

-- Whether the second byte lies in a range and as many more continuation bytes follow.
unfoldable pub continues : ℕ → Bytes → Bool
continues zero bs = true
continues (suc n) [] = false
continues (suc n) (c ∷ bs) = between_bytes 0x80 0xbf c && continues n bs

abbrev pub continues_from : ℕ → ℕ → ℕ → Bytes → Bool
continues_from lo hi n bs = starts_with (between_bytes lo hi) bs && continues n (tail bs)

-- The size that `utf8.DecodeRune` gives at a byte outside ASCII, and 0 where it gives RuneError and 1.
unfoldable pub rune_size : Bytes → ℕ
rune_size [] = 0
rune_size (b ∷ bs) =
    if between_bytes 0xc2 0xdf b
    then (if continues 1 bs then 2 else 0)
    else if b == 0xe0
    then (if continues_from 0xa0 0xbf 1 bs then 3 else 0)
    else if b == 0xed
    then (if continues_from 0x80 0x9f 1 bs then 3 else 0)
    else if between_bytes 0xe1 0xef b
    then (if continues 2 bs then 3 else 0)
    else if b == 0xf0
    then (if continues_from 0x90 0xbf 2 bs then 4 else 0)
    else if between_bytes 0xf1 0xf3 b
    then (if continues 3 bs then 4 else 0)
    else if b == 0xf4
    then (if continues_from 0x80 0x8f 2 bs then 4 else 0)
    else 0

unfoldable pub hex_digit : ℕ → Option ℕ
hex_digit c =
    if between_bytes b'0' b'9' c
    then some (c - b'0')
    else if between_bytes b'a' b'f' c
    then some (c - b'a' + 10)
    else if between_bytes b'A' b'F' c
    then some (c - b'A' + 10)
    else none

-- The loop of `hex4`. Bytes that run out are the test on the length.
unfoldable pub hex_value : ℕ → ℕ → Bytes → Option ℕ
hex_value zero r bs = some r
hex_value (suc k) r [] = none
hex_value (suc k) r (c ∷ bs) = hex_digit c >>= λ d. hex_value k (r * 16 + d) bs

-- `none` is -1.
unfoldable pub hex4 : Bytes → Option ℕ
hex4 s =
    if starts_with (λ c. c == b'\\') s && starts_with (λ c. c == b'u') (tail s)
    then hex_value 4 0 (tail (tail s))
    else none

-- `utf16.IsSurrogate`.
abbrev pub is_surrogate : ℕ → Bool
is_surrogate r = leb 0xd800 r && ltb r 0xe000

-- Whether `utf16.DecodeRune` joins the two, and what to.
abbrev pub is_pair : ℕ → ℕ → Bool
is_pair r1 r2 = leb 0xd800 r1 && ltb r1 0xdc00 && leb 0xdc00 r2 && ltb r2 0xe000

abbrev pub joined : ℕ → ℕ → ℕ
joined r1 r2 = (r1 - 0xd800) * 1024 + (r2 - 0xdc00) + 0x10000

-- One round of the loop of `String`: what it writes, and what is left.
abbrev pub Round : Type 0
Round = Bytes × Bytes

unfoldable pub surrogate_round : ℕ → Bytes → Option ℕ → Round
surrogate_round r rest none = (rune_error, rest)
surrogate_round r rest (some r2) =
    if is_pair r r2 then (append_rune (joined r r2), drop 6 rest) else (rune_error, rest)

unfoldable pub unicode_round : ℕ → Bytes → Round
unicode_round r rest =
    if is_surrogate r then surrogate_round r rest (hex4 rest) else (append_rune r, rest)

-- The byte that a short escape stands for.
unfoldable pub short_escape : ℕ → Option ℕ
short_escape d =
    if d == b'"' || d == b'\\' || d == b'/'
    then some d
    else if d == b'b'
    then some 8
    else if d == b'f'
    then some 12
    else if d == b'n'
    then some 10
    else if d == b'r'
    then some 13
    else if d == b't'
    then some 9
    else none

unfoldable pub escape_with : Bytes → ℕ → Bytes → Option ℕ → Option Round
escape_with s d ds (some b) = some (b ∷ [], ds)
escape_with s d ds none =
    if d == b'u' then (hex4 s >>= λ r. some (unicode_round r (drop 6 s))) else none

-- After a backslash; `s` begins with it.
unfoldable pub escape_round : Bytes → Bytes → Option Round
escape_round s [] = none
escape_round s (d ∷ ds) = escape_with s d ds (short_escape d)

-- A byte outside ASCII.
unfoldable pub high_round : Bytes → Round
high_round s =
    if rune_size s == 0 then (rune_error, tail s) else (take (rune_size s) s, drop (rune_size s) s)

abbrev pub is_plain : ℕ → Bool
is_plain c = not (c == b'\\' || c == b'"' || ltb c 0x20 || leb 0x80 c)

unfoldable pub round : Bytes → Option Round
round [] = none
round (c ∷ cs) =
    if c == b'\\'
    then escape_round (c ∷ cs) cs
    else if c == b'"' || ltb c 0x20
    then none
    else if ltb c 0x80
    then some (between (c ∷ cs) (skip is_plain cs), skip is_plain cs)
    else some (high_round (c ∷ cs))

-- The loop. The first argument is fuel; each round reads a byte at least.
unfoldable pub unescape : ℕ → Bytes → Option Bytes
unescape f [] = some []
unescape zero (c ∷ cs) = none
unescape (suc f) (c ∷ cs) =
    round (c ∷ cs) >>= λ (written, rest). (unescape f rest >>= λ out. some (written ++ out))

-- `s` without the quotes, and the bytes before the first one that is not plain.
unfoldable pub decoded : Bytes → Option Bytes
decoded s = do
  out ← unescape (length s) (skip is_plain s)
  some (between s (skip is_plain s) ++ out)

-- What stands between the quotes: as it is where the first loop reaches the end.
unfoldable pub unquoted : Bytes → Option Bytes
unquoted s = if length (skip is_plain s) == 0 then some s else decoded s

abbrev pub last_is : ℕ → Bytes → Bool
last_is c [] = false
last_is c (x ∷ []) = x == c
last_is c (x ∷ y ∷ bs) = last_is c (y ∷ bs)

unfoldable pub string : Bytes → Option Bytes
string raw =
    if ltb (length raw) 2 || not (starts_with (λ c. c == b'"') raw) || not (last_is b'"' raw)
    then none
    else unquoted (take (length raw - 2) (tail raw))

-- `StringInto`: the new value of `*dst`, or `none` for the answer false.
unfoldable pub string_into : Bytes → Bytes → Option Bytes
string_into raw dst = if bytes_eq raw (b'n' ∷ b'u' ∷ b'l' ∷ b'l' ∷ []) then some dst else string raw
