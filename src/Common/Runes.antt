-- ===== src/Common/Runes.antt =====
-- Go's strings, unicode and strconv on a string as the list of its runes.
use Prim.Native.Nat.{ℕ, ◌+◌, ◌-◌, ◌*◌}
use mathlib.Core.Bool.{Bool, true, ◌&&◌, ◌||◌}
use mathlib.Core.Option.{Option, none, some}
use mathlib.Core.List.{List, [], ◌∷◌, ◌++◌}
use lattice_sdk.Common.Tests.{ltb, leb, ◌==◌, if◌then◌else◌}
use lattice_sdk.Common.Lists.{length}

-- `len(s)`: the bytes of the runes in UTF-8.
abbrev pub rune_len : ℕ → ℕ
rune_len r = if ltb r 128 then 1 else if ltb r 2048 then 2 else if ltb r 65536 then 3 else 4

unfoldable pub byte_len : List ℕ → ℕ
byte_len [] = 0
byte_len (r ∷ rs) = rune_len r + byte_len rs

-- `unicode.IsSpace`.
abbrev pub is_space : ℕ → Bool
is_space r =
    (leb 9 r && leb r 13)
    || r == 32
    || r == 133
    || r == 160
    || r == 5760
    || (leb 8192 r && leb r 8202)
    || r == 8232
    || r == 8233
    || r == 8239
    || r == 8287
    || r == 12288

-- `strings.Fields`, with the field that is being read.
unfoldable pub fields_from : List ℕ → List ℕ → List (List ℕ)
fields_from field [] = if length field == 0 then [] else field ∷ []
fields_from field (r ∷ rs) =
    let after = fields_from [] rs in
    let inside = fields_from (field ++ r ∷ []) rs in
    if is_space r then (if length field == 0 then after else field ∷ after) else inside

abbrev pub fields : List ℕ → List (List ℕ)
fields = fields_from []

-- `strings.Split(s, sep)` for one rune.
unfoldable pub split_from : ℕ → List ℕ → List ℕ → List (List ℕ)
split_from sep part [] = part ∷ []
split_from sep part (r ∷ rs) =
    let after = split_from sep [] rs in
    let inside = split_from sep (part ++ r ∷ []) rs in if r == sep then part ∷ after else inside

abbrev pub split : ℕ → List ℕ → List (List ℕ)
split sep = split_from sep []

-- `strings.Cut(s, sep)` for one rune: what stands before it and, if it occurs, what stands after.
unfoldable pub cut : ℕ → List ℕ → List ℕ × Option (List ℕ)
cut sep [] = ([], none)
cut sep (r ∷ rs) =
    let (before, after) = cut sep rs in if r == sep then ([], some rs) else (r ∷ before, after)

abbrev pub is_digit : ℕ → Bool
is_digit r = leb b'0' r && leb r b'9'

-- `strings.TrimLeft(s, "0123456789") == ""`.
unfoldable pub all_digits : List ℕ → Bool
all_digits [] = true
all_digits (r ∷ rs) = is_digit r && all_digits rs

-- `strconv.Atoi` on digits.
unfoldable pub atoi : ℕ → List ℕ → ℕ
atoi n [] = n
atoi n (r ∷ rs) = atoi (n * 10 + (r - b'0')) rs

-- `strings.TrimSpace`: the spaces in front go, then those behind.
unfoldable pub trim_left : List ℕ → List ℕ
trim_left [] = []
trim_left (r ∷ rs) = let rest = trim_left rs in if is_space r then rest else r ∷ rs

unfoldable pub trim_right : List ℕ → List ℕ
trim_right [] = []
trim_right (r ∷ rs) =
    let rest = trim_right rs in if is_space r && (length rest == 0) then [] else r ∷ rest

abbrev pub trim_space : List ℕ → List ℕ
trim_space s = trim_right (trim_left s)
