-- ===== src/StrictJson/Scanner.antt =====
-- strictjson/strictjson.go: the scanner. Its position is the bytes that follow it. A key is the
-- string that its `keyRef` stands for, and an object's keys are an argument of its loop, which
-- starts with none. The pool of scanners hands out a fresh one.
pub mod KeySet
pub mod Pieces
pub mod Sound
pub mod After
pub mod Steps
pub mod Heads
pub mod Parts
pub mod Rounds
pub mod Complete
use lattice_sdk.Common.{
  ℕ, zero, suc, ◌+◌, ◌-◌, ◌*◌, Bool, true, false, not, ◌&&◌, ◌||◌, Option, none, some, List, [],
  ◌∷◌, ◌++◌, length, leb, ltb, ◌==◌, if◌then◌else◌,
}
use lattice_sdk.Common.Bytes.{bytes_eq}
use lattice_sdk.Common.Options.{◌>>=◌}
use lattice_sdk.StrictJson.Lexer.{
  Bytes, between, starts_with, is_space, is_digit, skip_space, literal, number, Lexeme, str,
}

abbrev pub max_depth : ℕ
max_depth = 512

abbrev pub linear_keys : ℕ
linear_keys = 64

-- One member of a top-level object.
pub record Field : Type 0 where
  pub key : Bytes
  pub value : Bytes

pub record Scanner : Type 0 where
  pub rest : Bytes
  pub depth : ℕ
  pub spaced : Bool
  pub top : Option (List Field)
  pub elements : Option (List Bytes)

-- The keys of one object: those in the slice, and the map once there are 64 of them.
pub record Keys : Type 0 where
  pub keys : List Bytes
  pub seen : Option (List Bytes)

abbrev pub no_keys : Keys
no_keys = record { keys = []; seen = none }

unfoldable pub has_key : List Bytes → Bytes → Bool
has_key [] key = false
has_key (k ∷ ks) key = bytes_eq k key || has_key ks key

unfoldable pub add_linear : Bytes → List Bytes → Option Keys
add_linear key keys =
    if has_key keys key
    then none
    else some (record {
      keys = keys ++ key ∷ [];
      seen = if length (keys ++ key ∷ []) == linear_keys then some (keys ++ key ∷ []) else none;
    })

unfoldable pub add_seen : Bytes → Keys → Option (List Bytes) → Option Keys
add_seen key ks none = add_linear key ks.keys
add_seen key ks (some seen) =
    if has_key seen key then none else some (record ks { seen = some (key ∷ seen) })

-- `none` is a key that the object has already.
unfoldable pub add_key : Bytes → Keys → Option Keys
add_key key ks = add_seen key ks ks.seen

abbrev pub space : Scanner → Scanner
space s = record s { rest = skip_space s.rest; spaced = s.spaced || starts_with is_space s.rest }

-- `s.pos++`.
abbrev pub tail : Bytes → Bytes
tail [] = []
tail (c ∷ cs) = cs

abbrev pub advance : Scanner → Scanner
advance s = record s { rest = tail s.rest }

abbrev pub moved : Scanner → Option Bytes → Option Scanner
moved s none = none
moved s (some rest) = some (record s { rest = rest })

abbrev pub after_string : Scanner → Option Lexeme → Option Scanner
after_string s none = none
after_string s (some l) = some (record s { rest = l.rest })

-- The closing bracket of an array or an object.
abbrev pub close : Scanner → Scanner
close s = record s { rest = tail s.rest; depth = s.depth - 1 }

abbrev pub collect {ℓ} : {A : Type ℓ} → ℕ → A → Option (List A) → Option (List A)
collect depth a none = none
collect depth a (some held) = if depth == 1 then some (held ++ a ∷ []) else some held

unfoldable pub collect_element : Scanner → Scanner → Scanner
collect_element start s = record s {
  elements = collect start.depth (between start.rest s.rest) s.elements;
}

unfoldable pub collect_field : Bytes → Scanner → Scanner → Scanner
collect_field key start s = record s {
  top = collect start.depth (record { key = key; value = between start.rest s.rest }) s.top;
}

-- What stands after an element or a member: a comma and the next one, or the closing bracket.
unfoldable pub next : ℕ → (Scanner → Option Scanner) → Scanner → Option Scanner
next bracket loop s =
    if starts_with (λ c. c == b',') s.rest
    then loop (space (advance s))
    else if starts_with (λ c. c == bracket) s.rest
    then some (close s)
    else none

-- After the opening bracket and space.
unfoldable pub entered : ℕ → (Scanner → Option Scanner) → Scanner → Option Scanner
entered bracket loop s = if starts_with (λ c. c == bracket) s.rest then some (close s) else loop s

-- `array` and `object` up to their loops.
unfoldable pub enter : ℕ → (Scanner → Option Scanner) → Scanner → Option Scanner
enter bracket loop s =
    if ltb max_depth (s.depth + 1)
    then none
    else entered bracket loop (space (record s { rest = tail s.rest; depth = s.depth + 1 }))

abbrev pub scanner : Bytes → Option (List Field) → Option (List Bytes) → Scanner
scanner raw top elements = record {
  rest = raw;
  depth = 0;
  spaced = false;
  top = top;
  elements = elements;
}

abbrev pub at_end : Bytes → Bool
at_end [] = true
at_end (c ∷ cs) = false

abbrev pub accepted : Option Scanner → Bool
accepted none = false
accepted (some s) = true

abbrev pub unspaced : Option Scanner → Bool
unspaced none = false
unspaced (some s) = at_end s.rest && not s.spaced

-- `bytes.ContainsAny(raw, "<>&")`.
unfoldable pub contains_any : Bytes → Bool
contains_any [] = false
contains_any (c ∷ cs) = (c == b'<' || c == b'>' || c == b'&') || contains_any cs

abbrev pub accepted_text : Option Bytes → Bool
accepted_text none = false
accepted_text (some rest) = true

-- `bytes.Contains`: whether `part` stands somewhere in the text.
unfoldable pub has_part : Bytes → Bytes → Bool
has_part part [] = accepted_text (literal part [])
has_part part (c ∷ cs) = accepted_text (literal part (c ∷ cs)) || has_part part cs

abbrev pub line_separator : Bytes
line_separator = 0xe2 ∷ 0x80 ∷ 0xa8 ∷ []

abbrev pub paragraph_separator : Bytes
paragraph_separator = 0xe2 ∷ 0x80 ∷ 0xa9 ∷ []

-- `parse_float` is whether `strconv.ParseFloat` reads a text, and `unmarshal` is `json.Unmarshal`
-- of a quoted string into a string.
module _ (parse_float : Bytes → Bool) (unmarshal : Bytes → Option Bytes) where
  unfoldable pub decode_key : Lexeme → Option Bytes
  decode_key l = if l.plain then some l.contents else unmarshal ((b'"' ∷ l.contents) ++ b'"' ∷ [])

  -- A quoted key: the string it decodes to, and what follows it.
  unfoldable pub read_key : Bytes → Option (Bytes × Bytes)
  read_key [] = none
  read_key (c ∷ cs) =
      if not (c == b'"') then none else (do l ← str cs; key ← decode_key l; some (key, l.rest))

  -- The `switch` of `value` on the first byte.
  unfoldable pub dispatch :
      (Scanner → Option Scanner) → (Scanner → Option Scanner) → Scanner → Bytes → Option Scanner
  dispatch members items s [] = none
  dispatch members items s (c ∷ cs) =
      if c == b'{'
      then enter b'}' members s
      else if c == b'['
      then enter b']' items s
      else if c == b'"'
      then after_string s (str cs)
      else if c == b't'
      then moved s (literal (b't' ∷ b'r' ∷ b'u' ∷ b'e' ∷ []) (c ∷ cs))
      else if c == b'f'
      then moved s (literal (b'f' ∷ b'a' ∷ b'l' ∷ b's' ∷ b'e' ∷ []) (c ∷ cs))
      else if c == b'n'
      then moved s (literal (b'n' ∷ b'u' ∷ b'l' ∷ b'l' ∷ []) (c ∷ cs))
      else if c == b'-' || is_digit c
      then moved s (number parse_float (c ∷ cs))
      else none

  -- The first argument is fuel. `none` is the answer false.
  unfoldable mutual
    pub value : ℕ → Scanner → Option Scanner
    value zero s = none
    value (suc f) s = dispatch (members f no_keys) (items f) s s.rest

    -- The loop of `array`.
    pub items : ℕ → Scanner → Option Scanner
    items zero s = none
    items (suc f) s = do s1 ← value f s; next b']' (items f) (space (collect_element s s1))

    -- The loop of `object`, on the keys so far.
    pub members : ℕ → Keys → Scanner → Option Scanner
    members zero ks s = none
    members (suc f) ks s = do
      (key, rest) ← read_key s.rest
      ks' ← add_key key ks
      let s1 = space (record s { rest = rest })
      if not (starts_with (λ c. c == b':') s1.rest) then none else (do
        s3 ← value f (space (advance s1))
        next b'}' (members f ks') (space (collect_field key (space (advance s1)) s3)))

  -- What `Valid`, `Fields` and `Elements` do: space, a value, space and the end.
  unfoldable pub document : Scanner → Option Scanner
  document s = do
    s1 ← value (2 * length s.rest) (space s)
    if at_end (space s1).rest then some (space s1) else none

  unfoldable pub valid : Bytes → Bool
  valid raw = accepted (document (scanner raw none none))

  unfoldable pub fields : Bytes → Option (List Field)
  fields raw =
      if starts_with (λ c. c == b'{') (skip_space raw)
      then (document (scanner raw (some []) none) >>= λ s. s.top)
      else none

  unfoldable pub elements : Bytes → Option (List Bytes)
  elements raw =
      if starts_with (λ c. c == b'[') (skip_space raw)
      then (document (scanner raw none (some [])) >>= λ s. s.elements)
      else none

  unfoldable pub compact : Bytes → Bool
  compact raw = unspaced (value (2 * length raw) (scanner raw none none))

  -- `Compact`, and none of the bytes that encoding/json escapes: '<', '>', '&', U+2028 and U+2029.
  unfoldable pub canonical_raw : Bytes → Bool
  canonical_raw raw =
      compact raw
      && not (contains_any raw)
      && not (has_part line_separator raw)
      && not (has_part paragraph_separator raw)
