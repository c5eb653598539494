-- ===== src/StrictJson/Lexer/Strings.antt =====
-- strictjson/strictjson.go: `str` against the grammar's characters.
use lattice_sdk.Common.{
  ℕ, zero, suc, ◌≡◌, refl, ap, inl, inr, Bool, true, false, ◌&&◌, Option, none, some, List, [], ◌∷◌,
  ◌++◌, append_assoc, All, Bool-cases, ltb, ◌==◌, arith, length, some-injective, ◌∙◌, ==_iff,
  ltb-false→le,
}
use lattice_sdk.Common.Options.{if-eq-some, unless-eq-some}
use lattice_sdk.StrictJson.Lexer.{Bytes, is_hex, is_escape, Lexeme, prepend, str_from, str}
use lattice_sdk.StrictJson.Grammar.{
  Char, char, escape, unicode, print_char, IsChar, print_chars, is_ascii_char, is_ascii,
}

abbrev plain_after : ℕ → List Char → Bool
plain_after zero cs = is_ascii cs
plain_after (suc k) cs = false

-- Whether `k` hexadecimal digits, then the characters and the closing quote make up the bytes.
record Reads (k : ℕ) (bs : Bytes) (l : Lexeme) : Type 0 where
  hs : Bytes
  cs : List Char
  count : length hs ≡ k
  hex : All (λ h. is_hex h ≡ true) hs
  chars : All IsChar cs
  contents : l.contents ≡ hs ++ print_chars cs
  plain : l.plain ≡ plain_after k cs
  split : bs ≡ l.contents ++ b'"' ∷ l.rest

no_digits : (hs xs : Bytes) → length hs ≡ 0 → hs ++ xs ≡ xs
no_digits [] xs h = refl
no_digits (h ∷ hs) xs e = absurd (omega arith)

-- What one more character before a string that is read does.
Reads-char :
    (c : Char) (bs : Bytes) (m : Lexeme)
    → IsChar c
    → Reads zero bs m
    → Reads zero
        (print_char c ++ bs)
        (record m { contents = print_char c ++ m.contents; plain = is_ascii_char c && m.plain })
Reads-char c bs m ischar r = record {
  hs = [];
  cs = c ∷ r.cs;
  count = refl;
  hex = tt;
  chars = (ischar, r.chars);
  contents = ap (λ t. print_char c ++ t) (r.contents ∙ no_digits r.hs (print_chars r.cs) r.count);
  plain = ap (λ t. is_ascii_char c && t) r.plain;
  split = rw append_assoc (ap (λ t. print_char c ++ t) r.split);
}

Reads-unicode :
    (bs : Bytes) (m : Lexeme)
    → Reads 4 bs m
    → Reads zero
        (b'\\' ∷ b'u' ∷ bs)
        (record m { contents = b'\\' ∷ b'u' ∷ m.contents; plain = false })
Reads-unicode bs m r = record {
  hs = [];
  cs = unicode r.hs ∷ r.cs;
  count = refl;
  hex = tt;
  chars = ((r.count, r.hex), r.chars);
  contents = ap (λ t. b'\\' ∷ b'u' ∷ t) r.contents;
  plain = refl;
  split = ap (λ t. b'\\' ∷ b'u' ∷ t) r.split;
}

Reads-quote :
    (bs : Bytes) → Reads zero (b'"' ∷ bs) (record { contents = []; plain = true; rest = bs })
Reads-quote bs = record {
  hs = [];
  cs = [];
  count = refl;
  hex = tt;
  chars = tt;
  contents = refl;
  plain = refl;
  split = refl;
}

-- The branches of the loop, each with what the rest of the loop reads.
module _ (c : ℕ) (bs : Bytes) (l : Lexeme) where
  digit-Reads :
      (k : ℕ) (o : Option Lexeme)
      → is_hex c ≡ true
      → ((m : Lexeme) → o ≡ some m → Reads k bs m)
      → prepend (c ∷ []) false o ≡ some l
      → Reads (suc k) (c ∷ bs) l
  digit-Reads k none hex ih h = cc
  digit-Reads k (some m) hex ih h =
      let r = ih m refl in
      rw (← some-injective _ l h) (record {
        hs = c ∷ r.hs;
        cs = r.cs;
        count = omega (arith, r.count);
        hex = (hex, r.hex);
        chars = r.chars;
        contents = ap (λ t. c ∷ t) r.contents;
        plain = refl;
        split = ap (λ t. c ∷ t) r.split;
      })

  escape-Reads :
      (d : ℕ) (o : Option Lexeme)
      → c ≡ b'\\'
      → is_escape d ≡ true
      → ((m : Lexeme) → o ≡ some m → Reads zero bs m)
      → prepend (c ∷ d ∷ []) false o ≡ some l
      → Reads zero (c ∷ d ∷ bs) l
  escape-Reads d none slash known ih h = cc
  escape-Reads d (some m) slash known ih h =
      rw (← some-injective _ l h, slash) (Reads-char (escape d) bs m known (ih m refl))

  unicode-Reads :
      (d : ℕ) (o : Option Lexeme)
      → c ≡ b'\\'
      → d ≡ b'u'
      → ((m : Lexeme) → o ≡ some m → Reads 4 bs m)
      → prepend (c ∷ d ∷ []) false o ≡ some l
      → Reads zero (c ∷ d ∷ bs) l
  unicode-Reads d none slash letter ih h = cc
  unicode-Reads d (some m) slash letter ih h =
      rw (← some-injective _ l h, slash, letter) (Reads-unicode bs m (ih m refl))

  char-Reads :
      (o : Option Lexeme)
      → (c == b'"') ≡ false
      → (c == b'\\') ≡ false
      → ltb c 0x20 ≡ false
      → ((m : Lexeme) → o ≡ some m → Reads zero bs m)
      → prepend (c ∷ []) (ltb c 0x80) o ≡ some l
      → Reads zero (c ∷ bs) l
  char-Reads none quote slash low ih h = cc
  char-Reads (some m) quote slash low ih h =
      rw (← some-injective _ l h)
        (Reads-char (char c) bs m (ground arith, ground arith, ltb-false→le c 0x20 low) (ih m refl))

str_from-Reads : (k : ℕ) (bs : Bytes) (l : Lexeme) → str_from k bs ≡ some l → Reads k bs l
unfolding str_from
str_from-Reads (suc k) [] l h = cc
str_from-Reads (suc k) (c ∷ cs) l h =
    let (hex, eq) = if-eq-some (is_hex c) _ l h in
    digit-Reads c cs l k (str_from k cs) hex (str_from-Reads k cs) eq
str_from-Reads zero [] l h = cc
str_from-Reads zero (c ∷ []) l h =
    let (quote, eq) = if-eq-some (c == b'"') _ l h in
    rw ((==_iff c b'"').0 quote, ← some-injective _ l eq) (Reads-quote [])
str_from-Reads zero (c ∷ d ∷ cs) l h = elim (Bool-cases (c == b'"')) [
  | inl quote ↦
      rw ((==_iff c b'"').0 quote, ← some-injective _ l (rw quote at h)) (Reads-quote (d ∷ cs))
  | inr inside ↦ elim (Bool-cases (c == b'\\')) [
    | inl slash ↦
        (let back = (==_iff c b'\\').0 slash in
          elim (Bool-cases (is_escape d)) [
            | inl known ↦
                escape-Reads c cs l d (str_from zero cs) back known (str_from-Reads zero cs)
                  (rw (inside, slash, known) at h)
            | inr unknown ↦
                (let (letter, eq) = if-eq-some (d == b'u') _ l (rw (inside, slash, unknown) at h) in
                  unicode-Reads c cs l d (str_from 4 cs) back ((==_iff d b'u').0 letter)
                    (str_from-Reads 4 cs) eq)
          ])
    | inr bare ↦
        (let (low, eq) = unless-eq-some (ltb c 0x20) _ l (rw (inside, bare) at h) in
          char-Reads c (d ∷ cs) l (str_from zero (d ∷ cs)) inside bare low
            (str_from-Reads zero (d ∷ cs)) eq)
  ]
]

-- A string that `str` reads: the characters up to its closing quote.
pub str-split :
    (bs : Bytes) (l : Lexeme)
    → str bs ≡ some l
    → (cs : List Char) × All IsChar cs
      × (bs ≡ print_chars cs ++ b'"' ∷ l.rest)
      × (l.contents ≡ print_chars cs)
      × (l.plain ≡ is_ascii cs)
unfolding str
str-split bs l h =
    let r = str_from-Reads zero bs l h in
    let contents = r.contents ∙ no_digits r.hs (print_chars r.cs) r.count in
    (r.cs, r.chars, r.split ∙ ap (λ t. t ++ b'"' ∷ l.rest) contents, contents, r.plain)

abbrev is_nil : Bytes → Bool
is_nil [] = true
is_nil (h ∷ hs) = false

-- The other direction.
hex-append :
    (hs bs : Bytes) (l : Lexeme)
    → All (λ h. is_hex h ≡ true) hs
    → str_from zero bs ≡ some l
    → str_from (length hs) (hs ++ bs)
      ≡ some (record l { contents = hs ++ l.contents; plain = is_nil hs && l.plain })
unfolding str_from
hex-append [] bs l hex h = h
hex-append (c ∷ hs) bs l hex h = rw (hex.0, hex-append hs bs l hex.1 h) refl

char-append :
    (c : Char) (bs : Bytes) (l : Lexeme)
    → IsChar c
    → str_from zero bs ≡ some l
    → str_from zero (print_char c ++ bs)
      ≡ some
          (record l { contents = print_char c ++ l.contents; plain = is_ascii_char c && l.plain })
unfolding str_from
char-append (char c) [] l ischar h = cc
char-append (char c) (d ∷ bs) l (quote, slash, low) h =
    let q : (c == b'"') ≡ false = ground arith in
    let s : (c == b'\\') ≡ false = ground arith in
    let w : ltb c 0x20 ≡ false = ground arith in rw (q, s, w, h) refl
char-append (escape c) bs l ischar h = rw (ischar, h) refl
char-append (unicode hs) bs l (count, hex) h =
    rw (rw (count, four hs count) at (hex-append hs bs l hex h)) refl
  where
    four : (hs : Bytes) → length hs ≡ 4 → is_nil hs ≡ false
    four [] e = absurd (omega arith)
    four (h ∷ hs) e = refl

-- `str` reads any characters up to a closing quote.
pub str-append :
    (cs : List Char) (r : Bytes)
    → All IsChar cs
    → str (print_chars cs ++ b'"' ∷ r)
      ≡ some (record { contents = print_chars cs; plain = is_ascii cs; rest = r })
unfolding str str_from
str-append [] [] all = refl
str-append [] (c ∷ r) all = refl
str-append (c ∷ cs) r all =
    rw append_assoc
      (char-append c (print_chars cs ++ b'"' ∷ r) _ all.0 (unfold str in str-append cs r all.1))
