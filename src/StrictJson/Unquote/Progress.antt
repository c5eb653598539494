-- ===== src/StrictJson/Unquote/Progress.antt =====
-- strictjson/unquote.go: the loop of `String` goes over any characters of the grammar.
use lattice_sdk.Common.{
  ℕ, zero, suc, ◌+◌, ◌-◌, ◌*◌, ◌≤◌, ◌<◌, ◌≡◌, refl, ◌∙◌, ap, inl, inr, Bool, true, false, ◌&&◌,
  ◌||◌, Option, none, some, List, [], ◌∷◌, ◌++◌, length, length-append, length-drop, take, drop,
  All, Bool-cases, Option-cases, ltb-false→le, ltb, leb, ◌==◌, arith,
}
use lattice_sdk.Common.Bytes.{drop-append}
use lattice_sdk.StrictJson.Lexer.{Bytes, between, skip, is_hex, is_escape}
use lattice_sdk.StrictJson.Grammar.{Char, char, escape, unicode, print_char, IsChar, print_chars}
use lattice_sdk.StrictJson.Unquote.{
  rune_size, hex_digit, hex_value, hex4, is_surrogate, is_pair, Round, surrogate_round,
  unicode_round, short_escape, escape_with, escape_round, high_round, is_plain, round, unescape,
}
use lattice_sdk.StrictJson.Unquote.Rounds.{rune_size-high}

-- A rest that is characters again.
abbrev pub AreChars : Bytes → Type 0
AreChars bs = (cs : List Char) × All IsChar cs × (bs ≡ print_chars cs)

pub length-skip : (p : ℕ → Bool) (bs : Bytes) → length (skip p bs) ≤ length bs
unfolding skip
length-skip p [] = omega arith
length-skip p (c ∷ cs) = elim (Bool-cases (p c)) [
  | inl e ↦ rw e (omega (arith, length-skip p cs))
  | inr e ↦ rw e (omega arith)
]

pub skip-AreChars : (cs : List Char) → All IsChar cs → AreChars (skip is_plain (print_chars cs))
unfolding skip
skip-AreChars [] all = ([], tt, refl)
skip-AreChars (char c ∷ cs) (h, all) = elim (Bool-cases (is_plain c)) [
  | inl e ↦ rw e (skip-AreChars cs all)
  | inr e ↦ rw e (char c ∷ cs, (h, all), refl)
]
skip-AreChars (escape d ∷ cs) all = (escape d ∷ cs, all, refl)
skip-AreChars (unicode hs ∷ cs) all = (unicode hs ∷ cs, all, refl)

drop-AreChars :
    (n : ℕ) (cs : List Char)
    → All IsChar cs
    → All (λ c. 0x80 ≤ c) (take n (print_chars cs))
    → AreChars (drop n (print_chars cs))
drop-AreChars zero cs all high = (cs, all, refl)
drop-AreChars (suc n) [] all high = ([], tt, refl)
drop-AreChars (suc n) (char c ∷ cs) (h, all) high = drop-AreChars n cs all high.1
drop-AreChars (suc n) (escape d ∷ cs) all high = absurd (omega (arith, high.0))
drop-AreChars (suc n) (unicode hs ∷ cs) all high = absurd (omega (arith, high.0))

hex_digit-value : (c : ℕ) → is_hex c ≡ true → (v : ℕ) × (hex_digit c ≡ some v)
unfolding hex_digit
hex_digit-value c h = elim (Bool-cases (leb b'0' c && leb c b'9')) [
  | inl e ↦ (c - b'0', rw e refl)
  | inr e1 ↦ elim (Bool-cases (leb b'a' c && leb c b'f')) [
    | inl e ↦ (c - b'a' + 10, rw (e1, e) refl)
    | inr e2 ↦ (
      c - b'A' + 10,
      let e3 : (leb b'A' c && leb c b'F') ≡ true = ground arith in rw (e1, e2, e3) refl,
    )
  ]
]

hex_value-some :
    (hs bs : Bytes) (r : ℕ)
    → All (λ h. is_hex h ≡ true) hs
    → (v : ℕ) × (hex_value (length hs) r (hs ++ bs) ≡ some v)
unfolding hex_value
hex_value-some [] bs r all = (r, refl)
hex_value-some (c ∷ hs) bs r (h, all) =
    let (d, digit) = hex_digit-value c h in
    let (v, rest) = hex_value-some hs bs (r * 16 + d) all in (v, rw (digit, rest) refl)

hex4-some :
    (hs bs : Bytes)
    → IsChar (unicode hs)
    → (v : ℕ) × (hex4 (print_char (unicode hs) ++ bs) ≡ some v)
unfolding hex4
hex4-some hs bs (count, all) = let (v, value) = hex_value-some hs bs 0 all in (v, rw count at value)

drop-unicode : (hs bs : Bytes) → IsChar (unicode hs) → drop 6 (print_char (unicode hs) ++ bs) ≡ bs
drop-unicode hs bs ischar = drop-append 4 hs bs ischar.0

-- Where `hex4` reads an escape, the characters go on with it.
hex4-AreChars :
    (cs : List Char) (v : ℕ)
    → All IsChar cs
    → hex4 (print_chars cs) ≡ some v
    → AreChars (drop 6 (print_chars cs))
unfolding hex4
hex4-AreChars [] v all h = cc
hex4-AreChars (char c ∷ cs) v ((quote, slash, low), all) h =
    let other : (c == b'\\') ≡ false = ground arith in
    absurd (let bad : none ≡ some v = rw other at h in cc)
hex4-AreChars (escape d ∷ cs) v (known, all) h =
    let other : (d == b'u') ≡ false = ground arith in
    absurd (let bad : none ≡ some v = rw other at h in cc)
hex4-AreChars (unicode hs ∷ cs) v (ischar, all) h =
    (cs, all, drop-unicode hs (print_chars cs) ischar)

-- The rest that a round leaves: characters, and no longer than before.
abbrev Leaves : ℕ → Bytes → Type 0
Leaves n rest = AreChars rest × (length rest ≤ n)

surrogate_round-Leaves :
    (r : ℕ) (cs : List Char) (o : Option ℕ)
    → All IsChar cs
    → hex4 (print_chars cs) ≡ o
    → Leaves (length (print_chars cs)) (surrogate_round r (print_chars cs) o).1
unfolding surrogate_round
surrogate_round-Leaves r cs none all e = ((cs, all, refl), omega arith)
surrogate_round-Leaves r cs (some r2) all e = elim (Bool-cases (is_pair r r2)) [
  | inl pair ↦ rw pair (hex4-AreChars cs r2 all e, omega (arith, length-drop 6 (print_chars cs)))
  | inr lone ↦ rw lone ((cs, all, refl), omega arith)
]

unicode_round-Leaves :
    (r : ℕ) (cs : List Char)
    → All IsChar cs
    → Leaves (length (print_chars cs)) (unicode_round r (print_chars cs)).1
unfolding unicode_round
unicode_round-Leaves r cs all = elim (Bool-cases (is_surrogate r)) [
  | inl e ↦ rw e (surrogate_round-Leaves r cs (hex4 (print_chars cs)) all refl)
  | inr e ↦ rw e ((cs, all, refl), omega arith)
]

short_escape-some : (d : ℕ) → is_escape d ≡ true → (b : ℕ) × (short_escape d ≡ some b)
unfolding short_escape
short_escape-some d h = elim (Option-cases (short_escape d)) [
  | inr known ↦ known
  | inl unknown ↦ absurd (ground arith)
]

high_round-Leaves :
    (c : ℕ) (cs : List Char)
    → IsChar (char c)
    → All IsChar cs
    → 0x80 ≤ c
    → Leaves (length (print_chars cs)) (high_round (c ∷ print_chars cs)).1
unfolding high_round
high_round-Leaves c cs h all high = elim (Bool-cases (rune_size (c ∷ print_chars cs) == 0)) [
  | inl e ↦ rw e ((cs, all, refl), omega arith)
  | inr e ↦
      (let n = rune_size (c ∷ print_chars cs) in
        let some_bytes : 1 ≤ n = ground arith in
        rw e (
          drop-AreChars n (char c ∷ cs) (h, all) (rune_size-high (c ∷ print_chars cs)),
          omega (arith, length-drop n (c ∷ print_chars cs)),
        ))
]

pub short_escape-u : short_escape b'u' ≡ none
unfolding short_escape
short_escape-u = refl

-- A round goes over characters.
pub round-progress :
    (c : Char) (cs : List Char)
    → IsChar c
    → All IsChar cs
    → (p : Round) × (round (print_chars (c ∷ cs)) ≡ some p)
      × AreChars p.1
      × (length p.1 < length (print_chars (c ∷ cs)))
unfolding round escape_round escape_with
round-progress (char c) cs (quote, slash, low) all =
    let bare : (c == b'\\') ≡ false = ground arith in
    let inside : (c == b'"' || ltb c 0x20) ≡ false = ground arith in
    elim (Bool-cases (ltb c 0x80)) [
      | inl ascii ↦ (
        (
          between (c ∷ print_chars cs) (skip is_plain (print_chars cs)),
          skip is_plain (print_chars cs),
        ),
        rw (bare, inside, ascii) refl,
        skip-AreChars cs all,
        omega (arith, length-skip is_plain (print_chars cs)),
      )
      | inr high ↦
          (let (left, short) =
              high_round-Leaves c cs (quote, slash, low) all (ltb-false→le c 0x80 high) in
            (high_round (c ∷ print_chars cs), rw (bare, inside, high) refl, left, omega arith))
    ]
round-progress (escape d) cs known all =
    let (b, short) = short_escape-some d known in
    ((b ∷ [], print_chars cs), rw short refl, (cs, all, refl), omega arith)
round-progress (unicode hs) cs ischar all =
    let (v, value) = hex4-some hs (print_chars cs) ischar in
    let (left, short) = unicode_round-Leaves v cs all in
    (
      unicode_round v (print_chars cs),
      rw (short_escape-u, value, drop-unicode hs (print_chars cs) ischar) refl,
      left,
      omega (arith, length-append hs (print_chars cs)),
    )

-- Enough fuel: the loop goes over all of them.
pub unescape-some :
    (f : ℕ) (bs : Bytes) → AreChars bs → length bs ≤ f → (out : Bytes) × (unescape f bs ≡ some out)
unfolding unescape
unescape-some f [] left fuel = ([], refl)
unescape-some zero (b ∷ bs) left fuel = absurd (omega arith)
unescape-some (suc f) (b ∷ bs) ([], all, eq) fuel = absurd (let bad : b ∷ bs ≡ [] = eq in cc)
unescape-some (suc f) (b ∷ bs) (c ∷ cs, (h, all), eq) fuel =
    let (p, read, left, short) = round-progress c cs h all in
    let read' : round (b ∷ bs) ≡ some p = ap round eq ∙ read in
    let (out, rest) = unescape-some f p.1 left (omega (arith, ap length eq)) in
    (p.0 ++ out, rw (read', rest) refl)
