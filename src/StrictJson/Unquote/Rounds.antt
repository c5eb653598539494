-- ===== src/StrictJson/Unquote/Rounds.antt =====
-- strictjson/unquote.go: what one round of the loop of `String` reads, as characters of the grammar.
use lattice_sdk.Common.{
  ℕ, zero, suc, ◌+◌, ◌*◌, ◌≤◌, ◌≡◌, refl, sym, ◌∙◌, ap, inl, inr, Bool, true, false, ◌&&◌, ◌||◌,
  Option, none, some, some-injective, List, [], ◌∷◌, ◌++◌, append_assoc, append-nil, length, take,
  drop, take-append-drop, All, Bool-cases, ltb, ◌==◌, ==_iff, if◌then◌else◌, arith, subst,
}
use lattice_sdk.Common.Options.{◌>>=◌, bind-eq-some, if-eq-some, unless-eq-some}
use lattice_sdk.StrictJson.Lexer.{Bytes, skip, is_hex, is_escape}
use lattice_sdk.StrictJson.Lexer.NumberParts.{skip-split}
use lattice_sdk.StrictJson.Grammar.{Char, char, escape, unicode, print_char, IsChar, print_chars}
use lattice_sdk.StrictJson.Unquote.{
  between_bytes, continues, continues_from, rune_size, hex_digit, hex_value, hex4, is_surrogate,
  is_pair, Round, surrogate_round, unicode_round, short_escape, escape_with, escape_round,
  high_round, is_plain, round,
}

-- Bytes that are characters of a string, in front of a rest.
abbrev pub Chars : Bytes → Bytes → Type 0
Chars bs rest = (cs : List Char) × All IsChar cs × (bs ≡ print_chars cs ++ rest)

pub print_chars-append :
    (cs ds : List Char) → print_chars (cs ++ ds) ≡ print_chars cs ++ print_chars ds
print_chars-append [] ds = refl
print_chars-append (c ∷ cs) ds =
    rw append_assoc (ap (λ x. print_char c ++ x) (print_chars-append cs ds))

pub IsChar-append : (cs ds : List Char) → All IsChar cs → All IsChar ds → All IsChar (cs ++ ds)
IsChar-append [] ds hc hd = hd
IsChar-append (c ∷ cs) ds (h, hc) hd = (h, IsChar-append cs ds hc hd)

hex_digit-is_hex : (c v : ℕ) → hex_digit c ≡ some v → is_hex c ≡ true
unfolding hex_digit
hex_digit-is_hex c v h = ground arith

hex_value-split :
    (k r : ℕ) (bs : Bytes) (v : ℕ)
    → hex_value k r bs ≡ some v
    → (length (take k bs) ≡ k) × All (λ h. is_hex h ≡ true) (take k bs)
unfolding hex_value
hex_value-split zero r bs v h = (refl, tt)
hex_value-split (suc k) r [] v h = cc
hex_value-split (suc k) r (c ∷ bs) v h =
    let (d, digit, rest) = bind-eq-some (hex_digit c) _ v h in
    let (count, all) = hex_value-split k (r * 16 + d) bs v rest in
    (ap suc count, (hex_digit-is_hex c d digit, all))

-- An escape that `hex4` reads.
pub hex4-split :
    (s : Bytes) (v : ℕ)
    → hex4 s ≡ some v
    → (hs : Bytes) × IsChar (unicode hs) × (s ≡ print_char (unicode hs) ++ drop 6 s)
unfolding hex4
hex4-split [] v h = cc
hex4-split (a ∷ []) v h =
    let (marks, value) = if-eq-some ((a == b'\\') && false) _ v h in absurd (ground arith)
hex4-split (a ∷ b ∷ bs) v h =
    let (marks, value) = if-eq-some ((a == b'\\') && (b == b'u')) _ v h in
    let (count, all) = hex_value-split 4 0 bs v value in
    let ea : a ≡ b'\\' = ground arith in
    let eb : b ≡ b'u' = ground arith in
    (take 4 bs, (count, all), rw (ea, eb, take-append-drop 4 bs) refl)

pub plain-Chars : (w rest : Bytes) → All (λ c. is_plain c ≡ true) w → Chars (w ++ rest) rest
plain-Chars [] rest all = ([], tt, refl)
plain-Chars (c ∷ w) rest (h, all) =
    let (cs, chars, eq) = plain-Chars w rest all in
    (char c ∷ cs, ((ground arith, ground arith, ground arith), chars), ap (λ x. c ∷ x) eq)

-- Bytes outside ASCII.
high-Chars : (w rest : Bytes) → All (λ c. 0x80 ≤ c) w → Chars (w ++ rest) rest
high-Chars [] rest all = ([], tt, refl)
high-Chars (c ∷ w) rest (h, all) =
    let (cs, chars, eq) = high-Chars w rest all in
    (char c ∷ cs, ((ground arith, ground arith, ground arith), chars), ap (λ x. c ∷ x) eq)

continues-high : (n : ℕ) (bs : Bytes) → continues n bs ≡ true → All (λ c. 0x80 ≤ c) (take n bs)
unfolding continues
continues-high zero bs h = tt
continues-high (suc n) [] h = cc
continues-high (suc n) (c ∷ bs) h = (ground arith, continues-high n bs (ground arith))

continues_from-high :
    (lo hi n : ℕ) (bs : Bytes)
    → 0x80 ≤ lo
    → continues_from lo hi n bs ≡ true
    → All (λ c. 0x80 ≤ c) (take (suc n) bs)
continues_from-high lo hi n [] low h = cc
continues_from-high lo hi n (c ∷ bs) low h = (ground arith, continues-high n bs (ground arith))

sized-high :
    (t : Bool) (n b : ℕ) (bs : Bytes)
    → 0x80 ≤ b
    → (t ≡ true → All (λ c. 0x80 ≤ c) (take n bs))
    → All (λ c. 0x80 ≤ c) (take (if t then suc n else 0) (b ∷ bs))
sized-high true n b bs high all = (high, all refl)
sized-high false n b bs high all = tt

-- A sequence of UTF-8 has no byte of ASCII.
pub rune_size-high : (s : Bytes) → All (λ c. 0x80 ≤ c) (take (rune_size s) s)
unfolding rune_size
rune_size-high [] = tt
rune_size-high (b ∷ bs) = elim (Bool-cases (between_bytes 0xc2 0xdf b)) [
  | inl e ↦ rw e (sized-high (continues 1 bs) 1 b bs (ground arith) (continues-high 1 bs))
  | inr e1 ↦ elim (Bool-cases (b == 0xe0)) [
    | inl e ↦
        rw (e1, e)
          (sized-high (continues_from 0xa0 0xbf 1 bs) 2 b bs (ground arith)
            (continues_from-high 0xa0 0xbf 1 bs (omega arith)))
    | inr e2 ↦ elim (Bool-cases (b == 0xed)) [
      | inl e ↦
          rw (e1, e2, e)
            (sized-high (continues_from 0x80 0x9f 1 bs) 2 b bs (ground arith)
              (continues_from-high 0x80 0x9f 1 bs (omega arith)))
      | inr e3 ↦ elim (Bool-cases (between_bytes 0xe1 0xef b)) [
        | inl e ↦
            rw (e1, e2, e3, e)
              (sized-high (continues 2 bs) 2 b bs (ground arith) (continues-high 2 bs))
        | inr e4 ↦ elim (Bool-cases (b == 0xf0)) [
          | inl e ↦
              rw (e1, e2, e3, e4, e)
                (sized-high (continues_from 0x90 0xbf 2 bs) 3 b bs (ground arith)
                  (continues_from-high 0x90 0xbf 2 bs (omega arith)))
          | inr e5 ↦ elim (Bool-cases (between_bytes 0xf1 0xf3 b)) [
            | inl e ↦
                rw (e1, e2, e3, e4, e5, e)
                  (sized-high (continues 3 bs) 3 b bs (ground arith) (continues-high 3 bs))
            | inr e6 ↦ elim (Bool-cases (b == 0xf4)) [
              | inl e ↦
                  rw (e1, e2, e3, e4, e5, e6, e)
                    (sized-high (continues_from 0x80 0x8f 2 bs) 3 b bs (ground arith)
                      (continues_from-high 0x80 0x8f 2 bs (omega arith)))
              | inr e7 ↦ rw (e1, e2, e3, e4, e5, e6, e7) tt
            ]
          ]
        ]
      ]
    ]
  ]
]

high_round-Chars :
    (s : Bytes) (c : ℕ) (cs : Bytes) → s ≡ c ∷ cs → 0x80 ≤ c → Chars s (high_round s).1
unfolding high_round
high_round-Chars s c cs eq high = elim (Bool-cases (rune_size s == 0)) [
  | inl e ↦ rw (e, eq) (high-Chars (c ∷ []) cs (high, tt))
  | inr e ↦ rw e (
      subst (λ x. Chars x (drop (rune_size s) s)) (take-append-drop (rune_size s) s)
        (high-Chars (take (rune_size s) s) (drop (rune_size s) s) (rune_size-high s)))
]

one-Chars : (c : Char) (bs rest : Bytes) → IsChar c → bs ≡ print_char c ++ rest → Chars bs rest
one-Chars c bs rest ischar eq =
    (c ∷ [], (ischar, tt), eq ∙ ap (λ x. x ++ rest) (sym (append-nil (print_char c))))

surrogate_round-Chars :
    (r : ℕ) (rest : Bytes) (o : Option ℕ) → hex4 rest ≡ o → Chars rest (surrogate_round r rest o).1
unfolding surrogate_round
surrogate_round-Chars r rest none e = ([], tt, refl)
surrogate_round-Chars r rest (some r2) e = elim (Bool-cases (is_pair r r2)) [
  | inl pair ↦
      (let (hs, ischar, eq) = hex4-split rest r2 e in
        rw pair (one-Chars (unicode hs) rest (drop 6 rest) ischar eq))
  | inr lone ↦ rw lone ([], tt, refl)
]

unicode_round-Chars : (r : ℕ) (rest : Bytes) → Chars rest (unicode_round r rest).1
unfolding unicode_round
unicode_round-Chars r rest = elim (Bool-cases (is_surrogate r)) [
  | inl e ↦ rw e (surrogate_round-Chars r rest (hex4 rest) refl)
  | inr e ↦ rw e ([], tt, refl)
]

pub Chars-trans : (a b c : Bytes) → Chars a b → Chars b c → Chars a c
Chars-trans a b c (cs, hc, ec) (ds, hd, ed) = (
  cs ++ ds,
  IsChar-append cs ds hc hd,
  ec ∙ (ap (λ x. print_chars cs ++ x) ed ∙ rw (print_chars-append cs ds, append_assoc) refl),
)

short_escape-is_escape : (d b : ℕ) → short_escape d ≡ some b → is_escape d ≡ true
unfolding short_escape
short_escape-is_escape d b h = ground arith

escape_with-Chars :
    (s : Bytes) (d : ℕ) (ds : Bytes) (o : Option ℕ) (p : Round)
    → s ≡ b'\\' ∷ d ∷ ds
    → short_escape d ≡ o
    → escape_with s d ds o ≡ some p
    → Chars s p.1
unfolding escape_with
escape_with-Chars s d ds (some b) p eq known h =
    one-Chars (escape d) s p.1 (short_escape-is_escape d b known)
      (eq ∙ ap (λ (q : Round). b'\\' ∷ d ∷ q.1) (some-injective (b ∷ [], ds) p h))
escape_with-Chars s d ds none p eq unknown h =
    let (letter, h1) =
      if-eq-some (d == b'u') (hex4 s >>= λ r. some (unicode_round r (drop 6 s))) p h in
    let (r, value, h2) = bind-eq-some (hex4 s) (λ r. some (unicode_round r (drop 6 s))) p h1 in
    let (hs, ischar, split) = hex4-split s r value in
    Chars-trans s (drop 6 s) p.1 (one-Chars (unicode hs) s (drop 6 s) ischar split) (
      subst (λ (q : Round). Chars (drop 6 s) q.1) (some-injective (unicode_round r (drop 6 s)) p h2)
        (unicode_round-Chars r (drop 6 s)))

escape_round-Chars :
    (s ds : Bytes) (p : Round) → s ≡ b'\\' ∷ ds → escape_round s ds ≡ some p → Chars s p.1
unfolding escape_round
escape_round-Chars s [] p eq h = cc
escape_round-Chars s (d ∷ ds) p eq h = escape_with-Chars s d ds (short_escape d) p eq refl h

pub round-Chars : (s : Bytes) (p : Round) → round s ≡ some p → Chars s p.1
unfolding round
round-Chars [] p h = cc
round-Chars (c ∷ cs) p h = elim (Bool-cases (c == b'\\')) [
  | inl slash ↦
      escape_round-Chars (c ∷ cs) cs p (ap (λ x. x ∷ cs) ((==_iff c b'\\').0 slash)) (rw slash at h)
  | inr bare ↦
      (let (seen, h1) = unless-eq-some (c == b'"' || ltb c 0x20) _ p (rw bare at h) in
        elim (Bool-cases (ltb c 0x80)) [
          | inl ascii ↦
              (let (w, all, split) = skip-split is_plain cs in
                let same = some-injective _ p (rw ascii at h1) in
                let plain : is_plain c ≡ true = ground arith in
                let (ds, chars, eq) = plain-Chars (c ∷ w) (skip is_plain cs) (plain, all) in
                (
                  ds,
                  chars,
                  ap (λ x. c ∷ x) split ∙ (eq ∙ ap (λ (q : Round). print_chars ds ++ q.1) same),
                ))
          | inr high ↦
              subst (λ (q : Round). Chars (c ∷ cs) q.1) (some-injective _ p (rw high at h1))
                (high_round-Chars (c ∷ cs) c cs refl (ground arith))
        ])
]
