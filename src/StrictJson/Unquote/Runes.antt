-- ===== src/StrictJson/Unquote/Runes.antt =====
-- strictjson/unquote.go: code points, written in UTF-8 or as \u escapes, and what a round of the loop
-- makes of them.
use lattice_sdk.Common.{
  ℕ, ◌+◌, ◌-◌, ◌*◌, ◌/◌, ◌%◌, ◌≤◌, ◌<◌, ◌≡◌, ◌⊎◌, refl, ap, inl, inr, true, false, some, [], ◌∷◌,
  ◌++◌, length, Bool-cases, ltb, ◌==◌, if◌then◌else◌, arith,
}
use lattice_sdk.StrictJson.Lexer.{Bytes}
use lattice_sdk.StrictJson.Unquote.{
  append_rune, between_bytes, continues, rune_size, hex_digit, hex_value, hex4, is_surrogate,
  is_pair, joined, surrogate_round, unicode_round,
}

abbrev pub IsScalar : ℕ → Type 0
IsScalar r = (r < 0x110000) × ((r < 0xd800) ⊎ (0xe000 ≤ r))

abbrev pub hex_char : ℕ → ℕ
hex_char d = if ltb d 10 then b'0' + d else b'a' + (d - 10)

-- \uXXXX.
abbrev pub hex_escape : ℕ → Bytes
hex_escape v =
    b'\\'
    ∷ b'u'
    ∷ hex_char (v / 4096)
    ∷ hex_char (v / 256 % 16)
    ∷ hex_char (v / 16 % 16)
    ∷ hex_char (v % 16)
    ∷ []

abbrev pub high_half : ℕ → ℕ
high_half r = 0xd800 + (r - 0x10000) / 1024

abbrev pub low_half : ℕ → ℕ
low_half r = 0xdc00 + (r - 0x10000) % 1024

hex_digit-hex_char : (d : ℕ) → d < 16 → hex_digit (hex_char d) ≡ some d
unfolding hex_digit
hex_digit-hex_char d h = ground arith

pub hex4-hex_escape : (v : ℕ) (x : Bytes) → v < 65536 → hex4 (hex_escape v ++ x) ≡ some v
unfolding hex4 hex_value
hex4-hex_escape v x h =
    rw
      (
        hex_digit-hex_char (v / 4096) (omega arith),
        hex_digit-hex_char (v / 256 % 16) (omega arith),
        hex_digit-hex_char (v / 16 % 16) (omega arith),
        hex_digit-hex_char (v % 16) (omega arith),
      )
      (ap some (
        let whole : ((((0 * 16 + v / 4096) * 16 + v / 256 % 16) * 16 + v / 16 % 16) * 16 + v % 16)
            ≡ v =
          omega arith in
        whole))

pub unicode_round-bmp :
    (r : ℕ) (x : Bytes) → IsScalar r → r < 0x10000 → unicode_round r x ≡ (append_rune r, x)
unfolding unicode_round
unicode_round-bmp r x (bound, inl low) h =
    let bmp : is_surrogate r ≡ false = ground arith in rw bmp refl
unicode_round-bmp r x (bound, inr high) h =
    let bmp : is_surrogate r ≡ false = ground arith in rw bmp refl

pub unicode_round-pair :
    (r : ℕ) (x : Bytes)
    → r < 0x110000
    → 0x10000 ≤ r
    → unicode_round (high_half r) (hex_escape (low_half r) ++ x) ≡ (append_rune r, x)
unfolding unicode_round surrogate_round
unicode_round-pair r x bound high =
    let h : is_surrogate (high_half r) ≡ true = ground arith in
    let p : is_pair (high_half r) (low_half r) ≡ true = ground arith in
    let j : joined (high_half r) (low_half r) ≡ r = omega arith in
    rw (h, hex4-hex_escape (low_half r) x (omega arith), p, j) refl

-- `utf8.DecodeRune` reads back what `utf8.AppendRune` writes.
rune_size-two :
    (r : ℕ) (x : Bytes)
    → 0x80 ≤ r
    → r < 0x800
    → rune_size ((0xc0 + r / 64) ∷ (0x80 + r % 64) ∷ x) ≡ 2
unfolding rune_size continues
rune_size-two r x low high =
    let first : between_bytes 0xc2 0xdf (0xc0 + r / 64) ≡ true = ground arith in
    let second : between_bytes 0x80 0xbf (0x80 + r % 64) ≡ true = ground arith in
    rw (first, second) refl

rune_size-three :
    (r : ℕ) (x : Bytes)
    → 0x800 ≤ r
    → r < 0x10000
    → IsScalar r
    → rune_size ((0xe0 + r / 4096) ∷ (0x80 + r / 64 % 64) ∷ (0x80 + r % 64) ∷ x) ≡ 3
unfolding rune_size continues
rune_size-three r x low high scalar =
    let e1 : between_bytes 0xc2 0xdf (0xe0 + r / 4096) ≡ false = ground arith in
    let last : between_bytes 0x80 0xbf (0x80 + r % 64) ≡ true = ground arith in
    elim (Bool-cases ((0xe0 + r / 4096) == 0xe0)) [
      | inl e ↦
          (let second : between_bytes 0xa0 0xbf (0x80 + r / 64 % 64) ≡ true = ground arith in
            rw (e1, e, second, last) refl)
      | inr e2 ↦ elim (Bool-cases ((0xe0 + r / 4096) == 0xed)) [
        | inl e ↦
            (let second : between_bytes 0x80 0x9f (0x80 + r / 64 % 64) ≡ true = ground arith in
              rw (e1, e2, e, second, last) refl)
        | inr e3 ↦
            (let e4 : between_bytes 0xe1 0xef (0xe0 + r / 4096) ≡ true = ground arith in
              let second : between_bytes 0x80 0xbf (0x80 + r / 64 % 64) ≡ true = ground arith in
              rw (e1, e2, e3, e4, second, last) refl)
      ]
    ]

rune_size-four :
    (r : ℕ) (x : Bytes)
    → 0x10000 ≤ r
    → r < 0x110000
    → rune_size
        ((0xf0 + r / 262144) ∷ (0x80 + r / 4096 % 64) ∷ (0x80 + r / 64 % 64) ∷ (0x80 + r % 64) ∷ x)
      ≡ 4
unfolding rune_size continues
rune_size-four r x low high =
    let b = 0xf0 + r / 262144 in
    let e1 : between_bytes 0xc2 0xdf b ≡ false = ground arith in
    let e2 : (b == 0xe0) ≡ false = ground arith in
    let e3 : (b == 0xed) ≡ false = ground arith in
    let e4 : between_bytes 0xe1 0xef b ≡ false = ground arith in
    let third : between_bytes 0x80 0xbf (0x80 + r / 64 % 64) ≡ true = ground arith in
    let last : between_bytes 0x80 0xbf (0x80 + r % 64) ≡ true = ground arith in
    elim (Bool-cases (b == 0xf0)) [
      | inl e ↦
          (let second : between_bytes 0x90 0xbf (0x80 + r / 4096 % 64) ≡ true = ground arith in
            rw (e1, e2, e3, e4, e, second, third, last) refl)
      | inr e5 ↦ elim (Bool-cases (between_bytes 0xf1 0xf3 b)) [
        | inl e ↦
            (let second : between_bytes 0x80 0xbf (0x80 + r / 4096 % 64) ≡ true = ground arith in
              rw (e1, e2, e3, e4, e5, e, second, third, last) refl)
        | inr e6 ↦
            (let e7 : (b == 0xf4) ≡ true = ground arith in
              let second : between_bytes 0x80 0x8f (0x80 + r / 4096 % 64) ≡ true = ground arith in
              rw (e1, e2, e3, e4, e5, e6, e7, second, third, last) refl)
      ]
    ]

pub rune_size-append_rune :
    (r : ℕ) (x : Bytes)
    → IsScalar r
    → 0x80 ≤ r
    → rune_size (append_rune r ++ x) ≡ length (append_rune r)
unfolding append_rune
rune_size-append_rune r x scalar low =
    let wide : ltb r 0x80 ≡ false = ground arith in
    elim (Bool-cases (ltb r 0x800)) [
      | inl e ↦ rw (wide, e) (rune_size-two r x low (ground arith))
      | inr e1 ↦ elim (Bool-cases (ltb r 0x10000)) [
        | inl e ↦ rw (wide, e1, e) (rune_size-three r x (ground arith) (ground arith) scalar)
        | inr e2 ↦ rw (wide, e1, e2) (rune_size-four r x (ground arith) scalar.0)
      ]
    ]
