-- ===== src/StrictJson/Unquote/Written.antt =====
-- strictjson/unquote.go: a text of code points, and the run of plain bytes at its start.
use lattice_sdk.Common.{
  ℕ, ◌+◌, ◌/◌, ◌%◌, ◌≤◌, ◌<◌, ◌≡◌, ◌≢◌, refl, ap, inl, inr, true, false, List, [], ◌∷◌, ◌++◌, drop,
  All, Bool-cases, ltb, ltb→lt, ltb-false→le, if◌then◌else◌, arith,
}
use lattice_sdk.StrictJson.Lexer.{Bytes, skip}
use lattice_sdk.StrictJson.Unquote.{append_rune, is_plain}
use lattice_sdk.StrictJson.Unquote.Runes.{IsScalar, hex_escape, high_half, low_half}

-- A code point in UTF-8, or as one \u escape or two.
pub data Written : Type 0 where
  plain escaped : ℕ → Written

abbrev pub write : Written → Bytes
write (plain r) = append_rune r
write (escaped r) =
    if ltb r 0x10000 then hex_escape r else hex_escape (high_half r) ++ hex_escape (low_half r)

abbrev pub IsWritten : Written → Type 0
IsWritten (plain r) = IsScalar r × (0x20 ≤ r) × (r ≢ b'"') × (r ≢ b'\\')
IsWritten (escaped r) = IsScalar r

abbrev rune_of : Written → ℕ
rune_of (plain r) = r
rune_of (escaped r) = r

abbrev pub write_all : List Written → Bytes
write_all [] = []
write_all (w ∷ ws) = write w ++ write_all ws

-- The code points in UTF-8.
abbrev pub utf8 : List Written → Bytes
utf8 [] = []
utf8 (w ∷ ws) = append_rune (rune_of w) ++ utf8 ws

pub append_rune-ascii : (r : ℕ) → r < 0x80 → append_rune r ≡ r ∷ []
unfolding append_rune
append_rune-ascii r h = let e : ltb r 0x80 ≡ true = ground arith in rw e refl

-- A code point outside ASCII begins with a byte outside ASCII.
pub append_rune-wide :
    (r : ℕ) → 0x80 ≤ r → (b : ℕ) × (bs : Bytes) × (append_rune r ≡ b ∷ bs) × (0x80 ≤ b)
unfolding append_rune
append_rune-wide r h =
    let wide : ltb r 0x80 ≡ false = ground arith in
    elim (Bool-cases (ltb r 0x800)) [
      | inl e ↦ (0xc0 + r / 64, (0x80 + r % 64) ∷ [], rw (wide, e) refl, omega arith)
      | inr e1 ↦ elim (Bool-cases (ltb r 0x10000)) [
        | inl e ↦ (
          0xe0 + r / 4096,
          (0x80 + r / 64 % 64) ∷ (0x80 + r % 64) ∷ [],
          rw (wide, e1, e) refl,
          omega arith,
        )
        | inr e2 ↦ (
          0xf0 + r / 262144,
          (0x80 + r / 4096 % 64) ∷ (0x80 + r / 64 % 64) ∷ (0x80 + r % 64) ∷ [],
          rw (wide, e1, e2) refl,
          omega arith,
        )
      ]
    ]

-- What the loops over plain bytes go over is a prefix, which decodes to itself.
pub record Run (bs : Bytes) (ws : List Written) : Type 0 where
  pub prefix : Bytes
  pub rest : List Written
  pub written : All IsWritten rest
  pub text : bs ≡ prefix ++ write_all rest
  pub utf : utf8 ws ≡ prefix ++ utf8 rest
  pub stop : skip is_plain bs ≡ write_all rest

stopped :
    (ws : List Written)
    → All IsWritten ws
    → skip is_plain (write_all ws) ≡ write_all ws
    → Run (write_all ws) ws
stopped ws all h = record {
  prefix = [];
  rest = ws;
  written = all;
  text = refl;
  utf = refl;
  stop = h;
}

escaped-slash : (r : ℕ) → (bs : Bytes) × (write (escaped r) ≡ b'\\' ∷ bs)
escaped-slash r = elim (Bool-cases (ltb r 0x10000)) [
  | inl e ↦ (drop 1 (hex_escape r), rw e refl)
  | inr e ↦ (drop 1 (hex_escape (high_half r)) ++ hex_escape (low_half r), rw e refl)
]

skip-at :
    (b : ℕ) (bs x : Bytes) {t : Bytes}
    → t ≡ b ∷ bs
    → is_plain b ≡ false
    → skip is_plain (t ++ x) ≡ t ++ x
unfolding skip
skip-at b bs x eq h = rw (eq, h) refl

pub skip-Run : (ws : List Written) → All IsWritten ws → Run (write_all ws) ws
unfolding skip
skip-Run [] all = stopped [] all refl
skip-Run (escaped r ∷ ws) all =
    let (bs, eq) = escaped-slash r in
    stopped (escaped r ∷ ws) all (skip-at b'\\' bs (write_all ws) eq refl)
skip-Run (plain r ∷ ws) (h, all) = elim (Bool-cases (ltb r 0x80)) [
  | inl ascii ↦
      (let run = skip-Run ws all in
        let one = append_rune-ascii r (ltb→lt r 0x80 ascii) in
        let is_run : is_plain r ≡ true = ground (arith, h.1, h.2, h.3) in
        record {
          prefix = r ∷ run.prefix;
          rest = run.rest;
          written = run.written;
          text = rw one (ap (λ t. r ∷ t) run.text);
          utf = rw one (ap (λ t. r ∷ t) run.utf);
          stop = rw (one, is_run) run.stop;
        })
  | inr high ↦
      (let (b, bs, eq, wide) = append_rune-wide r (ltb-false→le r 0x80 high) in
        stopped (plain r ∷ ws) (h, all) (skip-at b bs (write_all ws) eq (ground arith)))
]
