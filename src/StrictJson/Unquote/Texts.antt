-- ===== src/StrictJson/Unquote/Texts.antt =====
-- strictjson/unquote.go: `String` on a text of code points, each written out or as an escape.
use lattice_sdk.Common.{
  ℕ, zero, suc, ◌≤◌, ◌<◌, ◌≡◌, refl, sym, ◌∙◌, ap, inl, inr, false, ◌||◌, some, some-injective,
  List, [], ◌∷◌, ◌++◌, length, length-append, All, Bool-cases, ltb, ltb→lt, ltb-false→le, ◌==◌,
  arith,
}
use lattice_sdk.Common.Bytes.{take-append, drop-append}
use lattice_sdk.StrictJson.Lexer.{Bytes, between, skip}
use lattice_sdk.StrictJson.Lexer.NumberParts.{between-append}
use lattice_sdk.StrictJson.Unquote.{
  append_rune, rune_size, is_plain, Round, escape_with, escape_round, high_round, round, unescape,
  decoded, unquoted, string,
}
use lattice_sdk.StrictJson.Unquote.Literals.{string-quoted, nothing_left}
use lattice_sdk.StrictJson.Unquote.Progress.{length-skip, short_escape-u}
use lattice_sdk.StrictJson.Unquote.Runes.{
  hex_escape, high_half, low_half, hex4-hex_escape, unicode_round-bmp, unicode_round-pair,
  rune_size-append_rune,
}
use lattice_sdk.StrictJson.Unquote.Written.{
  Written, plain, escaped, IsWritten, write_all, utf8, append_rune-ascii, append_rune-wide,
  skip-Run,
}

-- What a round makes of the next code points.
record Step (w : Written) (ws : List Written) : Type 0 where
  result : Round
  rest : List Written
  written : All IsWritten rest
  read : round (write_all (w ∷ ws)) ≡ some result
  left : result.1 ≡ write_all rest
  utf : utf8 (w ∷ ws) ≡ result.0 ++ utf8 rest
  short : length result.1 < length (write_all (w ∷ ws))

round-wide :
    (s : Bytes) (b : ℕ) (bs : Bytes) → s ≡ b ∷ bs → 0x80 ≤ b → round s ≡ some (high_round s)
unfolding round
round-wide s b bs eq wide =
    let bare : (b == b'\\') ≡ false = ground arith in
    let inside : (b == b'"' || ltb b 0x20) ≡ false = ground arith in
    let high : ltb b 0x80 ≡ false = ground arith in rw (eq, bare, inside, high) refl

high_round-rune :
    (t x : Bytes) → rune_size (t ++ x) ≡ length t → 1 ≤ length t → high_round (t ++ x) ≡ (t, x)
unfolding high_round
high_round-rune t x size long =
    let more : (length t == 0) ≡ false = ground arith in
    rw (size, more, take-append (length t) t x refl, drop-append (length t) t x refl) refl

plain-Step :
    (r : ℕ) (ws : List Written) → IsWritten (plain r) → All IsWritten ws → Step (plain r) ws
unfolding round
plain-Step r ws h all = elim (Bool-cases (ltb r 0x80)) [
  | inl ascii ↦
      (let run = skip-Run ws all in
        let one = append_rune-ascii r (ltb→lt r 0x80 ascii) in
        let bare : (r == b'\\') ≡ false = ground (arith, h.3) in
        let inside : (r == b'"' || ltb r 0x20) ≡ false = ground (arith, h.1, h.2) in
        let written_out : between (r ∷ write_all ws) (skip is_plain (write_all ws))
            ≡ r ∷ run.prefix =
          rw run.stop (
            ap (λ x. between (r ∷ x) (write_all run.rest)) run.text
            ∙ between-append (r ∷ run.prefix) (write_all run.rest)) in
        record {
          result = (r ∷ run.prefix, write_all run.rest);
          rest = run.rest;
          written = run.written;
          read = rw (one, bare, inside, ascii, written_out, run.stop) refl;
          left = refl;
          utf = rw one (ap (λ t. r ∷ t) run.utf);
          short =
              rw one
                (omega (arith, ap length run.text, length-append run.prefix (write_all run.rest)));
        })
  | inr high ↦
      (let (b, bs, eq, wide) = append_rune-wide r (ltb-false→le r 0x80 high) in
        let size = rune_size-append_rune r (write_all ws) h.0 (ltb-false→le r 0x80 high) in
        let long : 1 ≤ length (append_rune r) = omega (arith, ap length eq) in
        record {
          result = (append_rune r, write_all ws);
          rest = ws;
          written = all;
          read =
              round-wide (append_rune r ++ write_all ws) b (bs ++ write_all ws)
                (ap (λ t. t ++ write_all ws) eq) wide
              ∙ ap some (high_round-rune (append_rune r) (write_all ws) size long);
          left = refl;
          utf = refl;
          short = omega (arith, length-append (append_rune r) (write_all ws));
        })
]

escaped-Step :
    (r : ℕ) (ws : List Written) → IsWritten (escaped r) → All IsWritten ws → Step (escaped r) ws
unfolding round escape_round escape_with
escaped-Step r ws h all = elim (Bool-cases (ltb r 0x10000)) [
  | inl bmp ↦ record {
    result = (append_rune r, write_all ws);
    rest = ws;
    written = all;
    read =
        rw (bmp, short_escape-u, hex4-hex_escape r (write_all ws) (ground arith))
          (ap some (unicode_round-bmp r (write_all ws) h (ground arith)));
    left = refl;
    utf = refl;
    short = rw bmp (omega arith);
  }
  | inr astral ↦ record {
    result = (append_rune r, write_all ws);
    rest = ws;
    written = all;
    read =
        rw (astral, short_escape-u)
          (rw
            (hex4-hex_escape (high_half r) (hex_escape (low_half r) ++ write_all ws)
              (omega (arith, h.0)))
            (ap some (unicode_round-pair r (write_all ws) h.0 (ltb-false→le r 0x10000 astral))));
    left = refl;
    utf = refl;
    short = rw astral (omega arith);
  }
]

Written-Step : (w : Written) (ws : List Written) → IsWritten w → All IsWritten ws → Step w ws
Written-Step (plain r) ws h all = plain-Step r ws h all
Written-Step (escaped r) ws h all = escaped-Step r ws h all

unescape-utf8 :
    (f : ℕ) (bs : Bytes) (ws : List Written)
    → All IsWritten ws
    → bs ≡ write_all ws
    → length bs ≤ f
    → unescape f bs ≡ some (utf8 ws)
unfolding unescape
unescape-utf8 f [] [] all eq fuel = refl
unescape-utf8 f (b ∷ bs) [] all eq fuel = absurd (let bad : b ∷ bs ≡ [] = eq in cc)
unescape-utf8 f [] (w ∷ ws) (h, all) eq fuel =
    absurd (omega (arith, (Written-Step w ws h all).short, ap length eq))
unescape-utf8 zero (b ∷ bs) (w ∷ ws) all eq fuel = absurd (omega arith)
unescape-utf8 (suc f) (b ∷ bs) (w ∷ ws) (h, all) eq fuel =
    let s = Written-Step w ws h all in
    let read : round (b ∷ bs) ≡ some s.result = ap round eq ∙ s.read in
    let later =
      unescape-utf8 f s.result.1 s.rest s.written s.left (omega (arith, s.short, ap length eq)) in
    rw (read, later) (ap some (sym s.utf))

unescape-nil : some [] ≡ unescape 0 []
unfolding unescape
unescape-nil = refl

unquoted-utf8 : (ws : List Written) → All IsWritten ws → unquoted (write_all ws) ≡ some (utf8 ws)
unfolding unquoted decoded
unquoted-utf8 ws all =
    let run = skip-Run ws all in
    let w = write_all ws in
    elim (Bool-cases (length (skip is_plain w) == 0)) [
      | inl done ↦
          (let ended : write_all run.rest ≡ [] =
              sym run.stop ∙ nothing_left (skip is_plain w) done in
            let empty = unescape-utf8 0 [] run.rest run.written (sym ended) (omega arith) in
            rw done (
              ap some (
                run.text
                ∙ (ap (λ x. run.prefix ++ x)
                      (ended ∙ some-injective [] (utf8 run.rest) (unescape-nil ∙ empty))
                    ∙ sym run.utf))))
      | inr more ↦
          (let later =
              unescape-utf8 (length w) (skip is_plain w) run.rest run.written run.stop
                (length-skip is_plain w) in
            let before : between w (skip is_plain w) ≡ run.prefix = rw run.stop (
              ap (λ x. between x (write_all run.rest)) run.text
              ∙ between-append run.prefix (write_all run.rest)) in
            rw (more, later) (ap some (ap (λ x. x ++ utf8 run.rest) before ∙ sym run.utf)))
    ]

-- `String` decodes any text of Unicode scalar values to its UTF-8, however each of them is written:
-- as itself, unless it is a quote, a backslash or a control character, or as a \u escape, which is a
-- surrogate pair above U+FFFF.
pub string-utf8 :
    (ws : List Written)
    → All IsWritten ws
    → string (b'"' ∷ write_all ws ++ b'"' ∷ []) ≡ some (utf8 ws)
string-utf8 ws all = string-quoted (write_all ws) ∙ unquoted-utf8 ws all
