-- ===== src/StrictJson/Unquote/Literals.antt =====
-- strictjson/unquote.go: the literals that `String` decodes.
use lattice_sdk.Common.{
  ℕ, zero, suc, ◌+◌, ◌-◌, ◌≡◌, ◌↔◌, refl, ◌∙◌, ap, inl, inr, true, false, not, ◌||◌, some, List, [],
  ◌∷◌, ◌++◌, append-nil, length, length-append, take, All, Bool-cases, ltb, ◌==◌, ==_iff, arith,
}
use lattice_sdk.Common.Bytes.{take-append}
use lattice_sdk.Common.Options.{bind-eq-some, unless-eq-some}
use lattice_sdk.StrictJson.Lexer.{Bytes, between, starts_with, skip}
use lattice_sdk.StrictJson.Lexer.NumberParts.{skip-split}
use lattice_sdk.StrictJson.Grammar.{Char, IsChar, print_chars, quoted}
use lattice_sdk.StrictJson.Unquote.{
  tail, is_plain, round, unescape, decoded, unquoted, last_is, string,
}
use lattice_sdk.StrictJson.Unquote.Rounds.{Chars, Chars-trans, plain-Chars, round-Chars}
use lattice_sdk.StrictJson.Unquote.Progress.{length-skip, skip-AreChars, unescape-some}

unescape-Chars : (f : ℕ) (bs out : Bytes) → unescape f bs ≡ some out → Chars bs []
unfolding unescape
unescape-Chars f [] out h = ([], tt, refl)
unescape-Chars zero (c ∷ cs) out h = cc
unescape-Chars (suc f) (c ∷ cs) out h =
    let (p, read, h1) = bind-eq-some (round (c ∷ cs)) _ out h in
    let (more, later, h2) = bind-eq-some (unescape f p.1) _ out h1 in
    Chars-trans (c ∷ cs) p.1 [] (round-Chars (c ∷ cs) p read) (unescape-Chars f p.1 more later)

decoded-Chars : (s out : Bytes) → decoded s ≡ some out → Chars s []
unfolding decoded
decoded-Chars s out h =
    let (more, later, h1) = bind-eq-some (unescape (length s) (skip is_plain s)) _ out h in
    let (w, plain, split) = skip-split is_plain s in
    let (cs, chars, eq) = plain-Chars w (skip is_plain s) plain in
    Chars-trans s (skip is_plain s) [] (cs, chars, split ∙ eq)
      (unescape-Chars (length s) (skip is_plain s) more later)

decoded-some :
    (cs : List Char) → All IsChar cs → (out : Bytes) × (decoded (print_chars cs) ≡ some out)
unfolding decoded
decoded-some cs all =
    let s = print_chars cs in
    let (out, read) =
      unescape-some (length s) (skip is_plain s) (skip-AreChars cs all) (length-skip is_plain s) in
    (between s (skip is_plain s) ++ out, rw read refl)

pub nothing_left : (bs : Bytes) → (length bs == 0) ≡ true → bs ≡ []
nothing_left [] h = refl
nothing_left (c ∷ bs) h = absurd (ground arith)

unquoted-Chars : (s out : Bytes) → unquoted s ≡ some out → Chars s []
unfolding unquoted
unquoted-Chars s out h = elim (Bool-cases (length (skip is_plain s) == 0)) [
  | inr more ↦ decoded-Chars s out (rw more at h)
  | inl done ↦
      (let (w, plain, split) = skip-split is_plain s in
        let (cs, chars, eq) = plain-Chars w (skip is_plain s) plain in
        (
          cs,
          chars,
          split ∙ (eq ∙ ap (λ x. print_chars cs ++ x) (nothing_left (skip is_plain s) done)),
        ))
]

unquoted-some :
    (cs : List Char) → All IsChar cs → (out : Bytes) × (unquoted (print_chars cs) ≡ some out)
unfolding unquoted
unquoted-some cs all = elim (Bool-cases (length (skip is_plain (print_chars cs)) == 0)) [
  | inl done ↦ (print_chars cs, rw done refl)
  | inr more ↦ (let (out, e) = decoded-some cs all in (out, rw more e))
]

last-split : (c : ℕ) (bs : Bytes) → last_is c bs ≡ true → bs ≡ take (length bs - 1) bs ++ c ∷ []
last-split c [] h = cc
last-split c (x ∷ []) h = ap (λ y. y ∷ []) ((==_iff x c).0 h)
last-split c (x ∷ y ∷ bs) h =
    let e : length (x ∷ y ∷ bs) - 1 ≡ suc (length (y ∷ bs) - 1) = omega arith in
    rw e (ap (λ t. x ∷ t) (last-split c (y ∷ bs) h))

last-concat : (c : ℕ) (bs : Bytes) → last_is c (bs ++ c ∷ []) ≡ true
last-concat c [] = (==_iff c c).1 refl
last-concat c (x ∷ []) = (==_iff c c).1 refl
last-concat c (x ∷ y ∷ bs) = last-concat c (y ∷ bs)

-- What the three tests on `raw` say: it is `s` between quotes.
quotes-split :
    (raw : Bytes)
    → (ltb (length raw) 2 || not (starts_with (λ c. c == b'"') raw) || not (last_is b'"' raw))
      ≡ false
    → raw ≡ b'"' ∷ take (length raw - 2) (tail raw) ++ b'"' ∷ []
quotes-split [] h = absurd (ground arith)
quotes-split (q ∷ []) h = absurd (ground arith)
quotes-split (q ∷ x ∷ bs) h =
    let first : (q == b'"') ≡ true = ground arith in
    let last : last_is b'"' (x ∷ bs) ≡ true = ground arith in
    let e : length (q ∷ x ∷ bs) - 2 ≡ length (x ∷ bs) - 1 = omega arith in
    rw e (
      ap (λ y. y ∷ x ∷ bs) ((==_iff q b'"').0 first)
      ∙ ap (λ t. b'"' ∷ t) (last-split b'"' (x ∷ bs) last))

pub string-quoted : (s : Bytes) → string (b'"' ∷ s ++ b'"' ∷ []) ≡ unquoted s
unfolding string
string-quoted s =
    let inner = s ++ b'"' ∷ [] in
    let long : length inner ≡ length s + 1 = length-append s (b'"' ∷ []) in
    let two : ltb (length (b'"' ∷ inner)) 2 ≡ false = ground arith in
    rw
      (
        two,
        last-concat b'"' (b'"' ∷ s),
        take-append (length (b'"' ∷ inner) - 2) s (b'"' ∷ []) (omega arith),
      )
      refl

-- `String` decodes exactly the literals of the JSON grammar: characters, each of them a byte that
-- is not a quote, a backslash or a control byte, or an escape, between two quotes.
pub string_iff :
    (raw : Bytes)
    → ((out : Bytes) × (string raw ≡ some out))
      ↔ ((cs : List Char) × All IsChar cs × (raw ≡ quoted cs))
unfolding string
string_iff raw = (
  (λ (out, h).
      let (quotes, h1) =
        unless-eq-some
          (ltb (length raw) 2 || not (starts_with (λ c. c == b'"') raw) || not (last_is b'"' raw)) _
          out h in
      let s = take (length raw - 2) (tail raw) in
      let (cs, chars, eq) = unquoted-Chars s out h1 in
      (
        cs,
        chars,
        quotes-split raw quotes
            ∙ ap (λ x. b'"' ∷ x ++ b'"' ∷ []) (eq ∙ append-nil (print_chars cs)),
      )),
  (λ (cs, chars, eq).
      let (out, e) = unquoted-some cs chars in
      (out, ap string eq ∙ string-quoted (print_chars cs) ∙ e)),
)
