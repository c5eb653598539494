-- ===== src/StrictJson/Scanner/Steps.antt =====
-- strictjson/strictjson.go: the steps of the scanner over text whose parts are known.
use lattice_sdk.Common.{
  ℕ, ◌+◌, ◌-◌, ◌≤◌, ◌≡◌, refl, ◌∙◌, ap, false, ◌||◌, Option, some, [], ◌∷◌, ◌++◌, ltb, ◌==◌, ==_iff,
  arith,
}
use lattice_sdk.StrictJson.Lexer.{Bytes, starts_with, is_space, literal}
use lattice_sdk.StrictJson.Lexer.NumberParts.{skip-append}
use lattice_sdk.StrictJson.Lexer.Numbers.{is_number_byte}
use lattice_sdk.StrictJson.Grammar.{IsSpace}
use lattice_sdk.StrictJson.Scanner.{Scanner, space, tail, advance, next, enter, entered}
use lattice_sdk.StrictJson.Scanner.After.{is_some_space}

some_space :
    (w r : Bytes)
    → IsSpace w
    → starts_with is_space r ≡ false
    → starts_with is_space (w ++ r) ≡ is_some_space w
some_space [] r iswhite stop = stop
some_space (c ∷ w) r iswhite stop = iswhite.0

pub space-over :
    (s : Scanner) (w r : Bytes)
    → s.rest ≡ w ++ r
    → IsSpace w
    → starts_with is_space r ≡ false
    → space s ≡ record s { rest = r; spaced = s.spaced || is_some_space w }
space-over s w r eq iswhite stop =
    rw (eq, some_space w r iswhite stop, skip-append is_space w r iswhite stop) refl

entered-close :
    (bracket : ℕ) (loop : Scanner → Option Scanner) (s : Scanner) (r : Bytes)
    → s.rest ≡ bracket ∷ r
    → entered bracket loop s ≡ some (record s { rest = r; depth = s.depth - 1 })
unfolding entered
entered-close bracket loop s r eq = rw (eq, (==_iff bracket bracket).1 refl) refl

entered-loop :
    (bracket : ℕ) (loop : Scanner → Option Scanner) (s : Scanner)
    → starts_with (λ x. x == bracket) s.rest ≡ false
    → entered bracket loop s ≡ loop s
unfolding entered
entered-loop bracket loop s h = rw h refl

enter-entered :
    (bracket : ℕ) (loop : Scanner → Option Scanner) (s : Scanner)
    → s.depth + 1 ≤ 512
    → enter bracket loop s
      ≡ entered bracket loop (space (record s { rest = tail s.rest; depth = s.depth + 1 }))
unfolding enter
enter-entered bracket loop s shallow =
    let deep : ltb 512 (s.depth + 1) ≡ false = ground arith in rw deep refl

pub enter-empty :
    (bracket c : ℕ) (loop : Scanner → Option Scanner) (s : Scanner) (w r : Bytes)
    → s.rest ≡ c ∷ w ++ bracket ∷ r
    → s.depth + 1 ≤ 512
    → IsSpace w
    → is_space bracket ≡ false
    → enter bracket loop s ≡ some (record s { rest = r; spaced = s.spaced || is_some_space w })
enter-empty bracket c loop s w r eq shallow iswhite stop =
    enter-entered bracket loop s shallow
    ∙ (ap (entered bracket loop) (
          space-over (record s { rest = tail s.rest; depth = s.depth + 1 }) w (bracket ∷ r)
            (ap tail eq) iswhite stop)
        ∙ (entered-close bracket loop
              (record s {
                rest = bracket ∷ r;
                depth = s.depth + 1;
                spaced = s.spaced || is_some_space w;
              })
              r refl
            ∙ ap
                (λ d. some (record s { rest = r; depth = d; spaced = s.spaced || is_some_space w }))
                (let back : s.depth + 1 - 1 ≡ s.depth = omega arith in back)))

pub enter-loop :
    (bracket c : ℕ) (loop : Scanner → Option Scanner) (s : Scanner) (w body : Bytes)
    → s.rest ≡ c ∷ w ++ body
    → s.depth + 1 ≤ 512
    → IsSpace w
    → starts_with is_space body ≡ false
    → starts_with (λ x. x == bracket) body ≡ false
    → enter bracket loop s
      ≡ loop (record s { rest = body; depth = s.depth + 1; spaced = s.spaced || is_some_space w })
enter-loop bracket c loop s w body eq shallow iswhite stop inside =
    enter-entered bracket loop s shallow
    ∙ (ap (entered bracket loop) (
          space-over (record s { rest = tail s.rest; depth = s.depth + 1 }) w body (ap tail eq)
            iswhite stop)
        ∙ entered-loop bracket loop
            (record s { rest = body; depth = s.depth + 1; spaced = s.spaced || is_some_space w })
            inside)

-- After an element or a member, and space: the closing bracket.
next-last :
    (bracket : ℕ) (loop : Scanner → Option Scanner) (s : Scanner) (r : Bytes)
    → s.rest ≡ bracket ∷ r
    → (bracket == b',') ≡ false
    → next bracket loop s ≡ some (record s { rest = r; depth = s.depth - 1 })
unfolding next
next-last bracket loop s r eq other = rw (eq, other, (==_iff bracket bracket).1 refl) refl

pub next-close :
    (bracket : ℕ) (loop : Scanner → Option Scanner) (s : Scanner) (w r : Bytes)
    → s.rest ≡ w ++ bracket ∷ r
    → IsSpace w
    → is_space bracket ≡ false
    → (bracket == b',') ≡ false
    → next bracket loop (space s)
      ≡ some (record s { rest = r; depth = s.depth - 1; spaced = s.spaced || is_some_space w })
next-close bracket loop s w r eq iswhite stop other =
    ap (next bracket loop) (space-over s w (bracket ∷ r) eq iswhite stop)
    ∙ next-last bracket loop (record s { rest = bracket ∷ r; spaced = s.spaced || is_some_space w })
        r refl other

next-more :
    (bracket : ℕ) (loop : Scanner → Option Scanner) (s : Scanner) (r : Bytes)
    → s.rest ≡ b',' ∷ r
    → next bracket loop s ≡ loop (space (advance s))
unfolding next
next-more bracket loop s r eq = rw eq refl

-- The same: a comma, space and the next one.
pub next-comma :
    (bracket : ℕ) (loop : Scanner → Option Scanner) (s : Scanner) (w w2 body : Bytes)
    → s.rest ≡ w ++ (b',' ∷ w2 ++ body)
    → IsSpace w
    → IsSpace w2
    → starts_with is_space body ≡ false
    → next bracket loop (space s)
      ≡ loop (record s { rest = body; spaced = (s.spaced || is_some_space w) || is_some_space w2 })
next-comma bracket loop s w w2 body eq iswhite iswhite2 stop =
    let s1 : Scanner = record s {
      rest = b',' ∷ w2 ++ body;
      spaced = s.spaced || is_some_space w;
    } in
    ap (next bracket loop) (space-over s w (b',' ∷ w2 ++ body) eq iswhite refl)
    ∙ (next-more bracket loop s1 (w2 ++ body) refl
        ∙ ap loop (space-over (advance s1) w2 body refl iswhite2 stop))

pub literal-append : (word r : Bytes) → literal word (word ++ r) ≡ some r
unfolding literal
literal-append [] r = refl
literal-append (w ∷ word) r = rw ((==_iff w w).1 refl) (literal-append word r)

-- What follows a value is not more of a number.
pub space-no_number :
    (w : Bytes) (c : ℕ) (r : Bytes)
    → IsSpace w
    → is_number_byte c ≡ false
    → starts_with is_number_byte (w ++ c ∷ r) ≡ false
space-no_number [] c r iswhite stop = stop
space-no_number (x ∷ w) c r iswhite stop = ground (arith, iswhite.0)
