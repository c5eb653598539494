-- ===== src/StrictJson/Scanner/Pieces.antt =====
-- strictjson/strictjson.go: what the parts of the scanner's calls go over.
use lattice_sdk.Common.{
  ℕ, ◌+◌, ◌-◌, ◌≤◌, ◌≡◌, refl, sym, ◌∙◌, ap, ◌⊎◌, inl, inr, Bool, true, Option, none, some, List,
  [], ◌∷◌, ◌++◌, append_assoc, Bool-cases, Option-cases, ltb, ◌==◌, ==_iff, arith, some-injective,
  ltb-false→le,
}
use lattice_sdk.Common.Options.{if-eq-some, unless-eq-some}
use lattice_sdk.StrictJson.Lexer.{Bytes, starts_with, is_space, literal, str, number}
use lattice_sdk.StrictJson.Lexer.NumberParts.{skip-split}
use lattice_sdk.StrictJson.Lexer.Numbers.{number-split}
use lattice_sdk.StrictJson.Lexer.Strings.{str-split}
use lattice_sdk.StrictJson.Grammar.{
  IsSpace, print_chars, Value, string, empty_array, empty_object, array, object, Items, Members,
}
use lattice_sdk.StrictJson.Trees.{print, print_items, print_members, IsValue, AreItems, AreMembers}
use lattice_sdk.StrictJson.Scanner.{
  Scanner, space, tail, advance, moved, after_string, close, next, enter, entered,
}

pub starts_with-split :
    (b : ℕ) (bs : Bytes) → starts_with (λ c. c == b) bs ≡ true → bs ≡ b ∷ tail bs
starts_with-split b [] h = cc
starts_with-split b (c ∷ bs) h = ap (λ x. x ∷ bs) ((==_iff c b).0 h)

-- What `next` goes over: a comma and space before the loop, or the closing bracket.
pub next-split :
    (bracket : ℕ) (loop : Scanner → Option Scanner) (s s' : Scanner)
    → next bracket loop s ≡ some s'
    → ((w : Bytes) × (s1 : Scanner) × IsSpace w
        × (s.rest ≡ b',' ∷ w ++ s1.rest)
        × (s1.depth ≡ s.depth)
        × (loop s1 ≡ some s'))
      ⊎ ((s.rest ≡ bracket ∷ s'.rest) × (s'.depth ≡ s.depth - 1))
unfolding next
next-split bracket loop s s' h = elim (Bool-cases (starts_with (λ c. c == b',') s.rest)) [
  | inl comma ↦
      (let (w, iswhite, eq) = skip-split is_space (tail s.rest) in
        inl (
          w,
          space (advance s),
          iswhite,
          starts_with-split b',' s.rest comma ∙ ap (λ t. b',' ∷ t) eq,
          refl,
          rw comma at h,
        ))
  | inr last ↦
      (let (closing, eq) =
          if-eq-some (starts_with (λ c. c == bracket) s.rest) _ s' (rw last at h) in
        let same = some-injective (close s) s' eq in
        inr (
          starts_with-split bracket s.rest closing ∙ ap (λ (t : Scanner). bracket ∷ t.rest) same,
          sym (ap (λ (t : Scanner). t.depth) same),
        ))
]

-- What `enter` goes over: the opening bracket and space, then the closing one or the loop.
enter-split :
    (bracket : ℕ) (loop : Scanner → Option Scanner) (s s' : Scanner)
    → enter bracket loop s ≡ some s'
    → (s.depth + 1 ≤ 512)
      × ((w : Bytes) × IsSpace w
          × (((tail s.rest ≡ w ++ bracket ∷ s'.rest) × (s'.depth ≡ s.depth))
              ⊎ ((s1 : Scanner) × (tail s.rest ≡ w ++ s1.rest)
                  × (s1.depth ≡ s.depth + 1)
                  × (loop s1 ≡ some s'))))
unfolding enter entered
enter-split bracket loop s s' h =
    let (shallow, eq) = unless-eq-some (ltb 512 (s.depth + 1)) _ s' h in
    let s1 : Scanner = space (record s { rest = tail s.rest; depth = s.depth + 1 }) in
    let (w, iswhite, split) = skip-split is_space (tail s.rest) in
    (
      ltb-false→le 512 (s.depth + 1) shallow,
      (
        w,
        iswhite,
        elim (Bool-cases (starts_with (λ c. c == bracket) s1.rest)) [
          | inl empty ↦
              (let same = some-injective (close s1) s' (rw empty at eq) in
                inl (
                  split
                      ∙ ap (λ t. w ++ t)
                          (starts_with-split bracket s1.rest empty
                            ∙ ap (λ (t : Scanner). bracket ∷ t.rest) same),
                  omega (arith, ap (λ (t : Scanner). t.depth) same),
                ))
          | inr more ↦ inr (s1, split, refl, rw more at eq)
        ],
      ),
    )

pub literal-split : (word bs r : Bytes) → literal word bs ≡ some r → bs ≡ word ++ r
unfolding literal
literal-split [] bs r h = some-injective bs r h
literal-split (w ∷ word) [] r h = cc
literal-split (w ∷ word) (b ∷ bs) r h =
    let (same, eq) = if-eq-some (b == w) _ r h in
    rw ((==_iff b w).0 same) (ap (λ t. w ∷ t) (literal-split word bs r eq))

module _ (parse_float : Bytes → Bool) (unmarshal : Bytes → Option Bytes) where
  -- What one call went over.
  abbrev pub ReadsValue : Scanner → Scanner → Type 0
  ReadsValue s s' =
      (t : Value) × (s.rest ≡ print t ++ s'.rest)
      × (s'.depth ≡ s.depth)
      × IsValue parse_float unmarshal s.depth t

  abbrev pub ReadsItems : Scanner → Scanner → Type 0
  ReadsItems s s' =
      (t : Items) × (s.rest ≡ print_items t ++ s'.rest)
      × (s'.depth ≡ s.depth - 1)
      × AreItems parse_float unmarshal s.depth t

  abbrev pub ReadsMembers : List Bytes → Scanner → Scanner → Type 0
  ReadsMembers earlier s s' =
      (t : Members) × (s.rest ≡ print_members t ++ s'.rest)
      × (s'.depth ≡ s.depth - 1)
      × AreMembers parse_float unmarshal s.depth earlier t

  pub array-Reads :
      (loop : Scanner → Option Scanner) (s s' : Scanner)
      → s.rest ≡ b'[' ∷ tail s.rest
      → ((s1 : Scanner) → loop s1 ≡ some s' → ReadsItems s1 s')
      → enter b']' loop s ≡ some s'
      → ReadsValue s s'
  unfolding print IsValue
  array-Reads loop s s' opening ih h =
      let (shallow, (w, iswhite, cases)) = enter-split b']' loop s s' h in
      elim cases [
        | inl (split, depth) ↦ (
          empty_array w,
          rw append_assoc (opening ∙ ap (λ t. b'[' ∷ t) split),
          depth,
          (shallow, iswhite),
        )
        | inr (s1, split, depth, read) ↦
            (let (t, eq, back, are) = ih s1 read in
              (
                array w t,
                rw append_assoc (opening ∙ ap (λ x. b'[' ∷ x) (split ∙ ap (λ x. w ++ x) eq)),
                omega arith,
                (shallow, iswhite, rw depth at are),
              ))
      ]

  pub object-Reads :
      (loop : Scanner → Option Scanner) (s s' : Scanner)
      → s.rest ≡ b'{' ∷ tail s.rest
      → ((s1 : Scanner) → loop s1 ≡ some s' → ReadsMembers [] s1 s')
      → enter b'}' loop s ≡ some s'
      → ReadsValue s s'
  unfolding print IsValue
  object-Reads loop s s' opening ih h =
      let (shallow, (w, iswhite, cases)) = enter-split b'}' loop s s' h in
      elim cases [
        | inl (split, depth) ↦ (
          empty_object w,
          rw append_assoc (opening ∙ ap (λ t. b'{' ∷ t) split),
          depth,
          (shallow, iswhite),
        )
        | inr (s1, split, depth, read) ↦
            (let (t, eq, back, are) = ih s1 read in
              (
                object w t,
                rw append_assoc (opening ∙ ap (λ x. b'{' ∷ x) (split ∙ ap (λ x. w ++ x) eq)),
                omega arith,
                (shallow, iswhite, rw depth at are),
              ))
      ]

  pub string-Reads :
      (s s' : Scanner) (cs : Bytes)
      → s.rest ≡ b'"' ∷ cs
      → after_string s (str cs) ≡ some s'
      → ReadsValue s s'
  unfolding print IsValue
  string-Reads s s' cs opening h = elim (Option-cases (str cs)) [
    | inl e ↦ absurd (let bad : none ≡ some s' = rw e at h in cc)
    | inr (l, e) ↦
        (let (chars, are, split, contents, plain) = str-split cs l e in
          let same = some-injective (record s { rest = l.rest }) s' (rw e at h) in
          let back = ap (λ (t : Scanner). t.rest) same in
          (
            string chars,
            rw append_assoc (
                opening
                ∙ ap (λ t. b'"' ∷ t) (split ∙ ap (λ t. print_chars chars ++ b'"' ∷ t) back)),
            sym (ap (λ (t : Scanner). t.depth) same),
            are,
          ))
  ]

  moved-split :
      (s s' : Scanner) (o : Option Bytes)
      → moved s o ≡ some s'
      → (o ≡ some s'.rest) × (s'.depth ≡ s.depth)
  moved-split s s' none h = cc
  moved-split s s' (some r) h =
      let same = some-injective (record s { rest = r }) s' h in
      (ap (λ (t : Scanner). some t.rest) same, sym (ap (λ (t : Scanner). t.depth) same))

  pub number-Reads :
      (s s' : Scanner) (bs : Bytes)
      → s.rest ≡ bs
      → moved s (number parse_float bs) ≡ some s'
      → ReadsValue s s'
  unfolding print IsValue
  number-Reads s s' bs at_bs h =
      let (read, depth) = moved-split s s' (number parse_float bs) h in
      let (n, split, whole, fraction, exponent, float) = number-split parse_float bs s'.rest read in
      (
        Value.number n,
        at_bs ∙ split,
        depth,
        record { whole = whole; fraction = fraction; exponent = exponent; float = float },
      )

  pub word-Reads :
      (s s' : Scanner) (bs : Bytes) (t : Value)
      → IsValue parse_float unmarshal s.depth t
      → s.rest ≡ bs
      → moved s (literal (print t) bs) ≡ some s'
      → ReadsValue s s'
  word-Reads s s' bs t ist at_bs h =
      let (read, depth) = moved-split s s' (literal (print t) bs) h in
      (t, at_bs ∙ literal-split (print t) bs s'.rest read, depth, ist)
