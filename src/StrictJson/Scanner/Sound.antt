-- ===== src/StrictJson/Scanner/Sound.antt =====
-- strictjson/strictjson.go: what the scanner goes over is a JSON value of the grammar.
use lattice_sdk.Common.{
  ℕ, zero, suc, ◌≡◌, refl, sym, ◌∙◌, ap, inl, inr, Bool, true, false, ◌||◌, Option, none, some,
  List, [], ◌∷◌, ◌++◌, append_assoc, Bool-cases, ◌==◌, ==_iff, arith, some-injective, All,
}
use lattice_sdk.Common.Options.{bind-eq-some, if-eq-some, guard-eq-some}
use lattice_sdk.StrictJson.Lexer.{
  Bytes, starts_with, is_space, is_digit, skip, literal, Lexeme, str,
}
use lattice_sdk.StrictJson.Lexer.NumberParts.{skip-split}
use lattice_sdk.StrictJson.Lexer.Strings.{str-split}
use lattice_sdk.StrictJson.Grammar.{
  Char, IsChar, print_chars, is_ascii, quoted, Value, true_literal, false_literal, null_literal,
  item, end_array, next_item, member, end_object, next_member,
}
use lattice_sdk.StrictJson.Trees.{
  print, print_items, print_more_items, print_members, print_more_members, IsValue, AreItems,
  AreMoreItems, AreMembers, AreMoreMembers, Decodes,
}
use lattice_sdk.StrictJson.Scanner.{
  Scanner, Keys, no_keys, add_key, space, tail, advance, moved, collect_element, collect_field,
  next, decode_key, read_key, dispatch, value, items, members, has_key,
}
use lattice_sdk.StrictJson.Scanner.KeySet.{Holds, no_keys-Holds, add_key-new}
use lattice_sdk.StrictJson.Scanner.Pieces.{
  starts_with-split, next-split, array-Reads, object-Reads, string-Reads, number-Reads, word-Reads,
  ReadsValue, ReadsItems, ReadsMembers,
}

module _ (parse_float : Bytes → Bool) (unmarshal : Bytes → Option Bytes) where
  dispatch-Reads :
      (mems its : Scanner → Option Scanner) (s s' : Scanner) (bs : Bytes)
      → s.rest ≡ bs
      → ((s1 : Scanner) → its s1 ≡ some s' → ReadsItems parse_float unmarshal s1 s')
      → ((s1 : Scanner) → mems s1 ≡ some s' → ReadsMembers parse_float unmarshal [] s1 s')
      → dispatch parse_float unmarshal mems its s bs ≡ some s'
      → ReadsValue parse_float unmarshal s s'
  unfolding dispatch print IsValue
  dispatch-Reads mems its s s' [] at_bs ii im h = cc
  dispatch-Reads mems its s s' (c ∷ cs) at_bs ii im h = elim (Bool-cases (c == b'{')) [
    | inl e ↦ object-Reads parse_float unmarshal mems s s' (opens b'{' e) im (rw e at h)
    | inr e1 ↦ elim (Bool-cases (c == b'[')) [
      | inl e ↦ array-Reads parse_float unmarshal its s s' (opens b'[' e) ii (rw (e1, e) at h)
      | inr e2 ↦ elim (Bool-cases (c == b'"')) [
        | inl e ↦
            string-Reads parse_float unmarshal s s' cs
              (at_bs ∙ ap (λ x. x ∷ cs) ((==_iff c b'"').0 e)) (rw (e1, e2, e) at h)
        | inr e3 ↦ elim (Bool-cases (c == b't')) [
          | inl e ↦ word true_literal tt (rw (e1, e2, e3, e) at h)
          | inr e4 ↦ elim (Bool-cases (c == b'f')) [
            | inl e ↦ word false_literal tt (rw (e1, e2, e3, e4, e) at h)
            | inr e5 ↦ elim (Bool-cases (c == b'n')) [
              | inl e ↦ word null_literal tt (rw (e1, e2, e3, e4, e5, e) at h)
              | inr e6 ↦
                  number-Reads parse_float unmarshal s s' (c ∷ cs) at_bs
                    (if-eq-some (c == b'-' || is_digit c) _ s' (rw (e1, e2, e3, e4, e5, e6) at h)).1
            ]
          ]
        ]
      ]
    ]
  ]
    where
      opens : (b : ℕ) → (c == b) ≡ true → s.rest ≡ b ∷ tail s.rest
      opens b e = rw at_bs (ap (λ x. x ∷ cs) ((==_iff c b).0 e))

      word :
          (t : Value)
          → IsValue parse_float unmarshal s.depth t
          → moved s (literal (print t) (c ∷ cs)) ≡ some s'
          → ReadsValue parse_float unmarshal s s'
      word t ist h = word-Reads parse_float unmarshal s s' (c ∷ cs) t ist at_bs h

  decode_key-Decodes :
      (l : Lexeme) (cs : List Char) (key : Bytes)
      → l.contents ≡ print_chars cs
      → l.plain ≡ is_ascii cs
      → decode_key parse_float unmarshal l ≡ some key
      → Decodes parse_float unmarshal cs key
  unfolding decode_key
  decode_key-Decodes l cs key contents plain h = elim (Bool-cases (is_ascii cs)) [
    | inl e ↦ inl (e, sym (some-injective l.contents key (rw (plain ∙ e) at h)) ∙ contents)
    | inr e ↦ inr (e, rw (plain ∙ e, contents) at h)
  ]

  read_key-split :
      (bs : Bytes) (key r : Bytes)
      → read_key parse_float unmarshal bs ≡ some (key, r)
      → (cs : List Char) × All IsChar cs
        × (bs ≡ quoted cs ++ r)
        × Decodes parse_float unmarshal cs key
  unfolding read_key
  read_key-split [] key r h = cc
  read_key-split (c ∷ bs) key r h = elim (Bool-cases (c == b'"')) [
    | inr e ↦ absurd (let bad : none ≡ some (key, r) = rw e at h in cc)
    | inl e ↦
        (let (l, read, h1) = bind-eq-some (str bs) _ (key, r) (rw e at h) in
          let (k, decoded, h2) = bind-eq-some (decode_key parse_float unmarshal l) _ (key, r) h1 in
          let (cs, are, split, contents, plain) = str-split bs l read in
          let pair = some-injective (k, l.rest) (key, r) h2 in
          (
            cs,
            are,
            rw append_assoc (
                ap (λ x. x ∷ bs) ((==_iff c b'"').0 e)
                ∙ ap (λ t. b'"' ∷ t)
                    (split ∙ ap (λ t. print_chars cs ++ b'"' ∷ t) (ap (λ p. p.1) pair))),
            decode_key-Decodes l cs key contents plain (decoded ∙ ap (λ p. some p.0) pair),
          ))
  ]

  -- An element that was read, and what `next` makes of the rest.
  item-Reads :
      (loop : Scanner → Option Scanner) (s s1 s' : Scanner)
      → ReadsValue parse_float unmarshal s s1
      → ((s2 : Scanner) → loop s2 ≡ some s' → ReadsItems parse_float unmarshal s2 s')
      → next b']' loop (space (collect_element s s1)) ≡ some s'
      → ReadsItems parse_float unmarshal s s'
  unfolding print_items print_more_items AreItems AreMoreItems collect_element
  item-Reads loop s s1 s' (t, eq, depth, ist) ih h =
      let (w, iswhite, white) = skip-split is_space s1.rest in
      elim (next-split b']' loop (space (collect_element s s1)) s' h) [
        | inl (w2, s2, iswhite2, split, same, read) ↦
            (let (more, eq2, back, are) = ih s2 read in
              (
                item t w (next_item w2 more),
                eq
                    ∙ (ap (λ x. print t ++ x)
                          (white ∙ ap (λ x. w ++ x) (split ∙ ap (λ x. b',' ∷ w2 ++ x) eq2))
                        ∙ simp append_assoc),
                omega arith,
                (ist, iswhite, (iswhite2, rw (same ∙ depth) at are)),
              ))
        | inr (split, back) ↦ (
          item t w end_array,
          eq ∙ (ap (λ x. print t ++ x) (white ∙ ap (λ x. w ++ x) split) ∙ simp append_assoc),
          omega arith,
          (ist, iswhite, tt),
        )
      ]

  -- A member that was read, likewise: its key `cs`, and the spaces round the colon.
  member-Reads :
      (loop : Scanner → Option Scanner) (s s1 s2 s3 s' : Scanner) (cs : List Char) (key r : Bytes)
      (earlier : List Bytes)
      → All IsChar cs
      → Decodes parse_float unmarshal cs key
      → has_key earlier key ≡ false
      → s.rest ≡ quoted cs ++ r
      → s1 ≡ space (record s { rest = r })
      → starts_with (λ c. c == b':') s1.rest ≡ true
      → s2 ≡ space (advance s1)
      → ReadsValue parse_float unmarshal s2 s3
      → ((s4 : Scanner)
          → loop s4 ≡ some s'
          → ReadsMembers parse_float unmarshal (key ∷ earlier) s4 s')
      → next b'}' loop (space (collect_field key s2 s3)) ≡ some s'
      → ReadsMembers parse_float unmarshal earlier s s'
  unfolding print_members print_more_members AreMembers AreMoreMembers collect_field
  member-Reads loop s s1 s2 s3 s' cs key r earlier chars decodes new eq0 e1 colon e2 read ih h =
      let (t, eq, depth, ist) = read in
      let (w1, iswhite1, white1) = skip-split is_space r in
      let (w2, iswhite2, white2) = skip-split is_space (tail s1.rest) in
      let (w3, iswhite3, white3) = skip-split is_space s3.rest in
      let depth2 : s2.depth ≡ s.depth =
        ap (λ (x : Scanner). x.depth) e2 ∙ ap (λ (x : Scanner). x.depth) e1 in
      let value_at : tail s1.rest ≡ w2 ++ (print t ++ (w3 ++ skip is_space s3.rest)) =
        white2
        ∙ ap (λ x. w2 ++ x)
            (sym (ap (λ (x : Scanner). x.rest) e2) ∙ (eq ∙ ap (λ x. print t ++ x) white3)) in
      let split0 : s.rest
          ≡ quoted cs ++ (w1 ++ b':' ∷ (w2 ++ (print t ++ (w3 ++ skip is_space s3.rest)))) =
        eq0
        ∙ ap (λ x. quoted cs ++ x)
            (white1
              ∙ ap (λ x. w1 ++ x)
                  (sym (ap (λ (x : Scanner). x.rest) e1)
                    ∙ (starts_with-split b':' s1.rest colon ∙ ap (λ x. b':' ∷ x) value_at))) in
      elim (next-split b'}' loop (space (collect_field key s2 s3)) s' h) [
        | inl (w4, s4, iswhite4, split, same, again) ↦
            (let (more, eq4, back, are) = ih s4 again in
              (
                member cs w1 w2 t w3 (next_member w4 more),
                rw (split ∙ ap (λ x. b',' ∷ w4 ++ x) eq4) at split0 ∙ simp append_assoc,
                omega arith,
                (
                  chars,
                  iswhite1,
                  iswhite2,
                  rw depth2 at ist,
                  iswhite3,
                  (key, decodes, new, (iswhite4, rw (same ∙ (depth ∙ depth2)) at are)),
                ),
              ))
        | inr (split, back) ↦ (
          member cs w1 w2 t w3 end_object,
          rw split at split0 ∙ simp append_assoc,
          omega arith,
          (chars, iswhite1, iswhite2, rw depth2 at ist, iswhite3, (key, decodes, new, tt)),
        )
      ]

  mutual
    unfolding value items members

    pub value-Reads :
        (f : ℕ) (s s' : Scanner)
        → value parse_float unmarshal f s ≡ some s'
        → ReadsValue parse_float unmarshal s s'
    value-Reads zero s s' h = cc
    value-Reads (suc f) s s' h =
        dispatch-Reads (members parse_float unmarshal f no_keys) (items parse_float unmarshal f) s
          s' s.rest refl (λ s1. items-Reads f s1 s')
          (λ s1. members-Reads f no_keys [] s1 s' no_keys-Holds) h

    items-Reads :
        (f : ℕ) (s s' : Scanner)
        → items parse_float unmarshal f s ≡ some s'
        → ReadsItems parse_float unmarshal s s'
    items-Reads zero s s' h = cc
    items-Reads (suc f) s s' h =
        let (s1, read, rest) = bind-eq-some (value parse_float unmarshal f s) _ s' h in
        item-Reads (items parse_float unmarshal f) s s1 s' (value-Reads f s s1 read)
          (λ s2. items-Reads f s2 s') rest

    members-Reads :
        (f : ℕ) (ks : Keys) (earlier : List Bytes) (s s' : Scanner)
        → Holds ks earlier
        → members parse_float unmarshal f ks s ≡ some s'
        → ReadsMembers parse_float unmarshal earlier s s'
    members-Reads zero ks earlier s s' holds h = cc
    members-Reads (suc f) ks earlier s s' holds h =
        let ((key, r), keyed, h1) = bind-eq-some (read_key parse_float unmarshal s.rest) _ s' h in
        let (cs, chars, split, decodes) = read_key-split s.rest key r keyed in
        let (ks', added, h2) = bind-eq-some (add_key key ks) _ s' h1 in
        let (new, holds') = add_key-new key ks ks' earlier holds added in
        let s1 : Scanner = space (record s { rest = r }) in
        let (colon, h3) = guard-eq-some (starts_with (λ c. c == b':') s1.rest) _ s' h2 in
        let s2 : Scanner = space (advance s1) in
        let (s3, read, h4) = bind-eq-some (value parse_float unmarshal f s2) _ s' h3 in
        member-Reads (members parse_float unmarshal f ks') s s1 s2 s3 s' cs key r earlier chars
          decodes new split refl colon refl (value-Reads f s2 s3 read)
          (λ s4. members-Reads f ks' (key ∷ earlier) s4 s' holds') h4
