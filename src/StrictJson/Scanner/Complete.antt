-- ===== src/StrictJson/Scanner/Complete.antt =====
-- strictjson/strictjson.go: the scanner goes over every JSON value of the grammar, and its state
-- afterwards is the one of Scanner.After.
use mathlib.Core.Bool.{or-false, or_assoc}
use lattice_sdk.Common.{
  ℕ, zero, suc, ◌+◌, ◌-◌, ◌*◌, ◌≤◌, ◌≡◌, refl, sym, ◌∙◌, ap, Bool, false, ◌||◌, Option, some, List,
  [], ◌∷◌, ◌++◌, append_assoc, length, length-append, arith,
}
use lattice_sdk.Common.Options.{◌>>=◌}
use lattice_sdk.StrictJson.Lexer.{Bytes, starts_with}
use lattice_sdk.StrictJson.Lexer.Numbers.{is_number_byte}
use lattice_sdk.StrictJson.Lexer.Strings.{str-append}
use lattice_sdk.StrictJson.Grammar.{
  IsSpace, print_chars, Value, true_literal, false_literal, null_literal, string, empty_array,
  empty_object, array, object, Items, item, MoreItems, end_array, next_item, Members, member,
  MoreMembers, end_object, next_member,
}
use lattice_sdk.StrictJson.Trees.{
  print, print_items, print_more_items, print_members, print_more_members, IsValue, AreItems,
  AreMoreItems, AreMembers, AreMoreMembers,
}
use lattice_sdk.StrictJson.Scanner.{
  Field, Scanner, Keys, no_keys, space, moved, after_string, collect, collect_element, next,
  dispatch, value, items, members,
}
use lattice_sdk.StrictJson.Scanner.KeySet.{Holds, no_keys-Holds, add_key-Holds}
use lattice_sdk.StrictJson.Scanner.After.{
  has_space, items_space, more_items_space, members_space, more_members_space, item_texts,
  more_item_texts, collect_all, after_items, is_some_space, member_fields, more_member_fields,
  after_value, after_members,
}
use lattice_sdk.StrictJson.Scanner.Steps.{
  enter-empty, enter-loop, next-close, next-comma, literal-append,
}
use lattice_sdk.StrictJson.Scanner.Heads.{
  first_two, value-begins, begins-split, scanner-eq, array-elements, object-top,
}
use lattice_sdk.StrictJson.Scanner.Parts.{
  moved-after, element-after, field-after, Decodes-key_of, read_key-quoted, more_items-no_number,
  more_members-no_number, number-after, value-dispatch, items-begins,
}
use lattice_sdk.StrictJson.Scanner.Rounds.{members-begins, member-text, member-length, member-step}

module _ (parse_float : Bytes → Bool) (unmarshal : Bytes → Option Bytes) where
  mutual
    unfolding value items members dispatch print print_items print_more_items print_members
        print_more_members IsValue AreItems AreMoreItems AreMembers AreMoreMembers has_space
        items_space more_items_space members_space more_members_space item_texts more_item_texts
        member_fields more_member_fields

    pub value-after :
        (t : Value) (f : ℕ) (s : Scanner) (r : Bytes)
        → IsValue parse_float unmarshal s.depth t
        → s.rest ≡ print t ++ r
        → starts_with is_number_byte r ≡ false
        → 2 * length (print t) ≤ f
        → value parse_float unmarshal f s ≡ some (after_value unmarshal t s r)
    value-after t zero s r ist eq stop fuel =
        absurd (omega (arith, (value-begins parse_float unmarshal s.depth t [] ist).1))
    value-after true_literal (suc f) s r ist eq stop fuel =
        value-dispatch parse_float unmarshal f s _ eq
        ∙ (ap (moved s) (literal-append (print true_literal) r) ∙ moved-after s r)
    value-after false_literal (suc f) s r ist eq stop fuel =
        value-dispatch parse_float unmarshal f s _ eq
        ∙ (ap (moved s) (literal-append (print false_literal) r) ∙ moved-after s r)
    value-after null_literal (suc f) s r ist eq stop fuel =
        value-dispatch parse_float unmarshal f s _ eq
        ∙ (ap (moved s) (literal-append (print null_literal) r) ∙ moved-after s r)
    value-after (Value.number n) (suc f) s r ist eq stop fuel =
        value-dispatch parse_float unmarshal f s _ eq
        ∙ (number-after parse_float unmarshal n (members parse_float unmarshal f no_keys)
              (items parse_float unmarshal f) s r ist stop
            ∙ moved-after s r)
    value-after (string cs) (suc f) s r ist eq stop fuel =
        value-dispatch parse_float unmarshal f s _
          (eq ∙ append_assoc (b'"' ∷ print_chars cs) (b'"' ∷ []) r)
        ∙ (ap (after_string s) (str-append cs r ist) ∙ moved-after s r)
    value-after (empty_array w) (suc f) s r ist eq stop fuel =
        let eq' = eq ∙ append_assoc (b'[' ∷ w) (b']' ∷ []) r in
        value-dispatch parse_float unmarshal f s _ eq'
        ∙ enter-empty b']' b'[' (items parse_float unmarshal f) s w r eq' ist.0 ist.1 refl
    value-after (array w is) (suc f) s r (shallow, iswhite, are) eq stop fuel =
        let eq' = eq ∙ append_assoc (b'[' ∷ w) (print_items is) r in
        let (no_space, no_bracket) =
          begins-split (print_items is ++ r)
            (items-begins parse_float unmarshal (s.depth + 1) is r are) in
        value-dispatch parse_float unmarshal f s _ eq'
        ∙ (enter-loop b']' b'[' (items parse_float unmarshal f) s w (print_items is ++ r) eq'
              shallow iswhite no_space no_bracket
            ∙ (items-after is f
                  (record s {
                    rest = print_items is ++ r;
                    depth = s.depth + 1;
                    spaced = s.spaced || is_some_space w;
                  })
                  r are (omega arith) refl (omega (arith, length-append w (print_items is)))
                ∙ scanner-eq r (s.depth + 1 - 1) s.depth
                    ((s.spaced || is_some_space w) || items_space is)
                    (s.spaced || (is_some_space w || items_space is)) s.top s.top _ _ (omega arith)
                    (or_assoc s.spaced (is_some_space w) (items_space is)) refl
                    (array-elements w is s.depth s.elements)))
    value-after (empty_object w) (suc f) s r ist eq stop fuel =
        let eq' = eq ∙ append_assoc (b'{' ∷ w) (b'}' ∷ []) r in
        value-dispatch parse_float unmarshal f s _ eq'
        ∙ enter-empty b'}' b'{' (members parse_float unmarshal f no_keys) s w r eq' ist.0 ist.1 refl
    value-after (object w ms) (suc f) s r (shallow, iswhite, are) eq stop fuel =
        let eq' = eq ∙ append_assoc (b'{' ∷ w) (print_members ms) r in
        let (no_space, no_bracket) = members-begins parse_float unmarshal ms r in
        value-dispatch parse_float unmarshal f s _ eq'
        ∙ (enter-loop b'}' b'{' (members parse_float unmarshal f no_keys) s w
              (print_members ms ++ r) eq' shallow iswhite no_space no_bracket
            ∙ (members-after ms f no_keys []
                  (record s {
                    rest = print_members ms ++ r;
                    depth = s.depth + 1;
                    spaced = s.spaced || is_some_space w;
                  })
                  r no_keys-Holds are (omega arith) refl
                  (omega (arith, length-append w (print_members ms)))
                ∙ scanner-eq r (s.depth + 1 - 1) s.depth
                    ((s.spaced || is_some_space w) || members_space ms)
                    (s.spaced || (is_some_space w || members_space ms)) _ _ s.elements s.elements
                    (omega arith) (or_assoc s.spaced (is_some_space w) (members_space ms))
                    (object-top unmarshal w ms s.depth s.top) refl))

    items-after :
        (is : Items) (f : ℕ) (s : Scanner) (r : Bytes)
        → AreItems parse_float unmarshal s.depth is
        → 1 ≤ s.depth
        → s.rest ≡ print_items is ++ r
        → 2 * length (print_items is) + 1 ≤ f
        → items parse_float unmarshal f s ≡ some (after_items is s r)
    items-after is zero s r are deep eq fuel = absurd (omega arith)
    items-after (item v w more) (suc f) s r (ist, iswhite, are) deep eq fuel =
        let r' = w ++ (print_more_items more ++ r) in
        let eq' : s.rest ≡ print v ++ r' =
          eq
          ∙ (append_assoc (print v) (w ++ print_more_items more) r
              ∙ ap (λ x. print v ++ x) (append_assoc w (print_more_items more) r)) in
        let lengths : length (print_items (item v w more))
            ≡ length (print v) + (length w + length (print_more_items more)) =
          length-append (print v) (w ++ print_more_items more)
          ∙ ap (λ (n : ℕ). length (print v) + n) (length-append w (print_more_items more)) in
        let v_long : 1 ≤ length (print v) =
          (value-begins parse_float unmarshal s.depth v [] ist).1 in
        ap
          (λ o.
            o >>= (λ s1. next b']' (items parse_float unmarshal f) (space (collect_element s s1))))
          (value-after v f s r' ist eq'
            (more_items-no_number parse_float unmarshal w more r iswhite) (omega arith))
        ∙ (ap (λ t. next b']' (items parse_float unmarshal f) (space t))
              (element-after parse_float unmarshal v s r' deep eq')
            ∙ (more_items-after more f
                  (record s {
                    rest = r';
                    spaced = s.spaced || has_space v;
                    elements = collect s.depth (print v) s.elements;
                  })
                  w r are iswhite deep refl (omega arith)
                ∙ scanner-eq r (s.depth - 1) (s.depth - 1)
                    ((s.spaced || has_space v) || (is_some_space w || more_items_space more))
                    (s.spaced || (has_space v || (is_some_space w || more_items_space more))) s.top
                    s.top _ _ refl
                    (or_assoc s.spaced (has_space v) (is_some_space w || more_items_space more))
                    refl refl))

    more_items-after :
        (more : MoreItems) (f : ℕ) (s : Scanner) (w r : Bytes)
        → AreMoreItems parse_float unmarshal s.depth more
        → IsSpace w
        → 1 ≤ s.depth
        → s.rest ≡ w ++ (print_more_items more ++ r)
        → 2 * length (print_more_items more) ≤ f
        → next b']' (items parse_float unmarshal f) (space s)
          ≡ some (record s {
            rest = r;
            depth = s.depth - 1;
            spaced = s.spaced || (is_some_space w || more_items_space more);
            elements = collect_all s.depth (more_item_texts more) s.elements;
          })
    more_items-after end_array f s w r are iswhite deep eq fuel =
        next-close b']' (items parse_float unmarshal f) s w r eq iswhite refl refl
        ∙ scanner-eq r (s.depth - 1) (s.depth - 1) (s.spaced || is_some_space w)
            (s.spaced || (is_some_space w || false)) s.top s.top s.elements s.elements refl
            (ap (λ b. s.spaced || b) (sym (or-false (is_some_space w)))) refl refl
    more_items-after (next_item w2 is) f s w r (iswhite2, are) iswhite deep eq fuel =
        let body = print_items is ++ r in
        next-comma b']' (items parse_float unmarshal f) s w w2 body
          (eq ∙ ap (λ x. w ++ x) (append_assoc (b',' ∷ w2) (print_items is) r)) iswhite iswhite2
          (begins-split body (items-begins parse_float unmarshal s.depth is r are)).0
        ∙ (items-after is f
              (record s { rest = body; spaced = (s.spaced || is_some_space w) || is_some_space w2 })
              r are deep refl (omega (arith, length-append w2 (print_items is)))
            ∙ scanner-eq r (s.depth - 1) (s.depth - 1)
                (((s.spaced || is_some_space w) || is_some_space w2) || items_space is)
                (s.spaced || (is_some_space w || (is_some_space w2 || items_space is))) s.top s.top
                _ _ refl
                (or_assoc (s.spaced || is_some_space w) (is_some_space w2) (items_space is)
                  ∙ or_assoc s.spaced (is_some_space w) (is_some_space w2 || items_space is))
                refl refl)

    members-after :
        (ms : Members) (f : ℕ) (ks : Keys) (earlier : List Bytes) (s : Scanner) (r : Bytes)
        → Holds ks earlier
        → AreMembers parse_float unmarshal s.depth earlier ms
        → 1 ≤ s.depth
        → s.rest ≡ print_members ms ++ r
        → 2 * length (print_members ms) + 1 ≤ f
        → members parse_float unmarshal f ks s ≡ some (after_members unmarshal ms s r)
    members-after ms zero ks earlier s r holds are deep eq fuel = absurd (omega arith)
    members-after (member cs w1 w2 v w3 more) (suc f) ks earlier s r holds
          (chars, iswhite1, iswhite2, ist, iswhite3, (key, decodes, new, are)) deep eq fuel =
        let r3 = w3 ++ (print_more_members more ++ r) in
        let (ks', added, holds') = add_key-Holds key ks earlier holds new in
        let b1 = s.spaced || is_some_space w1 in
        let b2 = b1 || is_some_space w2 in
        let s2 : Scanner = record s { rest = print v ++ r3; spaced = b2 } in
        let (no_space, v_long) = first_two parse_float unmarshal s.depth v r3 ist in
        let lengths = member-length parse_float unmarshal cs w1 w2 v w3 more in
        let entry : Field = record { key = key; value = print v } in
        member-step parse_float unmarshal f ks ks' key s (print v ++ r3) w1 w2
          (read_key-quoted parse_float unmarshal cs key (w1 ++ b':' ∷ (w2 ++ (print v ++ r3))) chars
            decodes)
          (eq ∙ member-text parse_float unmarshal cs w1 w2 v w3 more r) added iswhite1 iswhite2
          no_space (after_value unmarshal v s2 r3)
          (value-after v f s2 r3 ist refl
            (more_members-no_number parse_float unmarshal w3 more r iswhite3) (omega arith))
        ∙ (ap (λ t. next b'}' (members parse_float unmarshal f ks') (space t))
              (field-after parse_float unmarshal key v s2 r3 deep refl)
            ∙ (more_members-after more f ks' (key ∷ earlier)
                  (record s {
                    rest = r3;
                    spaced = b2 || has_space v;
                    top = collect s.depth entry s.top;
                  })
                  w3 r holds' are iswhite3 deep refl (omega arith)
                ∙ scanner-eq r (s.depth - 1) (s.depth - 1)
                    ((b2 || has_space v) || (is_some_space w3 || more_members_space more))
                    (s.spaced || members_space (member cs w1 w2 v w3 more)) _ _ s.elements
                    s.elements refl
                    (or_assoc b2 (has_space v) (is_some_space w3 || more_members_space more)
                      ∙ (or_assoc b1 (is_some_space w2) _ ∙ or_assoc s.spaced (is_some_space w1) _))
                    (ap
                      (λ k.
                        collect_all s.depth (more_member_fields unmarshal more)
                          (collect s.depth (record { key = k; value = print v }) s.top))
                      (sym (Decodes-key_of parse_float unmarshal cs key decodes)))
                    refl))

    more_members-after :
        (more : MoreMembers) (f : ℕ) (ks : Keys) (earlier : List Bytes) (s : Scanner) (w r : Bytes)
        → Holds ks earlier
        → AreMoreMembers parse_float unmarshal s.depth earlier more
        → IsSpace w
        → 1 ≤ s.depth
        → s.rest ≡ w ++ (print_more_members more ++ r)
        → 2 * length (print_more_members more) ≤ f
        → next b'}' (members parse_float unmarshal f ks) (space s)
          ≡ some (record s {
            rest = r;
            depth = s.depth - 1;
            spaced = s.spaced || (is_some_space w || more_members_space more);
            top = collect_all s.depth (more_member_fields unmarshal more) s.top;
          })
    more_members-after end_object f ks earlier s w r holds are iswhite deep eq fuel =
        next-close b'}' (members parse_float unmarshal f ks) s w r eq iswhite refl refl
        ∙ scanner-eq r (s.depth - 1) (s.depth - 1) (s.spaced || is_some_space w)
            (s.spaced || (is_some_space w || false)) s.top s.top s.elements s.elements refl
            (ap (λ b. s.spaced || b) (sym (or-false (is_some_space w)))) refl refl
    more_members-after (next_member w2 ms) f ks earlier s w r holds (iswhite2, are) iswhite deep eq
          fuel =
        let body = print_members ms ++ r in
        next-comma b'}' (members parse_float unmarshal f ks) s w w2 body
          (eq ∙ ap (λ x. w ++ x) (append_assoc (b',' ∷ w2) (print_members ms) r)) iswhite iswhite2
          (members-begins parse_float unmarshal ms r).0
        ∙ (members-after ms f ks earlier
              (record s { rest = body; spaced = (s.spaced || is_some_space w) || is_some_space w2 })
              r holds are deep refl (omega (arith, length-append w2 (print_members ms)))
            ∙ scanner-eq r (s.depth - 1) (s.depth - 1)
                (((s.spaced || is_some_space w) || is_some_space w2) || members_space ms)
                (s.spaced || (is_some_space w || (is_some_space w2 || members_space ms))) _ _
                s.elements s.elements refl
                (or_assoc (s.spaced || is_some_space w) (is_some_space w2) (members_space ms)
                  ∙ or_assoc s.spaced (is_some_space w) (is_some_space w2 || members_space ms))
                refl refl)
