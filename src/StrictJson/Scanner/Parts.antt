-- ===== src/StrictJson/Scanner/Parts.antt =====
-- strictjson/strictjson.go: the scanner's state after a token, an element or a member.
use mathlib.Core.Bool.{or-false}
use lattice_sdk.Common.{
  ℕ, suc, ◌≤◌, ◌≡◌, refl, sym, ◌∙◌, ap, inl, inr, Bool, true, false, ◌||◌, Option, some, List, [],
  ◌∷◌, ◌++◌, append_assoc, All, ◌==◌, arith,
}
use lattice_sdk.StrictJson.Lexer.{Bytes, starts_with, is_digit, number}
use lattice_sdk.StrictJson.Lexer.NumberParts.{between-append}
use lattice_sdk.StrictJson.Lexer.Numbers.{is_number_byte, number-append}
use lattice_sdk.StrictJson.Lexer.Strings.{str-append}
use lattice_sdk.StrictJson.Grammar.{
  IsSpace, Char, IsChar, print_chars, is_ascii, quoted, Number, print_minus, print_fraction,
  print_exponent, print_number, IsWhole, Value, Items, item, MoreItems, end_array, next_item,
  MoreMembers, end_object, next_member,
}
use lattice_sdk.StrictJson.Trees.{
  print, print_items, print_more_items, print_more_members, IsNumber, AreItems, Decodes,
}
use lattice_sdk.StrictJson.Scanner.{
  Scanner, no_keys, moved, collect, collect_element, collect_field, decode_key, read_key, dispatch,
  value, items, members,
}
use lattice_sdk.StrictJson.Scanner.After.{has_space, key_of, after_value}
use lattice_sdk.StrictJson.Scanner.Steps.{space-no_number}
use lattice_sdk.StrictJson.Scanner.Heads.{
  begins, value-begins, elements_after-inner, top_after-inner,
}

-- A value that is not an array or an object leaves only the position changed.
pub moved-after :
    (s : Scanner) (r : Bytes)
    → ◌≡◌ {A = Option Scanner}
        (some (record s { rest = r }))
        (some (record s { rest = r; spaced = s.spaced || false }))
moved-after s r = rw or-false refl

abbrev begins_number : ℕ → Bool
begins_number c = c == b'-' || is_digit c

pub number-head :
    (minus : Bool) (ds y r : Bytes)
    → IsWhole ds
    → starts_with begins_number ((print_minus minus ++ (ds ++ y)) ++ r) ≡ true
number-head true ds y r h = refl
number-head false [] y r h = absurd h
number-head false (d ∷ ds) y r h = ground arith

module _ (parse_float : Bytes → Bool) (unmarshal : Bytes → Option Bytes) where
  -- The state after an element and what `collect_element` does.
  pub element-after :
      (v : Value) (s : Scanner) (r : Bytes)
      → 1 ≤ s.depth
      → s.rest ≡ print v ++ r
      → collect_element s (after_value unmarshal v s r) ≡ record s {
        rest = r;
        spaced = s.spaced || has_space v;
        elements = collect s.depth (print v) s.elements;
      }
  unfolding collect_element
  element-after v s r deep eq =
      rw
        (
          eq,
          between-append (print v) r,
          elements_after-inner v s.depth s.elements deep,
          top_after-inner unmarshal v s.depth s.top deep,
        )
        refl

  pub field-after :
      (key : Bytes) (v : Value) (s : Scanner) (r : Bytes)
      → 1 ≤ s.depth
      → s.rest ≡ print v ++ r
      → collect_field key s (after_value unmarshal v s r) ≡ record s {
        rest = r;
        spaced = s.spaced || has_space v;
        top = collect s.depth (record { key = key; value = print v }) s.top;
      }
  unfolding collect_field
  field-after key v s r deep eq =
      rw
        (
          eq,
          between-append (print v) r,
          elements_after-inner v s.depth s.elements deep,
          top_after-inner unmarshal v s.depth s.top deep,
        )
        refl

  pub Decodes-key_of :
      (cs : List Char) (key : Bytes)
      → Decodes parse_float unmarshal cs key
      → key_of unmarshal cs ≡ key
  Decodes-key_of cs key (inl (e, k)) = rw e (sym k)
  Decodes-key_of cs key (inr (e, k)) = rw (e, k) refl

  pub Decodes-decode_key :
      (cs : List Char) (key r : Bytes)
      → Decodes parse_float unmarshal cs key
      → decode_key parse_float unmarshal
          (record { contents = print_chars cs; plain = is_ascii cs; rest = r })
        ≡ some key
  unfolding decode_key
  Decodes-decode_key cs key r (inl (e, k)) = rw (e, k) refl
  Decodes-decode_key cs key r (inr (e, k)) = rw e k

  pub read_key-quoted :
      (cs : List Char) (key r : Bytes)
      → All IsChar cs
      → Decodes parse_float unmarshal cs key
      → read_key parse_float unmarshal (quoted cs ++ r) ≡ some (key, r)
  unfolding read_key
  read_key-quoted cs key r chars decodes =
      rw (append_assoc, str-append cs r chars, Decodes-decode_key cs key r decodes) refl

  pub more_items-no_number :
      (w : Bytes) (more : MoreItems) (r : Bytes)
      → IsSpace w
      → starts_with is_number_byte (w ++ (print_more_items more ++ r)) ≡ false
  unfolding print_more_items
  more_items-no_number w end_array r iswhite = space-no_number w b']' r iswhite refl
  more_items-no_number w (next_item w2 is) r iswhite = space-no_number w b',' _ iswhite refl

  pub more_members-no_number :
      (w : Bytes) (more : MoreMembers) (r : Bytes)
      → IsSpace w
      → starts_with is_number_byte (w ++ (print_more_members more ++ r)) ≡ false
  unfolding print_more_members
  more_members-no_number w end_object r iswhite = space-no_number w b'}' r iswhite refl
  more_members-no_number w (next_member w2 ms) r iswhite = space-no_number w b',' _ iswhite refl

  pub dispatch-number :
      (mems its : Scanner → Option Scanner) (s : Scanner) (bs : Bytes)
      → starts_with begins_number bs ≡ true
      → dispatch parse_float unmarshal mems its s bs ≡ moved s (number parse_float bs)
  unfolding dispatch
  dispatch-number mems its s [] h = cc
  dispatch-number mems its s (c ∷ cs) h =
      let e1 : (c == b'{') ≡ false = ground arith in
      let e2 : (c == b'[') ≡ false = ground arith in
      let e3 : (c == b'"') ≡ false = ground arith in
      let e4 : (c == b't') ≡ false = ground arith in
      let e5 : (c == b'f') ≡ false = ground arith in
      let e6 : (c == b'n') ≡ false = ground arith in rw (e1, e2, e3, e4, e5, e6, h) refl

  pub number-after :
      (n : Number) (mems its : Scanner → Option Scanner) (s : Scanner) (r : Bytes)
      → IsNumber parse_float unmarshal n
      → starts_with is_number_byte r ≡ false
      → dispatch parse_float unmarshal mems its s (print_number n ++ r)
        ≡ some (record s { rest = r })
  number-after n mems its s r isn stop =
      dispatch-number mems its s (print_number n ++ r) (
        number-head n.minus n.whole (print_fraction n.fraction ++ print_exponent n.exponent) r
          isn.whole)
      ∙ ap (moved s)
          (number-append parse_float n r isn.whole isn.fraction isn.exponent isn.float stop)

  pub value-dispatch :
      (f : ℕ) (s : Scanner) (bs : Bytes)
      → s.rest ≡ bs
      → value parse_float unmarshal (suc f) s
        ≡ dispatch parse_float unmarshal
            (members parse_float unmarshal f no_keys)
            (items parse_float unmarshal f)
            s
            bs
  unfolding value
  value-dispatch f s bs eq =
      ap
        (dispatch parse_float unmarshal (members parse_float unmarshal f no_keys)
          (items parse_float unmarshal f) s)
        eq

  pub items-begins :
      (depth : ℕ) (is : Items) (r : Bytes)
      → AreItems parse_float unmarshal depth is
      → starts_with begins (print_items is ++ r) ≡ false
  unfolding print_items AreItems
  items-begins depth (item v w more) r are =
      rw append_assoc (value-begins parse_float unmarshal depth v _ are.0).0
