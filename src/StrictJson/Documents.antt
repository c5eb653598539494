-- ===== src/StrictJson/Documents.antt =====
-- strictjson/strictjson.go: `Valid`, `Fields`, `Elements` and `Compact` against the grammar.

use lattice_sdk.Common.{
  ℕ, ◌*◌, ◌≤◌, ◌≡◌, ◌↔◌, refl, sym, ◌∙◌, ap, Bool, true, false, not, ◌||◌, Option, none, some, List,
  [], ◌∷◌, ◌++◌, append_assoc, append-nil, length, length-append, ◌==◌, if◌then◌else◌, arith,
}
use lattice_sdk.Common.Options.{◌>>=◌, bind-eq-some, if-eq-some}
use lattice_sdk.StrictJson.Lexer.{Bytes, starts_with, is_space, skip_space, skip}
use lattice_sdk.StrictJson.Lexer.NumberParts.{skip-split, skip-append}
use lattice_sdk.StrictJson.Lexer.Numbers.{is_number_byte}
use lattice_sdk.StrictJson.Grammar.{
  IsSpace, IsWhole, print_minus, print_fraction, print_exponent, Value, true_literal, false_literal,
  null_literal, number, string, empty_array, empty_object, array, object,
}
use lattice_sdk.StrictJson.Trees.{print, IsValue}
use lattice_sdk.StrictJson.Scanner.{
  Field, Scanner, space, value, scanner, at_end, unspaced, document, fields, elements, compact,
}
use lattice_sdk.StrictJson.Scanner.Sound.{value-Reads}
use lattice_sdk.StrictJson.Scanner.After.{
  has_space, is_some_space, item_texts, member_fields, top_after, elements_after, after_value,
  collect_all,
}
use lattice_sdk.StrictJson.Scanner.Steps.{space-over}
use lattice_sdk.StrictJson.Scanner.Heads.{first_two}
use lattice_sdk.StrictJson.Scanner.Complete.{value-after}

space-no_number_end : (w : Bytes) → IsSpace w → starts_with is_number_byte w ≡ false
space-no_number_end [] h = refl
space-no_number_end (c ∷ w) h = ground (arith, h.0)

empty-nil : (bs : Bytes) → at_end bs ≡ true → bs ≡ []
empty-nil [] h = refl
empty-nil (c ∷ bs) h = cc

unspaced-true :
    (o : Option Scanner)
    → unspaced o ≡ true
    → (s : Scanner) × (o ≡ some s) × (s.rest ≡ []) × (s.spaced ≡ false)
unspaced-true none h = cc
unspaced-true (some s) h =
    let finished : at_end s.rest ≡ true = ground arith in
    let bare : s.spaced ≡ false = ground arith in (s, refl, empty-nil s.rest finished, bare)

collect_all-top {ℓ} : {A : Type ℓ} (xs ys : List A) → collect_all 1 xs (some ys) ≡ some (ys ++ xs)
collect_all-top [] ys = rw append-nil refl
collect_all-top (x ∷ xs) ys =
    collect_all-top xs (ys ++ x ∷ []) ∙ ap some (append_assoc ys (x ∷ []) xs)

module _ (parse_float : Bytes → Bool) (unmarshal : Bytes → Option Bytes) where
  -- Bytes that are one value of the grammar, with space round it.
  pub record IsDocument (raw : Bytes) (t : Value) : Type 0 where
    pub before : Bytes
    pub after : Bytes
    pub text : raw ≡ before ++ (print t ++ after)
    pub before_space : IsSpace before
    pub after_space : IsSpace after
    pub is_value : IsValue parse_float unmarshal 0 t

  -- The members of an object, and the elements of an array.
  abbrev pub members_of : Value → Option (List Field)
  members_of (empty_object w) = some []
  members_of (object w ms) = some (member_fields unmarshal ms)
  members_of t = none

  abbrev pub elements_of : Value → Option (List Bytes)
  elements_of (empty_array w) = some []
  elements_of (array w is) = some (item_texts is)
  elements_of t = none

  document-IsDocument :
      (raw : Bytes) (top : Option (List Field)) (held : Option (List Bytes)) (s : Scanner)
      → document parse_float unmarshal (scanner raw top held) ≡ some s
      → (t : Value) × IsDocument raw t
  unfolding document
  document-IsDocument raw top held s h =
      let (s1, read, h1) =
        bind-eq-some (value parse_float unmarshal (2 * length raw) (space (scanner raw top held))) _
          s h in
      let (finished, eq) = if-eq-some (at_end (space s1).rest) _ s h1 in
      let (t, split, depth, ist) =
        value-Reads parse_float unmarshal (2 * length raw) (space (scanner raw top held)) s1 read in
      let (w1, iswhite1, split1) = skip-split is_space raw in
      let (w2, iswhite2, split2) = skip-split is_space s1.rest in
      let ended : s1.rest ≡ w2 =
        split2 ∙ (ap (λ x. w2 ++ x) (empty-nil (skip is_space s1.rest) finished) ∙ append-nil w2) in
      (
        t,
        record {
          before = w1;
          after = w2;
          text = split1 ∙ ap (λ x. w1 ++ x) (split ∙ ap (λ x. print t ++ x) ended);
          before_space = iswhite1;
          after_space = iswhite2;
          is_value = ist;
        },
      )

  document-after :
      (raw : Bytes) (t : Value) (top : Option (List Field)) (held : Option (List Bytes))
      → IsDocument raw t
      → (s : Scanner) × (document parse_float unmarshal (scanner raw top held) ≡ some s)
        × (s.top ≡ top_after unmarshal t 0 top)
        × (s.elements ≡ elements_after t 0 held)
  unfolding document
  document-after raw t top held d =
      let s1 : Scanner = record {
        rest = print t ++ d.after;
        depth = 0;
        spaced = false || is_some_space d.before;
        top = top;
        elements = held;
      } in
      let s2 = after_value unmarshal t s1 d.after in
      let s3 : Scanner = record s2 { rest = []; spaced = s2.spaced || is_some_space d.after } in
      let over : space (scanner raw top held) ≡ s1 =
        space-over (scanner raw top held) d.before (print t ++ d.after) d.text d.before_space
          (first_two parse_float unmarshal 0 t d.after d.is_value).0 in
      let read =
        value-after parse_float unmarshal t (2 * length raw) s1 d.after d.is_value refl
          (space-no_number_end d.after d.after_space)
          (omega (
            arith,
            ap length d.text,
            length-append d.before (print t ++ d.after),
            length-append (print t) d.after,
          )) in
      let over2 : space s2 ≡ s3 =
        space-over s2 d.after [] (sym (append-nil d.after)) d.after_space refl in
      (
        s3,
        ap (λ o. o >>= (λ s. if at_end (space s).rest then some (space s) else none))
              (ap (value parse_float unmarshal (2 * length raw)) over ∙ read)
            ∙ ap (λ s. if at_end s.rest then some s else none) over2,
        refl,
        refl,
      )

  number-brackets :
      (minus : Bool) (ds y x : Bytes) (b : ℕ)
      → 58 ≤ b
      → IsWhole ds
      → starts_with (λ c. c == b) ((print_minus minus ++ (ds ++ y)) ++ x) ≡ false
  number-brackets true ds y x b h is = ground arith
  number-brackets false [] y x b h is = absurd is
  number-brackets false (d ∷ ds) y x b h is = ground arith

  members-top :
      (t : Value) (x : Bytes)
      → IsValue parse_float unmarshal 0 t
      → (if starts_with (λ c. c == b'{') (print t ++ x)
          then top_after unmarshal t 0 (some [])
          else none)
        ≡ members_of t
  unfolding print IsValue
  members-top true_literal x h = refl
  members-top false_literal x h = refl
  members-top null_literal x h = refl
  members-top (number n) x h =
      rw
        (number-brackets n.minus n.whole (print_fraction n.fraction ++ print_exponent n.exponent) x
          b'{' (omega arith) h.whole)
        refl
  members-top (string cs) x h = refl
  members-top (empty_array w) x h = refl
  members-top (array w is) x h = refl
  members-top (empty_object w) x h = refl
  members-top (object w ms) x h = collect_all-top (member_fields unmarshal ms) []

  elements-held :
      (t : Value) (x : Bytes)
      → IsValue parse_float unmarshal 0 t
      → (if starts_with (λ c. c == b'[') (print t ++ x) then elements_after t 0 (some []) else none)
        ≡ elements_of t
  unfolding print IsValue
  elements-held true_literal x h = refl
  elements-held false_literal x h = refl
  elements-held null_literal x h = refl
  elements-held (number n) x h =
      rw
        (number-brackets n.minus n.whole (print_fraction n.fraction ++ print_exponent n.exponent) x
          b'[' (omega arith) h.whole)
        refl
  elements-held (string cs) x h = refl
  elements-held (empty_array w) x h = refl
  elements-held (array w is) x h = collect_all-top (item_texts is) []
  elements-held (empty_object w) x h = refl
  elements-held (object w ms) x h = refl

  document-start :
      (raw : Bytes) (t : Value) → (d : IsDocument raw t) → skip_space raw ≡ print t ++ d.after
  document-start raw t d =
      ap skip_space d.text
      ∙ skip-append is_space d.before (print t ++ d.after) d.before_space
          (first_two parse_float unmarshal 0 t d.after d.is_value).0

  fields-document :
      (raw : Bytes) (t : Value) → IsDocument raw t → fields parse_float unmarshal raw ≡ members_of t
  unfolding fields
  fields-document raw t d =
      let (s, e, top, held) = document-after raw t (some []) none d in
      rw (document-start raw t d, e, top) (members-top t d.after d.is_value)

  elements-document :
      (raw : Bytes) (t : Value)
      → IsDocument raw t
      → elements parse_float unmarshal raw ≡ elements_of t
  unfolding elements
  elements-document raw t d =
      let (s, e, top, held) = document-after raw t none (some []) d in
      rw (document-start raw t d, e, held) (elements-held t d.after d.is_value)

  -- `Fields` answers exactly for the documents that are an object: its members in order, each key
  -- decoded and each value as its bytes in the document.
  pub fields_iff :
      (raw : Bytes) (fs : List Field)
      → (fields parse_float unmarshal raw ≡ some fs)
        ↔ ((t : Value) × IsDocument raw t × (members_of t ≡ some fs))
  unfolding fields
  fields_iff raw fs = (
    (λ h.
        let (opened, h1) = if-eq-some (starts_with (λ c. c == b'{') (skip_space raw)) _ fs h in
        let (s, e, top) =
          bind-eq-some (document parse_float unmarshal (scanner raw (some []) none)) _ fs h1 in
        let (t, d) = document-IsDocument raw (some []) none s e in
        (t, d, sym (fields-document raw t d) ∙ h)),
    (λ (t, d, e). fields-document raw t d ∙ e),
  )

  -- `Elements` answers exactly for the documents that are an array: its elements in order, each as
  -- its bytes in the document.
  pub elements_iff :
      (raw : Bytes) (es : List Bytes)
      → (elements parse_float unmarshal raw ≡ some es)
        ↔ ((t : Value) × IsDocument raw t × (elements_of t ≡ some es))
  unfolding elements
  elements_iff raw es = (
    (λ h.
        let (opened, h1) = if-eq-some (starts_with (λ c. c == b'[') (skip_space raw)) _ es h in
        let (s, e, held) =
          bind-eq-some (document parse_float unmarshal (scanner raw none (some []))) _ es h1 in
        let (t, d) = document-IsDocument raw none (some []) s e in
        (t, d, sym (elements-document raw t d) ∙ h)),
    (λ (t, d, e). elements-document raw t d ∙ e),
  )

  compact-value :
      (raw : Bytes) (t : Value)
      → raw ≡ print t
      → IsValue parse_float unmarshal 0 t
      → compact parse_float unmarshal raw ≡ not (has_space t)
  unfolding compact
  compact-value raw t eq ist = ap unspaced (
      value-after parse_float unmarshal t (2 * length raw) (scanner raw none none) [] ist
        (eq ∙ sym (append-nil (print t))) refl (omega (arith, ap length eq)))

  -- `Compact` answers true exactly for a value of the grammar with no space before, after or inside
  -- it, except in its strings.
  pub compact_iff :
      (raw : Bytes)
      → (compact parse_float unmarshal raw ≡ true) ↔ (
          (t : Value) × (raw ≡ print t) × IsValue parse_float unmarshal 0 t × (has_space t ≡ false))
  unfolding compact
  compact_iff raw = (
    (λ h.
        let (s, e, ended, bare) =
          unspaced-true (value parse_float unmarshal (2 * length raw) (scanner raw none none)) h in
        let (t, split, depth, ist) =
          value-Reads parse_float unmarshal (2 * length raw) (scanner raw none none) s e in
        let eq = split ∙ (ap (λ x. print t ++ x) ended ∙ append-nil (print t)) in
        let same : not (has_space t) ≡ true = sym (compact-value raw t eq ist) ∙ h in
        (t, eq, ist, ground arith)),
    (λ (t, eq, ist, bare). compact-value raw t eq ist ∙ ap not bare),
  )
