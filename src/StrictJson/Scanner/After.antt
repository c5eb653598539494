-- ===== src/StrictJson/Scanner/After.antt =====
-- strictjson/strictjson.go: the scanner's state after a tree that it has gone over, from the tree.
use lattice_sdk.Common.{
  ℕ, zero, ◌-◌, Bool, true, false, ◌||◌, Option, none, some, List, [], ◌∷◌, if◌then◌else◌,
}
use lattice_sdk.StrictJson.Lexer.{Bytes}
use lattice_sdk.StrictJson.Grammar.{
  Char, print_chars, is_ascii, quoted, Value, empty_array, empty_object, array, object, Items, item,
  MoreItems, end_array, next_item, Members, member, MoreMembers, end_object, next_member,
}
use lattice_sdk.StrictJson.Trees.{print}
use lattice_sdk.StrictJson.Scanner.{Field, Scanner, collect}

abbrev pub is_some_space : Bytes → Bool
is_some_space [] = false
is_some_space (c ∷ cs) = true

-- Whether there is space outside the strings.
unfoldable mutual
  pub has_space : Value → Bool
  has_space (empty_array w) = is_some_space w
  has_space (array w is) = is_some_space w || items_space is
  has_space (empty_object w) = is_some_space w
  has_space (object w ms) = is_some_space w || members_space ms
  has_space v = false

  pub items_space : Items → Bool
  items_space (item v w more) = has_space v || (is_some_space w || more_items_space more)

  pub more_items_space : MoreItems → Bool
  more_items_space end_array = false
  more_items_space (next_item w is) = is_some_space w || items_space is

  pub members_space : Members → Bool
  members_space (member cs w1 w2 v w3 more) =
      is_some_space w1
      || (is_some_space w2 || (has_space v || (is_some_space w3 || more_members_space more)))

  pub more_members_space : MoreMembers → Bool
  more_members_space end_object = false
  more_members_space (next_member w ms) = is_some_space w || members_space ms

-- The elements of an array, as they are written.
unfoldable mutual
  pub item_texts : Items → List Bytes
  item_texts (item v w more) = print v ∷ more_item_texts more

  pub more_item_texts : MoreItems → List Bytes
  more_item_texts end_array = []
  more_item_texts (next_item w is) = item_texts is

abbrev pub collect_all {ℓ} : {A : Type ℓ} → ℕ → List A → Option (List A) → Option (List A)
collect_all depth [] held = held
collect_all depth (a ∷ more) held = collect_all depth more (collect depth a held)

abbrev pub elements_after : Value → ℕ → Option (List Bytes) → Option (List Bytes)
elements_after (array w is) zero elements = collect_all 1 (item_texts is) elements
elements_after v depth elements = elements

-- After the loop of an array at depth 1 or more.
abbrev pub after_items : Items → Scanner → Bytes → Scanner
after_items t s r = record s {
  rest = r;
  depth = s.depth - 1;
  spaced = s.spaced || items_space t;
  elements = collect_all s.depth (item_texts t) s.elements;
}

module _ (unmarshal : Bytes → Option Bytes) where
  -- The string that a key decodes to, if it does.
  abbrev pub key_of : List Char → Bytes
  key_of cs =
      if is_ascii cs
      then print_chars cs
      else elim (unmarshal (quoted cs)) [ none ↦ [] | some key ↦ key ]

  -- The members of an object, their keys decoded and their values as they are written.
  unfoldable mutual
    pub member_fields : Members → List Field
    member_fields (member cs w1 w2 v w3 more) =
        (record { key = key_of cs; value = print v }) ∷ more_member_fields more

    pub more_member_fields : MoreMembers → List Field
    more_member_fields end_object = []
    more_member_fields (next_member w ms) = member_fields ms

  -- At depth 0 the tree is the document's value.
  abbrev pub top_after : Value → ℕ → Option (List Field) → Option (List Field)
  top_after (object w ms) zero top = collect_all 1 (member_fields ms) top
  top_after v depth top = top

  abbrev pub after_value : Value → Scanner → Bytes → Scanner
  after_value t s r = record s {
    rest = r;
    spaced = s.spaced || has_space t;
    top = top_after t s.depth s.top;
    elements = elements_after t s.depth s.elements;
  }

  -- After the loop of an object at depth 1 or more.
  abbrev pub after_members : Members → Scanner → Bytes → Scanner
  after_members t s r = record s {
    rest = r;
    depth = s.depth - 1;
    spaced = s.spaced || members_space t;
    top = collect_all s.depth (member_fields t) s.top;
  }
