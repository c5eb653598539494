-- ===== src/StrictJson/Trees.antt =====
-- How a JSON tree is written, and when it is one that strictjson/strictjson.go admits: at most 512
-- arrays and objects inside one another, numbers that a float64 holds, keys that decode, and no key
-- twice in an object.
use lattice_sdk.Common.{
  ℕ, ◌+◌, ◌≤◌, ◌≡◌, ◌⊎◌, Bool, true, false, Option, some, List, [], ◌∷◌, ◌++◌, All,
}
use lattice_sdk.StrictJson.Lexer.{Bytes, float_test}
use lattice_sdk.StrictJson.Scanner.{has_key}
use lattice_sdk.StrictJson.Grammar.{
  IsSpace, Number, print_number, IsWhole, IsFraction, IsExponent, has_exponent, Char, IsChar,
  print_chars, is_ascii, quoted, Value, true_literal, false_literal, null_literal, number, string,
  empty_array, empty_object, array, object, Items, item, MoreItems, end_array, next_item, Members,
  member, MoreMembers, end_object, next_member,
}

unfoldable mutual
  pub print : Value → Bytes
  print true_literal = b't' ∷ b'r' ∷ b'u' ∷ b'e' ∷ []
  print false_literal = b'f' ∷ b'a' ∷ b'l' ∷ b's' ∷ b'e' ∷ []
  print null_literal = b'n' ∷ b'u' ∷ b'l' ∷ b'l' ∷ []
  print (number n) = print_number n
  print (string cs) = quoted cs
  print (empty_array w) = b'[' ∷ w ++ b']' ∷ []
  print (array w is) = b'[' ∷ w ++ print_items is
  print (empty_object w) = b'{' ∷ w ++ b'}' ∷ []
  print (object w ms) = b'{' ∷ w ++ print_members ms

  -- Up to the closing bracket, which is in it.
  pub print_items : Items → Bytes
  print_items (item v w more) = print v ++ (w ++ print_more_items more)

  pub print_more_items : MoreItems → Bytes
  print_more_items end_array = b']' ∷ []
  print_more_items (next_item w is) = b',' ∷ w ++ print_items is

  pub print_members : Members → Bytes
  print_members (member k w1 w2 v w3 more) =
      quoted k ++ (w1 ++ b':' ∷ (w2 ++ (print v ++ (w3 ++ print_more_members more))))

  pub print_more_members : MoreMembers → Bytes
  print_more_members end_object = b'}' ∷ []
  print_more_members (next_member w ms) = b',' ∷ w ++ print_members ms

module _ (parse_float : Bytes → Bool) (unmarshal : Bytes → Option Bytes) where
  -- A number that has an exponent, or more than fifteen bytes, has to be one for `ParseFloat`.
  pub record IsNumber (n : Number) : Type 0 where
    pub whole : IsWhole n.whole
    pub fraction : IsFraction n.fraction
    pub exponent : IsExponent n.exponent
    pub float : float_test parse_float (has_exponent n.exponent) (print_number n) ≡ true

  -- The string that a key stands for.
  abbrev pub Decodes : List Char → Bytes → Type 0
  Decodes cs key =
      ((is_ascii cs ≡ true) × (key ≡ print_chars cs))
      ⊎ ((is_ascii cs ≡ false) × (unmarshal (quoted cs) ≡ some key))

  -- `depth` is how many arrays and objects are open, and `keys` are the keys before.
  unfoldable mutual
    pub IsValue : ℕ → Value → Type 0
    IsValue depth (number n) = IsNumber n
    IsValue depth (string cs) = All IsChar cs
    IsValue depth (empty_array w) = (depth + 1 ≤ 512) × IsSpace w
    IsValue depth (array w is) = (depth + 1 ≤ 512) × IsSpace w × AreItems (depth + 1) is
    IsValue depth (empty_object w) = (depth + 1 ≤ 512) × IsSpace w
    IsValue depth (object w ms) = (depth + 1 ≤ 512) × IsSpace w × AreMembers (depth + 1) [] ms
    IsValue depth v = Unit

    pub AreItems : ℕ → Items → Type 0
    AreItems depth (item v w more) = IsValue depth v × IsSpace w × AreMoreItems depth more

    pub AreMoreItems : ℕ → MoreItems → Type 0
    AreMoreItems depth end_array = Unit
    AreMoreItems depth (next_item w is) = IsSpace w × AreItems depth is

    pub AreMembers : ℕ → List Bytes → Members → Type 0
    AreMembers depth keys (member cs w1 w2 v w3 more) =
        All IsChar cs
        × IsSpace w1
        × IsSpace w2
        × IsValue depth v
        × IsSpace w3
        × ((key : Bytes) × Decodes cs key
            × (has_key keys key ≡ false)
            × AreMoreMembers depth (key ∷ keys) more)

    pub AreMoreMembers : ℕ → List Bytes → MoreMembers → Type 0
    AreMoreMembers depth keys end_object = Unit
    AreMoreMembers depth keys (next_member w ms) = IsSpace w × AreMembers depth keys ms
