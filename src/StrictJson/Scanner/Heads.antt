-- ===== src/StrictJson/Scanner/Heads.antt =====
-- strictjson/strictjson.go: how the trees begin, how long they are, and which states come out equal.

use lattice_sdk.Common.{
  ℕ, zero, suc, ◌+◌, ◌≤◌, ◌≡◌, ◌≢◌, refl, Bool, true, false, ◌||◌, Option, none, some, List, [],
  ◌∷◌, ◌++◌, length, ◌==◌, arith,
}
use lattice_sdk.StrictJson.Lexer.{Bytes, starts_with, is_space}
use lattice_sdk.StrictJson.Grammar.{
  print_minus, print_fraction, print_exponent, IsWhole, Value, true_literal, false_literal,
  null_literal, number, string, empty_array, empty_object, array, object, Items, Members,
}
use lattice_sdk.StrictJson.Trees.{print, IsValue}
use lattice_sdk.StrictJson.Scanner.{Field, Scanner}
use lattice_sdk.StrictJson.Scanner.After.{
  elements_after, collect_all, top_after, item_texts, member_fields,
}

-- A value begins with neither space nor a closing bracket.
abbrev pub begins : ℕ → Bool
begins c = is_space c || c == b']'

number-begins :
    (minus : Bool) (ds y x : Bytes)
    → IsWhole ds
    → (starts_with begins ((print_minus minus ++ (ds ++ y)) ++ x) ≡ false)
      × (1 ≤ length (print_minus minus ++ (ds ++ y)))
number-begins true ds y x h = (refl, omega arith)
number-begins false [] y x h = absurd h
number-begins false (d ∷ ds) y x h = (ground arith, omega arith)

pub begins-split :
    (bs : Bytes)
    → starts_with begins bs ≡ false
    → (starts_with is_space bs ≡ false) × (starts_with (λ c. c == b']') bs ≡ false)
begins-split [] h = (refl, refl)
begins-split (c ∷ bs) h = (ground arith, ground arith)

module _ (parse_float : Bytes → Bool) (unmarshal : Bytes → Option Bytes) where
  pub value-begins :
      (depth : ℕ) (t : Value) (x : Bytes)
      → IsValue parse_float unmarshal depth t
      → (starts_with begins (print t ++ x) ≡ false) × (1 ≤ length (print t))
  unfolding print IsValue
  value-begins depth true_literal x h = (refl, omega arith)
  value-begins depth false_literal x h = (refl, omega arith)
  value-begins depth null_literal x h = (refl, omega arith)
  value-begins depth (number n) x h =
      number-begins n.minus n.whole (print_fraction n.fraction ++ print_exponent n.exponent) x
        h.whole
  value-begins depth (string cs) x h = (refl, omega arith)
  value-begins depth (empty_array w) x h = (refl, omega arith)
  value-begins depth (array w is) x h = (refl, omega arith)
  value-begins depth (empty_object w) x h = (refl, omega arith)
  value-begins depth (object w ms) x h = (refl, omega arith)

  pub first_two :
      (depth : ℕ) (v : Value) (x : Bytes)
      → IsValue parse_float unmarshal depth v
      → (starts_with is_space (print v ++ x) ≡ false) × (1 ≤ length (print v))
  first_two depth v x ist =
      let (h, long) = value-begins depth v x ist in ((begins-split (print v ++ x) h).0, long)

pub scanner-eq :
    (r : Bytes) (d d' : ℕ) (b b' : Bool) (t t' : Option (List Field)) (e e' : Option (List Bytes))
    → d ≡ d'
    → b ≡ b'
    → t ≡ t'
    → e ≡ e'
    → ◌≡◌ {A = Option Scanner}
        (some (record { rest = r; depth = d; spaced = b; top = t; elements = e }))
        (some (record { rest = r; depth = d'; spaced = b'; top = t'; elements = e' }))
scanner-eq r d d' b b' t t' e e' hd hb ht he = rw (hd, hb, ht, he) refl

-- Only what stands at depth 1 is collected.
collect_all-inner {ℓ} :
    {A : Type ℓ} (depth : ℕ) (xs : List A) (held : Option (List A))
    → depth ≢ 1
    → collect_all depth xs held ≡ held
collect_all-inner depth [] held h = refl
collect_all-inner depth (x ∷ xs) none h = collect_all-inner depth xs none h
collect_all-inner depth (x ∷ xs) (some held) h =
    let other : (depth == 1) ≡ false = ground arith in
    rw other (collect_all-inner depth xs (some held) h)

pub array-elements :
    (w : Bytes) (is : Items) (depth : ℕ) (held : Option (List Bytes))
    → collect_all (depth + 1) (item_texts is) held ≡ elements_after (array w is) depth held
array-elements w is zero held = refl
array-elements w is (suc depth) held =
    collect_all-inner (suc depth + 1) (item_texts is) held (omega arith)

pub object-top :
    (unmarshal : Bytes → Option Bytes) (w : Bytes) (ms : Members) (depth : ℕ)
    (held : Option (List Field))
    → collect_all (depth + 1) (member_fields unmarshal ms) held
      ≡ top_after unmarshal (object w ms) depth held
object-top unmarshal w ms zero held = refl
object-top unmarshal w ms (suc depth) held =
    collect_all-inner (suc depth + 1) (member_fields unmarshal ms) held (omega arith)

-- A value inside an array or an object collects nothing itself.
pub elements_after-inner :
    (v : Value) (depth : ℕ) (held : Option (List Bytes))
    → 1 ≤ depth
    → elements_after v depth held ≡ held
elements_after-inner v zero held h = absurd (omega arith)
elements_after-inner (array w is) (suc depth) held h = refl
elements_after-inner v (suc depth) held h = refl

pub top_after-inner :
    (unmarshal : Bytes → Option Bytes) (v : Value) (depth : ℕ) (held : Option (List Field))
    → 1 ≤ depth
    → top_after unmarshal v depth held ≡ held
top_after-inner unmarshal v zero held h = absurd (omega arith)
top_after-inner unmarshal (object w ms) (suc depth) held h = refl
top_after-inner unmarshal v (suc depth) held h = refl
