-- ===== src/StrictJson/Scanner/Rounds.antt =====
-- strictjson/strictjson.go: one round of the loop of `object`.

use lattice_sdk.Common.{
  ℕ, suc, ◌+◌, ◌≤◌, ◌≡◌, refl, ◌∙◌, ap, Bool, true, false, ◌||◌, Option, some, List, ◌∷◌, ◌++◌,
  append_assoc, length, length-append, ◌==◌, arith,
}
use lattice_sdk.StrictJson.Lexer.{Bytes, starts_with, is_space}
use lattice_sdk.StrictJson.Grammar.{IsSpace, Char, quoted, Value, Members, member, MoreMembers}
use lattice_sdk.StrictJson.Trees.{print, print_members, print_more_members}
use lattice_sdk.StrictJson.Scanner.{
  Scanner, Keys, add_key, space, advance, collect_field, next, read_key, value, members,
}
use lattice_sdk.StrictJson.Scanner.After.{is_some_space}
use lattice_sdk.StrictJson.Scanner.Steps.{space-over}

module _ (parse_float : Bytes → Bool) (unmarshal : Bytes → Option Bytes) where
  pub members-begins :
      (ms : Members) (r : Bytes)
      → (starts_with is_space (print_members ms ++ r) ≡ false)
        × (starts_with (λ c. c == b'}') (print_members ms ++ r) ≡ false)
  unfolding print_members
  members-begins (member cs w1 w2 v w3 more) r = (refl, refl)

  pub member-text :
      (cs : List Char) (w1 w2 : Bytes) (v : Value) (w3 : Bytes) (more : MoreMembers) (r : Bytes)
      → print_members (member cs w1 w2 v w3 more) ++ r
        ≡ quoted cs ++ (w1 ++ b':' ∷ (w2 ++ (print v ++ (w3 ++ (print_more_members more ++ r)))))
  unfolding print_members
  member-text cs w1 w2 v w3 more r = simp append_assoc

  pub member-length :
      (cs : List Char) (w1 w2 : Bytes) (v : Value) (w3 : Bytes) (more : MoreMembers)
      → length (print v) + length (print_more_members more) + 1
        ≤ length (print_members (member cs w1 w2 v w3 more))
  unfolding print_members
  member-length cs w1 w2 v w3 more = omega (
    arith,
    length-append (quoted cs) (w1 ++ b':' ∷ (w2 ++ (print v ++ (w3 ++ print_more_members more)))),
    length-append w1 (b':' ∷ (w2 ++ (print v ++ (w3 ++ print_more_members more)))),
    length-append w2 (print v ++ (w3 ++ print_more_members more)),
    length-append (print v) (w3 ++ print_more_members more),
    length-append w3 (print_more_members more),
  )

  -- One round of the loop of `object`, where the key and the value are known.
  pub member-round :
      (f : ℕ) (ks ks' : Keys) (key r0 : Bytes) (s s1 s2 s3 : Scanner)
      → read_key parse_float unmarshal s.rest ≡ some (key, r0)
      → add_key key ks ≡ some ks'
      → space (record s { rest = r0 }) ≡ s1
      → starts_with (λ c. c == b':') s1.rest ≡ true
      → space (advance s1) ≡ s2
      → value parse_float unmarshal f s2 ≡ some s3
      → members parse_float unmarshal (suc f) ks s
        ≡ next b'}' (members parse_float unmarshal f ks') (space (collect_field key s2 s3))
  unfolding members
  member-round f ks ks' key r0 s s1 s2 s3 keyed added eq1 colon eq2 read =
      let eq : space (advance (space (record s { rest = r0 }))) ≡ s2 =
        ap (λ t. space (advance t)) eq1 ∙ eq2 in
      let colon' : starts_with (λ c. c == b':') (space (record s { rest = r0 })).rest ≡ true =
        ap (λ (t : Scanner). starts_with (λ c. c == b':') t.rest) eq1 ∙ colon in
      let read' : value parse_float unmarshal f (space (advance (space (record s { rest = r0 }))))
          ≡ some s3 =
        ap (value parse_float unmarshal f) eq ∙ read in
      rw (keyed, added, colon', read')
        (ap (λ t. next b'}' (members parse_float unmarshal f ks') (space (collect_field key t s3)))
          eq)

  pub member-step :
      (f : ℕ) (ks ks' : Keys) (key : Bytes) (s : Scanner) (body w1 w2 : Bytes) {text : Bytes}
      → read_key parse_float unmarshal text ≡ some (key, w1 ++ b':' ∷ (w2 ++ body))
      → s.rest ≡ text
      → add_key key ks ≡ some ks'
      → IsSpace w1
      → IsSpace w2
      → starts_with is_space body ≡ false
      → (s3 : Scanner)
      → value parse_float unmarshal f
          (record s { rest = body; spaced = (s.spaced || is_some_space w1) || is_some_space w2 })
        ≡ some s3
      → members parse_float unmarshal (suc f) ks s
        ≡ next b'}' (members parse_float unmarshal f ks') (
            space (
              collect_field key
                (record s {
                  rest = body;
                  spaced = (s.spaced || is_some_space w1) || is_some_space w2;
                })
                s3))
  member-step f ks ks' key s body w1 w2 keyed eq added iswhite1 iswhite2 stop s3 read =
      let s1 : Scanner = record s {
        rest = b':' ∷ (w2 ++ body);
        spaced = s.spaced || is_some_space w1;
      } in
      member-round f ks ks' key (w1 ++ b':' ∷ (w2 ++ body)) s s1
        (record s { rest = body; spaced = (s.spaced || is_some_space w1) || is_some_space w2 }) s3
        (ap (read_key parse_float unmarshal) eq ∙ keyed) added
        (space-over (record s { rest = w1 ++ b':' ∷ (w2 ++ body) }) w1 (b':' ∷ (w2 ++ body)) refl
          iswhite1 refl)
        refl (space-over (advance s1) w2 body refl iswhite2 stop) read
