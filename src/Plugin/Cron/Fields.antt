-- ===== src/Plugin/Cron/Fields.antt =====
-- plugin/task_schedule.go, `parseCronField`: the values that a field selects.
use lattice_sdk.Common.{
  ℕ, suc, ◌-◌, ◌≤◌, ◌≡◌, ◌⊎◌, ◌↔◌, sym, subst, ◌∙◌, inl, inr, Bool, true, false, ◌||◌, List, [],
  ◌∷◌, ltb, if◌then◌else◌, Bool-cases, Result, ok, err, Option, none, some, bind-eq-ok, if-eq-ok,
  ok-injective, arith,
}
use lattice_sdk.Common.Bytes.{bytes_eq}
use lattice_sdk.Common.Runes.{cut, split}
use lattice_sdk.Plugin.Cron.{
  CronError, Item, cron_number, parse_step, parse_span, parse_single, or_else, invalid_range,
  invalid_value, step_needs_range, bounded_item, parse_range, parse_item, select_range, parse_items,
  parse_cron_field, invalid_step, outside,
}
use lattice_sdk.Plugin.Cron.Items.{parse_item_iff}
use lattice_sdk.Plugin.Cron.Ranges.{
  In, Chosen, Selects, Rising, select_range_iff, select_range-Rising,
}

-- An item that parses stays within the field's bounds, and selects something.
pub record IsItem (lo hi : ℕ) (i : Item) : Type 0 where
  pub above : lo ≤ i.start
  pub ordered : i.start ≤ i.end
  pub below : i.end ≤ hi
  pub steps : 1 ≤ i.step

parse_step-positive : (s : Option (List ℕ)) (n : ℕ) → parse_step s ≡ ok n → 1 ≤ n
unfolding parse_step
parse_step-positive none n e = ground arith
parse_step-positive (some s) n e = by_number (cron_number s) e
  where
    by_number :
        (r : Result CronError ℕ)
        → (elim r [ err x ↦ err invalid_step | ok n ↦ if ltb n 1 then err invalid_step else ok n ])
          ≡ ok n
        → 1 ≤ n
    by_number (err x) e = cc
    by_number (ok m) e = let (ge, same) = if-eq-ok (ltb m 1) invalid_step (ok m) n e in ground arith

parse_span-ordered : (a b : List ℕ) (p : ℕ × ℕ) → parse_span a b ≡ ok p → p.0 ≤ p.1
unfolding parse_span
parse_span-ordered a b p e =
    let (start, _, e1) = bind-eq-ok (or_else (cron_number a) invalid_range) _ p e in
    let (end, _, e2) = bind-eq-ok (or_else (cron_number b) invalid_range) _ p e1 in
    let (ge, e3) = if-eq-ok (ltb end start) invalid_range _ p e2 in
    let le : start ≤ end = ground arith in
    subst (λ (q : ℕ × ℕ). q.0 ≤ q.1) (ok-injective (start, end) p e3) le

parse_single-ordered :
    (range : List ℕ) (has_step : Bool) (p : ℕ × ℕ) → parse_single range has_step ≡ ok p → p.0 ≤ p.1
unfolding parse_single
parse_single-ordered range has_step p e =
    let (no_step, e1) = if-eq-ok has_step step_needs_range _ p e in
    let (n, _, e2) = bind-eq-ok (or_else (cron_number range) invalid_value) _ p e1 in
    subst (λ (q : ℕ × ℕ). q.0 ≤ q.1) (ok-injective (n, n) p e2) (omega arith)

parse_range-ordered :
    (lo hi : ℕ) (range : List ℕ) (has_step : Bool) (p : ℕ × ℕ)
    → lo ≤ hi
    → parse_range lo hi range has_step ≡ ok p
    → p.0 ≤ p.1
unfolding parse_range
parse_range-ordered lo hi range has_step p h e = elim (Bool-cases (bytes_eq range (b'*' ∷ []))) [
  | inl star ↦
      subst (λ (q : ℕ × ℕ). q.0 ≤ q.1) (ok-injective (lo, hi) p (rw (parse_range, star) at e)) h
  | inr other ↦ by_cut (cut b'-' range).1 (rw (parse_range, other) at e)
]
  where
    by_cut :
        (rest : Option (List ℕ))
        → (elim rest [
          | some b ↦ parse_span (cut b'-' range).0 b
          | none ↦ parse_single range has_step
        ])
          ≡ ok p
        → p.0 ≤ p.1
    by_cut none e = parse_single-ordered range has_step p e
    by_cut (some b) e = parse_span-ordered (cut b'-' range).0 b p e

bounded_item-IsItem :
    (lo hi n : ℕ) (p : ℕ × ℕ) (i : Item)
    → p.0 ≤ p.1
    → 1 ≤ n
    → bounded_item lo hi n p ≡ ok i
    → IsItem lo hi i
unfolding bounded_item
bounded_item-IsItem lo hi n (start, end) i h s e =
    let (inside, e1) = if-eq-ok (ltb start lo || ltb hi end) outside _ i e in
    subst (IsItem lo hi) (ok-injective (record { start = start; end = end; step = n }) i e1)
      (record { above = ground arith; ordered = h; below = ground arith; steps = s })

pub parse_item-IsItem :
    (lo hi : ℕ) (item : List ℕ) (i : Item) → lo ≤ hi → parse_item lo hi item ≡ ok i → IsItem lo hi i
unfolding parse_item
parse_item-IsItem lo hi item i h e =
    let (range, step) = cut b'/' item in
    let has : Bool = elim step [ none ↦ false | some s ↦ true ] in
    let (n, e0, e1) = bind-eq-ok (parse_step step) _ i e in
    let (p, e2, e3) = bind-eq-ok (parse_range lo hi range has) _ i e1 in
    bounded_item-IsItem lo hi n p i (parse_range-ordered lo hi range has p h e2)
      (parse_step-positive step n e0) e3

-- The values that the items select are added, in their order; each is within the field's bounds.
parse_items_lem :
    (lo hi : ℕ) (items : List (List ℕ)) (selected set : List ℕ)
    → lo ≤ hi
    → Rising lo selected
    → parse_items lo hi items selected ≡ ok set
    → Rising lo set × ((u : ℕ) → In u set ↔ (Selects lo hi items u ⊎ In u selected))
unfolding parse_items
parse_items_lem lo hi [] selected set h r e =
    let same = ok-injective selected set e in
    (
      subst (Rising lo) same r,
      λ u.
          subst (λ ys. In u ys ↔ (⊥ ⊎ In u selected)) same
            ((λ k. inr k), (λ k. elim k [ inl b ↦ elim b [ ] | inr k ↦ k ])),
    )
parse_items_lem lo hi (item ∷ items) selected set h r e =
    let (i, e0, e1) = bind-eq-ok (parse_item lo hi item) _ set e in
    let v = parse_item-IsItem lo hi item i h e0 in
    let more = select_range (suc i.end - i.start) i.start i.end i.step selected in
    let (rising, ih) =
      parse_items_lem lo hi items more set h
        (select_range-Rising (suc i.end - i.start) lo i.start i.end i.step selected v.above r) e1 in
    let own = λ (u : ℕ).
      select_range_iff (suc i.end - i.start) i.start i.end i.step selected u (omega arith)
        v.steps in
    (
      rising,
      λ u. (
        (λ k. elim ((ih u).0 k) [
          | inl later ↦ inl (inr later)
          | inr now ↦ elim ((own u).0 now) [
            | inl (n, eq, le) ↦ inl (inl (i, (parse_item_iff lo hi item i).0 e0, (n, eq, le)))
            | inr before ↦ inr before
          ]
        ]),
        (λ k. elim k [
          | inl s ↦ elim s [
            | inl (j, ej, c) ↦
                let same : i ≡ j = ok-injective i j (sym e0 ∙ (parse_item_iff lo hi item j).1 ej) in
                (ih u).1 (inr ((own u).1 (inl (subst (λ q. Chosen q u) (sym same) c))))
            | inr later ↦ (ih u).1 (inl later)
          ]
          | inr before ↦ (ih u).1 (inr ((own u).1 (inr before)))
        ]),
      ),
    )

-- A field that parses selects exactly the numbers of its items, which stand sorted and distinct. An
-- item is "*", "a" or "a-b", or "*" or "a-b" with a step behind a slash, on numbers of one or two
-- digits within the field's bounds.
pub parse_cron_field-Selects :
    (field : List ℕ) (lo hi : ℕ) (set : List ℕ)
    → lo ≤ hi
    → parse_cron_field field lo hi ≡ ok set
    → Rising lo set × ((u : ℕ) → In u set ↔ Selects lo hi (split b',' field) u)
unfolding parse_cron_field
parse_cron_field-Selects field lo hi set h e =
    let (rising, all) = parse_items_lem lo hi (split b',' field) [] set h tt e in
    (
      rising,
      λ u. ((λ k. elim ((all u).0 k) [ inl s ↦ s | inr b ↦ elim b [ ] ]), (λ s. (all u).1 (inl s))),
    )
