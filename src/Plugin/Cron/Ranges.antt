-- ===== src/Plugin/Cron/Ranges.antt =====
-- plugin/task_schedule.go, `parseCronField`: the loop over the values of one item.
use lattice_sdk.Common.{
  ℕ, zero, suc, ◌+◌, ◌-◌, ◌*◌, ◌≤◌, ◌≡◌, ◌⊎◌, ◌↔◌, sym, subst, ◌∙◌, inl, inr, true, false, List, [],
  ◌∷◌, ltb, leb, ◌==◌, Bool-cases, arith,
}
use native.Mathlib.Nat.{suc-mul}
use lattice_sdk.Plugin.Cron.{Item, select, select_range}
use lattice_sdk.Plugin.Cron.Dialect.{IsItemOf}

-- Membership, by a walk along the list.
abbrev pub In : ℕ → List ℕ → Type 0
In u [] = ⊥
In u (x ∷ xs) = (u ≡ x) ⊎ In u xs

-- The values of an item, in closed form.
abbrev pub Chosen : Item → ℕ → Type 0
Chosen i u = (k : ℕ) × (u ≡ i.start + k * i.step) × (u ≤ i.end)

-- A value that one of the items selects: an item of the dialect, within the field's bounds.
abbrev pub Selects : ℕ → ℕ → List (List ℕ) → ℕ → Type 0
Selects lo hi [] u = ⊥
Selects lo hi (item ∷ items) u =
    ((i : Item) × IsItemOf lo hi item i × Chosen i u) ⊎ Selects lo hi items u

-- Rising values from `b` on.
abbrev pub Rising : ℕ → List ℕ → Type 0
Rising b [] = Unit {0}
Rising b (x ∷ xs) = (b ≤ x) × Rising (suc x) xs

module _ (v x : ℕ) (xs : List ℕ) where
  select-same : (v == x) ≡ true → select v (x ∷ xs) ≡ x ∷ xs
  unfolding select
  select-same e = rw e

  select-front : (v == x) ≡ false → ltb v x ≡ true → select v (x ∷ xs) ≡ v ∷ x ∷ xs
  unfolding select
  select-front e f = rw (e, f)

  select-behind : (v == x) ≡ false → ltb v x ≡ false → select v (x ∷ xs) ≡ x ∷ select v xs
  unfolding select
  select-behind e f = rw (e, f)

select-Rising : (b v : ℕ) (xs : List ℕ) → b ≤ v → Rising b xs → Rising b (select v xs)
unfolding select
select-Rising b v [] h r = (h, tt)
select-Rising b v (x ∷ xs) h (le, r) = elim (Bool-cases (v == x)) [
  | inl e ↦ subst (Rising b) (sym (select-same v x xs e)) (le, r)
  | inr e ↦ elim (Bool-cases (ltb v x)) [
    | inl f ↦ subst (Rising b) (sym (select-front v x xs e f)) (h, (ground arith, r))
    | inr f ↦
        subst (Rising b) (sym (select-behind v x xs e f))
          (le, select-Rising (suc x) v xs (ground arith) r)
  ]
]

select_iff : (u v : ℕ) (xs : List ℕ) → In u (select v xs) ↔ ((u ≡ v) ⊎ In u xs)
unfolding select
select_iff u v [] = ((λ k. k), (λ k. k))
select_iff u v (x ∷ xs) = elim (Bool-cases (v == x)) [
  | inl e ↦
      let same : v ≡ x = ground arith in
      subst Claim (sym (select-same v x xs e))
        ((λ k. inr k), (λ k. elim k [ inl h ↦ inl (h ∙ same) | inr h ↦ h ]))
  | inr e ↦ elim (Bool-cases (ltb v x)) [
    | inl f ↦ subst Claim (sym (select-front v x xs e f)) ((λ k. k), (λ k. k))
    | inr f ↦
        let ih = select_iff u v xs in
        subst Claim (sym (select-behind v x xs e f)) (
          (λ k. elim k [
            | inl h ↦ inr (inl h)
            | inr h ↦ elim (ih.0 h) [ inl g ↦ inl g | inr g ↦ inr (inr g) ]
          ]),
          (λ k. elim k [
            | inl h ↦ inr (ih.1 (inl h))
            | inr h ↦ elim h [ inl g ↦ inl g | inr g ↦ inr (ih.1 (inr g)) ]
          ]),
        )
  ]
]
  where
    Claim : List ℕ → Type 0
    Claim ys = In u ys ↔ ((u ≡ v) ⊎ In u (x ∷ xs))

-- The loop ends within its fuel, and adds the values in closed form.
pub select_range_iff :
    (fuel v end step : ℕ) (selected : List ℕ) (u : ℕ)
    → suc end - v ≤ fuel
    → 1 ≤ step
    → In u (select_range fuel v end step selected)
      ↔ (((k : ℕ) × (u ≡ v + k * step) × (u ≤ end)) ⊎ In u selected)
unfolding select_range
select_range_iff zero v end step selected u f s =
    ((λ k. inr k), (λ k. elim k [ inl (n, e, le) ↦ absurd (omega arith) | inr h ↦ h ]))
select_range_iff (suc fuel) v end step selected u f s = elim (Bool-cases (leb v end)) [
  | inl g ↦
      let ih = select_range_iff fuel (v + step) end step (select v selected) u (ground arith) s in
      let first = select_iff u v selected in
      subst (λ ys. In u ys ↔ Claim) (sym (select_range-next g))
        (
          (λ k. elim (ih.0 k) [
            | inl (n, e, le) ↦ inl (suc n, omega (arith, suc-mul n step), le)
            | inr h ↦ elim (first.0 h) [
              | inl e ↦ inl (0, omega arith, ground arith)
              | inr i ↦ inr i
            ]
          ]),
          (λ k. elim k [
            | inl (zero, e, le) ↦ ih.1 (inr (first.1 (inl (omega arith))))
            | inl (suc n, e, le) ↦ ih.1 (inl (n, omega (arith, suc-mul n step), le))
            | inr i ↦ ih.1 (inr (first.1 (inr i)))
          ]),
        )
  | inr g ↦
      subst (λ ys. In u ys ↔ Claim) (sym (select_range-end g))
        ((λ k. inr k), (λ k. elim k [ inl (n, e, le) ↦ absurd (ground arith) | inr i ↦ i ]))
]
  where
    Claim : Type 0
    Claim = ((k : ℕ) × (u ≡ v + k * step) × (u ≤ end)) ⊎ In u selected

    select_range-next :
        leb v end ≡ true
        → select_range (suc fuel) v end step selected
          ≡ select_range fuel (v + step) end step (select v selected)
    select_range-next g = rw g

    select_range-end : leb v end ≡ false → select_range (suc fuel) v end step selected ≡ selected
    select_range-end g = rw g

pub select_range-Rising :
    (fuel b v end step : ℕ) (selected : List ℕ)
    → b ≤ v
    → Rising b selected
    → Rising b (select_range fuel v end step selected)
unfolding select_range
select_range-Rising zero b v end step selected h r = r
select_range-Rising (suc fuel) b v end step selected h r = elim (Bool-cases (leb v end)) [
  | inl g ↦ subst (Rising b) (next g) (
      select_range-Rising fuel b (v + step) end step (select v selected) (omega arith)
        (select-Rising b v selected h r))
  | inr g ↦ subst (Rising b) (stop g) r
]
  where
    next :
        leb v end ≡ true
        → select_range fuel (v + step) end step (select v selected)
          ≡ select_range (suc fuel) v end step selected
    next g = rw g

    stop : leb v end ≡ false → selected ≡ select_range (suc fuel) v end step selected
    stop g = rw g
