-- ===== src/Model/StatusSet/Merged.antt =====
-- model/monitor_checks.go: sorting and merging change no answer of `Contains`.
use lattice_sdk.Common.{
  ℕ, ◌+◌, ◌≤◌, ◌≡◌, refl, sym, ap, subst, ◌∙◌, inl, inr, Bool, true, false, ◌||◌, List, [], ◌∷◌,
  leb, Bool-cases, All, arith,
}
use lattice_sdk.Model.StatusSet.{
  MonitorStatusRange, MonitorStatusSet, insert_range, sort_ranges, max, merge_from, in_range,
  contains,
}

abbrev pub IsRange : MonitorStatusRange → Type 0
IsRange r = r.lo ≤ r.hi

-- Ranges by their lower ends.
abbrev pub IsSorted : ℕ → List MonitorStatusRange → Type 0
IsSorted b [] = Unit {0}
IsSorted b (r ∷ rs) = (b ≤ r.lo) × IsRange r × IsSorted r.lo rs

-- Ranges in order, with a code between each two that neither holds.
abbrev pub Separated : ℕ → MonitorStatusSet → Type 0
Separated b [] = Unit {0}
Separated b (r ∷ rs) = (b ≤ r.lo) × IsRange r × Separated (r.hi + 2) rs

module _ (r x : MonitorStatusRange) (xs : List MonitorStatusRange) where
  insert_range-front : leb r.lo x.lo ≡ true → insert_range r (x ∷ xs) ≡ r ∷ x ∷ xs
  unfolding insert_range
  insert_range-front e = rw e

  insert_range-behind : leb r.lo x.lo ≡ false → insert_range r (x ∷ xs) ≡ x ∷ insert_range r xs
  unfolding insert_range
  insert_range-behind e = rw e

insert_range-IsSorted :
    (b : ℕ) (r : MonitorStatusRange) (xs : List MonitorStatusRange)
    → b ≤ r.lo
    → IsRange r
    → IsSorted b xs
    → IsSorted b (insert_range r xs)
unfolding insert_range
insert_range-IsSorted b r [] h v s = (h, v, tt)
insert_range-IsSorted b r (x ∷ xs) h v (le, w, s) = elim (Bool-cases (leb r.lo x.lo)) [
  | inl e ↦ subst (IsSorted b) (sym (insert_range-front r x xs e)) (h, v, (ground arith, w, s))
  | inr e ↦
      subst (IsSorted b) (sym (insert_range-behind r x xs e))
        (le, w, insert_range-IsSorted x.lo r xs (ground arith) v s)
]

pub sort_ranges-IsSorted :
    (xs : List MonitorStatusRange) → All IsRange xs → IsSorted 0 (sort_ranges xs)
unfolding sort_ranges
sort_ranges-IsSorted [] v = tt
sort_ranges-IsSorted (x ∷ xs) (v, w) =
    insert_range-IsSorted 0 x (sort_ranges xs) (omega arith) v (sort_ranges-IsSorted xs w)

or_swap : (a b c : Bool) → (a || (b || c)) ≡ (b || (a || c))
or_swap a b c = ground arith

contains-insert_range :
    (r : MonitorStatusRange) (xs : List MonitorStatusRange) (c : ℕ)
    → contains (insert_range r xs) c ≡ (in_range r c || contains xs c)
unfolding insert_range contains
contains-insert_range r [] c = refl
contains-insert_range r (x ∷ xs) c = elim (Bool-cases (leb r.lo x.lo)) [
  | inl e ↦ ap (λ s. contains s c) (insert_range-front r x xs e)
  | inr e ↦
      ap (λ s. contains s c) (insert_range-behind r x xs e)
      ∙ ap (λ t. in_range x c || t) (contains-insert_range r xs c)
      ∙ or_swap (in_range x c) (in_range r c) (contains xs c)
]

pub contains-sort_ranges :
    (xs : List MonitorStatusRange) (c : ℕ) → contains (sort_ranges xs) c ≡ contains xs c
unfolding sort_ranges contains
contains-sort_ranges [] c = refl
contains-sort_ranges (x ∷ xs) c =
    contains-insert_range x (sort_ranges xs) c
    ∙ ap (λ t. in_range x c || t) (contains-sort_ranges xs c)

module _ (last r : MonitorStatusRange) (rs : List MonitorStatusRange) where
  abbrev joined : MonitorStatusRange
  joined = record { lo = last.lo; hi = max last.hi r.hi }

  merge_from-joined :
      leb r.lo (last.hi + 1) ≡ true → merge_from last (r ∷ rs) ≡ merge_from joined rs
  unfolding merge_from
  merge_from-joined e = rw e

  merge_from-apart :
      leb r.lo (last.hi + 1) ≡ false → merge_from last (r ∷ rs) ≡ last ∷ merge_from r rs
  unfolding merge_from
  merge_from-apart e = rw e

  in_range-joined :
      (c : ℕ) (t : Bool)
      → IsRange last
      → last.lo ≤ r.lo
      → IsRange r
      → r.lo ≤ last.hi + 1
      → (in_range joined c || t) ≡ (in_range last c || (in_range r c || t))
  in_range-joined c t v le w near = ground arith

pub contains-merge_from :
    (last : MonitorStatusRange) (rs : List MonitorStatusRange) (c : ℕ)
    → IsRange last
    → IsSorted last.lo rs
    → contains (merge_from last rs) c ≡ (in_range last c || contains rs c)
unfolding merge_from contains
contains-merge_from last [] c v s = refl
contains-merge_from last (r ∷ rs) c v (le, w, s) = elim (Bool-cases (leb r.lo (last.hi + 1))) [
  | inl e ↦
      ap (λ t. contains t c) (merge_from-joined last r rs e)
      ∙ contains-merge_from (joined last r rs) rs c (ground arith)
          (IsSorted-le r.lo last.lo rs le s)
      ∙ in_range-joined last r rs c (contains rs c) v le w (ground arith)
  | inr e ↦
      ap (λ t. contains t c) (merge_from-apart last r rs e)
      ∙ ap (λ t. in_range last c || t) (contains-merge_from r rs c w s)
]
  where
    IsSorted-le : (b a : ℕ) (xs : List MonitorStatusRange) → a ≤ b → IsSorted b xs → IsSorted a xs
    IsSorted-le b a [] h s = s
    IsSorted-le b a (x ∷ xs) h (le, v, s) = (omega arith, v, s)

pub merge_from-Separated :
    (b : ℕ) (last : MonitorStatusRange) (rs : List MonitorStatusRange)
    → b ≤ last.lo
    → IsRange last
    → IsSorted last.lo rs
    → Separated b (merge_from last rs)
unfolding merge_from
merge_from-Separated b last [] h v s = (h, v, tt)
merge_from-Separated b last (r ∷ rs) h v (le, w, s) = elim (Bool-cases (leb r.lo (last.hi + 1))) [
  | inl e ↦
      subst (Separated b) (sym (merge_from-joined last r rs e))
        (merge_from-Separated b (joined last r rs) rs h (ground arith) (weaken rs s))
  | inr e ↦
      subst (Separated b) (sym (merge_from-apart last r rs e))
        (h, v, merge_from-Separated (last.hi + 2) r rs (ground arith) w s)
]
  where
    weaken : (xs : List MonitorStatusRange) → IsSorted r.lo xs → IsSorted last.lo xs
    weaken [] s = s
    weaken (x ∷ xs) (le', v', s') = (omega arith, v', s')
