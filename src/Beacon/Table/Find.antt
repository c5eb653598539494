-- ===== src/Beacon/Table/Find.antt =====
-- beacon/responder.go, `responderTable.find`: the binary search finds a source exactly if the table
-- holds one, whatever the number of sources.
use lattice_sdk.Common.{
  ℕ, zero, suc, ◌+◌, ◌-◌, ◌/◌, ◌≤◌, ◌<◌, ◌≡◌, ◌≢◌, refl, sym, ap, subst, ◌∙◌, inl, inr, true, false,
  Option, none, some, some-injective, List, [], ◌∷◌, length, get_elem?, ltb, ◌==◌, Bool-cases,
  arith,
}
use lattice_sdk.Beacon.Table.{TableSource, find_loop, find}

-- The ids rise along the table.
abbrev pub Above : ℕ → List TableSource → Type 0
Above b [] = Unit {0}
Above b (s ∷ ss) = (b ≤ s.id) × Above (suc s.id) ss

abbrev pub IsSorted : List TableSource → Type 0
IsSorted = Above 0

get_elem?-lt {ℓ} :
    {A : Type ℓ} (xs : List A) (i : ℕ) → i < length xs → (a : A) × (get_elem? xs i ≡ some a)
get_elem?-lt [] i h = absurd (omega arith)
get_elem?-lt (x ∷ xs) zero h = (x, refl)
get_elem?-lt (x ∷ xs) (suc i) h = get_elem?-lt xs i (omega arith)

get_elem?-some {ℓ} :
    {A : Type ℓ} (xs : List A) (i : ℕ) (a : A) → get_elem? xs i ≡ some a → i < length xs
get_elem?-some [] i a e = cc
get_elem?-some (x ∷ xs) zero a e = omega arith
get_elem?-some (x ∷ xs) (suc i) a e = omega (arith, get_elem?-some xs i a e)

pub Above-id :
    (b : ℕ) (ss : List TableSource) (i : ℕ) (s : TableSource)
    → Above b ss
    → get_elem? ss i ≡ some s
    → b ≤ s.id
Above-id b [] i s a e = cc
Above-id b (x ∷ ss) zero s (le, a) e = ground arith
Above-id b (x ∷ ss) (suc i) s (le, a) e = omega (arith, Above-id (suc x.id) ss i s a e)

-- An earlier source has the smaller id.
sorted_lt :
    (b : ℕ) (ss : List TableSource) (i j : ℕ) (s t : TableSource)
    → Above b ss
    → i < j
    → get_elem? ss i ≡ some s
    → get_elem? ss j ≡ some t
    → s.id < t.id
sorted_lt b [] i j s t a lt ei ej = cc
sorted_lt b (x ∷ ss) zero zero s t a lt ei ej = absurd (omega arith)
sorted_lt b (x ∷ ss) zero (suc j) s t (_, a) lt ei ej =
    let e : x ≡ s = ground arith in
    subst (λ (q : TableSource). q.id < t.id) e (Above-id (suc x.id) ss j t a ej)
sorted_lt b (x ∷ ss) (suc i) zero s t a lt ei ej = absurd (omega arith)
sorted_lt b (x ∷ ss) (suc i) (suc j) s t (_, a) lt ei ej =
    sorted_lt (suc x.id) ss i j s t a (omega arith) ei ej

module _ (sources : List TableSource) (id : ℕ) (sorted : IsSorted sources) where
  -- The source with the id, if there is one, stands in `[lo, hi)`.
  abbrev Within : ℕ → ℕ → Type 0
  Within lo hi =
      (i : ℕ) (s : TableSource) → get_elem? sources i ≡ some s → s.id ≡ id → (lo ≤ i) × (i < hi)

  -- The search ended, and its answer is right.
  abbrev pub Answers : Option (Option ℕ) → Type 0
  Answers none = ⊥
  Answers (some none) = (i : ℕ) (s : TableSource) → get_elem? sources i ≡ some s → s.id ≢ id
  Answers (some (some i)) = (s : TableSource) × (get_elem? sources i ≡ some s) × (s.id ≡ id)

  module _ (fuel lo hi : ℕ) (t : TableSource) (lt : ltb lo hi ≡ true)
      (at : get_elem? sources ((lo + hi) / 2) ≡ some t) where
    find_loop-here :
        (t.id == id) ≡ true → find_loop (suc fuel) sources id lo hi ≡ some (some ((lo + hi) / 2))
    unfolding find_loop
    find_loop-here e = rw (lt, at, e)

    find_loop-right :
        (t.id == id) ≡ false
        → ltb t.id id ≡ true
        → find_loop (suc fuel) sources id lo hi ≡ find_loop fuel sources id ((lo + hi) / 2 + 1) hi
    unfolding find_loop
    find_loop-right ne below = rw (lt, at, ne, below)

    find_loop-left :
        (t.id == id) ≡ false
        → ltb t.id id ≡ false
        → find_loop (suc fuel) sources id lo hi ≡ find_loop fuel sources id lo ((lo + hi) / 2)
    unfolding find_loop
    find_loop-left ne above = rw (lt, at, ne, above)

  find_loop-end :
      (fuel lo hi : ℕ) → ltb lo hi ≡ false → find_loop (suc fuel) sources id lo hi ≡ some none
  unfolding find_loop
  find_loop-end fuel lo hi ge = rw ge

  -- The comparison with the source in the middle rules out one side.
  Within-right :
      (lo hi mid : ℕ) (t : TableSource)
      → get_elem? sources mid ≡ some t
      → t.id < id
      → Within lo hi
      → Within (mid + 1) hi
  Within-right lo hi mid t at lt w i s ei es =
      let (_, below) = w i s ei es in
      elim (Bool-cases (ltb mid i)) [
        | inl h ↦ (ground arith, below)
        | inr h ↦ elim (Bool-cases (i == mid)) [
          | inl e ↦
              let same : i ≡ mid = ground arith in
              let ts : some s ≡ some t = sym ei ∙ ap (get_elem? sources) same ∙ at in
              let tid : s.id ≡ t.id = ap (λ (q : TableSource). q.id) (some-injective s t ts) in
              absurd (omega arith)
          | inr e ↦
              let before : i < mid = ground arith in
              absurd (omega (arith, sorted_lt 0 sources i mid s t sorted before ei at))
        ]
      ]

  Within-left :
      (lo hi mid : ℕ) (t : TableSource)
      → get_elem? sources mid ≡ some t
      → id < t.id
      → Within lo hi
      → Within lo mid
  Within-left lo hi mid t at lt w i s ei es =
      let (above, _) = w i s ei es in
      elim (Bool-cases (ltb i mid)) [
        | inl h ↦ (above, ground arith)
        | inr h ↦ elim (Bool-cases (i == mid)) [
          | inl e ↦
              let same : i ≡ mid = ground arith in
              let ts : some s ≡ some t = sym ei ∙ ap (get_elem? sources) same ∙ at in
              let tid : s.id ≡ t.id = ap (λ (q : TableSource). q.id) (some-injective s t ts) in
              absurd (omega arith)
          | inr e ↦
              let after : mid < i = ground arith in
              absurd (omega (arith, sorted_lt 0 sources mid i t s sorted after at ei))
        ]
      ]

  find_loop-Answers :
      (fuel lo hi : ℕ)
      → hi - lo < fuel
      → hi ≤ length sources
      → Within lo hi
      → Answers (find_loop fuel sources id lo hi)
  find_loop-Answers zero lo hi f le w = absurd (omega arith)
  find_loop-Answers (suc fuel) lo hi f le w = elim (Bool-cases (ltb lo hi)) [
    | inl lt ↦
        let mid = (lo + hi) / 2 in
        let lo-mid : lo ≤ mid = ground arith in
        let mid-hi : mid < hi = ground arith in
        let (t, at) = get_elem?-lt sources mid (omega arith) in
        let left = find_loop-Answers fuel lo mid (omega arith) (omega arith) in
        let right = find_loop-Answers fuel (mid + 1) hi (omega arith) le in
        elim (Bool-cases (t.id == id)) [
          | inl e ↦ subst Answers (sym (find_loop-here fuel lo hi t lt at e)) (t, at, ground arith)
          | inr ne ↦ elim (Bool-cases (ltb t.id id)) [
            | inl below ↦
                subst Answers (sym (find_loop-right fuel lo hi t lt at ne below))
                  (right (Within-right lo hi mid t at (ground arith) w))
            | inr above ↦
                subst Answers (sym (find_loop-left fuel lo hi t lt at ne above))
                  (left (Within-left lo hi mid t at (ground arith) w))
          ]
        ]
    | inr ge ↦
        subst Answers (sym (find_loop-end fuel lo hi ge))
          (λ i s ei es. let (above, below) = w i s ei es in absurd (ground arith))
  ]

  -- The binary search over a table sorted by id ends within one round more than there are sources,
  -- never reads beside the table, and finds a source with the id exactly if the table holds one.
  pub find-Answers : Answers (find sources id)
  unfolding find
  find-Answers =
      find_loop-Answers (length sources + 1) 0 (length sources) (omega arith) (omega arith)
        (λ i s ei es. (omega arith, get_elem?-some sources i s ei))
