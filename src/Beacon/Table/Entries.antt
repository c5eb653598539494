-- ===== src/Beacon/Table/Entries.antt =====
-- beacon/responder.go, `SetTable`: the loop over the entries builds their groups, and refuses the
-- entries that have none.
use lattice_sdk.Common.{
  ℕ, ◌≡◌, ◌≢◌, ◌⊎◌, refl, sym, ap, subst, ◌∙◌, inl, inr, true, false, ◌||◌, some, List, [], ◌∷◌,
  ◌++◌, append_assoc, append-nil, length, ◌==◌, ==_iff, Bool-cases, Result, ok, err, All, arith,
}
use lattice_sdk.Beacon.Table.{
  TableEntry, TableEpoch, TableSource, TableError, zero_id, endless, has_epoch, add_entries,
}
use lattice_sdk.Beacon.Table.Groups.{
  epoch_of, held, grouped, Few, lookup, put, lookup-put, Distinct, put-Distinct, target, added,
  target_id, add_epoch_cases, add_entry-put, or_fresh, group, held_state, Searched,
}

held-append : (id : ℕ) (xs ys : List TableEntry) → held id (xs ++ ys) ≡ held id xs ++ held id ys
held-append id [] ys = refl
held-append id (x ∷ xs) ys = elim (Bool-cases (x.source_id == id)) [
  | inl f ↦ rw (f, held-append id xs ys)
  | inr f ↦ rw (f, held-append id xs ys)
]

held-last_same :
    (e : TableEntry) (done : List TableEntry)
    → held e.source_id (done ++ e ∷ []) ≡ held e.source_id done ++ epoch_of e ∷ []
held-last_same e done =
    let self : (e.source_id == e.source_id) ≡ true = ground arith in
    held-append e.source_id done (e ∷ []) ∙ rw (held, self)

held-last_other :
    (id : ℕ) (e : TableEntry) (done : List TableEntry)
    → (e.source_id == id) ≡ false
    → held id (done ++ e ∷ []) ≡ held id done
held-last_other id e done f =
    held-append id done (e ∷ [])
    ∙ ap (λ qs. held id done ++ qs) (step f)
    ∙ append-nil (held id done)
  where
    step : (e.source_id == id) ≡ false → held id (e ∷ []) ≡ []
    step f = rw f

-- A prefix of few epochs is few, and has room for the next.
Few-prefix : (ps qs : List TableEpoch) → Few (ps ++ qs) → Few ps
Few-prefix [] qs f = tt
Few-prefix (p ∷ []) qs f = tt
Few-prefix (p ∷ q ∷ []) [] f = f
Few-prefix (p ∷ q ∷ []) (r ∷ qs) f = elim f [ ]
Few-prefix (p ∷ q ∷ r ∷ ps) qs f = f

Few-room :
    (e : TableEntry) (ps : List TableEpoch)
    → Few ps
    → has_epoch e.epoch ps ≡ false
    → length ps ≢ 2
    → Few (ps ++ epoch_of e ∷ [])
unfolding has_epoch
Few-room e [] f new room = tt
Few-room e (p ∷ []) f new room = λ q. ground arith
Few-room e (p ∷ q ∷ []) f new room = absurd (room refl)
Few-room e (p ∷ q ∷ r ∷ ps) f new room = f

Few-new :
    (e : TableEntry) (ps : List TableEpoch)
    → Few (ps ++ epoch_of e ∷ [])
    → (has_epoch e.epoch ps ≡ true) ⊎ (length ps ≡ 2)
    → ⊥
unfolding has_epoch
Few-new e [] f (inl h) = cc
Few-new e [] f (inr h) = cc
Few-new e (p ∷ []) f (inl h) = f (ground arith)
Few-new e (p ∷ []) f (inr h) = omega arith
Few-new e (p ∷ q ∷ []) f h = f
Few-new e (p ∷ q ∷ r ∷ ps) f h = f

-- Entries that make a table: positive ids and epochs, and few epochs for each source.
abbrev pub IsPositive : TableEntry → Type 0
IsPositive e = (e.source_id ≢ 0) × (e.epoch ≢ 0)

abbrev pub Acceptable : List TableEntry → Type 0
Acceptable entries = All IsPositive entries × ((id : ℕ) → Few (held id entries))

module _ (old : List TableSource) where
  abbrev pub GroupedAt : List TableEntry → List TableSource → ℕ → Type 0
  GroupedAt done by_id id = (lookup id by_id ≡ grouped old done id) × Few (held id done)

  abbrev pub IsGrouped : List TableEntry → List TableSource → Type 0
  IsGrouped done by_id = ((id : ℕ) → GroupedAt done by_id id) × Distinct by_id

  or_fresh-group :
      (id : ℕ) (ps : List TableEpoch)
      → or_fresh old id (group old id ps)
        ≡ record { id = id; epochs = ps; state = held_state old id }
  or_fresh-group id [] = refl
  or_fresh-group id (p ∷ ps) = refl

  group-last :
      (id : ℕ) (ps : List TableEpoch) (p : TableEpoch)
      → group old id (ps ++ p ∷ [])
        ≡ some (record { id = id; epochs = ps ++ p ∷ []; state = held_state old id })
  group-last id [] p = refl
  group-last id (q ∷ ps) p = refl

  pub target-IsGrouped :
      (done : List TableEntry) (by_id : List TableSource) (id : ℕ)
      → lookup id by_id ≡ grouped old done id
      → target old id by_id ≡ record { id = id; epochs = held id done; state = held_state old id }
  target-IsGrouped done by_id id e = ap (or_fresh old id) e ∙ or_fresh-group id (held id done)

  module _ (done : List TableEntry) (e : TableEntry) (by_id : List TableSource)
      (v : IsGrouped done by_id) (new : has_epoch e.epoch (held e.source_id done) ≡ false)
      (room : length (held e.source_id done) ≢ 2) where
    abbrev grown : TableSource
    grown = added e (target old e.source_id by_id)

    GroupedAt-own : GroupedAt (done ++ e ∷ []) (put grown by_id) e.source_id
    GroupedAt-own =
        let id = e.source_id in
        let self : (grown.id == id) ≡ true = (==_iff _ _).1 (target_id old id by_id) in
        let t = target-IsGrouped done by_id id (v.0 id).0 in
        (
          lookup-put grown by_id id
              ∙ (rw self)
              ∙ ap (λ (s : TableSource). some (added e s)) t
              ∙ sym (group-last id (held id done) (epoch_of e))
              ∙ ap (group old id) (sym (held-last_same e done)),
          subst Few (sym (held-last_same e done)) (Few-room e (held id done) (v.0 id).1 new room),
        )

    GroupedAt-other :
        (id : ℕ) → (e.source_id == id) ≡ false → GroupedAt (done ++ e ∷ []) (put grown by_id) id
    GroupedAt-other id f =
        let not_own : (grown.id == id) ≡ false =
          subst (λ i. (i == id) ≡ false) (sym (target_id old e.source_id by_id)) f in
        let same = sym (held-last_other id e done f) in
        (
          lookup-put grown by_id id ∙ (rw not_own) ∙ (v.0 id).0 ∙ ap (group old id) same,
          subst Few same (v.0 id).1,
        )

    add_entry-IsGrouped : IsGrouped (done ++ e ∷ []) (put grown by_id)
    add_entry-IsGrouped = (
      λ id. elim (Bool-cases (e.source_id == id)) [
        | inl f ↦
            subst (GroupedAt (done ++ e ∷ []) (put grown by_id)) ((==_iff e.source_id id).0 f)
              GroupedAt-own
        | inr f ↦ GroupedAt-other id f
      ],
      put-Distinct grown by_id v.1,
    )

  -- What the loop comes to: the groups of all entries, or an error for entries that no table holds.
  abbrev pub Added :
      List TableEntry → List TableEntry → Result TableError (List TableSource) → Type 0
  Added done rest r =
      ((t : List TableSource) × (r ≡ ok t) × All IsPositive rest × IsGrouped (done ++ rest) t)
      ⊎ ((x : TableError) × (r ≡ err x)
          × (x ≢ endless)
          × ((All IsPositive rest × ((id : ℕ) → Few (held id (done ++ rest)))) → ⊥))

  IsPositive-test :
      (e : TableEntry)
      → (((e.source_id == 0 || e.epoch == 0) ≡ true) × (IsPositive e → ⊥))
        ⊎ (((e.source_id == 0 || e.epoch == 0) ≡ false) × IsPositive e)
  IsPositive-test e = elim (Bool-cases (e.source_id == 0)) [
    | inl z ↦ inl (rw z, λ (p, _). p (ground arith))
    | inr nz ↦ elim (Bool-cases (e.epoch == 0)) [
      | inl z ↦ inl (rw (nz, z), λ (_, p). p (ground arith))
      | inr nz' ↦ inr (
        rw (nz, nz'),
        ((λ (q : e.source_id ≡ 0). ground arith), (λ (q : e.epoch ≡ 0). ground arith)),
      )
    ]
  ]

  Added-cons :
      (done : List TableEntry) (e : TableEntry) (rest : List TableEntry)
      (r : Result TableError (List TableSource))
      → IsPositive e
      → Added (done ++ e ∷ []) rest r
      → Added done (e ∷ rest) r
  Added-cons done e rest r good (inl (t, eq, ps, g)) =
      inl (t, eq, (good, ps), subst (λ d. IsGrouped d t) (append_assoc done (e ∷ []) rest) g)
  Added-cons done e rest r good (inr (x, eq, real, bad)) = inr (
    x,
    eq,
    real,
    λ ((_, ps), few).
        bad
          (ps, λ id. subst (λ d. Few (held id d)) (sym (append_assoc done (e ∷ []) rest)) (few id)),
  )

  -- A refused entry has no place among few epochs.
  Refused-Few :
      (done : List TableEntry) (e : TableEntry) (rest : List TableEntry)
      → (has_epoch e.epoch (held e.source_id done) ≡ true) ⊎ (length (held e.source_id done) ≡ 2)
      → Few (held e.source_id (done ++ e ∷ rest))
      → ⊥
  Refused-Few done e rest why few =
      let id = e.source_id in
      let split =
        ap (held id) (sym (append_assoc done (e ∷ []) rest))
        ∙ held-append id (done ++ e ∷ []) rest
        ∙ ap (λ ps. ps ++ held id rest) (held-last_same e done) in
      Few-new e (held id done)
        (Few-prefix (held id done ++ epoch_of e ∷ []) (held id rest) (subst Few split few)) why

  pub add_entries-Added :
      Searched old
      → (done rest : List TableEntry) (by_id : List TableSource) → IsGrouped done by_id
      → Added done rest (add_entries old rest by_id)
  unfolding add_entries
  add_entries-Added all done [] by_id v =
      inl (by_id, refl, tt, subst (λ d. IsGrouped d by_id) (sym (append-nil done)) v)
  add_entries-Added all done (e ∷ rest) by_id v = elim (IsPositive-test e) [
    | inl (z, bad) ↦ inr (zero_id, rw z, (λ q. cc), λ (ps, _). bad ps.0)
    | inr (z, good) ↦
        let t = target old e.source_id by_id in
        let epochs : t.epochs ≡ held e.source_id done =
          ap (λ (s : TableSource). s.epochs)
            (target-IsGrouped done by_id e.source_id (v.0 e.source_id).0) in
        elim (add_epoch_cases e t) [
          | inl (made, new, room) ↦
              let step : add_entries old (e ∷ rest) by_id
                  ≡ add_entries old rest (put (added e t) by_id) =
                rw (z, add_entry-put old all e by_id, made) in
              subst (Added done (e ∷ rest)) (sym step) (
                Added-cons done e rest (add_entries old rest (put (added e t) by_id)) good (
                  add_entries-Added all (done ++ e ∷ []) rest (put (added e t) by_id) (
                    add_entry-IsGrouped done e by_id v
                      (subst (λ ps. has_epoch e.epoch ps ≡ false) epochs new)
                      (subst (λ ps. length ps ≢ 2) epochs room))))
          | inr (x, failed, real, why) ↦ inr (
            x,
            rw (z, add_entry-put old all e by_id, failed),
            real,
            λ (_, few).
                Refused-Few done e rest
                  (subst (λ ps. (has_epoch e.epoch ps ≡ true) ⊎ (length ps ≡ 2)) epochs why)
                  (few e.source_id),
          )
        ]
  ]
