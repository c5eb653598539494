-- ===== src/Beacon/Table/Groups.antt =====
-- beacon/responder.go, `SetTable`, against its description: the entries grouped by source.
use lattice_sdk.Common.{
  ℕ, ◌≡◌, ◌≢◌, ◌⊎◌, refl, sym, ap, subst, ◌∙◌, inl, inr, true, false, Option, none, some, List, [],
  ◌∷◌, ◌++◌, length, ◌==◌, ==_iff, if◌then◌else◌, Bool-cases, ok, err, ◌>>=◌, arith,
}
use lattice_sdk.Beacon.Table.{
  TableEntry, TableEpoch, TableSource, TableError, epoch_twice, too_many_epochs, endless, has_epoch,
  SourceState, new_source_state, add_epoch, carried_state, add_entry,
}

abbrev pub epoch_of : TableEntry → TableEpoch
epoch_of e = record { epoch = e.epoch; retired = e.retired; key = e.key }

-- The epochs that the entries name for one source, in their order.
abbrev pub held : ℕ → List TableEntry → List TableEpoch
held id [] = []
held id (e ∷ es) = if e.source_id == id then epoch_of e ∷ held id es else held id es

-- The first source with the id.
abbrev pub lookup : ℕ → List TableSource → Option TableSource
lookup id [] = none
lookup id (s ∷ ss) = if s.id == id then some s else lookup id ss

-- The state that a table holds for an id, or a fresh one where it holds none.
abbrev pub state_of : Option TableSource → SourceState
state_of none = new_source_state
state_of (some s) = s.state

abbrev pub held_state : List TableSource → ℕ → SourceState
held_state old id = state_of (lookup id old)

-- The source that a table made of the entries has under an id, from its epochs.
abbrev pub group : List TableSource → ℕ → List TableEpoch → Option TableSource
group old id [] = none
group old id (p ∷ ps) = some (record { id = id; epochs = p ∷ ps; state = held_state old id })

abbrev pub grouped : List TableSource → List TableEntry → ℕ → Option TableSource
grouped old entries id = group old id (held id entries)

-- At most two epochs, and not the same twice.
abbrev pub Few : List TableEpoch → Type 0
Few [] = Unit {0}
Few (p ∷ []) = Unit {0}
Few (p ∷ q ∷ []) = p.epoch ≢ q.epoch
Few (p ∷ q ∷ r ∷ ps) = ⊥

pub lookup-here :
    (s : TableSource) (ss : List TableSource) (id : ℕ)
    → (s.id == id) ≡ true
    → lookup id (s ∷ ss) ≡ some s
lookup-here s ss id e = rw e

pub lookup-later :
    (s : TableSource) (ss : List TableSource) (id : ℕ)
    → (s.id == id) ≡ false
    → lookup id (s ∷ ss) ≡ lookup id ss
lookup-later s ss id e = rw e

-- The source in the place of the one with its id, or behind the others.
abbrev pub put : TableSource → List TableSource → List TableSource
put src [] = src ∷ []
put src (s ∷ ss) = if s.id == src.id then src ∷ ss else s ∷ put src ss

pub lookup-put :
    (src : TableSource) (ss : List TableSource) (id : ℕ)
    → lookup id (put src ss) ≡ (if src.id == id then some src else lookup id ss)
lookup-put src [] id = refl
lookup-put src (s ∷ ss) id = elim (Bool-cases (s.id == src.id)) [
  | inl e ↦ elim (Bool-cases (src.id == id)) [
    | inl f ↦ rw (e, f)
    | inr f ↦ let g : (s.id == id) ≡ false = ground arith in rw (e, f, g)
  ]
  | inr e ↦ elim (Bool-cases (s.id == id)) [
    | inl f ↦ let g : (src.id == id) ≡ false = ground arith in rw (e, f, g)
    | inr f ↦ rw (e, f, lookup-put src ss id)
  ]
]

-- No id twice.
abbrev pub Distinct : List TableSource → Type 0
Distinct [] = Unit {0}
Distinct (s ∷ ss) = (lookup s.id ss ≡ none) × Distinct ss

put-here :
    (src s : TableSource) (ss : List TableSource)
    → (s.id == src.id) ≡ true
    → put src (s ∷ ss) ≡ src ∷ ss
put-here src s ss e = rw e

put-later :
    (src s : TableSource) (ss : List TableSource)
    → (s.id == src.id) ≡ false
    → put src (s ∷ ss) ≡ s ∷ put src ss
put-later src s ss e = rw e

pub put-Distinct : (src : TableSource) (ss : List TableSource) → Distinct ss → Distinct (put src ss)
put-Distinct src [] d = (refl, tt)
put-Distinct src (s ∷ ss) (new, d) = elim (Bool-cases (s.id == src.id)) [
  | inl e ↦
      let same : s.id ≡ src.id = ground arith in
      subst Distinct (sym (put-here src s ss e)) (subst (λ i. lookup i ss ≡ none) same new, d)
  | inr e ↦
      let flip : (src.id == s.id) ≡ false = ground arith in
      subst Distinct (sym (put-later src s ss e))
        (lookup-put src ss s.id ∙ rw (flip, new), put-Distinct src ss d)
]

abbrev pub added : TableEntry → TableSource → TableSource
added e s = record s { epochs = s.epochs ++ epoch_of e ∷ [] }

-- `add_epoch` adds the entry's epoch unless the source holds it or has no room for it.
abbrev pub Refused : TableEntry → TableSource → Type 0
Refused e s = (has_epoch e.epoch s.epochs ≡ true) ⊎ (length s.epochs ≡ 2)

pub add_epoch_cases :
    (e : TableEntry) (s : TableSource)
    → ((add_epoch e s ≡ ok (added e s))
        × (has_epoch e.epoch s.epochs ≡ false)
        × (length s.epochs ≢ 2))
      ⊎ ((x : TableError) × (add_epoch e s ≡ err x) × (x ≢ endless) × Refused e s)
unfolding add_epoch
add_epoch_cases e s = elim (Bool-cases (has_epoch e.epoch s.epochs)) [
  | inl t ↦ inr (epoch_twice, rw t, (λ q. cc), inl t)
  | inr f ↦ elim (Bool-cases (length s.epochs == 2)) [
    | inl t ↦ inr (too_many_epochs, rw (f, t), (λ q. cc), inr (ground arith))
    | inr g ↦ inl (rw (f, g), f, λ q. cc (sym g ∙ (==_iff _ _).1 q))
  ]
]

module _ (old : List TableSource) where
  abbrev pub fresh_source : ℕ → TableSource
  fresh_source id = record { id = id; epochs = []; state = held_state old id }

  -- The source that an entry goes to.
  abbrev pub or_fresh : ℕ → Option TableSource → TableSource
  or_fresh id none = fresh_source id
  or_fresh id (some s) = s

  abbrev pub target : ℕ → List TableSource → TableSource
  target id ss = or_fresh id (lookup id ss)

  pub target_id : (id : ℕ) (ss : List TableSource) → (target id ss).id ≡ id
  target_id id [] = refl
  target_id id (s ∷ ss) = elim (Bool-cases (s.id == id)) [
    | inl f ↦ target-here f ∙ ground arith
    | inr f ↦ target-later f ∙ target_id id ss
  ]
    where
      target-here : (s.id == id) ≡ true → (target id (s ∷ ss)).id ≡ s.id
      target-here f = rw (f, target)

      target-later : (s.id == id) ≡ false → (target id (s ∷ ss)).id ≡ (target id ss).id
      target-later f = rw (f, target)

  -- Every search of the old table ends, and finds what a walk along it finds.
  abbrev pub Searched : Type 0
  Searched = (id : ℕ) → carried_state old id ≡ ok (held_state old id)

  pub add_entry-put :
      Searched
      → (e : TableEntry) (ss : List TableSource)
      → add_entry old e ss
        ≡ (add_epoch e (target e.source_id ss) >>= λ (src : TableSource). ok (put src ss))
  unfolding add_entry
  add_entry-put all e [] = rw (all e.source_id) refl
  add_entry-put all e (s ∷ ss) = elim (Bool-cases (s.id == e.source_id)) [
    | inl f ↦ elim (add_epoch_cases e s) [
      | inl (made, _, _) ↦
          rw (target, f, made) (ap ok (sym (put-here (added e s) s ss (ground arith))))
      | inr (x, failed, _, _) ↦ rw (target, f, failed)
    ]
    | inr f ↦
        let t = target e.source_id ss in
        elim (add_epoch_cases e t) [
          | inl (made, _, _) ↦
              let same : t.id ≡ e.source_id = target_id e.source_id ss in
              let g : (s.id == t.id) ≡ false = ground arith in
              later f
              ∙ rw (target, f, add_entry-put all e ss, made)
                  (ap ok (sym (put-later (added e t) s ss g)))
          | inr (x, failed, _, _) ↦ later f ∙ rw (target, f, add_entry-put all e ss, failed)
        ]
  ]
    where
      -- What the entry does in the sources behind one that is not its own.
      later :
          (s.id == e.source_id) ≡ false
          → add_entry old e (s ∷ ss)
            ≡ (add_entry old e ss >>= λ (rest : List TableSource). ok (s ∷ rest))
      later f = rw f
