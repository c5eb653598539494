-- ===== src/Beacon/Responder/Refresh.antt =====
-- beacon/responder.go, `Responder.SetTable`: a table refresh keeps the sources' states.
use lattice_sdk.Common.{
  ℕ, ◌≡◌, ◌≢◌, refl, sym, ap, subst, ◌∙◌, inl, inr, some, some-injective, List, [], ◌∷◌, get_elem?,
  Option-cases, Result, ok, err,
}
use lattice_sdk.Beacon.Table.{TableEntry, TableError, TableEpoch, TableSource, set_table}
use lattice_sdk.Beacon.Table.Groups.{held, held_state, state_of, group, grouped, lookup}
use lattice_sdk.Beacon.Table.Find.{IsSorted}
use lattice_sdk.Beacon.Table.Sorted.{lookup-some, find_source-lookup, set_table-grouped}
use lattice_sdk.Beacon.Table.Update.{lookup_inv}
use lattice_sdk.Beacon.Responder.{Responder, replace_table}
use lattice_sdk.Beacon.Responder.Judge.{IsState}
use lattice_sdk.Beacon.Responder.Handled.{IsResponder}

module _ (old : List TableSource) where
  group-state :
      (id : ℕ) (ps : List TableEpoch) (s : TableSource)
      → group old id ps ≡ some s
      → s.state ≡ held_state old id
  group-state id [] s e = cc
  group-state id (p ∷ ps) s e =
      ap (λ (q : TableSource). q.state)
        (sym (some-injective (record { id = id; epochs = p ∷ ps; state = held_state old id }) s e))

  group-some :
      (id : ℕ) (ps : List TableEpoch) → ps ≢ [] → (s : TableSource) × (group old id ps ≡ some s)
  group-some id [] ne = absurd (ne refl)
  group-some id (p ∷ ps) ne = (record { id = id; epochs = p ∷ ps; state = held_state old id }, refl)

  module _ (hash : ℕ → List ℕ → ℕ) where
    held_state-IsState :
        (id : ℕ)
        → ((i : ℕ) (s : TableSource) → get_elem? old i ≡ some s → IsState hash s.state)
        → IsState hash (held_state old id)
    held_state-IsState id states = elim (Option-cases (lookup id old)) [
      | inl e ↦ subst (IsState hash) (sym (ap state_of e)) (λ c none_some. cc)
      | inr (s, e) ↦
          let (own, (i, at)) = lookup_inv old id s e in
          subst (IsState hash) (sym (ap state_of e)) (states i s at)
    ]

-- The table that a refresh puts in force.
Accepted : List TableSource → List TableEntry → List TableSource → Type 0
Accepted old entries t = IsSorted t × ((id : ℕ) → lookup id t ≡ grouped old entries id)

set_table-Accepted :
    (old : List TableSource) (entries : List TableEntry) (t : List TableSource)
    → IsSorted old
    → set_table old entries ≡ ok t
    → Accepted old entries t
unfolding Accepted
set_table-Accepted old entries t table e = elim (set_table-grouped old entries table) [
  | inl (t', e', sorted, groups, good) ↦
      let same : t' ≡ t = cc in
      subst (Accepted old entries) same (
        sorted,
        λ id.
            some-injective (lookup id t') (grouped old entries id)
              (sym (find_source-lookup t' id sorted) ∙ groups id),
      )
  | inr (x, e', real, bad) ↦ cc
]

pub replace_table_inv :
    (r : Responder) (entries : List TableEntry) (r' : Responder)
    → replace_table r entries ≡ ok r'
    → (t : List TableSource) × (set_table r.table entries ≡ ok t) × (r' ≡ record r { table = t })
unfolding replace_table
replace_table_inv r entries r' e = by_result (set_table r.table entries) refl
  where
    by_result :
        (o : Result TableError (List TableSource))
        → set_table r.table entries ≡ o
        → (t : List TableSource) × (set_table r.table entries ≡ ok t)
          × (r' ≡ record r { table = t })
    by_result (ok t) f =
        let made : replace_table r entries ≡ ok (record r { table = t }) = rw (replace_table, f) in
        (t, f, cc)
    by_result (err x) f = let made : replace_table r entries ≡ err x = rw (replace_table, f) in cc

module _ (hash : ℕ → List ℕ → ℕ) (r : Responder) (entries : List TableEntry) (r' : Responder)
    (e : replace_table r entries ≡ ok r') where
  replaced : IsSorted r.table → Accepted r.table entries r'.table
  replaced table =
      let (t, made, same) = replace_table_inv r entries r' e in
      subst (λ (q : Responder). Accepted r.table entries q.table) (sym same)
        (set_table-Accepted r.table entries t table made)

  pub replace_table-IsResponder : IsResponder hash r → IsResponder hash r'
  unfolding Accepted
  replace_table-IsResponder w = record {
    sorted = (replaced w.sorted).0;
    states = λ i s at.
        let own =
          sym ((replaced w.sorted).1 s.id)
          ∙ lookup-some r'.table s.id 0 i s (replaced w.sorted).0 at refl in
        subst (IsState hash) (sym (group-state r.table s.id (held s.id entries) s own))
          (held_state-IsState r.table hash s.id w.states);
  }

  -- A source that stays keeps its state.
  pub replace_table-state :
      (id : ℕ) (s : TableSource)
      → IsSorted r.table
      → held id entries ≢ []
      → lookup id r.table ≡ some s
      → (s' : TableSource) × (lookup id r'.table ≡ some s') × (s'.state ≡ s.state)
  unfolding Accepted
  replace_table-state id s sorted ne l =
      let (s', made) = group-some r.table id (held id entries) ne in
      (
        s',
        (replaced sorted).1 id ∙ made,
        group-state r.table id (held id entries) s' made ∙ ap state_of l,
      )
