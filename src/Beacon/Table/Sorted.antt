-- ===== src/Beacon/Table/Sorted.antt =====
-- beacon/responder.go, `SetTable`: the sort by id, and the table that `find` then searches.
use lattice_sdk.Common.{
  ℕ, zero, suc, ◌≤◌, ◌≡◌, ◌≢◌, ◌⊎◌, refl, sym, ap, subst, ◌∙◌, inl, inr, true, false, Option, none,
  some, some-injective, List, [], ◌∷◌, get_elem?, leb, ◌==◌, ==_iff, if◌then◌else◌, Bool-cases,
  Result, ok, err, arith,
}
use lattice_sdk.Beacon.Table.{
  TableEntry, TableSource, TableError, insert_source, sort_sources, SourceState, endless, find,
  find_source, carried_state, new_source_state, set_table,
}
use lattice_sdk.Beacon.Table.Groups.{
  grouped, Searched, state_of, lookup, lookup-here, lookup-later, Distinct,
}
use lattice_sdk.Beacon.Table.Entries.{Acceptable, add_entries-Added}
use lattice_sdk.Beacon.Table.Find.{Above, Above-id, IsSorted, Answers, find-Answers}

insert_source-front :
    (s t : TableSource) (ts : List TableSource)
    → leb s.id t.id ≡ true
    → insert_source s (t ∷ ts) ≡ s ∷ t ∷ ts
unfolding insert_source
insert_source-front s t ts f = rw f

insert_source-behind :
    (s t : TableSource) (ts : List TableSource)
    → leb s.id t.id ≡ false
    → insert_source s (t ∷ ts) ≡ t ∷ insert_source s ts
unfolding insert_source
insert_source-behind s t ts f = rw f

lookup-insert_source :
    (s : TableSource) (ts : List TableSource) (id : ℕ)
    → lookup id (insert_source s ts) ≡ (if s.id == id then some s else lookup id ts)
unfolding insert_source
lookup-insert_source s [] id = refl
lookup-insert_source s (t ∷ ts) id = elim (Bool-cases (leb s.id t.id)) [
  | inl f ↦ rw f
  | inr f ↦ elim (Bool-cases (s.id == id)) [
    | inl e ↦ let g : (t.id == id) ≡ false = ground arith in rw (f, g, lookup-insert_source s ts id)
    | inr e ↦ rw (f, lookup-insert_source s ts id, e)
  ]
]

pub lookup-sort_sources :
    (ss : List TableSource) (id : ℕ) → lookup id (sort_sources ss) ≡ lookup id ss
unfolding sort_sources
lookup-sort_sources [] id = refl
lookup-sort_sources (s ∷ ss) id =
    lookup-insert_source s (sort_sources ss) id
    ∙ ap (λ o. if s.id == id then some s else o) (lookup-sort_sources ss id)

Above-insert_source :
    (b : ℕ) (s : TableSource) (ts : List TableSource)
    → b ≤ s.id
    → Above b ts
    → lookup s.id ts ≡ none
    → Above b (insert_source s ts)
unfolding insert_source
Above-insert_source b s [] le a new = (le, tt)
Above-insert_source b s (t ∷ ts) le (le', a) new = elim (Bool-cases (t.id == s.id)) [
  | inl e ↦ let found = sym (lookup-here t ts s.id e) ∙ new in cc
  | inr ne ↦ elim (Bool-cases (leb s.id t.id)) [
    | inl f ↦ subst (Above b) (sym (insert_source-front s t ts f)) (le, (ground arith, a))
    | inr f ↦ subst (Above b) (sym (insert_source-behind s t ts f)) (
      le',
      Above-insert_source (suc t.id) s ts (ground arith) a (sym (lookup-later t ts s.id ne) ∙ new),
    )
  ]
]

sort_sources-IsSorted : (ss : List TableSource) → Distinct ss → IsSorted (sort_sources ss)
unfolding sort_sources
sort_sources-IsSorted [] d = tt
sort_sources-IsSorted (s ∷ ss) (new, d) =
    Above-insert_source 0 s (sort_sources ss) (omega arith) (sort_sources-IsSorted ss d)
      (lookup-sort_sources ss s.id ∙ new)

-- On a sorted table the binary search agrees with a walk along the table.
lookup-none :
    (ss : List TableSource) (id : ℕ)
    → ((i : ℕ) (s : TableSource) → get_elem? ss i ≡ some s → s.id ≢ id)
    → lookup id ss ≡ none
lookup-none [] id f = refl
lookup-none (s ∷ ss) id f = elim (Bool-cases (s.id == id)) [
  | inl e ↦ absurd (f 0 s refl ((==_iff s.id id).0 e))
  | inr e ↦ lookup-later s ss id e ∙ lookup-none ss id (λ i t at. f (suc i) t at)
]

pub lookup-some :
    (ss : List TableSource) (id b i : ℕ) (s : TableSource)
    → Above b ss
    → get_elem? ss i ≡ some s
    → s.id ≡ id
    → lookup id ss ≡ some s
lookup-some [] id b i s a e f = cc
lookup-some (t ∷ ss) id b zero s a e f =
    let same : t ≡ s = some-injective t s e in
    let own : (t.id == id) ≡ true = (==_iff t.id id).1 (ap (λ (q : TableSource). q.id) same ∙ f) in
    lookup-here t ss id own ∙ e
lookup-some (t ∷ ss) id b (suc i) s (le, a) e f =
    let above = Above-id (suc t.id) ss i s a e in
    lookup-later t ss id (ground arith) ∙ lookup-some ss id (suc t.id) i s a e f

pub find_source-lookup :
    (ss : List TableSource) (id : ℕ) → IsSorted ss → find_source ss id ≡ some (lookup id ss)
unfolding find_source
find_source-lookup ss id v = by_answer (find ss id) (find-Answers ss id v)
  where
    by_answer :
        (o : Option (Option ℕ))
        → Answers ss id v o
        → (elim o [
          | none ↦ none
          | some found ↦ some (elim found [ none ↦ none | some i ↦ get_elem? ss i ])
        ])
          ≡ some (lookup id ss)
    by_answer none f = absurd f
    by_answer (some none) f = ap some (sym (lookup-none ss id f))
    by_answer (some (some i)) (s, at, f) = ap some (at ∙ sym (lookup-some ss id 0 i s v at f))

carried_state-Searched : (old : List TableSource) → IsSorted old → Searched old
unfolding carried_state
carried_state-Searched old sorted id =
    rw (carried_state, find_source-lookup old id sorted) (by_source (lookup id old))
  where
    by_source :
        (o : Option TableSource)
        → ◌≡◌ {A = Result TableError SourceState}
            (ok (elim o [ some prev ↦ prev.state | none ↦ new_source_state ]))
            (ok (state_of o))
    by_source none = refl
    by_source (some s) = refl

module _ (old : List TableSource) (entries : List TableEntry) where
  -- On a table that is sorted by id `SetTable` accepts exactly the entries with positive ids and epochs in which no source has more
  -- than two epochs or one epoch twice. In the table it then puts in force, which is sorted, the
  -- binary search finds under each id the epochs that the entries name for it, in their order,
  -- with the state that the old table held for that id, or a fresh state where it held none; and
  -- it finds nothing under an id that no entry names. For all other entries it gives an error: no
  -- search is endless.
  pub set_table-grouped :
      IsSorted old
      → ((t : List TableSource) × (set_table old entries ≡ ok t)
          × IsSorted t
          × ((id : ℕ) → find_source t id ≡ some (grouped old entries id))
          × Acceptable entries)
        ⊎ ((x : TableError) × (set_table old entries ≡ err x)
            × (x ≢ endless)
            × (Acceptable entries → ⊥))
  unfolding set_table
  set_table-grouped table =
      elim (add_entries-Added old (carried_state-Searched old table) [] entries []
        ((λ id. (refl, tt)), tt)) [
          | inl (by_id, eq, ps, (g, d)) ↦
              let sorted = sort_sources-IsSorted by_id d in
              inl (
                sort_sources by_id,
                rw eq,
                sorted,
                (λ id.
                    find_source-lookup (sort_sources by_id) id sorted
                    ∙ ap some (lookup-sort_sources by_id id ∙ (g id).0)),
                (ps, λ id. (g id).1),
              )
          | inr (x, eq, real, bad) ↦ inr (x, rw eq, real, bad)
        ]
