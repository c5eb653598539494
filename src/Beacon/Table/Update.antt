-- ===== src/Beacon/Table/Update.antt =====
-- beacon/responder.go: a source of the table changes its state in place.
use lattice_sdk.Common.{
  ℕ, zero, suc, ◌≤◌, ◌≡◌, ◌≢◌, refl, sym, ap, subst, ◌∙◌, inl, inr, some, some-injective, List, [],
  ◌∷◌, get_elem?, set, ◌==◌, ==_iff, if◌then◌else◌, Bool-cases, arith,
}
use lattice_sdk.Beacon.Table.{TableSource, find, find_source}
use lattice_sdk.Beacon.Table.Groups.{lookup, lookup-here, lookup-later}
use lattice_sdk.Beacon.Table.Find.{Above, Above-id, IsSorted}
use lattice_sdk.Beacon.Table.Sorted.{find_source-lookup}

-- The source that is found stands in the table, under its id.
pub lookup_inv :
    (ss : List TableSource) (id : ℕ) (s : TableSource)
    → lookup id ss ≡ some s
    → (s.id ≡ id) × ((i : ℕ) × (get_elem? ss i ≡ some s))
lookup_inv [] id s e = cc
lookup_inv (t ∷ ss) id s e = elim (Bool-cases (t.id == id)) [
  | inl f ↦
      let same : t ≡ s = some-injective t s (sym (lookup-here t ss id f) ∙ e) in
      (ap (λ (q : TableSource). q.id) (sym same) ∙ (==_iff t.id id).0 f, (0, ap some same))
  | inr f ↦
      let (own, (i, at)) = lookup_inv ss id s (sym (lookup-later t ss id f) ∙ e) in
      (own, (suc i, at))
]

pub find_inv :
    (ss : List TableSource) (id i : ℕ) (s : TableSource)
    → IsSorted ss
    → find ss id ≡ some (some i)
    → get_elem? ss i ≡ some s
    → lookup id ss ≡ some s
unfolding find_source
find_inv ss id i s v f at =
    some-injective (lookup id ss) (some s)
      (sym (find_source-lookup ss id v) ∙ rw (find_source, f) (ap some at))

-- A write of a source with the same id.
module _ (s s' : TableSource) (same : s'.id ≡ s.id) where
  Above-set :
      (b : ℕ) (ss : List TableSource) (i : ℕ)
      → get_elem? ss i ≡ some s
      → Above b ss
      → Above b (set ss i s')
  Above-set b [] i at a = cc
  Above-set b (t ∷ ss) zero at (le, a) =
      let own : t.id ≡ s'.id = ap (λ (q : TableSource). q.id) (some-injective t s at) ∙ sym same in
      (subst (λ d. b ≤ d) own le, subst (λ d. Above (suc d) ss) own a)
  Above-set b (t ∷ ss) (suc i) at (le, a) = (le, Above-set (suc t.id) ss i at a)

  pub set-IsSorted :
      (ss : List TableSource) (i : ℕ)
      → get_elem? ss i ≡ some s
      → IsSorted ss
      → IsSorted (set ss i s')
  set-IsSorted ss i at v = Above-set 0 ss i at v

  pub lookup-set_other :
      (ss : List TableSource) (i id : ℕ)
      → get_elem? ss i ≡ some s
      → s.id ≢ id
      → lookup id (set ss i s') ≡ lookup id ss
  lookup-set_other [] i id at ne = refl
  lookup-set_other (t ∷ ss) zero id at ne =
      let own : t.id ≡ s.id = ap (λ (q : TableSource). q.id) (some-injective t s at) in
      lookup-later s' ss id (ground arith) ∙ sym (lookup-later t ss id (ground arith))
  lookup-set_other (t ∷ ss) (suc i) id at ne =
      ap (λ o. if t.id == id then some t else o) (lookup-set_other ss i id at ne)

  pub lookup-set_same :
      (b : ℕ) (ss : List TableSource) (i : ℕ)
      → get_elem? ss i ≡ some s
      → Above b ss
      → lookup s.id (set ss i s') ≡ some s'
  lookup-set_same b [] i at a = cc
  lookup-set_same b (t ∷ ss) zero at a = lookup-here s' ss s.id ((==_iff s'.id s.id).1 same)
  lookup-set_same b (t ∷ ss) (suc i) at (le, a) =
      let above = Above-id (suc t.id) ss i s a at in
      lookup-later t (set ss i s') s.id (ground arith) ∙ lookup-set_same (suc t.id) ss i at a
