-- ===== src/Beacon/Table.antt =====
-- beacon/responder.go, the responder's table of path keys: `SetTable` and `responderTable.find`.
-- A `tableEpoch` holds its key where the source holds an HMAC made from it. Each source state is
-- held by one source of the table in force, so it stands in the source where the code has a pointer.
pub mod Find
pub mod Groups
pub mod Entries
pub mod Sorted
pub mod Update
use lattice_sdk.Common.{
  ℕ, zero, suc, ◌+◌, ◌/◌, Bool, true, false, ◌||◌, Option, none, some, List, [], ◌∷◌, ◌++◌, length,
  get_elem?, ltb, leb, ◌==◌, if◌then◌else◌, Result, ok, err, ◌>>=◌,
}
use lattice_sdk.Beacon.Wire.{Key, max_epochs_per_source}
use lattice_sdk.Beacon.NonceCache.{NonceCache}
use lattice_sdk.Beacon.Rate.{RateState, credit_ns}

-- One path key that a target holds.
pub record TableEntry : Type 0 where
  pub source_id : ℕ
  pub epoch : ℕ
  pub key : Key
  pub retired : Bool

pub record TableEpoch : Type 0 where
  pub epoch : ℕ
  pub retired : Bool
  pub key : Key

-- `nonces` is nil until the first fresh request; `seed` is the seed that its cache was made with.
-- `rate` holds the fields `credit` and `lastNs`.
pub record SourceState : Type 0 where
  pub nonces : Option NonceCache
  pub seed : ℕ
  pub rate : RateState
  pub last_named : ℕ

pub record TableSource : Type 0 where
  pub id : ℕ
  pub epochs : List TableEpoch
  pub state : SourceState

-- `endless` is no error of the code: it stands for a search of the old table that does not end.
pub data TableError : Type 0 where
  zero_id epoch_twice too_many_epochs endless : TableError

abbrev pub new_source_state : SourceState
new_source_state = record {
  nonces = none;
  seed = 0;
  rate = record { credit = credit_ns; last_ns = 0 };
  last_named = 0;
}

-- `responderTable.find`: the index of the source, by binary search on `[lo, hi)`. The fuel bounds
-- the rounds. `none` is a search that has not ended, or an index out of range; `some none` is the
-- answer that no source has the id.
unfoldable pub find_loop : ℕ → List TableSource → ℕ → ℕ → ℕ → Option (Option ℕ)
find_loop zero sources id lo hi = none
find_loop (suc fuel) sources id lo hi =
    let mid = (lo + hi) / 2 in
    let left = find_loop fuel sources id lo mid in
    let right = find_loop fuel sources id (mid + 1) hi in
    if ltb lo hi
    then elim (get_elem? sources mid) [
      | none ↦ none
      | some s ↦ if s.id == id then some (some mid) else if ltb s.id id then right else left
    ]
    else some none

unfoldable pub find : List TableSource → ℕ → Option (Option ℕ)
find sources id = find_loop (length sources + 1) sources id 0 (length sources)

-- `old.find(id)`, as the source that it points to.
unfoldable pub find_source : List TableSource → ℕ → Option (Option TableSource)
find_source sources id = elim (find sources id) [
  | none ↦ none
  | some found ↦ some (elim found [ none ↦ none | some i ↦ get_elem? sources i ])
]

unfoldable pub has_epoch : ℕ → List TableEpoch → Bool
has_epoch epoch [] = false
has_epoch epoch (e ∷ es) = e.epoch == epoch || has_epoch epoch es

unfoldable pub add_epoch : TableEntry → TableSource → Result TableError TableSource
add_epoch e src =
    let added : TableEpoch = record { epoch = e.epoch; retired = e.retired; key = e.key } in
    if has_epoch e.epoch src.epochs
    then err epoch_twice
    else if length src.epochs == max_epochs_per_source
    then err too_many_epochs
    else ok (record src { epochs = src.epochs ++ added ∷ [] })

-- The state of a source that the new table has not met yet: the old table's, or a fresh one.
unfoldable pub carried_state : List TableSource → ℕ → Result TableError SourceState
carried_state old id = elim (find_source old id) [
  | none ↦ err endless
  | some found ↦ ok (elim found [ some prev ↦ prev.state | none ↦ new_source_state ])
]

-- One round of `SetTable` over `byID`, which stands in the order in which its ids first came.
unfoldable pub add_entry :
    List TableSource → TableEntry → List TableSource → Result TableError (List TableSource)
add_entry old e [] = do
  state ← carried_state old e.source_id
  src ← add_epoch e (record { id = e.source_id; epochs = []; state = state })
  ok (src ∷ [])
add_entry old e (s ∷ by_id) =
    let here = (do src ← add_epoch e s; ok (src ∷ by_id)) in
    let later = (do rest ← add_entry old e by_id; ok (s ∷ rest)) in
    if s.id == e.source_id then here else later

unfoldable pub add_entries :
    List TableSource → List TableEntry → List TableSource → Result TableError (List TableSource)
add_entries old [] by_id = ok by_id
add_entries old (e ∷ entries) by_id =
    if (e.source_id == 0) || (e.epoch == 0)
    then err zero_id
    else (do by_id' ← add_entry old e by_id; add_entries old entries by_id')

-- `slices.SortFunc` by id; the ids are distinct, so the order of the map does not show.
unfoldable pub insert_source : TableSource → List TableSource → List TableSource
insert_source s [] = s ∷ []
insert_source s (t ∷ ts) =
    let rest = insert_source s ts in if leb s.id t.id then s ∷ t ∷ ts else t ∷ rest

unfoldable pub sort_sources : List TableSource → List TableSource
sort_sources [] = []
sort_sources (s ∷ ss) = insert_source s (sort_sources ss)

-- `SetTable`: the table in force afterwards; on an error the old one stays. A nil table is `[]`,
-- in which nothing is found.
unfoldable pub set_table : List TableSource → List TableEntry → Result TableError (List TableSource)
set_table old entries = do by_id ← add_entries old entries []; ok (sort_sources by_id)
