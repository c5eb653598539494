-- ===== src/Beacon/NonceCache.antt =====
-- beacon/responder.go, `NonceCache`: an open-addressing table of the nonces a source has used, each
-- until its request can no longer be fresh. `hash` is `maphash.Bytes` under the cache's seed, which
-- the model takes as a parameter: any function of the nonce. A loop `for i := …; ; i = (i+1)&mask`
-- has no bound in the source; here it runs on fuel, and `none` says that it did not end.
pub mod Probe
pub mod Table
pub mod Slots
pub mod Lookup
pub mod Seen
pub mod Store
pub mod Live
pub mod Reinsert
pub mod Compact
pub mod Insert
use Prim.Native.Nat.{bit_and}
use lattice_sdk.Common.{
  ℕ, zero, suc, ◌+◌, ◌-◌, ◌*◌, ◌/◌, Bool, true, false, ◌||◌, ◌&&◌, Option, none, some, List, [],
  ◌∷◌, length, get_or, set, replicate, ltb, leb, ◌==◌, if◌then◌else◌,
}
use lattice_sdk.Common.Int64.{slt}
use lattice_sdk.Common.Bytes.{bytes_eq}
use lattice_sdk.Beacon.Wire.{nonce_cache_size}

-- `expires` is an int64's pattern; zero marks an empty slot.
pub record NonceSlot : Type 0 where
  pub nonce : List ℕ
  pub expires : ℕ

pub record NonceCache : Type 0 where
  pub slots : List NonceSlot
  pub used : ℕ
  pub full_until : ℕ

abbrev pub nonce_slots_min : ℕ
nonce_slots_min = 256

abbrev pub nonce_slots_max : ℕ
nonce_slots_max = 4096

abbrev pub empty_slot : NonceSlot
empty_slot = record { nonce = []; expires = 0 }

abbrev pub new_nonce_cache : NonceCache
new_nonce_cache = record { slots = []; used = 0; full_until = 0 }

-- `Len`.
abbrev pub cache_len : NonceCache → ℕ
cache_len c = c.used

abbrev pub slot_at : List NonceSlot → ℕ → NonceSlot
slot_at slots i = get_or slots i empty_slot

-- The two ways in which the probing loops stop at a slot.
abbrev pub is_empty : NonceSlot → Bool
is_empty s = s.expires == 0

abbrev pub stops_for : List ℕ → NonceSlot → Bool
stops_for nonce s = is_empty s || bytes_eq s.nonce nonce

-- `for i := start; ; i = (i + 1) & mask { if stop(slots[i]) { … } }`: the index it stops at.
unfoldable pub probe : (NonceSlot → Bool) → List NonceSlot → ℕ → ℕ → Option ℕ
probe stop slots zero i = none
probe stop slots (suc fuel) i =
    let rest = probe stop slots fuel (bit_and (i + 1) (length slots - 1)) in
    if stop (slot_at slots i) then some i else rest

infixl 5 ◌>>=◌
abbrev pub ◌>>=◌ {ℓ κ} : {A : Type ℓ} {B : Type κ} → Option A → (A → Option B) → Option B
none >>= f = none
some a >>= f = f a

-- A slot's expiry is later than now.
abbrev pub is_live : ℕ → NonceSlot → Bool
is_live now s = slt now s.expires

unfoldable pub live_count : ℕ → List NonceSlot → ℕ
live_count now [] = 0
live_count now (s ∷ ss) = (if is_live now s then 1 else 0) + live_count now ss

-- The earliest expiry of the live slots, from the one found so far; zero for none.
unfoldable pub earliest_live : ℕ → List NonceSlot → ℕ → ℕ
earliest_live now [] earliest = earliest
earliest_live now (s ∷ ss) earliest =
    earliest_live now ss
      (if is_live now s && (earliest == 0 || slt s.expires earliest) then s.expires else earliest)

-- `for (live+1) > size*6/10 && size < nonceSlotsMax { size *= 2 }`.
unfoldable pub grow_size : ℕ → ℕ → ℕ → ℕ
grow_size zero live size = size
grow_size (suc fuel) live size =
    let bigger = grow_size fuel live (size * 2) in
    if ltb (size * 6 / 10) (live + 1) && ltb size nonce_slots_max then bigger else size

unfoldable pub keep_live : ℕ → List NonceSlot → List NonceSlot
keep_live now [] = []
keep_live now (s ∷ ss) = let rest = keep_live now ss in if is_live now s then s ∷ rest else rest

module _ (hash : List ℕ → ℕ) where
  -- Where the loops start for a nonce, in a table of `size` slots.
  unfoldable pub home : ℕ → List ℕ → ℕ
  home size nonce = bit_and (hash nonce) (size - 1)

  unfoldable pub seen : NonceCache → List ℕ → ℕ → Option Bool
  seen c nonce now = if length c.slots == 0 then some false else (do
    i ← probe (stops_for nonce) c.slots (length c.slots) (home (length c.slots) nonce)
    let s = slot_at c.slots i
    some (if is_empty s then false else is_live now s))

  -- The last loop of `compact`: each live slot goes to the first empty place from its home on.
  unfoldable pub reinsert : ℕ → List NonceSlot → List NonceSlot → ℕ → Option (List NonceSlot × ℕ)
  reinsert now [] slots used = some (slots, used)
  reinsert now (s ∷ old) slots used =
      let skipped = reinsert now old slots used in
      let placed = (do
        i ← probe is_empty slots (length slots) (home (length slots) s.nonce)
        reinsert now old (set slots i s) (used + 1)) in
      if is_live now s then placed else skipped

  unfoldable pub compact : NonceCache → ℕ → Option (Bool × NonceCache)
  compact c now =
      let live = live_count now c.slots in
      let size = grow_size 5 live nonce_slots_min in
      let old = if length c.slots == size then keep_live now c.slots else c.slots in
      if leb nonce_cache_size live
      then some (false, record c { full_until = earliest_live now c.slots 0 })
      else (do
        (slots, used) ← reinsert now old (replicate size empty_slot) 0
        some (true, record { slots = slots; used = used; full_until = 0 }))

  -- The probing loop of `Insert` and what it does where it stops.
  unfoldable pub store : NonceCache → List ℕ → ℕ → Option (Bool × NonceCache)
  store c nonce expires = do
    i ← probe (stops_for nonce) c.slots (length c.slots) (home (length c.slots) nonce)
    let entry : NonceSlot = record { nonce = nonce; expires = expires }
    let s = slot_at c.slots i
    some (
        if is_empty s
        then (true, record c { slots = set c.slots i entry; used = c.used + 1 })
        else (true, record c { slots = set c.slots i (record s { expires = expires }) }))

  unfoldable pub insert : NonceCache → List ℕ → ℕ → ℕ → Option (Bool × NonceCache)
  insert c nonce expires now =
      let until = if slt 0 expires then expires else 1 in
      if leb nonce_cache_size c.used || ltb (length c.slots * 6 / 10) (c.used + 1)
      then (if slt now c.full_until then some (false, c) else (do
        (room, c') ← compact c now
        if room then store c' nonce until else some (false, c')))
      else store c nonce until
