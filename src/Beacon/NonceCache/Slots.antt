-- ===== src/Beacon/NonceCache/Slots.antt =====
-- beacon/responder.go, `NonceCache`: the slots as a list, and how many of them are taken.
use lattice_sdk.Common.{
  ℕ, zero, suc, ◌+◌, ◌*◌, ◌≤◌, ◌<◌, ◌≡◌, ◌≢◌, refl, ◌⊎◌, inl, inr, true, List, [], ◌∷◌, length, set,
  fun_ext, if◌then◌else◌, Bool-cases, arith,
}
use lattice_sdk.Common.Int64.{IsNonneg, slt}
use lattice_sdk.Beacon.NonceCache.{NonceSlot, NonceCache, slot_at, is_empty, live_count}
use lattice_sdk.Beacon.NonceCache.Table.{IsOccupied, IsTable, update}

slot_at-set_lem :
    (slots : List NonceSlot) (i : ℕ) (s : NonceSlot) (j : ℕ)
    → i < length slots
    → slot_at (set slots i s) j ≡ update (slot_at slots) i s j
slot_at-set_lem [] i s j lt = absurd (omega arith)
slot_at-set_lem (x ∷ slots) zero s zero lt = refl
slot_at-set_lem (x ∷ slots) zero s (suc j) lt = ground arith
slot_at-set_lem (x ∷ slots) (suc i) s zero lt = ground arith
slot_at-set_lem (x ∷ slots) (suc i) s (suc j) lt =
    ground (arith, slot_at-set_lem slots i s j (omega arith))

pub slot_at-set :
    (slots : List NonceSlot) (i : ℕ) (s : NonceSlot)
    → i < length slots
    → slot_at (set slots i s) ≡ update (slot_at slots) i s
slot_at-set slots i s lt = fun_ext (λ j. slot_at-set_lem slots i s j lt)

unfoldable pub occupied_count : List NonceSlot → ℕ
occupied_count [] = 0
occupied_count (s ∷ slots) = (if is_empty s then 0 else 1) + occupied_count slots

-- A table that is not full has an empty place.
pub empty_place :
    (slots : List NonceSlot)
    → occupied_count slots < length slots
    → (j : ℕ) × (j < length slots) × (is_empty (slot_at slots j) ≡ true)
unfolding occupied_count
empty_place [] lt = absurd (omega arith)
empty_place (s ∷ slots) lt = elim (Bool-cases (is_empty s)) [
  | inl e ↦ (0, omega arith, e)
  | inr o ↦ let (j, lj, e) = empty_place slots (ground arith) in (suc j, omega arith, e)
]

pub occupied_count-set_empty :
    (slots : List NonceSlot) (i : ℕ) (s : NonceSlot)
    → i < length slots
    → is_empty (slot_at slots i) ≡ true
    → IsOccupied s
    → occupied_count (set slots i s) ≡ occupied_count slots + 1
unfolding occupied_count
occupied_count-set_empty [] i s lt e o = absurd (omega arith)
occupied_count-set_empty (x ∷ slots) zero s lt e o = rw (e, o) (omega arith)
occupied_count-set_empty (x ∷ slots) (suc i) s lt e o =
    omega (arith, occupied_count-set_empty slots i s (omega arith) e o)

pub occupied_count-set_same :
    (slots : List NonceSlot) (i : ℕ) (s : NonceSlot)
    → i < length slots
    → IsOccupied (slot_at slots i)
    → IsOccupied s
    → occupied_count (set slots i s) ≡ occupied_count slots
unfolding occupied_count
occupied_count-set_same [] i s lt e o = absurd (omega arith)
occupied_count-set_same (x ∷ slots) zero s lt e o = rw (e, o)
occupied_count-set_same (x ∷ slots) (suc i) s lt e o =
    omega (arith, occupied_count-set_same slots i s (omega arith) e o)

-- The nonce `n` is held until `e`.
pub record Holds (slots : List NonceSlot) (n : List ℕ) (e : ℕ) : Type 0 where
  pub place : ℕ
  pub within : place < length slots
  pub entry : slot_at slots place ≡ record { nonce = n; expires = e }
  pub positive : e ≢ 0

-- The cache between two calls. Before the first insert it has no slots. While `full_until` lies
-- ahead, the unexpired nonces fill it.
pub record IsCache (hash : List ℕ → ℕ) (c : NonceCache) : Type 0 where
  pub table : (c.slots ≡ []) ⊎ IsTable hash (length c.slots) (slot_at c.slots)
  pub counted : c.used ≡ occupied_count c.slots
  pub sparse : c.used * 10 ≤ length c.slots * 6
  pub bounded : c.used ≤ 2400
  pub small : length c.slots ≤ 4096
  pub full : (t : ℕ) → IsNonneg t → slt t c.full_until ≡ true → 2400 ≤ live_count t c.slots

-- A cache with slots is never full, so that every loop ends.
pub has_room :
    (hash : List ℕ → ℕ) (c : NonceCache)
    → IsCache hash c
    → IsTable hash (length c.slots) (slot_at c.slots)
    → (0 < length c.slots) × (occupied_count c.slots < length c.slots)
has_room hash c v t = (omega (arith, t.sized.1), omega (arith, t.sized.1, v.sparse, v.counted))
