-- ===== src/Beacon/NonceCache/Live.antt =====
-- beacon/responder.go, `NonceCache.compact`: the unexpired slots, their number and the earliest.
use lattice_sdk.Common.{
  ℕ, zero, suc, ◌+◌, ◌*◌, ◌/◌, ◌≤◌, ◌<◌, ◌≡◌, ◌≢◌, ◌⊎◌, refl, sym, ap, ◌∙◌, inl, inr, true, false,
  List, [], ◌∷◌, length, All, ltb, ◌==◌, ◌&&◌, ◌||◌, if◌then◌else◌, Bool-cases, arith,
}
use lattice_sdk.Common.Int64.{IsNonneg, slt, slt-ge_trans, slt-lt_ge, slt_asymm, slt_irrefl}
use lattice_sdk.Common.Masks.{IsSize}
use lattice_sdk.Beacon.NonceCache.{
  NonceSlot, slot_at, is_empty, is_live, live_count, earliest_live, grow_size, nonce_slots_max,
}
use lattice_sdk.Beacon.NonceCache.Slots.{occupied_count}

-- After the epoch an unexpired slot is not empty.
pub live_occupied : (now : ℕ) (s : NonceSlot) → IsNonneg now → is_live now s ≡ true → s.expires ≢ 0
unfolding slt
live_occupied now s h live z = cc (ap (slt now) z, expired)
  where
    expired : slt now 0 ≡ false
    expired = ground arith

pub live_count-le :
    (now : ℕ) (slots : List NonceSlot) → IsNonneg now → live_count now slots ≤ occupied_count slots
unfolding live_count occupied_count
live_count-le now [] h = omega arith
live_count-le now (s ∷ slots) h = elim (Bool-cases (is_live now s)) [
  | inl live ↦
      let o : is_empty s ≡ false = ground (arith, live_occupied now s h live) in
      rw (live, o) (omega (arith, live_count-le now slots h))
  | inr dead ↦ rw dead (omega (arith, live_count-le now slots h))
]

-- The slot is one of the list's, and unexpired.
abbrev pub LiveIn : ℕ → List NonceSlot → NonceSlot → Type 0
LiveIn now [] r = ⊥
LiveIn now (s ∷ slots) r = ((s ≡ r) × (is_live now s ≡ true)) ⊎ LiveIn now slots r

pub LiveIn-place :
    (now : ℕ) (slots : List NonceSlot) (r : NonceSlot)
    → LiveIn now slots r
    → (j : ℕ) × (j < length slots) × (slot_at slots j ≡ r) × (is_live now r ≡ true)
LiveIn-place now [] r h = absurd h
LiveIn-place now (s ∷ slots) r (inl (e, live)) =
    (0, omega arith, e, ap (is_live now) (sym e) ∙ live)
LiveIn-place now (s ∷ slots) r (inr h) =
    let (j, lj, e, live) = LiveIn-place now slots r h in (suc j, omega arith, e, live)

pub place-LiveIn :
    (now : ℕ) (slots : List NonceSlot) (j : ℕ)
    → j < length slots
    → is_live now (slot_at slots j) ≡ true
    → LiveIn now slots (slot_at slots j)
place-LiveIn now [] j lj live = absurd (omega arith)
place-LiveIn now (s ∷ slots) zero lj live = inl (refl, live)
place-LiveIn now (s ∷ slots) (suc j) lj live = inr (place-LiveIn now slots j (omega arith) live)

-- The earliest expiry bounds those of the unexpired slots from below.
abbrev NotBefore : ℕ → ℕ → NonceSlot → Type 0
NotBefore now r s = is_live now s ≡ true → slt s.expires r ≡ false

abbrev next_earliest : ℕ → ℕ → NonceSlot → ℕ
next_earliest now acc s =
    if is_live now s && (acc == 0 || slt s.expires acc) then s.expires else acc

next_earliest_lem :
    (now acc : ℕ) (s : NonceSlot)
    → IsNonneg now
    → let r = next_earliest now acc s in
      (acc ≢ 0 → (slt acc r ≡ false) × (r ≢ 0))
      × (is_live now s ≡ true → (slt s.expires r ≡ false) × (r ≢ 0))
next_earliest_lem now acc s h =
    ground
      (arith, slt_irrefl acc, slt_irrefl s.expires, slt_asymm s.expires acc, live_occupied now s h)

earliest_live_bound :
    (now : ℕ) (slots : List NonceSlot) (acc : ℕ)
    → IsNonneg now
    → let r = earliest_live now slots acc in
      (acc ≢ 0 → slt acc r ≡ false) × All (NotBefore now r) slots
unfolding earliest_live
earliest_live_bound now [] acc h = ((λ _. slt_irrefl acc), tt)
earliest_live_bound now (s ∷ slots) acc h =
    let acc' = next_earliest now acc s in
    let (kept, later) = earliest_live_bound now slots acc' h in
    let (old, new) = next_earliest_lem now acc s h in
    let r = earliest_live now slots acc' in
    (
      λ pos. slt-ge_trans acc acc' r (old pos).0 (kept (old pos).1),
      (λ live. slt-ge_trans s.expires acc' r (new live).0 (kept (new live).1), later),
    )

live_count_later :
    (now t r : ℕ) (slots : List NonceSlot)
    → All (NotBefore now r) slots
    → slt t r ≡ true
    → live_count now slots ≤ live_count t slots
unfolding live_count
live_count_later now t r [] h lt = omega arith
live_count_later now t r (s ∷ slots) (hs, h) lt = elim (Bool-cases (is_live now s)) [
  | inl live ↦
      let live' : is_live t s ≡ true = slt-lt_ge t r s.expires lt (hs live) in
      rw (live, live') (omega (arith, live_count_later now t r slots h lt))
  | inr dead ↦ rw dead (omega (arith, live_count_later now t r slots h lt))
]

-- Until the earliest expiry as many slots stay unexpired.
pub live_count-earliest :
    (now t : ℕ) (slots : List NonceSlot)
    → IsNonneg now
    → slt t (earliest_live now slots 0) ≡ true
    → live_count now slots ≤ live_count t slots
live_count-earliest now t slots h lt =
    live_count_later now t (earliest_live now slots 0) slots (earliest_live_bound now slots 0 h).1
      lt

IsSize-double : (n : ℕ) → IsSize n → IsSize (n * 2)
IsSize-double n (k, e) = (suc k, omega arith)

grow_size-IsSize : (fuel live size : ℕ) → IsSize size → IsSize (grow_size fuel live size)
unfolding grow_size
grow_size-IsSize zero live size z = z
grow_size-IsSize (suc fuel) live size z =
    elim (Bool-cases (ltb (size * 6 / 10) (live + 1) && ltb size nonce_slots_max)) [
      | inl more ↦ rw more (grow_size-IsSize fuel live (size * 2) (IsSize-double size z))
      | inr done ↦ rw done z
    ]

pub grow_size_lem :
    (live : ℕ)
    → live < 2400
    → let size = grow_size 5 live 256 in
      IsSize size × (256 ≤ size) × (size ≤ 4096) × (live + 1 ≤ size * 6 / 10)
unfolding grow_size
grow_size_lem live lt =
    (grow_size-IsSize 5 live 256 (8, refl), ground arith, ground arith, ground arith)
