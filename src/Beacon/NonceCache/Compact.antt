-- ===== src/Beacon/NonceCache/Compact.antt =====
-- beacon/responder.go, `NonceCache.compact`: it drops the expired nonces and makes room, or reports
-- that the unexpired ones fill the cache.
use lattice_sdk.Common.{
  ℕ, suc, ◌+◌, ◌*◌, ◌≤◌, ◌<◌, ◌≡◌, ◌⊎◌, ◌↔◌, refl, sym, ap, subst, ◌∙◌, inl, inr, true, false, some,
  List, [], ◌∷◌, length, replicate, length-replicate, leb, ◌==◌, Bool-cases, arith,
}
use lattice_sdk.Common.Int64.{IsNonneg, slt}
use lattice_sdk.Beacon.NonceCache.{
  NonceSlot, NonceCache, slot_at, empty_slot, is_empty, is_live, live_count, earliest_live,
  grow_size, reinsert, compact, ◌>>=◌,
}
use lattice_sdk.Beacon.NonceCache.Table.{IsOccupied, IsTable}
use lattice_sdk.Beacon.NonceCache.Slots.{Holds, IsCache, occupied_count}
use lattice_sdk.Beacon.NonceCache.Live.{
  LiveIn, LiveIn-place, place-LiveIn, live_occupied, grow_size_lem,
}
use lattice_sdk.Beacon.NonceCache.Reinsert.{
  Apart, Reinserted, reinsert-Reinserted, reinsert-keep_live, replicate-IsTable,
  occupied_count-replicate, Holds-replicate,
}

abbrev IsUnique : List NonceSlot → Type 0
IsUnique slots =
    (i j : ℕ)
    → i < length slots
    → j < length slots
    → IsOccupied (slot_at slots i)
    → IsOccupied (slot_at slots j)
    → (slot_at slots i).nonce ≡ (slot_at slots j).nonce
    → i ≡ j

module _ (now : ℕ) (h : IsNonneg now) where
  IsOccupied-of_live : (s : NonceSlot) → is_live now s ≡ true → IsOccupied s
  IsOccupied-of_live s live = ground (arith, live_occupied now s h live)

  Apart-of_unique : (slots : List NonceSlot) → IsUnique slots → Apart now slots
  Apart-of_unique [] u = tt
  Apart-of_unique (s ∷ slots) u = (
    λ live r m same.
        let (j, lj, e, live') = LiveIn-place now slots r m in
        absurd (
          zero_suc j (
            u 0 (suc j) (omega arith) (omega arith) (IsOccupied-of_live s live)
              (ap is_empty e ∙ IsOccupied-of_live r live')
              (sym (ap (λ (q : NonceSlot). q.nonce) e ∙ same)))),
    Apart-of_unique slots (λ i j li lj oi oj e. ground (arith, u (suc i) (suc j))),
  )
    where
      zero_suc : (j : ℕ) → 0 ≡ suc j → ⊥
      zero_suc j e = omega arith

  LiveIn-Holds :
      (slots : List NonceSlot) (m : List ℕ) (e : ℕ)
      → LiveIn now slots (record { nonce = m; expires = e })
        ↔ (Holds slots m e × (slt now e ≡ true))
  LiveIn-Holds slots m e = (
    λ l.
        let (j, lj, at, live) = LiveIn-place now slots (record { nonce = m; expires = e }) l in
        (
          record {
            place = j;
            within = lj;
            entry = at;
            positive = live_occupied now (record { nonce = m; expires = e }) h live;
          },
          live,
        ),
    λ (k, live).
        subst (LiveIn now slots) k.entry
          (place-LiveIn now slots k.place k.within (ap (is_live now) k.entry ∙ live)),
  )

-- The cache that `compact` leaves when it made room: the unexpired nonces, and place for one more.
pub record Compacted (hash : List ℕ → ℕ) (c : NonceCache) (now : ℕ) (c' : NonceCache) : Type 0 where
  pub table : IsTable hash (length c'.slots) (slot_at c'.slots)
  pub counted : c'.used ≡ occupied_count c'.slots
  pub total : c'.used ≡ live_count now c.slots
  pub room : (c'.used + 1) * 10 ≤ length c'.slots * 6
  pub small : length c'.slots ≤ 4096
  pub ready : c'.full_until ≡ 0
  pub holds : (m : List ℕ) (e : ℕ) → Holds c'.slots m e ↔ (Holds c.slots m e × (slt now e ≡ true))

module _ (hash : List ℕ → ℕ) (c : NonceCache) (now : ℕ) (v : IsCache hash c)
    (h : IsNonneg now) where
  unique : IsUnique c.slots
  unique = elim v.table [
    | inl nil ↦ subst IsUnique (sym nil) (λ i j li lj oi oj e. absurd (omega arith))
    | inr t ↦ t.unique
  ]

  -- The cache is full of unexpired nonces.
  compact_full :
      2400 ≤ live_count now c.slots
      → compact hash c now ≡ some (false, record c { full_until = earliest_live now c.slots 0 })
  unfolding compact
  compact_full full = let test : leb 2400 (live_count now c.slots) ≡ true = ground arith in rw test

  pub size : ℕ
  size = grow_size 5 (live_count now c.slots) 256

  fresh : List NonceSlot
  unfolding size
  fresh = replicate size empty_slot

  reinserted :
      live_count now c.slots < 2400
      → (slots' : List NonceSlot) × (used' : ℕ) × (reinsert hash now c.slots fresh 0
          ≡ some (slots', used'))
        × Reinserted hash now c.slots fresh 0 slots' used'
  unfolding fresh
  reinserted lt =
      let (z, lo, hi, room) = grow_size_lem (live_count now c.slots) lt in
      reinsert-Reinserted hash now h c.slots fresh 0 (replicate-IsTable hash size z)
        (sym (occupied_count-replicate size)) (omega (arith, length-replicate size empty_slot))
        (Apart-of_unique now h c.slots unique)
        (λ r m j lj o same. absurd (
          Holds-replicate size _ _
            (record { place = j; within = lj; entry = refl; positive = ground arith })))

  compact_step :
      live_count now c.slots < 2400
      → (slots' : List NonceSlot) (used' : ℕ)
      → reinsert hash now c.slots fresh 0 ≡ some (slots', used')
      → compact hash c now ≡ some (true, record { slots = slots'; used = used'; full_until = 0 })
  unfolding compact fresh
  compact_step lt slots' used' run =
      let test : leb 2400 (live_count now c.slots) ≡ false = ground arith in
      elim (Bool-cases (length c.slots == size)) [
        | inl same ↦ rw (
          test,
          same,
          reinsert-keep_live hash now c.slots (replicate size empty_slot) 0,
          run,
          ◌>>=◌,
        )
        | inr other ↦ rw (test, other, run, ◌>>=◌)
      ]

  compact_room :
      live_count now c.slots < 2400
      → (c' : NonceCache) × (compact hash c now ≡ some (true, c')) × Compacted hash c now c'
  unfolding fresh
  compact_room lt =
      let (slots', used', run, r) = reinserted lt in
      let (z, lo, hi, room) = grow_size_lem (live_count now c.slots) lt in
      let wide = r.width ∙ length-replicate size empty_slot in
      (
        record { slots = slots'; used = used'; full_until = 0 },
        compact_step lt slots' used' run,
        record {
          table = r.table;
          counted = r.counted;
          total = omega (arith, r.total);
          room = omega (arith, r.total, wide);
          small = omega (arith, wide);
          ready = refl;
          holds = λ m e. (
            λ k. elim ((r.holds m e).0 k) [
              | inl bad ↦ absurd (Holds-replicate size m e bad)
              | inr l ↦ (LiveIn-Holds now h c.slots m e).0 l
            ],
            λ k. (r.holds m e).1 (inr ((LiveIn-Holds now h c.slots m e).1 k)),
          );
        },
      )

  -- `compact` ends. It reports false exactly if 2400 nonces are unexpired, and then keeps the slots
  -- and remembers when the first of them expires; else it keeps the unexpired nonces and no other,
  -- in a table with room for one more.
  pub compact_cases :
      ((2400 ≤ live_count now c.slots)
        × (compact hash c now
            ≡ some (false, record c { full_until = earliest_live now c.slots 0 })))
      ⊎ ((live_count now c.slots < 2400)
          × (c' : NonceCache) × (compact hash c now ≡ some (true, c'))
          × Compacted hash c now c')
  compact_cases = elim (Bool-cases (leb 2400 (live_count now c.slots))) [
    | inl full ↦ let le : 2400 ≤ live_count now c.slots = ground arith in inl (le, compact_full le)
    | inr room ↦
        let lt : live_count now c.slots < 2400 = ground arith in
        let (c', run, r) = compact_room lt in inr (lt, c', run, r)
  ]
