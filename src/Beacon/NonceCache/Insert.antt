-- ===== src/Beacon/NonceCache/Insert.antt =====
-- beacon/responder.go, `NonceCache.Insert`: a nonce is held until its expiry, unless the unexpired
-- ones fill the cache.
use lattice_sdk.Common.{
  ℕ, ◌+◌, ◌*◌, ◌/◌, ◌≤◌, ◌<◌, ◌≡◌, ◌≢◌, ◌↔◌, refl, sym, ap, ◌∙◌, inl, inr, Bool, true, false, some,
  List, length, ltb, leb, ◌||◌, if◌then◌else◌, Bool-cases, arith,
}
use lattice_sdk.Common.Int64.{IsNonneg, slt, slt_irrefl, slt-zero}
use lattice_sdk.Beacon.NonceCache.{
  NonceCache, new_nonce_cache, live_count, earliest_live, compact, insert, ◌>>=◌,
}
use lattice_sdk.Beacon.NonceCache.Slots.{Holds, IsCache, occupied_count}
use lattice_sdk.Beacon.NonceCache.Store.{Stored, store-Stored}
use lattice_sdk.Beacon.NonceCache.Live.{live_count-le, live_count-earliest}
use lattice_sdk.Beacon.NonceCache.Compact.{Compacted, compact_cases}

-- The expiry that is written: an `expiresNs` that is not positive becomes 1.
abbrev pub held_until : ℕ → ℕ
held_until expires = if slt 0 expires then expires else 1

held_until-ne-zero : (expires : ℕ) → held_until expires ≢ 0
held_until-ne-zero expires = elim (Bool-cases (slt 0 expires)) [
  | inl pos ↦ rw pos (λ z. cc (slt_irrefl 0))
  | inr neg ↦ rw neg (λ z. absurd (omega arith))
]

-- The two ends of an insert at `now`: the cache was full and keeps its slots, or it holds the nonce
-- and still holds every other unexpired one, and no other that it did not hold.
pub data Inserted (c : NonceCache) (nonce : List ℕ) (expires now : ℕ) (c' : NonceCache)
    : Bool → Type 0 where
  refused :
      2400 ≤ live_count now c.slots → c'.slots ≡ c.slots → Inserted c nonce expires now c' false
  stored :
      live_count now c.slots < 2400
      → Holds c'.slots nonce (held_until expires)
      → ((m : List ℕ) (e : ℕ)
          → m ≢ nonce
          → slt now e ≡ true
          → Holds c'.slots m e ↔ Holds c.slots m e)
      → Inserted c nonce expires now c' true

pub IsCache-new : (hash : List ℕ → ℕ) → IsCache hash new_nonce_cache
unfolding occupied_count
IsCache-new hash = record {
  table = inl refl;
  counted = refl;
  sparse = omega arith;
  bounded = omega arith;
  small = omega arith;
  full = λ t h lt. cc (lt, slt-zero t h);
}

-- A write into a cache that is not full keeps it well formed.
Stored-IsCache :
    (hash : List ℕ → ℕ) (c : NonceCache) (nonce : List ℕ) (expires : ℕ) (c' : NonceCache)
    → Stored hash c nonce expires c'
    → (c.used + 1) * 10 ≤ length c.slots * 6
    → c.used < 2400
    → length c.slots ≤ 4096
    → ((t : ℕ) → IsNonneg t → slt t c.full_until ≡ true → ⊥)
    → IsCache hash c'
Stored-IsCache hash c nonce expires c' s fits few small never = record {
  table = inr s.table;
  counted = s.counted;
  sparse = omega (arith, s.width, s.grows);
  bounded = omega (arith, s.grows);
  small = omega (arith, s.width);
  full = λ t ht lt. absurd (never t ht (ap (slt t) (sym s.same) ∙ lt));
}

module _ (hash : List ℕ → ℕ) (c : NonceCache) (nonce : List ℕ) (expires now : ℕ)
    (v : IsCache hash c) (h : IsNonneg now) where
  abbrev Result : Type 0
  Result =
      (b : Bool) × (c' : NonceCache) × (insert hash c nonce expires now ≡ some (b, c'))
      × IsCache hash c'
      × Inserted c nonce expires now c' b

  abbrev guard : Bool
  guard = leb 2400 c.used || ltb (length c.slots * 6 / 10) (c.used + 1)

  -- A cache with room takes the nonce at once.
  insert_at_once : guard ≡ false → Result
  unfolding insert
  insert_at_once open' =
      let small : c.used < 2400 = ground arith in
      let fits : (c.used + 1) * 10 ≤ length c.slots * 6 = ground arith in
      let never = λ (t : ℕ) (ht : IsNonneg t) (lt : slt t c.full_until ≡ true).
        let bad : ⊥ = omega (arith, v.full t ht lt, live_count-le t c.slots ht, v.counted) in bad in
      elim v.table [
        | inl nil ↦ absurd (omega (arith, ap length nil))
        | inr t ↦
            let (c', run, s) =
              store-Stored hash c nonce (held_until expires) t v.counted (omega (arith, v.counted))
                (held_until-ne-zero expires) in
            (
              true,
              c',
              rw open' run,
              Stored-IsCache hash c nonce (held_until expires) c' s fits small v.small never,
              stored (omega (arith, live_count-le now c.slots h, v.counted)) s.holds
                  (λ m e ne _. s.others m e ne),
            )
      ]

  insert_compacted :
      guard ≡ true
      → slt now c.full_until ≡ false
      → live_count now c.slots < 2400
      → (c1 : NonceCache) → compact hash c now ≡ some (true, c1)
      → Compacted hash c now c1
      → Result
  unfolding insert
  insert_compacted shut due lt c1 run r =
      let (c', run', s) =
        store-Stored hash c1 nonce (held_until expires) r.table r.counted
          (omega (arith, r.table.sized.1, r.counted, r.room)) (held_until-ne-zero expires) in
      (
        true,
        c',
        rw (shut, due, run, ◌>>=◌) run',
        Stored-IsCache hash c1 nonce (held_until expires) c' s r.room (omega (arith, r.total))
            r.small (λ t ht lt'. cc (ap (slt t) r.ready, slt-zero t ht)),
        stored lt s.holds (λ m e ne live. (
          λ k. ((r.holds m e).0 ((s.others m e ne).0 k)).0,
          λ k. (s.others m e ne).1 ((r.holds m e).1 (k, live)),
        )),
      )

  insert_refused :
      guard ≡ true
      → slt now c.full_until ≡ false
      → 2400 ≤ live_count now c.slots
      → compact hash c now ≡ some (false, record c { full_until = earliest_live now c.slots 0 })
      → Result
  unfolding insert
  insert_refused shut due le run = (
    false,
    record c { full_until = earliest_live now c.slots 0 },
    rw (shut, due, run, ◌>>=◌),
    record {
      table = v.table;
      counted = v.counted;
      sparse = v.sparse;
      bounded = v.bounded;
      small = v.small;
      full = λ t ht lt. omega (arith, live_count-earliest now t c.slots h lt);
    },
    refused le refl,
  )

  -- `Insert` ends, keeps the cache well formed, and reports false exactly if 2400 unexpired nonces
  -- are held.
  pub insert-Inserted : Result
  insert-Inserted = elim (Bool-cases guard) [
    | inr open' ↦ insert_at_once open'
    | inl shut ↦ elim (Bool-cases (slt now c.full_until)) [
      | inl early ↦
          (false, c, unfold insert in rw (shut, early), v, refused (v.full now h early) refl)
      | inr due ↦ elim (compact_cases hash c now v h) [
        | inl (le, run) ↦ insert_refused shut due le run
        | inr (lt, c1, run, r) ↦ insert_compacted shut due lt c1 run r
      ]
    ]
  ]
