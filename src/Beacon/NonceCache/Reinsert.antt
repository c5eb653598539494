-- ===== src/Beacon/NonceCache/Reinsert.antt =====
-- beacon/responder.go, the last loop of `NonceCache.compact`: the unexpired nonces go to a cleared
-- table.
use lattice_sdk.Common.{
  ℕ, zero, suc, ◌+◌, ◌<◌, ◌≡◌, ◌≢◌, ◌⊎◌, ◌↔◌, refl, sym, ap, subst, fun_ext, ◌∙◌, inl, inr, true,
  false, some, List, [], ◌∷◌, length, set, length-set, replicate, length-replicate, Bool-cases,
  arith,
}
use lattice_sdk.Common.Int64.{IsNonneg}
use lattice_sdk.Common.Masks.{IsSize}
use lattice_sdk.Beacon.NonceCache.{
  NonceSlot, slot_at, empty_slot, is_empty, is_live, live_count, keep_live, reinsert, probe, home,
  ◌>>=◌,
}
use lattice_sdk.Beacon.NonceCache.Probe.{visit-lt, probe_ends}
use lattice_sdk.Beacon.NonceCache.Table.{IsOccupied, IsTable, IsAbsent, home-lt, update-IsTable}
use lattice_sdk.Beacon.NonceCache.Slots.{
  Holds, occupied_count, empty_place, occupied_count-set_empty,
}
use lattice_sdk.Beacon.NonceCache.Store.{Holds-set_empty, set-IsTable}
use lattice_sdk.Beacon.NonceCache.Live.{LiveIn, live_occupied}

-- A cleared table.
slot_at-replicate : (n i : ℕ) → slot_at (replicate n empty_slot) i ≡ empty_slot
slot_at-replicate zero i = refl
slot_at-replicate (suc n) zero = refl
slot_at-replicate (suc n) (suc i) = slot_at-replicate n i

pub occupied_count-replicate : (n : ℕ) → occupied_count (replicate n empty_slot) ≡ 0
unfolding occupied_count
occupied_count-replicate zero = refl
occupied_count-replicate (suc n) = omega (arith, occupied_count-replicate n)

replicate_empty : (n i : ℕ) → IsOccupied (slot_at (replicate n empty_slot) i) → ⊥
replicate_empty n i o = cc (ap is_empty (slot_at-replicate n i))

pub replicate-IsTable :
    (hash : List ℕ → ℕ) (n : ℕ)
    → IsSize n
    → let slots = replicate n empty_slot in IsTable hash (length slots) (slot_at slots)
replicate-IsTable hash n z = record {
  sized = subst IsSize (sym (length-replicate n empty_slot)) z;
  unique = λ i j li lj oi oj e. absurd (replicate_empty n i oi);
  reachable = λ i d x li oi ld at lx. absurd (replicate_empty n i oi);
}

pub Holds-replicate : (n : ℕ) (m : List ℕ) (e : ℕ) → Holds (replicate n empty_slot) m e → ⊥
Holds-replicate n m e h =
    replicate_empty n h.place (ap is_empty h.entry ∙ ground (arith, h.positive))

-- Filtering first, as the code does when the table keeps its size, makes no difference.
pub reinsert-keep_live :
    (hash : List ℕ → ℕ) (now : ℕ) (old slots : List NonceSlot) (used : ℕ)
    → reinsert hash now (keep_live now old) slots used ≡ reinsert hash now old slots used
unfolding reinsert keep_live
reinsert-keep_live hash now [] slots used = refl
reinsert-keep_live hash now (s ∷ old) slots used = elim (Bool-cases (is_live now s)) [
  | inl live ↦
      let next : (λ (i : ℕ). reinsert hash now (keep_live now old) (set slots i s) (used + 1))
          ≡ (λ i. reinsert hash now old (set slots i s) (used + 1)) =
        fun_ext (λ i. reinsert-keep_live hash now old (set slots i s) (used + 1)) in
      rw (live, keep_live, reinsert)
        (rw live (
          ap (◌>>=◌ (probe is_empty slots (length slots) (home hash (length slots) s.nonce))) next))
  | inr dead ↦ rw dead (reinsert-keep_live hash now old slots used)
]

-- No two unexpired slots of a list have one nonce.
abbrev pub Apart : ℕ → List NonceSlot → Type 0
Apart now [] = Unit {0}
Apart now (s ∷ old) =
    (is_live now s ≡ true → (r : NonceSlot) → LiveIn now old r → r.nonce ≢ s.nonce) × Apart now old

-- What the loop makes of a table: the old entries and the unexpired ones of the list.
pub record Reinserted (hash : List ℕ → ℕ) (now : ℕ) (old slots : List NonceSlot) (used : ℕ)
    (slots' : List NonceSlot) (used' : ℕ) : Type 0 where
  pub width : length slots' ≡ length slots
  pub table : IsTable hash (length slots') (slot_at slots')
  pub counted : used' ≡ occupied_count slots'
  pub total : used' ≡ used + live_count now old
  pub holds :
      (m : List ℕ) (e : ℕ)
      → Holds slots' m e ↔ (Holds slots m e ⊎ LiveIn now old (record { nonce = m; expires = e }))

-- One round: the first empty place from the home of a nonce that is not held.
place :
    (hash : List ℕ → ℕ) (slots : List NonceSlot) (s : NonceSlot)
    → IsTable hash (length slots) (slot_at slots)
    → occupied_count slots < length slots
    → s.expires ≢ 0
    → IsAbsent (length slots) (slot_at slots) s.nonce
    → (i : ℕ) × (probe is_empty slots (length slots) (home hash (length slots) s.nonce) ≡ some i)
      × (i < length slots)
      × (is_empty (slot_at slots i) ≡ true)
      × IsTable hash (length (set slots i s)) (slot_at (set slots i s))
place hash slots s t room positive absent =
    let h = home hash (length slots) s.nonce in
    let (j, lj, empty) = empty_place slots room in
    let (i, run, found) =
      probe_ends is_empty slots h j t.sized (home-lt hash (length slots) s.nonce t.sized) lj
        empty in
    let li : i < length slots =
      subst (λ k. k < length slots) found.index
        (visit-lt (length slots) h found.steps (omega (arith, found.within))) in
    (
      i,
      run,
      li,
      found.stopped,
      set-IsTable slots i s li hash (
          update-IsTable hash (length slots) (slot_at slots) t i li s found.steps found.within
            found.index found.passed (ground (arith, positive)) absent),
    )

-- A nonce that is neither held nor the one just placed is still not held.
IsAbsent-next :
    (slots : List NonceSlot) (i : ℕ) (s : NonceSlot)
    → i < length slots
    → is_empty (slot_at slots i) ≡ true
    → s.expires ≢ 0
    → (r : NonceSlot) → r.nonce ≢ s.nonce
    → IsAbsent (length slots) (slot_at slots) r.nonce
    → IsAbsent (length (set slots i s)) (slot_at (set slots i s)) r.nonce
IsAbsent-next slots i s li empty pos r ne absent j lj o same =
    let held : Holds (set slots i s) (slot_at (set slots i s) j).nonce
        (slot_at (set slots i s) j).expires =
      record { place = j; within = lj; entry = refl; positive = ground arith } in
    elim ((Holds-set_empty slots i s li empty pos _ _).0 held) [
      | inl k ↦
          absent k.place k.within (ap is_empty k.entry ∙ ground (arith, k.positive))
            (ap (λ (q : NonceSlot). q.nonce) k.entry ∙ same)
      | inr e ↦ ne (sym (ap (λ (q : NonceSlot). q.nonce) e ∙ same))
    ]

module _ (hash : List ℕ → ℕ) (now : ℕ) (h : IsNonneg now) where
  reinsert_done :
      (slots : List NonceSlot) (used : ℕ) → reinsert hash now [] slots used ≡ some (slots, used)
  unfolding reinsert
  reinsert_done slots used = refl

  reinsert_dead :
      (s : NonceSlot) (old slots : List NonceSlot) (used : ℕ)
      → is_live now s ≡ false
      → reinsert hash now (s ∷ old) slots used ≡ reinsert hash now old slots used
  unfolding reinsert
  reinsert_dead s old slots used dead = rw dead

  reinsert_live :
      (s : NonceSlot) (old slots : List NonceSlot) (used : ℕ)
      → is_live now s ≡ true
      → (i : ℕ) → probe is_empty slots (length slots) (home hash (length slots) s.nonce) ≡ some i
      → reinsert hash now (s ∷ old) slots used ≡ reinsert hash now old (set slots i s) (used + 1)
  unfolding reinsert
  reinsert_live s old slots used live i at = rw (live, at, ◌>>=◌)

  pub reinsert-Reinserted :
      (old slots : List NonceSlot) (used : ℕ)
      → IsTable hash (length slots) (slot_at slots)
      → used ≡ occupied_count slots
      → used + live_count now old < length slots
      → Apart now old
      → ((r : NonceSlot) → LiveIn now old r → IsAbsent (length slots) (slot_at slots) r.nonce)
      → (slots' : List NonceSlot) × (used' : ℕ) × (reinsert hash now old slots used
          ≡ some (slots', used'))
        × Reinserted hash now old slots used slots' used'
  unfolding live_count
  reinsert-Reinserted [] slots used t counted room apart absent = (
    slots,
    used,
    reinsert_done slots used,
    record {
      width = refl;
      table = t;
      counted = counted;
      total = omega arith;
      holds = λ m e. (inl, elim [ inl x ↦ x | inr b ↦ absurd b ]);
    },
  )
  reinsert-Reinserted (s ∷ old) slots used t counted room (head, apart) absent =
      elim (Bool-cases (is_live now s)) [
        | inr dead ↦
            let count : live_count now (s ∷ old) ≡ live_count now old = rw dead (omega arith) in
            let (slots', used', run, r) =
              reinsert-Reinserted old slots used t counted (omega (arith, count)) apart
                (λ q m. absent q (inr m)) in
            (
              slots',
              used',
              reinsert_dead s old slots used dead ∙ run,
              record {
                width = r.width;
                table = r.table;
                counted = r.counted;
                total = omega (arith, count, r.total);
                holds = λ m e. (
                  λ x. elim ((r.holds m e).0 x) [ inl k ↦ inl k | inr k ↦ inr (inr k) ],
                  elim [
                    | inl k ↦ (r.holds m e).1 (inl k)
                    | inr (inl k) ↦ cc (k.1)
                    | inr (inr k) ↦ (r.holds m e).1 (inr k)
                  ],
                );
              },
            )
        | inl live ↦
            let count : live_count now (s ∷ old) ≡ live_count now old + 1 = rw live (omega arith) in
            let pos = live_occupied now s h live in
            let (i, at, li, empty, t') =
              place hash slots s t (omega (arith, count)) pos (absent s (inl (refl, live))) in
            let more = occupied_count-set_empty slots i s li empty (ground (arith, pos)) in
            let (slots', used', run, r) =
              reinsert-Reinserted old (set slots i s) (used + 1) t' (omega (arith, more))
                (omega (arith, count, length-set slots i s)) apart
                (λ q m.
                  IsAbsent-next slots i s li empty pos q (head live q m) (absent q (inr m))) in
            (
              slots',
              used',
              reinsert_live s old slots used live i at ∙ run,
              record {
                width = r.width ∙ length-set slots i s;
                table = r.table;
                counted = r.counted;
                total = omega (arith, count, r.total);
                holds = λ m e.
                    let put = Holds-set_empty slots i s li empty pos m e in
                    (
                      λ x. elim ((r.holds m e).0 x) [
                        | inr k ↦ inr (inr k)
                        | inl k ↦ elim (put.0 k) [ inl y ↦ inl y | inr y ↦ inr (inl (y, live)) ]
                      ],
                      elim [
                        | inl k ↦ (r.holds m e).1 (inl (put.1 (inl k)))
                        | inr (inl k) ↦ (r.holds m e).1 (inl (put.1 (inr k.0)))
                        | inr (inr k) ↦ (r.holds m e).1 (inr k)
                      ],
                    );
              },
            )
      ]
