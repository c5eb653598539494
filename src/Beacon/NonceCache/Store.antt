-- ===== src/Beacon/NonceCache/Store.antt =====
-- beacon/responder.go, the last loop of `NonceCache.Insert`: a write of one nonce.
use lattice_sdk.Common.{
  ℕ, ◌+◌, ◌≤◌, ◌<◌, ◌≡◌, ◌≢◌, ◌⊎◌, ◌↔◌, refl, sym, ap, subst, ◌∙◌, inl, inr, true, false, some,
  List, length, set, length-set, ◌==◌, ==_iff, Bool-cases, arith,
}
use lattice_sdk.Beacon.NonceCache.{NonceSlot, NonceCache, slot_at, is_empty, store, ◌>>=◌}
use lattice_sdk.Beacon.NonceCache.Table.{
  IsOccupied, IsTable, update, update-IsTable, update-IsTable_same,
}
use lattice_sdk.Beacon.NonceCache.Slots.{
  Holds, occupied_count, slot_at-set, occupied_count-set_empty, occupied_count-set_same,
}
use lattice_sdk.Beacon.NonceCache.Lookup.{Located, locate}

module _ (slots : List NonceSlot) (i : ℕ) (s : NonceSlot) (lt : i < length slots) where
  slot_at-set_self : slot_at (set slots i s) i ≡ s
  slot_at-set_self = ap (λ f. f i) (slot_at-set slots i s lt) ∙ ground arith

  slot_at-set_ne : (j : ℕ) → i == j ≡ false → slot_at (set slots i s) j ≡ slot_at slots j
  slot_at-set_ne j ne = ap (λ f. f j) (slot_at-set slots i s lt) ∙ rw ne

  pub Holds-set_self : s.expires ≢ 0 → Holds (set slots i s) s.nonce s.expires
  Holds-set_self pos = record {
    place = i;
    within = omega (arith, length-set slots i s);
    entry = slot_at-set_self;
    positive = pos;
  }

  -- After a write into an empty place, what is held is what was, and the new entry.
  pub Holds-set_empty :
      is_empty (slot_at slots i) ≡ true
      → s.expires ≢ 0
      → (m : List ℕ) (e : ℕ)
      → Holds (set slots i s) m e ↔ (Holds slots m e ⊎ (s ≡ record { nonce = m; expires = e }))
  Holds-set_empty empty pos m e = (
    λ h. elim (Bool-cases (i == h.place)) [
      | inl here ↦ inr (
          sym slot_at-set_self ∙ ap (slot_at (set slots i s)) ((==_iff i h.place).0 here) ∙ h.entry)
      | inr there ↦ inl (record {
        place = h.place;
        within = omega (arith, length-set slots i s, h.within);
        entry = sym (slot_at-set_ne h.place there) ∙ h.entry;
        positive = h.positive;
      })
    ],
    elim [
      | inl h ↦ elim (Bool-cases (i == h.place)) [
        | inl here ↦
            let at = ap (slot_at slots) ((==_iff i h.place).0 here) ∙ h.entry in
            let filled : is_empty (slot_at slots i) ≡ false =
              ap is_empty at ∙ ground (arith, h.positive) in
            cc
        | inr there ↦ record {
          place = h.place;
          within = omega (arith, length-set slots i s, h.within);
          entry = slot_at-set_ne h.place there ∙ h.entry;
          positive = h.positive;
        }
      ]
      | inr same ↦ record {
        place = i;
        within = omega (arith, length-set slots i s);
        entry = slot_at-set_self ∙ same;
        positive = λ z. pos (ap (λ (r : NonceSlot). r.expires) same ∙ z);
      }
    ],
  )

  -- The other nonces are held as before, if no other nonce was held in the place written to.
  pub Holds-set_other :
      (m : List ℕ) (e : ℕ)
      → m ≢ s.nonce
      → (IsOccupied (slot_at slots i) → (slot_at slots i).nonce ≢ m)
      → Holds (set slots i s) m e ↔ Holds slots m e
  Holds-set_other m e ne free = (
    λ h. elim (Bool-cases (i == h.place)) [
      | inl here ↦ absurd (
          ne (
            sym (
              ap (λ (r : NonceSlot). r.nonce)
                (sym slot_at-set_self
                  ∙ ap (slot_at (set slots i s)) ((==_iff i h.place).0 here)
                  ∙ h.entry))))
      | inr there ↦ record {
        place = h.place;
        within = omega (arith, length-set slots i s, h.within);
        entry = sym (slot_at-set_ne h.place there) ∙ h.entry;
        positive = h.positive;
      }
    ],
    λ h. elim (Bool-cases (i == h.place)) [
      | inl here ↦
          let at = ap (slot_at slots) ((==_iff i h.place).0 here) ∙ h.entry in
          absurd (
            free (ap is_empty at ∙ ground (arith, h.positive)) (ap (λ (r : NonceSlot). r.nonce) at))
      | inr there ↦ record {
        place = h.place;
        within = omega (arith, length-set slots i s, h.within);
        entry = slot_at-set_ne h.place there ∙ h.entry;
        positive = h.positive;
      }
    ],
  )

  pub set-IsTable :
      (hash : List ℕ → ℕ)
      → IsTable hash (length slots) (update (slot_at slots) i s)
      → IsTable hash (length (set slots i s)) (slot_at (set slots i s))
  set-IsTable hash t =
      subst (λ n. IsTable hash n (slot_at (set slots i s))) (sym (length-set slots i s))
        (subst (IsTable hash (length slots)) (sym (slot_at-set slots i s lt)) t)

-- What a write of `nonce` until `expires` makes of the cache.
pub record Stored (hash : List ℕ → ℕ) (c : NonceCache) (nonce : List ℕ) (expires : ℕ)
    (c' : NonceCache) : Type 0 where
  pub table : IsTable hash (length c'.slots) (slot_at c'.slots)
  pub width : length c'.slots ≡ length c.slots
  pub counted : c'.used ≡ occupied_count c'.slots
  pub grows : c'.used ≤ c.used + 1
  pub holds : Holds c'.slots nonce expires
  pub others : (m : List ℕ) (e : ℕ) → m ≢ nonce → Holds c'.slots m e ↔ Holds c.slots m e
  pub same : c'.full_until ≡ c.full_until

module _ (hash : List ℕ → ℕ) (c : NonceCache) (nonce : List ℕ) (expires : ℕ)
    (t : IsTable hash (length c.slots) (slot_at c.slots))
    (counted : c.used ≡ occupied_count c.slots) (positive : expires ≢ 0) (i : ℕ)
    (l : Located hash c.slots nonce i) where
  abbrev entry : NonceSlot
  entry = record { nonce = nonce; expires = expires }

  taken : IsOccupied entry
  taken = ground (arith, positive)

  -- In an empty place.
  new_Stored :
      is_empty (slot_at c.slots i) ≡ true
      → Stored hash c nonce expires (record c { slots = set c.slots i entry; used = c.used + 1 })
  new_Stored e = record {
    table = set-IsTable c.slots i entry l.within hash (
        update-IsTable hash (length c.slots) (slot_at c.slots) t i l.within entry l.found.steps
          l.found.within l.found.index l.taken taken (l.absent e));
    width = length-set c.slots i entry;
    counted = omega (arith, counted, occupied_count-set_empty c.slots i entry l.within e taken);
    grows = omega arith;
    holds = Holds-set_self c.slots i entry l.within positive;
    others = λ m x ne. Holds-set_other c.slots i entry l.within m x ne (λ o. cc);
    same = refl;
  }

  -- In the place that holds the nonce already.
  old_Stored :
      IsOccupied (slot_at c.slots i)
      → let s = record (slot_at c.slots i) { expires = expires } in
        Stored hash c nonce expires (record c { slots = set c.slots i s })
  old_Stored o =
      let nonces = l.held o in
      let same : entry ≡ record (slot_at c.slots i) { expires = expires } =
        λ k. record { nonce = sym nonces k; expires = expires } in
      subst (λ (r : NonceSlot). Stored hash c nonce expires (record c { slots = set c.slots i r }))
        same
        (record {
          table = set-IsTable c.slots i entry l.within hash (
              update-IsTable_same hash (length c.slots) (slot_at c.slots) t i l.within entry o taken
                (sym nonces));
          width = length-set c.slots i entry;
          counted =
              omega (arith, counted, occupied_count-set_same c.slots i entry l.within o taken);
          grows = omega arith;
          holds = Holds-set_self c.slots i entry l.within positive;
          others = λ m x ne.
              Holds-set_other c.slots i entry l.within m x ne (λ _ e. ne (sym e ∙ nonces));
          same = refl;
        })

-- The loop ends, and the nonce is held from then on; the others are held as before.
pub store-Stored :
    (hash : List ℕ → ℕ) (c : NonceCache) (nonce : List ℕ) (expires : ℕ)
    → IsTable hash (length c.slots) (slot_at c.slots)
    → c.used ≡ occupied_count c.slots
    → occupied_count c.slots < length c.slots
    → expires ≢ 0
    → (c' : NonceCache) × (store hash c nonce expires ≡ some (true, c'))
      × Stored hash c nonce expires c'
unfolding store
store-Stored hash c nonce expires t counted room positive =
    let (i, run, l) = locate hash c.slots t room nonce in
    elim (Bool-cases (is_empty (slot_at c.slots i))) [
      | inl e ↦ (
        record c {
          slots = set c.slots i (record { nonce = nonce; expires = expires });
          used = c.used + 1;
        },
        rw (run, ◌>>=◌, e),
        new_Stored hash c nonce expires t counted positive i l e,
      )
      | inr o ↦ (
        record c { slots = set c.slots i (record (slot_at c.slots i) { expires = expires }) },
        rw (run, ◌>>=◌, o),
        old_Stored hash c nonce expires t counted positive i l o,
      )
    ]
