-- ===== src/Beacon/NonceCache/Seen.antt =====
-- beacon/responder.go, `NonceCache.Seen`: it answers whether a nonce is held and unexpired.
use lattice_sdk.Common.{
  ℕ, ◌≡◌, ◌↔◌, sym, ap, subst, ◌∙◌, inl, inr, Bool, true, false, some, List, [], length, ◌==◌,
  if◌then◌else◌, Bool-cases, arith,
}
use lattice_sdk.Common.Int64.{slt}
use lattice_sdk.Beacon.NonceCache.{NonceSlot, NonceCache, slot_at, is_empty, is_live, seen, ◌>>=◌}
use lattice_sdk.Beacon.NonceCache.Table.{IsOccupied, IsTable}
use lattice_sdk.Beacon.NonceCache.Slots.{Holds, IsCache, has_room}
use lattice_sdk.Beacon.NonceCache.Lookup.{Located, locate}

Holds-nil : (n : List ℕ) (e : ℕ) → Holds [] n e → ⊥
Holds-nil n e h = absurd (omega arith)

-- The slot at which the loop for a nonce ended holds it, or nobody does.
module _ (hash : List ℕ → ℕ) (slots : List NonceSlot) (nonce : List ℕ) (i : ℕ) where
  pub Holds-Located :
      Located hash slots nonce i
      → IsOccupied (slot_at slots i)
      → Holds slots nonce (slot_at slots i).expires
  Holds-Located l o = record {
    place = i;
    within = l.within;
    entry = λ k. record { nonce = l.held o k; expires = (slot_at slots i).expires };
    positive = ground arith;
  }

  Holds-IsOccupied : {e : ℕ} (h : Holds slots nonce e) → IsOccupied (slot_at slots h.place)
  Holds-IsOccupied {e} h = ap is_empty h.entry ∙ ground (arith, h.positive)

  pub Holds-place :
      IsTable hash (length slots) (slot_at slots)
      → Located hash slots nonce i
      → (e : ℕ) → Holds slots nonce e
      → slot_at slots i ≡ record { nonce = nonce; expires = e }
  Holds-place t l e h = elim (Bool-cases (is_empty (slot_at slots i))) [
    | inl empty ↦ absurd (
        l.absent empty h.place h.within (Holds-IsOccupied h)
          (ap (λ (s : NonceSlot). s.nonce) h.entry))
    | inr o ↦
        let at =
          t.unique i h.place l.within h.within o (Holds-IsOccupied h)
            (l.held o ∙ sym (ap (λ (s : NonceSlot). s.nonce) h.entry)) in
        ap (slot_at slots) at ∙ h.entry
  ]

-- `Seen` always ends, and answers true exactly if the cache holds the nonce with an expiry later
-- than now.
pub seen-Holds :
    (hash : List ℕ → ℕ) (c : NonceCache) (nonce : List ℕ) (now : ℕ)
    → IsCache hash c
    → (b : Bool) × (seen hash c nonce now ≡ some b)
      × ((b ≡ true) ↔ ((e : ℕ) × Holds c.slots nonce e × (slt now e ≡ true)))
unfolding seen
seen-Holds hash c nonce now v = elim v.table [
  | inl nil ↦ (
    false,
    rw nil,
    (λ e. cc, λ (e, h, _). absurd (Holds-nil nonce e (subst (λ s. Holds s nonce e) nil h))),
  )
  | inr t ↦
      let some_slots : length c.slots == 0 ≡ false = ground (arith, has_room hash c v t) in
      let (i, run, l) = locate hash c.slots t (has_room hash c v t).1 nonce in
      let s = slot_at c.slots i in
      (
        if is_empty s then false else is_live now s,
        rw (some_slots, run, ◌>>=◌),
        (
          λ b. elim (Bool-cases (is_empty s)) [
            | inl empty ↦ cc (rw empty at b)
            | inr o ↦ (s.expires, Holds-Located hash c.slots nonce i l o, rw o at b)
          ],
          λ (e, h, live).
              subst (λ (r : NonceSlot). (if is_empty r then false else is_live now r) ≡ true)
                (sym (Holds-place hash c.slots nonce i t l e h)) (ground (arith, h.positive, live)),
        ),
      )
]
