-- ===== src/Beacon/NonceCache/Lookup.antt =====
-- beacon/responder.go, `NonceCache.Seen`: it finds a nonce exactly if it is held and unexpired.
use lattice_sdk.Common.{
  ℕ, ◌<◌, ◌≡◌, sym, ap, subst, ◌∙◌, inl, inr, true, false, some, List, length, ltb, Bool-cases,
  arith,
}
use lattice_sdk.Common.Bytes.{bytes_eq_iff, bytes_eq_refl}
use lattice_sdk.Beacon.NonceCache.{NonceSlot, slot_at, is_empty, stops_for, probe, home}
use lattice_sdk.Beacon.NonceCache.Probe.{visit, visit-lt, visit_reaches, Found, probe_ends}
use lattice_sdk.Beacon.NonceCache.Table.{IsOccupied, IsTable, IsAbsent, home-lt}
use lattice_sdk.Beacon.NonceCache.Slots.{occupied_count, empty_place}

taken_of : (nonce : List ℕ) (s : NonceSlot) → stops_for nonce s ≡ false → IsOccupied s
taken_of nonce s e = ground arith

held_of :
    (nonce : List ℕ) (s : NonceSlot) → IsOccupied s → stops_for nonce s ≡ true → s.nonce ≡ nonce
held_of nonce s o e = (bytes_eq_iff s.nonce nonce).0 (ground arith)

stops_at_held :
    (nonce : List ℕ) (s : NonceSlot) → IsOccupied s → s.nonce ≡ nonce → stops_for nonce s ≡ true
stops_at_held nonce s o e = rw (o, e) (bytes_eq_refl nonce)

module _ (hash : List ℕ → ℕ) (slots : List NonceSlot) where
  -- The loop for `nonce` ended at `i`: at the nonce, or at the empty place where it belongs.
  pub record Located (nonce : List ℕ) (i : ℕ) : Type 0 where
    pub found : Found (stops_for nonce) slots (home hash (length slots) nonce) i
    pub within : i < length slots
    pub taken :
        (x : ℕ)
        → x < found.steps
        → IsOccupied (slot_at slots (visit (length slots) (home hash (length slots) nonce) x))
    pub held : IsOccupied (slot_at slots i) → (slot_at slots i).nonce ≡ nonce
    pub absent : is_empty (slot_at slots i) ≡ true → IsAbsent (length slots) (slot_at slots) nonce

  module _ (t : IsTable hash (length slots) (slot_at slots))
      (room : occupied_count slots < length slots) (nonce : List ℕ) where
    h : ℕ
    h = home hash (length slots) nonce

    -- A nonce that is held stands before the first empty place, where the loop would have met it.
    IsAbsent-at :
        (i : ℕ)
        → Found (stops_for nonce) slots h i
        → is_empty (slot_at slots i) ≡ true
        → IsAbsent (length slots) (slot_at slots) nonce
    unfolding h
    IsAbsent-at i found e j lj oj same =
        let (d, ld, at) =
          visit_reaches (length slots) h j (home-lt hash (length slots) nonce t.sized) lj in
        let here : visit (length slots) (home hash (length slots) (slot_at slots j).nonce) d ≡ j =
          rw same at in
        let stop = stops_at_held nonce (slot_at slots j) oj same in
        elim (Bool-cases (ltb d found.steps)) [
          | inl before ↦
              cc (ap (λ k. stops_for nonce (slot_at slots k)) at, found.passed d (ground arith))
          | inr after ↦ elim (Bool-cases (ltb found.steps d)) [
            | inl beyond ↦
                let taken = t.reachable j d found.steps lj oj ld here (ground arith) in
                let taken' : IsOccupied (slot_at slots i) =
                  subst (λ k. IsOccupied (slot_at slots k))
                    (ap (λ k. visit (length slots) (home hash (length slots) k) found.steps) same
                      ∙ found.index)
                    taken in
                cc
            | inr not_beyond ↦
                let round : d ≡ found.steps = ground arith in
                cc (
                  ap is_empty
                    (ap (slot_at slots) (sym at ∙ ap (visit (length slots) h) round ∙ found.index)))
          ]
        ]

    pub locate :
        (i : ℕ) × (probe (stops_for nonce) slots (length slots) (home hash (length slots) nonce)
          ≡ some i)
        × Located nonce i
    unfolding h
    locate =
        let (j, lj, empty) = empty_place slots room in
        let hh = home-lt hash (length slots) nonce t.sized in
        let (i, run, found) = probe_ends (stops_for nonce) slots h j t.sized hh lj (rw empty) in
        (
          i,
          run,
          record {
            found = found;
            within =
                subst (λ k. k < length slots) found.index
                  (visit-lt (length slots) h found.steps (omega arith));
            taken = λ x lx. taken_of nonce _ (found.passed x lx);
            held = λ o. held_of nonce _ o found.stopped;
            absent = λ e j lj oj same. IsAbsent-at i found e j lj oj same;
          },
        )
