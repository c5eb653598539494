-- ===== src/Beacon/NonceCache/Probe.antt =====
-- beacon/responder.go, the probing loops of `NonceCache`: where they end, and that they end.
use Prim.Native.Nat.{bit_and}
use native.Mathlib.Nat.{mod-eq_of_lt, mod-add-mod, add-mod_right, mod-eq-sub-mod, mod-lt}
use lattice_sdk.Common.{
  ℕ, zero, suc, ◌+◌, ◌-◌, ◌%◌, ◌≤◌, ◌<◌, ◌≡◌, refl, sym, ap, ◌∙◌, ◌⊎◌, inl, inr, Bool, true, false,
  Option, some, List, length, ltb, leb, Bool-cases, ◌≢◌, arith,
}
use lattice_sdk.Common.Masks.{IsSize, bit_and-mask}
use lattice_sdk.Beacon.NonceCache.{NonceSlot, slot_at, probe}

-- The `d`-th index that a loop from `h` visits in a table of `n` slots.
abbrev pub visit : ℕ → ℕ → ℕ → ℕ
visit n h d = (h + d) % n

pub visit-lt : (n h d : ℕ) → 0 < n → visit n h d < n
visit-lt n h d pos = mod-lt (h + d) pos

visit_next : (n h d : ℕ) → IsSize n → bit_and (visit n h d + 1) (n - 1) ≡ visit n h (suc d)
visit_next n h d z =
    bit_and-mask n (visit n h d + 1) z ∙ mod-add-mod (h + d) n 1 ∙ ap (λ t. t % n) (omega arith)

-- Every index is visited within one round.
pub visit_reaches : (n h j : ℕ) → h < n → j < n → (e : ℕ) × (e < n) × (visit n h e ≡ j)
visit_reaches n h j hh hj = elim (Bool-cases (leb h j)) [
  | inl le ↦ (j - h, ground arith, ap (λ t. t % n) (ground arith) ∙ mod-eq_of_lt hj)
  | inr gt ↦ (
    j + n - h,
    ground arith,
    ap (λ t. t % n) (ground arith) ∙ add-mod_right j n ∙ mod-eq_of_lt hj,
  )
]

visit_value :
    (n h d : ℕ)
    → h < n
    → d < n
    → ((h + d < n) × (visit n h d ≡ h + d)) ⊎ ((n ≤ h + d) × (visit n h d ≡ h + d - n))
visit_value n h d hh hd = elim (Bool-cases (leb n (h + d))) [
  | inl wraps ↦
      let over : n ≤ h + d = ground arith in
      inr (over, mod-eq-sub-mod over ∙ mod-eq_of_lt (omega arith))
  | inr below ↦ let short : h + d < n = ground arith in inl (short, mod-eq_of_lt short)
]

-- Within one round no index is visited twice.
pub visit-injective : (n h d e : ℕ) → h < n → d < n → e < n → visit n h d ≡ visit n h e → d ≡ e
visit-injective n h d e hh hd he same =
    omega (arith, visit_value n h d hh hd, visit_value n h e hh he)

module _ (stop : NonceSlot → Bool) (slots : List NonceSlot) (h : ℕ) where
  abbrev pub stops_at : ℕ → Bool
  stops_at d = stop (slot_at slots (visit (length slots) h d))

  -- The loop ended after `steps` rounds at the first slot that stops it.
  pub record Found (i : ℕ) : Type 0 where
    pub steps : ℕ
    pub within : steps < length slots
    pub index : visit (length slots) h steps ≡ i
    pub stopped : stop (slot_at slots i) ≡ true
    pub passed : (x : ℕ) → x < steps → stops_at x ≡ false

  abbrev pub Finds : Option ℕ → Type 0
  Finds r = (i : ℕ) × (r ≡ some i) × Found i

  passed_suc :
      (d : ℕ)
      → ((x : ℕ) → x < d → stops_at x ≡ false)
      → stops_at d ≡ false
      → (x : ℕ) → x < suc d
      → stops_at x ≡ false
  passed_suc d before now x lt = elim (Bool-cases (ltb x d)) [
    | inl less ↦ before x (ground arith)
    | inr more ↦ let e : x ≡ d = ground arith in ap stops_at e ∙ now
  ]

  probe_from :
      (fuel d e : ℕ)
      → IsSize (length slots)
      → d ≤ e
      → e < d + fuel
      → e < length slots
      → stops_at e ≡ true
      → ((x : ℕ) → x < d → stops_at x ≡ false)
      → Finds (probe stop slots fuel (visit (length slots) h d))
  unfolding probe
  probe_from zero d e z lo hi lt s before = absurd (omega arith)
  probe_from (suc fuel) d e z lo hi lt s before = elim (Bool-cases (stops_at d)) [
    | inl here ↦ (
      visit (length slots) h d,
      rw here,
      record { steps = d; within = omega arith; index = refl; stopped = here; passed = before },
    )
    | inr further ↦
        let ne : d ≢ e = λ same. cc (ap stops_at same) in
        let (i, run, found) =
          probe_from fuel (suc d) e z (omega arith) (omega arith) lt s
            (passed_suc d before further) in
        (i, rw further (ap (probe stop slots fuel) (visit_next (length slots) h d z) ∙ run), found)
  ]

-- A loop with as much fuel as there are slots ends, if some slot stops it.
pub probe_ends :
    (stop : NonceSlot → Bool) (slots : List NonceSlot) (h j : ℕ)
    → IsSize (length slots)
    → h < length slots
    → j < length slots
    → stop (slot_at slots j) ≡ true
    → Finds stop slots h (probe stop slots (length slots) h)
probe_ends stop slots h j z hh hj s =
    let (e, lt, at) = visit_reaches (length slots) h j hh hj in
    let start : visit (length slots) h 0 ≡ h =
      ap (λ t. t % length slots) (omega arith) ∙ mod-eq_of_lt hh in
    let (i, run, found) =
      probe_from stop slots h (length slots) 0 e z (omega arith) (omega arith) lt
        (ap (λ t. stop (slot_at slots t)) at ∙ s) (λ x bad. absurd (omega arith)) in
    (i, ap (probe stop slots (length slots)) (sym start) ∙ run, found)
