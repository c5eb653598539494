-- ===== src/Beacon/NonceCache/Table.antt =====
-- beacon/responder.go, `NonceCache`: the slots as a table, by index, and the writes that keep it
-- well formed.

use native.Mathlib.Nat.{mod-lt}
use lattice_sdk.Common.{
  ℕ, ◌<◌, ◌≡◌, sym, ap, subst, ◌∙◌, inl, inr, false, List, ◌==◌, ==_iff, if◌then◌else◌, Bool-cases,
  arith,
}
use lattice_sdk.Common.Masks.{IsSize, bit_and-mask}
use lattice_sdk.Beacon.NonceCache.{NonceSlot, is_empty, home}
use lattice_sdk.Beacon.NonceCache.Probe.{visit, visit-injective}

abbrev pub IsOccupied : NonceSlot → Type 0
IsOccupied s = is_empty s ≡ false

abbrev pub update : (ℕ → NonceSlot) → ℕ → NonceSlot → ℕ → NonceSlot
update f i s j = if i == j then s else f j

abbrev pub IsAbsent : ℕ → (ℕ → NonceSlot) → List ℕ → Type 0
IsAbsent n f nonce = (j : ℕ) → j < n → IsOccupied (f j) → (f j).nonce ≡ nonce → ⊥

module _ (hash : List ℕ → ℕ) where
  pub home-lt : (n : ℕ) (nonce : List ℕ) → IsSize n → home hash n nonce < n
  unfolding home
  home-lt n nonce z = rw (bit_and-mask n (hash nonce) z) (mod-lt (hash nonce) (positive z))
    where
      positive : IsSize n → 0 < n
      positive (k, e) = omega arith

  -- A table of `n` slots: its size is a power of two, no nonce is held twice, and every slot between
  -- a nonce's home and its place is taken.
  pub record IsTable (n : ℕ) (f : ℕ → NonceSlot) : Type 0 where
    pub sized : IsSize n
    pub unique :
        (i j : ℕ)
        → i < n
        → j < n
        → IsOccupied (f i)
        → IsOccupied (f j)
        → (f i).nonce ≡ (f j).nonce
        → i ≡ j
    pub reachable :
        (i d x : ℕ)
        → i < n
        → IsOccupied (f i)
        → d < n
        → visit n (home hash n (f i).nonce) d ≡ i
        → x < d
        → IsOccupied (f (visit n (home hash n (f i).nonce) x))

  module _ (n : ℕ) (f : ℕ → NonceSlot) (t : IsTable n f) (i : ℕ) (lt : i < n) (s : NonceSlot) where
    update_taken : IsOccupied s → (j : ℕ) → IsOccupied (f j) → IsOccupied (update f i s j)
    update_taken taken j o = ground arith

    -- What `reachable` says of the nonce `k` at place `a`.
    abbrev Reaches : ℕ → ℕ → ℕ → List ℕ → Type 0
    Reaches a d x k =
        visit n (home hash n k) d ≡ a → IsOccupied (update f i s (visit n (home hash n k) x))

    -- The places other than `i`.
    reachable_other :
        IsOccupied s
        → (a d x : ℕ) → a < n
        → d < n
        → x < d
        → i == a ≡ false
        → IsOccupied (update f i s a)
        → Reaches a d x (update f i s a).nonce
    reachable_other taken a d x la ld lx ne oa =
        let same : update f i s a ≡ f a = rw ne in
        let oa' : IsOccupied (f a) = ap is_empty (sym same) ∙ oa in
        subst (Reaches a d x) (ap (λ (r : NonceSlot). r.nonce) (sym same))
          (λ at. update_taken taken _ (t.reachable a d x la oa' ld at lx))

    -- A new nonce in the first empty place from its home on.
    pub update-IsTable :
        (steps : ℕ)
        → steps < n
        → visit n (home hash n s.nonce) steps ≡ i
        → ((x : ℕ) → x < steps → IsOccupied (f (visit n (home hash n s.nonce) x)))
        → IsOccupied s
        → IsAbsent n f s.nonce
        → IsTable n (update f i s)
    update-IsTable steps within at passed taken absent = record {
      sized = t.sized;
      unique = λ a b la lb oa ob e. ground (arith, t.unique a b, absent a, absent b);
      reachable = λ a d x la oa ld at' lx. elim (Bool-cases (i == a)) [
        | inr ne ↦ reachable_other taken a d x la ld lx ne oa at'
        | inl here ↦
            let same : update f i s a ≡ s = rw here in
            subst (Reaches a d x) (ap (λ (r : NonceSlot). r.nonce) (sym same))
              (λ v.
                let round : d ≡ steps =
                  visit-injective n (home hash n s.nonce) d steps (home-lt n s.nonce t.sized) ld
                    within (v ∙ sym ((==_iff i a).0 here) ∙ sym at) in
                update_taken taken _ (passed x (omega arith)))
              at'
      ];
    }

    -- A new expiry in a place that is taken.
    pub update-IsTable_same :
        IsOccupied (f i) → IsOccupied s → s.nonce ≡ (f i).nonce → IsTable n (update f i s)
    update-IsTable_same taken taken' same = record {
      sized = t.sized;
      unique = λ a b la lb oa ob e. ground (arith, t.unique a b);
      reachable = λ a d x la oa ld at' lx. elim (Bool-cases (i == a)) [
        | inr ne ↦ reachable_other taken' a d x la ld lx ne oa at'
        | inl here ↦
            let same : (update f i s a).nonce ≡ (f i).nonce = rw here same in
            subst (Reaches a d x) (sym same)
              (λ v.
                update_taken taken' _
                  (t.reachable i d x lt taken ld (v ∙ sym ((==_iff i a).0 here)) lx))
              at'
      ];
    }
