-- ===== src/Beacon/Rate/Bounds.antt =====
-- beacon/responder.go, `sourceState.allow`: no source gets more than its rate, and a source that
-- keeps to it is never refused. Clocks are nanoseconds since 1970, below 2 ^ 62 (the year 2116).
use lattice_sdk.Common.{
  ℕ, ◌+◌, ◌-◌, ◌*◌, ◌^◌, ◌≤◌, ◌<◌, ◌≡◌, true, false, List, [], ◌∷◌, ◌⊎◌, inl, inr, Bool-cases, min,
  arith,
}
use lattice_sdk.Common.Int64.{slt, slt_iff, sub}
use lattice_sdk.Beacon.Rate.{RateState, cost_ns, credit_ns, refill, allow, allow_all}

pub record IsRate (st : RateState) : Type 0 where
  pub credit : st.credit ≤ credit_ns
  pub last_ns : st.last_ns < 2 ^ 62

abbrev pub IsClock : ℕ → Type 0
IsClock t = (0 < t) × (t < 2 ^ 62)

-- The refill in plain arithmetic: the time since the last request, up to a full second.
refill_lem :
    (st : RateState) (now : ℕ)
    → IsRate st
    → IsClock now
    → 0 < st.last_ns
    → st.last_ns ≤ now
    → refill st now ≡ min credit_ns (st.credit + (now - st.last_ns))
unfolding refill slt
refill_lem st now v c pos le = ground arith

-- A request is allowed exactly if the refilled credit covers it, and then spends its cost.
allow_lem :
    (st : RateState) (now : ℕ)
    → refill st now ≤ credit_ns
    → let c = refill st now in
      ((cost_ns ≤ c) × (allow st now ≡ (true, record { credit = c - cost_ns; last_ns = now })))
      ⊎ ((c < cost_ns) × (allow st now ≡ (false, record { credit = c; last_ns = now })))
unfolding allow
allow_lem st now h =
    let iff = slt_iff (refill st now) cost_ns (omega arith) (omega arith) in
    elim (Bool-cases (slt (refill st now) cost_ns)) [
      | inl poor ↦ inr (iff.0 poor, rw poor)
      | inr rich ↦
          let enough : cost_ns ≤ refill st now = ground (arith, iff) in
          let spent : sub (refill st now) cost_ns ≡ refill st now - cost_ns = omega arith in
          inl (enough, rw (rich, spent))
    ]

-- Requests in the order of their clocks, none before `t`.
abbrev pub Ascending : ℕ → List ℕ → Type 0
Ascending t [] = Unit {0}
Ascending t (u ∷ us) = (t ≤ u) × IsClock u × Ascending u us

-- The clock of the last request.
abbrev pub last_of : ℕ → List ℕ → ℕ
last_of t [] = t
last_of t (u ∷ us) = last_of u us

pub last_of-ge : (t : ℕ) (us : List ℕ) → Ascending t us → t ≤ last_of t us
last_of-ge t [] a = omega arith
last_of-ge t (u ∷ us) (le, _, a) = omega (arith, last_of-ge u us a)

-- Over a run of requests whose clocks do not go back, from a state that has seen a request, the cost of
-- those allowed and the credit that is left are covered by the credit at the start and the time that
-- passed.
pub allow_all_bound :
    (st : RateState) (ts : List ℕ)
    → IsRate st
    → 0 < st.last_ns
    → Ascending st.last_ns ts
    → (allow_all st ts).0 * cost_ns + (allow_all st ts).1.credit
      ≤ st.credit + (last_of st.last_ns ts - st.last_ns)
unfolding allow_all
allow_all_bound st [] v pos a = omega arith
allow_all_bound st (t ∷ ts) v pos (le, c, a) =
    let r = refill_lem st t v c pos le in
    elim (allow_lem st t (omega (arith, r))) [
      | inl (enough, e) ↦
          let c' = refill st t - cost_ns in
          let next : RateState = record { credit = c'; last_ns = t } in
          let ih =
            allow_all_bound next ts (record { credit = omega (arith, r); last_ns = c.1 }) c.0 a in
          rw e (omega (arith, ih, r, last_of-ge t ts a))
      | inr (poor, e) ↦
          let next : RateState = record { credit = refill st t; last_ns = t } in
          let ih =
            allow_all_bound next ts (record { credit = omega (arith, r); last_ns = c.1 }) c.0 a in
          rw e (omega (arith, ih, r, last_of-ge t ts a))
    ]

-- Requests at least a cost apart.
abbrev pub Spaced : ℕ → List ℕ → Type 0
Spaced t [] = Unit {0}
Spaced t (u ∷ us) = (t + cost_ns ≤ u) × IsClock u × Spaced u us
