-- ===== src/Beacon/Rate.antt =====
-- beacon/responder.go, `sourceState.allow`: the rate allowance of one source.
pub mod Bounds
use lattice_sdk.Common.{
  ℕ, zero, suc, ◌+◌, ◌/◌, Bool, true, false, List, [], ◌∷◌, ◌==◌, if◌then◌else◌,
}
use lattice_sdk.Common.Int64.{add, sub, slt, smin}
use lattice_sdk.Beacon.Wire.{second, source_rate_per_second}

-- What one answered request costs, and the most credit a source can hold: one second's worth.
abbrev pub cost_ns : ℕ
cost_ns = second / source_rate_per_second

abbrev pub credit_ns : ℕ
credit_ns = second

-- The rate's part of `sourceState`: two int64s.
pub record RateState : Type 0 where
  pub credit : ℕ
  pub last_ns : ℕ

unfoldable pub refill : RateState → ℕ → ℕ
refill st now =
    let elapsed = sub now st.last_ns in
    if st.last_ns == 0
    then st.credit
    else if slt 0 elapsed
    then smin credit_ns (add st.credit elapsed)
    else st.credit

unfoldable pub allow : RateState → ℕ → Bool × RateState
allow st now =
    let credit = refill st now in
    if slt credit cost_ns
    then (false, record { credit = credit; last_ns = now })
    else (true, record { credit = sub credit cost_ns; last_ns = now })

-- Requests one after another: how many were allowed, and the state they leave.
unfoldable pub allow_all : RateState → List ℕ → ℕ × RateState
allow_all st [] = (0, st)
allow_all st (t ∷ ts) =
    let (granted, st') = allow st t in
    let (count, end) = allow_all st' ts in ((if granted then 1 else 0) + count, end)
