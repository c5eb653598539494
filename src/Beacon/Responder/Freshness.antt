-- ===== src/Beacon/Responder/Freshness.antt =====
-- beacon/responder.go, `Responder.Handle`: which requests are answered ok.
use lattice_sdk.Common.{
  ℕ, ◌+◌, ◌^◌, ◌≤◌, ◌<◌, ◌≡◌, ◌⊎◌, refl, inl, inr, Bool, true, false, ◌||◌, ltb, Bool-cases, ltb→lt,
  ltb-false→le, arith,
}
use lattice_sdk.Common.Int64.{IsNonneg, IsU64, sub, slt}
use lattice_sdk.Beacon.Responder.{is_stale}

-- The window in plain arithmetic.
pub record IsFresh (start now sent : ℕ) : Type 0 where
  pub nonneg : IsNonneg sent
  pub after_start : start ≤ sent
  pub not_old : now ≤ sent + 60_000_000_000
  pub not_early : sent ≤ now + 60_000_000_000

slt_window : (d : ℕ) → IsU64 d → slt 60_000_000_000 d ≡ false → (d ≤ 60_000_000_000) ⊎ (2 ^ 63 ≤ d)
unfolding slt
slt_window d h e =
    let le = ltb-false→le _ _ e in
    elim (Bool-cases (ltb d (2 ^ 63))) [
      | inl lt ↦ inl (omega (arith, le, ltb→lt _ _ lt))
      | inr ge ↦ inr (ltb-false→le _ _ ge)
    ]

slt_start :
    (sent start : ℕ)
    → IsNonneg start
    → IsU64 sent
    → slt sent start ≡ false
    → (start ≤ sent) × (sent < 2 ^ 63)
unfolding slt
slt_start sent start h k e = let le = ltb-false→le _ _ e in (omega (arith, le), omega (arith, le))

or_false : (x y z : Bool) → (x || y || z) ≡ false → (x ≡ false) × ((y ≡ false) × (z ≡ false))
or_false false false false e = (refl, (refl, refl))
or_false true y z e = cc
or_false false true z e = cc
or_false false false true e = cc

-- A request that is not stale was stamped a minute ago at most, whatever the start.
pub is_stale-not_old :
    (start now sent : ℕ)
    → IsNonneg now
    → IsNonneg sent
    → is_stale start now sent ≡ false
    → now ≤ sent + 60_000_000_000
unfolding is_stale
is_stale-not_old start now sent hn hs e =
    let (a, (b, c)) = or_false (slt sent start) _ _ e in
    elim (slt_window (sub now sent) (omega arith) b) [ inl le ↦ omega arith | inr ge ↦ omega arith ]

pub is_stale-IsFresh :
    (start now sent : ℕ)
    → IsNonneg start
    → IsNonneg now
    → IsU64 sent
    → is_stale start now sent ≡ false
    → IsFresh start now sent
unfolding is_stale
is_stale-IsFresh start now sent hs hn hu e =
    let (a, (b, c)) = or_false (slt sent start) _ _ e in
    let (after, nonneg) = slt_start sent start hs hu a in
    record {
      nonneg = nonneg;
      after_start = after;
      not_old = is_stale-not_old start now sent hn nonneg e;
      not_early = elim (slt_window (sub sent now) (omega arith) c) [
        | inl le ↦ omega arith
        | inr ge ↦ omega arith
      ];
    }
