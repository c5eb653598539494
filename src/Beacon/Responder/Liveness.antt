-- ===== src/Beacon/Responder/Liveness.antt =====
-- beacon/responder.go, `Responder.Handle`: a good request is answered.
use lattice_sdk.Common.{ℕ, ◌≤◌, ◌<◌, ◌≡◌, refl, ◌∙◌, Bool, true, false, some, List, arith}
use lattice_sdk.Common.Int64.{IsNonneg}
use lattice_sdk.Common.Bytes.{slice, uint32_at, uint64_at}
use lattice_sdk.Beacon.Wire.{Hmac}
use lattice_sdk.Beacon.NonceCache.{NonceCache, live_count}
use lattice_sdk.Beacon.NonceCache.Insert.{Inserted, refused, stored}
use lattice_sdk.Beacon.Rate.{allow}
use lattice_sdk.Beacon.Table.{TableEpoch, TableSource}
use lattice_sdk.Beacon.Responder.{
  reply_ok, Answer, Outcome, Responder, cache_of, with_cache, is_stale, spend, handle,
}
use lattice_sdk.Beacon.Responder.Judge.{
  Spent, Judged, retired_epoch, stale, replayed, cache_full, admitted, judge-Judged,
}
use lattice_sdk.Beacon.Responder.Handled.{IsResponder, Authentic, handle-Authentic, updated}

module _ (h : Hmac) (hash : ℕ → List ℕ → ℕ) (fresh : ℕ) (r : Responder) (now : ℕ) (pkt out : List ℕ)
    (i : ℕ) (src : TableSource) (ep : TableEpoch)
    (a : Authentic h hash fresh r now pkt out i src ep) (live : ep.retired ≡ false)
    (in_time : is_stale r.start_ns now (uint64_at 17 pkt) ≡ false)
    (unspent : Spent src.state (slice 25 16 pkt) now → ⊥)
    (room : live_count now (cache_of src.state).slots < 2400)
    (granted : (allow src.state.rate now).0 ≡ true) where
  refused-count :
      (c : NonceCache) (nonce : List ℕ) (expires : ℕ) (c' : NonceCache) (b : Bool)
      → Inserted c nonce expires now c' b
      → b ≡ false
      → 2400 ≤ live_count now c.slots
  refused-count c nonce expires c' false (refused le same) e = le
  refused-count c nonce expires c' true (stored lt holds others) e = cc

  spend-ok :
      (c : NonceCache) (last : ℕ)
      → (spend h
          (with_cache fresh src.state c)
          ep
          now
          (uint32_at 13 pkt)
          (slice 25 16 pkt)
          out
          last).verdict
        ≡ reply_ok
  unfolding spend
  spend-ok c last = rw granted

  Judged-ok :
      (o : Outcome)
      → Judged h hash fresh r.start_ns src.state ep now
          (uint64_at 17 pkt)
          (uint32_at 13 pkt)
          (slice 25 16 pkt)
          out
          r.last_auth
          o
      → o.verdict ≡ reply_ok
  Judged-ok _ (retired_epoch e) = cc
  Judged-ok _ (stale e s) = cc
  Judged-ok _ (replayed e s u) = absurd (unspent u)
  Judged-ok _ (cache_full e s u c v k) =
      absurd (omega (arith, refused-count (cache_of src.state) (slice 25 16 pkt) _ c false k refl))
  Judged-ok _ (admitted e s u c v k) = spend-ok c now

  -- A request whose tag verifies under a key that is not retired, stamped in the window, with a new
  -- nonce, is answered ok, if fewer than 2400 unexpired nonces of its source are held and the
  -- source's rate allows it.
  pub handle-answers :
      IsResponder hash r
      → IsNonneg now
      → (b : Answer) × (handle h hash fresh r now pkt out ≡ some b) × (b.1 ≡ reply_ok)
  handle-answers w hn =
      let (o, run, j) =
        judge-Judged h hash fresh r.start_ns src.state ep now (uint64_at 17 pkt) (uint32_at 13 pkt)
          (slice 25 16 pkt) out r.last_auth (w.states i src a.source) hn in
      (
        (o.n, o.verdict, o.out, updated h hash fresh r now pkt out i src o),
        handle-Authentic h hash fresh r now pkt out i src ep a ∙ rw run,
        Judged-ok o j,
      )
