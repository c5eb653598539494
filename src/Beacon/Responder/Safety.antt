-- ===== src/Beacon/Responder/Safety.antt =====
-- beacon/responder.go: what holds over every run of a responder.
use lattice_sdk.Common.{
  ℕ, ◌+◌, ◌^◌, ◌≤◌, ◌<◌, ◌≡◌, ◌≢◌, ◌⊎◌, sym, ap, subst, ◌∙◌, inl, inr, true, false, some,
  some-injective, List, All, ltb, ltb→lt, ltb-false→le, Bool-cases, arith,
}
use lattice_sdk.Common.Int64.{IsNonneg, slt, slt_iff}
use lattice_sdk.Common.Bytes.{IsByte, slice, uint32_at, uint64_at}
use lattice_sdk.Common.Slices.{uint64_at-lt}
use lattice_sdk.Beacon.Wire.{Hmac}
use lattice_sdk.Beacon.NonceCache.Slots.{Holds}
use lattice_sdk.Beacon.NonceCache.Insert.{held_until}
use lattice_sdk.Beacon.Table.{TableEntry, TableSource}
use lattice_sdk.Beacon.Table.Groups.{lookup}
use lattice_sdk.Beacon.Responder.{reply_ok, Answer, Responder, cache_of, handle, is_stale}
use lattice_sdk.Beacon.Responder.Judge.{expiry}
use lattice_sdk.Beacon.Responder.Handled.{IsResponder}
use lattice_sdk.Beacon.Responder.Freshness.{IsFresh, is_stale-IsFresh, is_stale-not_old}
use lattice_sdk.Beacon.Responder.Answered.{Answered, Handled-Answered}
use lattice_sdk.Beacon.Responder.Evolution.{Handled-IsResponder}
use lattice_sdk.Beacon.Responder.Runs.{
  Keeps, Step, datagram, refresh, Run, here, next, Run-IsResponder, Step-Later, Handled-answer,
}

-- The expiry of a fresh request does not overflow, for clocks below 2 ^ 62.
held_until-expiry :
    (sent : ℕ) → sent < 2 ^ 62 + 60_000_000_001 → held_until (expiry sent) ≡ sent + 60_000_000_001
held_until-expiry sent h =
    let value : expiry sent ≡ sent + 60_000_000_001 = omega arith in
    let positive : slt 0 (expiry sent) ≡ true =
      (slt_iff 0 (expiry sent) (omega arith) (omega arith)).1 (omega arith) in
    rw positive value

module _ (h : Hmac) (hash : ℕ → List ℕ → ℕ) where
  -- A source holds the nonce until `e`, or `e` is past.
  abbrev Burnt : ℕ → List ℕ → ℕ → Responder → ℕ → Type 0
  Burnt id nonce e r t =
      (e ≤ t)
      ⊎ ((s : TableSource) × (lookup id r.table ≡ some s) × Holds (cache_of s.state).slots nonce e)

  Burnt-Step :
      (id : ℕ) {r : Responder} {t : ℕ} {r' : Responder} {t' : ℕ} (nonce : List ℕ) (e : ℕ)
      → IsNonneg e
      → IsNonneg t'
      → t ≤ t'
      → IsResponder hash r
      → Step h hash (Keeps id) r t r' t'
      → Burnt id nonce e r t
      → Burnt id nonce e r' t'
  Burnt-Step id nonce e he ht le w s (inl past) = inl (omega arith)
  Burnt-Step id {r = r} {t = t} {t' = t'} nonce e he ht le w s (inr (src, l, k)) =
      elim (Bool-cases (ltb t' e)) [
        | inr ge ↦ inl (ltb-false→le t' e ge)
        | inl lt ↦
            let (src', l', later) = Step-Later h hash id src w s l in
            inr (src', l', later.keeps nonce e ((slt_iff t' e ht he).1 (ltb→lt t' e lt)) k)
      ]

  pub Run-IsNonneg :
      {keep : List TableEntry → Type 0} {r : Responder} {t : ℕ} {r' : Responder} {t' : ℕ}
      → IsNonneg t
      → Run h hash keep r t r' t'
      → IsNonneg t'
  Run-IsNonneg n here = n
  Run-IsNonneg n (next p (datagram fresh now pkt out a le k e)) = k
  Run-IsNonneg n (next p (refresh entries r' k e)) = Run-IsNonneg n p

  pub Step-≤ :
      {keep : List TableEntry → Type 0} {r : Responder} {t : ℕ} {r' : Responder} {t' : ℕ}
      → Step h hash keep r t r' t'
      → t ≤ t'
  Step-≤ (datagram fresh now pkt out a le k e) = le
  Step-≤ (refresh entries r' k e) = omega arith

  Burnt-Run :
      (id : ℕ) {r : Responder} {t : ℕ} {r' : Responder} {t' : ℕ} (nonce : List ℕ) (e : ℕ)
      → IsNonneg e
      → IsNonneg t
      → IsResponder hash r
      → Run h hash (Keeps id) r t r' t'
      → Burnt id nonce e r t
      → Burnt id nonce e r' t'
  Burnt-Run id nonce e he ht w here b = b
  Burnt-Run id nonce e he ht w (next p s) b =
      Burnt-Step id nonce e he (Run-IsNonneg ht (next p s)) (Step-≤ s) (Run-IsResponder h hash w p)
        s (Burnt-Run id nonce e he ht w p b)

  module _ (r : Responder) (fresh now : ℕ) (pkt out : List ℕ) (a : Answer) (w : IsResponder hash r)
      (clock : now < 2 ^ 62) (answer : handle h hash fresh r now pkt out ≡ some a) where
    module _ (bytes : All IsByte pkt) (start : IsNonneg r.start_ns) (yes : a.1 ≡ reply_ok) where
      first : Answered h hash fresh r now pkt out w a
      first =
          Handled-Answered h hash fresh r now pkt out w a
            (Handled-answer h hash r fresh now pkt out a (omega arith) w answer) yes

      -- A request is answered ok only if it was stamped after the responder's start and within a
      -- minute of the clock on either side, and then `LastAuthenticated` is that clock.
      pub answered-IsFresh : IsFresh r.start_ns now (uint64_at 17 pkt) × (a.3.last_auth ≡ now)
      answered-IsFresh = (
        is_stale-IsFresh r.start_ns now (uint64_at 17 pkt) start (omega arith)
            (uint64_at-lt 17 pkt (omega (arith, first.sized)) bytes) first.in_time,
        first.noted,
      )

      first_state : IsResponder hash a.3
      first_state =
          Handled-IsResponder h hash fresh r now pkt out w a
            (Handled-answer h hash r fresh now pkt out a (omega arith) w answer)

      module _ (r' : Responder) (t : ℕ) (run : Run h hash (Keeps (uint32_at 9 pkt)) a.3 now r' t)
          (fresh' now' : ℕ) (pkt' out' : List ℕ) (b : Answer) (later : t ≤ now')
          (clock' : IsNonneg now') (answer' : handle h hash fresh' r' now' pkt' out' ≡ some b)
          (same_source : uint32_at 9 pkt' ≡ uint32_at 9 pkt)
          (same_sent : uint64_at 17 pkt' ≡ uint64_at 17 pkt)
          (same_nonce : slice 25 16 pkt' ≡ slice 25 16 pkt) where
        after_run : IsResponder hash r'
        after_run = Run-IsResponder h hash first_state run

        -- A request that was answered ok is never answered ok again: after any run of datagrams and
        -- table refreshes that keep its source, with clocks that do not go back, no datagram with its
        -- source id, nonce and stamp is.
        pub replay-safe : b.1 ≢ reply_ok
        replay-safe yes' =
            let second =
              Handled-Answered h hash fresh' r' now' pkt' out' after_run b
                (Handled-answer h hash r' fresh' now' pkt' out' b clock' after_run answer') yes' in
            let sent = uint64_at 17 pkt in
            let in_time : IsFresh r.start_ns now sent = answered-IsFresh.0 in
            let e = sent + 60_000_000_001 in
            let value : held_until (expiry sent) ≡ e =
              held_until-expiry sent (omega (arith, in_time.not_early)) in
            let inside : now' ≤ sent + 60_000_000_000 =
              is_stale-not_old r'.start_ns now' sent clock' in_time.nonneg
                (subst (λ d. is_stale r'.start_ns now' d ≡ false) same_sent second.in_time) in
            let end : IsNonneg e = omega (arith, in_time.not_early) in
            elim (Burnt-Run (uint32_at 9 pkt) (slice 25 16 pkt) e end (omega arith) first_state run
              (inr (
                first.src',
                first.stays,
                subst (Holds (cache_of first.src'.state).slots (slice 25 16 pkt)) value first.holds,
              ))) [
                | inl past ↦ absurd (omega arith)
                | inr (s, l, k) ↦
                    let same : s ≡ second.src =
                      some-injective s second.src
                        (sym l ∙ ap (λ d. lookup d r'.table) (sym same_source) ∙ second.listed) in
                    second.unspent (
                      e,
                      subst (λ n. Holds (cache_of second.src.state).slots n e) (sym same_nonce)
                          (subst
                            (λ (q : TableSource).
                              Holds (cache_of q.state).slots (slice 25 16 pkt) e)
                            same k),
                      (slt_iff now' e clock' end).1 (omega arith),
                    )
              ]
