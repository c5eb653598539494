-- ===== src/Beacon/Responder/Ended.antt =====
-- beacon/responder.go, `Handle` on a datagram whose tag verified: its ends by verdict, and how the
-- source's state evolves.
use lattice_sdk.Common.{
  ℕ, ◌≡◌, refl, sym, subst, inl, inr, Bool, true, false, ◌&&◌, not, some, some-injective, List,
  ◌==◌, Bool-cases,
}
use lattice_sdk.Common.Int64.{sub, slt, IsNonneg}
use lattice_sdk.Common.Bytes.{bytes_eq, bytes_eq_iff}
use lattice_sdk.Beacon.Wire.{
  Hmac, Status, status_ok, status_stale, status_unknown_epoch, status_rate_limited, reply_len,
  named_reply_interval,
}
use lattice_sdk.Beacon.NonceCache.{NonceCache}
use lattice_sdk.Beacon.NonceCache.Slots.{Holds, IsCache}
use lattice_sdk.Beacon.NonceCache.Insert.{Inserted, refused, stored, held_until}
use lattice_sdk.Beacon.Rate.{RateState, allow}
use lattice_sdk.Beacon.Table.{TableEpoch, SourceState}
use lattice_sdk.Beacon.Responder.{
  drop_replay, drop_named_budget, reply_ok, named_verdict, Outcome, cache_of, seed_of, with_cache,
  is_stale, reply_into, named, spend, judge,
}
use lattice_sdk.Beacon.Responder.Judge.{
  expiry, IsState, Spent, IsCache-cache_of, Judged, retired_epoch, stale, replayed, cache_full,
  admitted, judge-Judged,
}

-- The source had a named reply less than a second before `now`.
abbrev pub is_budgeted : ℕ → ℕ → Bool
is_budgeted last_named now =
    not (last_named == 0)
    && slt (sub now last_named) named_reply_interval
    && not (slt now last_named)

-- The state of a source after a decision at `now`, up to the time of its last named reply: its
-- cache is well formed and holds every unexpired nonce that it held.
pub record Evolved (hash : ℕ → List ℕ → ℕ) (now : ℕ) (st st' : SourceState) : Type 0 where
  pub valid : IsState hash st'
  pub keeps :
      (m : List ℕ) (e : ℕ)
      → slt now e ≡ true
      → Holds (cache_of st).slots m e
      → Holds (cache_of st').slots m e
  pub same_named : st'.last_named ≡ st.last_named

module _ (h : Hmac) (hash : ℕ → List ℕ → ℕ) (fresh : ℕ) where
  IsState-with_cache :
      (st : SourceState) (c : NonceCache) (rate : RateState)
      → IsCache (hash (seed_of fresh st)) c
      → IsState hash (record (with_cache fresh st c) { rate = rate })
  IsState-with_cache st c rate w d e =
      subst (IsCache (hash (seed_of fresh st))) (some-injective c d e) w

  Inserted-keeps :
      (c : NonceCache) (nonce : List ℕ) (expires now : ℕ) (c' : NonceCache) (b : Bool)
      → Inserted c nonce expires now c' b
      → ((e : ℕ) × Holds c.slots nonce e × (slt now e ≡ true) → ⊥)
      → (m : List ℕ) (e : ℕ) → slt now e ≡ true
      → Holds c.slots m e
      → Holds c'.slots m e
  Inserted-keeps c nonce expires now c' false (refused le same) u m e lt k =
      subst (λ s. Holds s m e) (sym same) k
  Inserted-keeps c nonce expires now c' true (stored lt holds others) u m e live k =
      elim (Bool-cases (bytes_eq m nonce)) [
        | inl t ↦
            absurd (u (e, subst (λ n. Holds c.slots n e) ((bytes_eq_iff m nonce).0 t) k, live))
        | inr f ↦
            (others m e (λ (q : m ≡ nonce). let t = (bytes_eq_iff m nonce).1 q in cc) live).1 k
      ]

  Inserted-Holds :
      (c : NonceCache) (nonce : List ℕ) (expires now : ℕ) (c' : NonceCache) (b : Bool)
      → Inserted c nonce expires now c' b
      → b ≡ true
      → Holds c'.slots nonce (held_until expires)
  Inserted-Holds c nonce expires now c' false (refused le same) e = cc
  Inserted-Holds c nonce expires now c' true (stored lt holds others) e = holds

  -- A decision that leaves the cache `c`, and any rate.
  Evolved-with_cache :
      (now : ℕ) (st : SourceState) (c : NonceCache) (rate : RateState)
      → IsCache (hash (seed_of fresh st)) c
      → ((m : List ℕ) (e : ℕ)
          → slt now e ≡ true
          → Holds (cache_of st).slots m e
          → Holds c.slots m e)
      → Evolved hash now st (record (with_cache fresh st c) { rate = rate })
  Evolved-with_cache now st c rate w keeps = record {
    valid = IsState-with_cache st c rate w;
    keeps = keeps;
    same_named = refl;
  }

  module _ (start : ℕ) (st : SourceState) (ep : TableEpoch) (now sent seq : ℕ) (nonce out : List ℕ)
      (last : ℕ) where
    -- Why a named reply is due, and the `lastAuth` that goes with it.
    pub data Reason : Status → ℕ → Type 0 where
      because_retired : ep.retired ≡ true → Reason status_unknown_epoch last
      because_stale : ep.retired ≡ false → is_stale start now sent ≡ true → Reason status_stale last
      because_limited :
          ep.retired ≡ false
          → is_stale start now sent ≡ false
          → (Spent st nonce now → ⊥)
          → Reason status_rate_limited now

    pub data Ended : Outcome → Type 0 where
      was_replay :
          Spent st nonce now
          → (st' : SourceState) → Evolved hash now st st'
          → Ended
              (record { n = 0; verdict = drop_replay; out = out; state = st'; last_auth = last })
      was_budget :
          (status last' : ℕ)
          → Reason status last'
          → is_budgeted st.last_named now ≡ true
          → (st' : SourceState) → Evolved hash now st st'
          → Ended (record {
            n = 0;
            verdict = drop_named_budget;
            out = out;
            state = st';
            last_auth = last';
          })
      was_named :
          (status last' : ℕ)
          → Reason status last'
          → is_budgeted st.last_named now ≡ false
          → (st' : SourceState) → Evolved hash now st st'
          → Ended (record {
            n = reply_len;
            verdict = named_verdict status;
            out = reply_into h out ep.key status seq nonce now;
            state = record st' { last_named = now };
            last_auth = last';
          })
      was_ok :
          ep.retired ≡ false
          → is_stale start now sent ≡ false
          → (Spent st nonce now → ⊥)
          → (st' : SourceState) → Evolved hash now st st'
          → Holds (cache_of st').slots nonce (held_until (expiry sent))
          → Ended (record {
            n = reply_len;
            verdict = reply_ok;
            out = reply_into h out ep.key status_ok seq nonce now;
            state = st';
            last_auth = now;
          })

    module _ (st' : SourceState) (status last' : ℕ) where
      named-budget :
          is_budgeted st'.last_named now ≡ true
          → named h st' ep now status seq nonce out last' ≡ record {
            n = 0;
            verdict = drop_named_budget;
            out = out;
            state = st';
            last_auth = last';
          }
      unfolding named
      named-budget b = rw b

      named-sent :
          is_budgeted st'.last_named now ≡ false
          → named h st' ep now status seq nonce out last' ≡ record {
            n = reply_len;
            verdict = named_verdict status;
            out = reply_into h out ep.key status seq nonce now;
            state = record st' { last_named = now };
            last_auth = last';
          }
      unfolding named
      named-sent b = rw b

    named-Ended :
        (status last' : ℕ)
        → Reason status last'
        → (st' : SourceState) → Evolved hash now st st'
        → Ended (named h st' ep now status seq nonce out last')
    named-Ended status last' why st' v =
        let before = λ (b : Bool) (e : is_budgeted st'.last_named now ≡ b).
          subst (λ l. is_budgeted l now ≡ b) v.same_named e in
        elim (Bool-cases (is_budgeted st'.last_named now)) [
          | inl b ↦
              subst Ended (sym (named-budget st' status last' b))
                (was_budget status last' why (before true b) st' v)
          | inr b ↦
              subst Ended (sym (named-sent st' status last' b))
                (was_named status last' why (before false b) st' v)
        ]

    spend-Ended :
        ep.retired ≡ false
        → is_stale start now sent ≡ false
        → (Spent st nonce now → ⊥)
        → (c : NonceCache) → IsCache (hash (seed_of fresh st)) c
        → Inserted (cache_of st) nonce (expiry sent) now c true
        → Ended (spend h (with_cache fresh st c) ep now seq nonce out now)
    unfolding spend
    spend-Ended r s u c w i =
        let (granted, rate) = allow st.rate now in
        let st' : SourceState = record (with_cache fresh st c) { rate = rate } in
        let v =
          Evolved-with_cache now st c rate w
            (Inserted-keeps (cache_of st) nonce (expiry sent) now c true i u) in
        elim (Bool-cases granted) [
          | inl g ↦ subst Ended (spend-ok g) (
              was_ok r s u st' v
                (Inserted-Holds (cache_of st) nonce (expiry sent) now c true i refl))
          | inr g ↦
              subst Ended (spend-limited g)
                (named-Ended status_rate_limited now (because_limited r s u) st' v)
        ]
      where
        st' : SourceState
        st' = record (with_cache fresh st c) { rate = (allow st.rate now).1 }

        spend-ok :
            (allow st.rate now).0 ≡ true
            → record {
              n = reply_len;
              verdict = reply_ok;
              out = reply_into h out ep.key status_ok seq nonce now;
              state = st';
              last_auth = now;
            }
              ≡ spend h (with_cache fresh st c) ep now seq nonce out now
        spend-ok g = rw g

        spend-limited :
            (allow st.rate now).0 ≡ false
            → named h st' ep now status_rate_limited seq nonce out now
              ≡ spend h (with_cache fresh st c) ep now seq nonce out now
        spend-limited g = rw g

    Evolved-same : IsState hash st → Evolved hash now st st
    Evolved-same v = record { valid = v; keeps = λ m e _ k. k; same_named = refl }

    pub judge-Ended :
        IsState hash st
        → IsNonneg now
        → (o : Outcome) × (judge h hash fresh start st ep now sent seq nonce out last ≡ some o)
          × Ended o
    judge-Ended v hn =
        let (o, run, j) = judge-Judged h hash fresh start st ep now sent seq nonce out last v hn in
        (o, run, by_end o j)
      where
        by_end :
            (o : Outcome) → Judged h hash fresh start st ep now sent seq nonce out last o → Ended o
        by_end _ (retired_epoch r) =
            named-Ended status_unknown_epoch last (because_retired r) st (Evolved-same v)
        by_end _ (stale r s) = named-Ended status_stale last (because_stale r s) st (Evolved-same v)
        by_end _ (replayed r s u) = was_replay u (with_cache fresh st (cache_of st)) (
            Evolved-with_cache now st (cache_of st) st.rate (IsCache-cache_of h hash fresh st v)
              (λ m e _ k. k))
        by_end _ (cache_full r s u c w i) =
            named-Ended status_rate_limited now (because_limited r s u) (with_cache fresh st c) (
              Evolved-with_cache now st c st.rate w
                (Inserted-keeps (cache_of st) nonce (expiry sent) now c false i u))
        by_end _ (admitted r s u c w i) = spend-Ended r s u c w i
