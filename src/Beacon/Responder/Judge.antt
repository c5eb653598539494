-- ===== src/Beacon/Responder/Judge.antt =====
-- beacon/responder.go, `Handle` on a datagram whose tag verified: every way it can end.
use lattice_sdk.Common.{
  ℕ, ◌≡◌, refl, inl, inr, Bool, true, false, not, Option, none, some, List, if◌then◌else◌,
  Bool-cases,
}
use lattice_sdk.Common.Int64.{add, slt, IsNonneg}
use lattice_sdk.Beacon.Wire.{
  Hmac, status_stale, status_unknown_epoch, status_rate_limited, freshness_window,
}
use lattice_sdk.Beacon.NonceCache.{NonceCache, new_nonce_cache}
use lattice_sdk.Beacon.NonceCache.Slots.{Holds, IsCache}
use lattice_sdk.Beacon.NonceCache.Seen.{seen-Holds}
use lattice_sdk.Beacon.NonceCache.Insert.{Inserted, IsCache-new, insert-Inserted}
use lattice_sdk.Beacon.Table.{TableEpoch, SourceState}
use lattice_sdk.Beacon.Responder.{
  drop_replay, Outcome, cache_of, seed_of, with_cache, is_stale, named, spend, admit, judge,
}

-- The expiry under which `Handle` inserts a request's nonce.
abbrev pub expiry : ℕ → ℕ
expiry sent = add (add sent freshness_window) 1

-- A source's cache is well formed for the hash of its seed.
abbrev pub IsState : (ℕ → List ℕ → ℕ) → SourceState → Type 0
IsState hash st = (c : NonceCache) → st.nonces ≡ some c → IsCache (hash st.seed) c

-- An unexpired nonce of a source.
abbrev pub Spent : SourceState → List ℕ → ℕ → Type 0
Spent st nonce now = (e : ℕ) × Holds (cache_of st).slots nonce e × (slt now e ≡ true)

module _ (h : Hmac) (hash : ℕ → List ℕ → ℕ) (fresh : ℕ) where
  pub IsCache-cache_of :
      (st : SourceState) → IsState hash st → IsCache (hash (seed_of fresh st)) (cache_of st)
  IsCache-cache_of st v = by_cache st.nonces refl
    where
      by_cache :
          (o : Option NonceCache)
          → st.nonces ≡ o
          → IsCache
              (hash (elim o [ none ↦ fresh | some c ↦ st.seed ]))
              (elim o [ none ↦ new_nonce_cache | some c ↦ c ])
      by_cache none e = IsCache-new (hash fresh)
      by_cache (some c) e = v c e

  module _ (start : ℕ) (st : SourceState) (ep : TableEpoch) (now sent seq : ℕ) (nonce out : List ℕ)
      (last : ℕ) where
    abbrev pub replay : Outcome
    replay = record {
      n = 0;
      verdict = drop_replay;
      out = out;
      state = with_cache fresh st (cache_of st);
      last_auth = last;
    }

    -- The ways in which a datagram with a good tag ends.
    pub data Judged : Outcome → Type 0 where
      retired_epoch :
          ep.retired ≡ true → Judged (named h st ep now status_unknown_epoch seq nonce out last)
      stale :
          ep.retired ≡ false
          → is_stale start now sent ≡ true
          → Judged (named h st ep now status_stale seq nonce out last)
      replayed :
          ep.retired ≡ false → is_stale start now sent ≡ false → Spent st nonce now → Judged replay
      cache_full :
          ep.retired ≡ false
          → is_stale start now sent ≡ false
          → (Spent st nonce now → ⊥)
          → (c : NonceCache) → IsCache (hash (seed_of fresh st)) c
          → Inserted (cache_of st) nonce (expiry sent) now c false
          → Judged (named h (with_cache fresh st c) ep now status_rate_limited seq nonce out now)
      admitted :
          ep.retired ≡ false
          → is_stale start now sent ≡ false
          → (Spent st nonce now → ⊥)
          → (c : NonceCache) → IsCache (hash (seed_of fresh st)) c
          → Inserted (cache_of st) nonce (expiry sent) now c true
          → Judged (spend h (with_cache fresh st c) ep now seq nonce out now)

    pub judge-Judged :
        IsState hash st
        → IsNonneg now
        → (o : Outcome) × (judge h hash fresh start st ep now sent seq nonce out last ≡ some o)
          × Judged o
    unfolding judge admit
    judge-Judged v hn = elim (Bool-cases ep.retired) [
      | inl r ↦ (named h st ep now status_unknown_epoch seq nonce out last, rw r, retired_epoch r)
      | inr r ↦ elim (Bool-cases (is_stale start now sent)) [
        | inl s ↦ (named h st ep now status_stale seq nonce out last, rw (r, s), stale r s)
        | inr s ↦
            let key = hash (seed_of fresh st) in
            let w = IsCache-cache_of st v in
            let (b, run, spent) = seen-Holds key (cache_of st) nonce now w in
            elim (Bool-cases b) [
              | inl t ↦ (replay, rw (r, s, run, t), replayed r s (spent.0 t))
              | inr f ↦
                  let unspent =
                    λ (p : Spent st nonce now). let bad : ⊥ = cc (f, spent.1 p) in bad in
                  let (b', c, run', w', i) =
                    insert-Inserted key (cache_of st) nonce (expiry sent) now w hn in
                  by_room r s unspent c w' b' i (rw (r, s, run, f, run'))
            ]
      ]
    ]
      where
        answer : NonceCache → Bool → Outcome
        answer c b =
            if not b
            then named h (with_cache fresh st c) ep now status_rate_limited seq nonce out now
            else spend h (with_cache fresh st c) ep now seq nonce out now

        by_room :
            ep.retired ≡ false
            → is_stale start now sent ≡ false
            → (Spent st nonce now → ⊥)
            → (c : NonceCache) → IsCache (hash (seed_of fresh st)) c
            → (b : Bool) → Inserted (cache_of st) nonce (expiry sent) now c b
            → judge h hash fresh start st ep now sent seq nonce out last ≡ some (answer c b)
            → (o : Outcome) × (judge h hash fresh start st ep now sent seq nonce out last ≡ some o)
              × Judged o
        by_room r s u c w true i e = (answer c true, e, admitted r s u c w i)
        by_room r s u c w false i e = (answer c false, e, cache_full r s u c w i)
