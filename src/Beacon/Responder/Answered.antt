-- ===== src/Beacon/Responder/Answered.antt =====
-- beacon/responder.go, `Responder.Handle`: what a verdict says of the datagram and of the source.
use lattice_sdk.Common.{
  ℕ, ◌≡◌, refl, ap, subst, Bool, true, false, some, List, length, set, leb, arith,
}
use lattice_sdk.Common.Bytes.{slice, uint32_at, uint64_at}
use lattice_sdk.Beacon.Wire.{Hmac}
use lattice_sdk.Beacon.NonceCache.Slots.{Holds}
use lattice_sdk.Beacon.NonceCache.Insert.{held_until}
use lattice_sdk.Beacon.Table.{TableEpoch, TableSource}
use lattice_sdk.Beacon.Table.Groups.{lookup}
use lattice_sdk.Beacon.Table.Update.{lookup_inv, find_inv, lookup-set_same}
use lattice_sdk.Beacon.Responder.{
  Verdict, code, reply_ok, authenticated, Outcome, Answer, Responder, cache_of, is_stale,
}
use lattice_sdk.Beacon.Responder.Judge.{expiry, Spent}
use lattice_sdk.Beacon.Responder.Ended.{
  because_retired, because_stale, because_limited, is_budgeted, Ended, was_replay, was_budget,
  was_named, was_ok,
}
use lattice_sdk.Beacon.Responder.Handled.{
  IsResponder, Authentic, Handled, unauthentic, authentic, updated,
}

-- A reply with a status that is not ok.
abbrev pub is_named : Verdict → Bool
is_named v = leb 9 (code v)

module _ (h : Hmac) (hash : ℕ → List ℕ → ℕ) (fresh : ℕ) (r : Responder) (now : ℕ) (pkt out : List ℕ)
    (w : IsResponder hash r) where
  -- The datagram of a source was answered ok, and its nonce is now held.
  pub record Answered (a : Answer) : Type 0 where
    pub sized : length pkt ≡ 96
    pub src : TableSource
    pub listed : lookup (uint32_at 9 pkt) r.table ≡ some src
    pub in_time : is_stale r.start_ns now (uint64_at 17 pkt) ≡ false
    pub unspent : Spent src.state (slice 25 16 pkt) now → ⊥
    pub src' : TableSource
    pub stays : lookup (uint32_at 9 pkt) a.3.table ≡ some src'
    pub holds :
        Holds (cache_of src'.state).slots (slice 25 16 pkt) (held_until (expiry (uint64_at 17 pkt)))
    pub noted : a.3.last_auth ≡ now

  -- The datagram of a source had a named reply.
  pub record Named (a : Answer) : Type 0 where
    pub src : TableSource
    pub listed : lookup (uint32_at 9 pkt) r.table ≡ some src
    pub in_budget : is_budgeted src.state.last_named now ≡ false
    pub src' : TableSource
    pub stays : lookup (uint32_at 9 pkt) a.3.table ≡ some src'
    pub marked : src'.state.last_named ≡ now

  module _ (i : ℕ) (src : TableSource) (ep : TableEpoch)
      (a : Authentic h hash fresh r now pkt out i src ep) where
    listed_source : lookup (uint32_at 9 pkt) r.table ≡ some src
    listed_source = find_inv r.table (uint32_at 9 pkt) i src w.sorted a.found a.source

    source_stays :
        (o : Outcome)
        → lookup (uint32_at 9 pkt) (updated h hash fresh r now pkt out i src o).table
          ≡ some (record src { state = o.state })
    source_stays o =
        let src' : TableSource = record src { state = o.state } in
        subst (λ d. lookup d (set r.table i src') ≡ some src')
          (lookup_inv r.table (uint32_at 9 pkt) src listed_source).0
          (lookup-set_same src src' refl 0 r.table i a.source w.sorted)

    Ended-Answered :
        (o : Outcome)
        → Ended h hash fresh r.start_ns src.state ep now
            (uint64_at 17 pkt)
            (uint32_at 13 pkt)
            (slice 25 16 pkt)
            out
            r.last_auth
            o
        → o.verdict ≡ reply_ok
        → Answered (o.n, o.verdict, o.out, updated h hash fresh r now pkt out i src o)
    Ended-Answered _ (was_replay u st' v) e = cc
    Ended-Answered _ (was_budget s l why b st' v) e = cc
    Ended-Answered _ (was_named _ _ (because_retired _) b st' v) e = cc
    Ended-Answered _ (was_named _ _ (because_stale _ _) b st' v) e = cc
    Ended-Answered _ (was_named _ _ (because_limited _ _ _) b st' v) e = cc
    Ended-Answered o (was_ok live in_time u st' v k) e = record {
      sized = a.sized;
      src = src;
      listed = listed_source;
      in_time = in_time;
      unspent = u;
      src' = record src { state = st' };
      stays = source_stays o;
      holds = k;
      noted = refl;
    }

    Ended-Named :
        (o : Outcome)
        → Ended h hash fresh r.start_ns src.state ep now
            (uint64_at 17 pkt)
            (uint32_at 13 pkt)
            (slice 25 16 pkt)
            out
            r.last_auth
            o
        → is_named o.verdict ≡ true
        → Named (o.n, o.verdict, o.out, updated h hash fresh r now pkt out i src o)
    Ended-Named _ (was_replay u st' v) e = cc
    Ended-Named _ (was_budget s l why b st' v) e = cc
    Ended-Named o (was_named s l why b st' v) e = record {
      src = src;
      listed = listed_source;
      in_budget = b;
      src' = record src { state = o.state };
      stays = source_stays o;
      marked = refl;
    }
    Ended-Named _ (was_ok live in_time u st' v k) e = cc

  pub Handled-Answered :
      (a : Answer) → Handled h hash fresh r now pkt out a → a.1 ≡ reply_ok → Answered a
  Handled-Answered _ (unauthentic v f) e =
      let bad : authenticated v ≡ true = ap authenticated e in cc
  Handled-Answered _ (authentic i src ep a o end) e = Ended-Answered i src ep a o end e

  pub Handled-Named :
      (a : Answer) → Handled h hash fresh r now pkt out a → is_named a.1 ≡ true → Named a
  Handled-Named _ (unauthentic v f) e = ground arith
  Handled-Named _ (authentic i src ep a o end) e = Ended-Named i src ep a o end e
