-- ===== src/Beacon/Responder/Replies.antt =====
-- beacon/responder.go, `Responder.Handle`: what is sent, to whom, and when nothing is.
use lattice_sdk.Common.{
  ℕ, ◌-◌, ◌≤◌, ◌≡◌, ◌⊎◌, refl, sym, ap, ◌∙◌, inl, inr, true, false, some, List, length,
  length-append, length-drop, take, drop, All, ok, arith,
}
use lattice_sdk.Common.Int64.{IsNonneg}
use lattice_sdk.Common.Bytes.{IsByte, slice, uint32_at, uint64_at, take-append, drop-append}
use lattice_sdk.Common.Slices.{length-slice, uint32_at-lt}
use lattice_sdk.Beacon.Wire.{Hmac, Key, Status, Reply, write_reply, parse_reply}
use lattice_sdk.Beacon.Wire.ReplyTrip.{IsReply, parse_reply_inv, parse-write_reply}
use lattice_sdk.Beacon.Table.{TableEpoch, TableSource}
use lattice_sdk.Beacon.Responder.{
  Verdict, code, reply_ok, reply_stale, reply_unknown_epoch, reply_rate_limited, replied, Responder,
  Outcome, Answer, reply_into, handle,
}
use lattice_sdk.Beacon.Responder.Ended.{
  because_retired, because_stale, because_limited, Ended, was_replay, was_budget, was_named, was_ok,
}
use lattice_sdk.Beacon.Responder.Handled.{
  IsResponder, Authentic, Handled, unauthentic, authentic, handle_cases, updated,
}

-- The status that a replying verdict sends.
abbrev pub status_of : Verdict → Status
status_of v = code v - code reply_ok

module _ (h : Hmac) where
  length-write_reply :
      (key : Key) (rep : Reply)
      → IsReply rep
      → length (write_reply h key rep.status rep.seq rep.nonce rep.responder) ≡ 64
  length-write_reply key rep v =
      (parse_reply_inv h key (write_reply h key rep.status rep.seq rep.nonce rep.responder) rep
        (parse-write_reply h key rep v)).0.long

module _ (h : Hmac) (hash : ℕ → List ℕ → ℕ) (fresh : ℕ) (r : Responder) (now : ℕ)
    (pkt out : List ℕ) where
  abbrev pub Silent : Answer → Type 0
  Silent (n, v, out', r') = (replied v ≡ false) × (n ≡ 0) × (out' ≡ out)

  -- A reply to the sender of the datagram.
  abbrev pub Replied : Answer → Type 0
  Replied (n, v, out', r') =
      (replied v ≡ true)
      × (n ≡ 64)
      × (length out' ≡ length out)
      × (drop 64 out' ≡ drop 64 out)
      × ((i : ℕ) × (src : TableSource) × (ep : TableEpoch) × Authentic h hash fresh r now pkt out i
            src ep
          × (parse_reply h (take 64 out') ep.key
              ≡ ok (record {
                status = status_of v;
                seq = uint32_at 13 pkt;
                nonce = slice 25 16 pkt;
                responder = now;
              })))

  module _ (bytes : All IsByte pkt) (hn : IsNonneg now) where
    -- What `writeReply` puts into `out` reads back.
    replies :
        (i : ℕ) (src : TableSource) (ep : TableEpoch)
        → Authentic h hash fresh r now pkt out i src ep
        → (v : Verdict) (status : Status) (r' : Responder) → replied v ≡ true
        → status_of v ≡ status
        → status ≤ 3
        → Replied
            (64, v, reply_into h out ep.key status (uint32_at 13 pkt) (slice 25 16 pkt) now, r')
    replies i src ep a v status r' sent same small =
        let rep : Reply = record {
          status = status;
          seq = uint32_at 13 pkt;
          nonce = slice 25 16 pkt;
          responder = now;
        } in
        let good : IsReply rep = record {
          status = small;
          seq = uint32_at-lt 13 pkt (omega (arith, a.sized)) bytes;
          nonce = length-slice 25 16 pkt (omega (arith, a.sized));
          responder = omega arith;
        } in
        let b = write_reply h ep.key status (uint32_at 13 pkt) (slice 25 16 pkt) now in
        let long : length b ≡ 64 = length-write_reply h ep.key rep good in
        let parsed = parse-write_reply h ep.key rep good in
        (
          sent,
          refl,
          omega (arith, length-append b (drop 64 out), length-drop 64 out, a.room),
          drop-append 64 b (drop 64 out) long,
          (
            i,
            src,
            ep,
            a,
            ap (λ p. parse_reply h p ep.key) (take-append 64 b (drop 64 out) long)
                ∙ parsed
                ∙ ap (λ s. ok (record rep { status = s })) (sym same),
          ),
        )

    Ended-ends :
        (i : ℕ) (src : TableSource) (ep : TableEpoch)
        → Authentic h hash fresh r now pkt out i src ep
        → (o : Outcome)
        → Ended h hash fresh r.start_ns src.state ep now
            (uint64_at 17 pkt)
            (uint32_at 13 pkt)
            (slice 25 16 pkt)
            out
            r.last_auth
            o
        → (r' : Responder)
        → Silent (o.n, o.verdict, o.out, r') ⊎ Replied (o.n, o.verdict, o.out, r')
    Ended-ends i src ep a _ (was_replay u st' v) r' = inl (refl, refl, refl)
    Ended-ends i src ep a _ (was_budget s l why b st' v) r' = inl (refl, refl, refl)
    Ended-ends i src ep a _ (was_named _ _ (because_retired _) b st' v) r' =
        inr (replies i src ep a reply_unknown_epoch 2 r' refl refl (omega arith))
    Ended-ends i src ep a _ (was_named _ _ (because_stale _ _) b st' v) r' =
        inr (replies i src ep a reply_stale 1 r' refl refl (omega arith))
    Ended-ends i src ep a _ (was_named _ _ (because_limited _ _ _) b st' v) r' =
        inr (replies i src ep a reply_rate_limited 3 r' refl refl (omega arith))
    Ended-ends i src ep a _ (was_ok _ _ u st' v k) r' =
        inr (replies i src ep a reply_ok 0 r' refl refl (omega arith))

    Handled-ends : (a : Answer) → Handled h hash fresh r now pkt out a → Silent a ⊎ Replied a
    Handled-ends _ (unauthentic v f) = inl (ground arith, refl, refl)
    Handled-ends _ (authentic i src ep a o e) =
        Ended-ends i src ep a o e (updated h hash fresh r now pkt out i src o)

    -- On a well-formed responder, with a clock that is not negative, `Handle` answers every
    -- datagram in one of two ways: it sends nothing and leaves `out` as it was, or it sends 64
    -- bytes. Then the datagram's tag verified under the key of a held source and epoch, `out` beyond
    -- the reply is unchanged, and the reply parses under that same key, with the verdict's status,
    -- the request's sequence number and nonce, and the responder's clock.
    pub handle-replies :
        IsResponder hash r
        → (a : Answer) × (handle h hash fresh r now pkt out ≡ some a) × (Silent a ⊎ Replied a)
    handle-replies w =
        let (a, run, k) = handle_cases h hash fresh r now pkt out w hn in (a, run, Handled-ends a k)
