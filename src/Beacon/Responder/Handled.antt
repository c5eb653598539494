-- ===== src/Beacon/Responder/Handled.antt =====
-- beacon/responder.go, `Responder.Handle`: every way in which it ends, drops before the tag check
-- included.
use lattice_sdk.Common.{
  ℕ, ◌≤◌, ◌≡◌, ◌⊎◌, Option, refl, ◌∙◌, inl, inr, true, false, none, some, List, length, set,
  get_elem?, ltb, ◌==◌, ==_iff, Bool-cases, Option-cases, arith,
}
use lattice_sdk.Common.Int64.{IsNonneg}
use lattice_sdk.Common.Bytes.{slice, uint32_at, uint64_at}
use lattice_sdk.Beacon.Wire.{Hmac, check_request_frame}
use lattice_sdk.Beacon.NonceCache.{◌>>=◌}
use lattice_sdk.Beacon.Table.{TableEpoch, TableSource, find}
use lattice_sdk.Beacon.Table.Find.{IsSorted, Answers, find-Answers}
use lattice_sdk.Beacon.Responder.{
  Verdict, drop_length, drop_malformed, drop_unknown_source, drop_unknown_epoch, drop_bad_tag,
  authenticated, Responder, Outcome, Answer, find_epoch, tag_verifies, judge, handle,
}
use lattice_sdk.Beacon.Responder.Judge.{IsState}
use lattice_sdk.Beacon.Responder.Ended.{Ended, judge-Ended}

-- The table is sorted, and the nonce cache of each source is well formed.
pub record IsResponder (hash : ℕ → List ℕ → ℕ) (r : Responder) : Type 0 where
  pub sorted : IsSorted r.table
  pub states : (i : ℕ) (s : TableSource) → get_elem? r.table i ≡ some s → IsState hash s.state

module _ (h : Hmac) (hash : ℕ → List ℕ → ℕ) (fresh : ℕ) where
  module _ (r : Responder) (now : ℕ) (pkt out : List ℕ) where
    -- The source and the epoch of a datagram whose tag verifies.
    pub record Authentic (i : ℕ) (src : TableSource) (ep : TableEpoch) : Type 0 where
      pub sized : length pkt ≡ 96
      pub room : 64 ≤ length out
      pub framed : check_request_frame pkt ≡ none
      pub found : find r.table (uint32_at 9 pkt) ≡ some (some i)
      pub source : get_elem? r.table i ≡ some src
      pub epoch : find_epoch (uint32_at 5 pkt) src.epochs ≡ some ep
      pub tagged : tag_verifies h ep.key pkt ≡ true

    -- The responder with a source's new state in its place.
    abbrev pub updated : ℕ → TableSource → Outcome → Responder
    updated i src o = record r {
      table = set r.table i (record src { state = o.state });
      last_auth = o.last_auth;
    }

    pub data Handled : Answer → Type 0 where
      unauthentic : (v : Verdict) → authenticated v ≡ false → Handled (0, v, out, r)
      authentic :
          (i : ℕ) (src : TableSource) (ep : TableEpoch)
          → Authentic i src ep
          → (o : Outcome)
          → Ended h hash fresh r.start_ns src.state ep now
              (uint64_at 17 pkt)
              (uint32_at 13 pkt)
              (slice 25 16 pkt)
              out
              r.last_auth
              o
          → Handled (o.n, o.verdict, o.out, updated i src o)

    pub handle-Authentic :
        (i : ℕ) (src : TableSource) (ep : TableEpoch)
        → Authentic i src ep
        → handle h hash fresh r now pkt out ≡ (
            judge h hash fresh r.start_ns src.state ep now
              (uint64_at 17 pkt)
              (uint32_at 13 pkt)
              (slice 25 16 pkt)
              out
              r.last_auth
            >>= λ (o : Outcome). some (o.n, o.verdict, o.out, updated i src o))
    unfolding handle
    handle-Authentic i src ep a =
        let sized : length pkt == 96 ≡ true = (==_iff (length pkt) 96).1 a.sized in
        let room : ltb (length out) 64 ≡ false = ground (arith, a.room) in
        rw (sized, room, a.framed, a.found, a.source, a.epoch, a.tagged)

    abbrev pub Reacted : Type 0
    Reacted = (a : Answer) × (handle h hash fresh r now pkt out ≡ some a) × Handled a

    dropped :
        (v : Verdict)
        → authenticated v ≡ false
        → handle h hash fresh r now pkt out ≡ some (0, v, out, r)
        → Reacted
    dropped v a e = ((0, v, out, r), e, unauthentic v a)

    found_cases :
        IsSorted r.table
        → (find r.table (uint32_at 9 pkt) ≡ some none)
          ⊎ ((i : ℕ) × (src : TableSource) × (find r.table (uint32_at 9 pkt) ≡ some (some i))
              × (get_elem? r.table i ≡ some src))
    found_cases sorted =
        by_answer (find r.table (uint32_at 9 pkt)) refl
          (find-Answers r.table (uint32_at 9 pkt) sorted)
      where
        by_answer :
            (o : Option (Option ℕ))
            → find r.table (uint32_at 9 pkt) ≡ o
            → Answers r.table (uint32_at 9 pkt) sorted o
            → (find r.table (uint32_at 9 pkt) ≡ some none)
              ⊎ ((i : ℕ) × (src : TableSource) × (find r.table (uint32_at 9 pkt) ≡ some (some i))
                  × (get_elem? r.table i ≡ some src))
        by_answer none e a = absurd a
        by_answer (some none) e a = inl e
        by_answer (some (some i)) e (src, at, _) = inr (i, src, e, at)

    -- `Handle` ends, whatever the datagram.
    pub handle_cases : IsResponder hash r → IsNonneg now → Reacted
    unfolding handle
    handle_cases w hn = elim (Bool-cases (length pkt == 96)) [
      | inr f ↦ dropped drop_length refl (rw f)
      | inl sized ↦ elim (Bool-cases (ltb (length out) 64)) [
        | inl f ↦ dropped drop_length refl (rw (sized, f))
        | inr room ↦ elim (Option-cases (check_request_frame pkt)) [
          | inr (x, f) ↦ dropped drop_malformed refl (rw (sized, room, f))
          | inl framed ↦ elim (found_cases w.sorted) [
            | inl f ↦ dropped drop_unknown_source refl (rw (sized, room, framed, f))
            | inr (i, src, found, source) ↦
                elim (Option-cases (find_epoch (uint32_at 5 pkt) src.epochs)) [
                  | inl f ↦
                      dropped drop_unknown_epoch refl (rw (sized, room, framed, found, source, f))
                  | inr (ep, epoch) ↦ elim (Bool-cases (tag_verifies h ep.key pkt)) [
                    | inr f ↦
                        dropped drop_bad_tag refl
                          (rw (sized, room, framed, found, source, epoch, f))
                    | inl tagged ↦
                        let a : Authentic i src ep = record {
                          sized = (==_iff (length pkt) 96).0 sized;
                          room = ground arith;
                          framed = framed;
                          found = found;
                          source = source;
                          epoch = epoch;
                          tagged = tagged;
                        } in
                        let (o, run, end) =
                          judge-Ended h hash fresh r.start_ns src.state ep now (uint64_at 17 pkt)
                            (uint32_at 13 pkt) (slice 25 16 pkt) out r.last_auth
                            (w.states i src source) hn in
                        (
                          (o.n, o.verdict, o.out, updated i src o),
                          handle-Authentic i src ep a ∙ rw run,
                          authentic i src ep a o end,
                        )
                  ]
                ]
          ]
        ]
      ]
    ]
