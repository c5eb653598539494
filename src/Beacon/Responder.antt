-- ===== src/Beacon/Responder.antt =====
-- beacon/responder.go, `Responder`: the decision on one datagram. `pkt` and `out` are separate
-- buffers; `Handle` copies the nonce out of `pkt` before it writes, so that a caller may pass one
-- buffer as both. The atomic pointers and the mutex are left out: a call is one step.
pub mod Judge
pub mod Ended
pub mod Handled
pub mod Replies
pub mod Evolution
pub mod Refresh
pub mod Freshness
pub mod Answered
pub mod Runs
pub mod Safety
pub mod Budget
pub mod Total
pub mod Liveness
use Prim.Native.String.{String}
use lattice_sdk.Common.{
  ℕ, ◌≡◌, Bool, true, false, ◌&&◌, ◌||◌, not, Option, none, some, List, [], ◌∷◌, ◌++◌, length, set,
  take, drop, get_elem?, ltb, leb, ◌==◌, if◌then◌else◌, Result, ok, err,
}
use lattice_sdk.Common.Int64.{add, sub, slt}
use lattice_sdk.Common.Bytes.{bytes_eq, slice, uint32_at, uint64_at}
use lattice_sdk.Beacon.Wire.{
  Key, Hmac, Status, status_ok, status_stale, status_unknown_epoch, status_rate_limited,
  request_len, reply_len, tag_len, req_domain, req_off_tag, freshness_window, named_reply_interval,
  check_request_frame, tag, write_reply,
}
use lattice_sdk.Beacon.NonceCache.{NonceCache, new_nonce_cache, seen, insert, ◌>>=◌}
use lattice_sdk.Beacon.Rate.{RateState, allow}
use lattice_sdk.Beacon.Table.{
  TableEntry, TableEpoch, SourceState, TableSource, TableError, find, set_table,
}

-- What `Handle` did with one datagram.
pub data Verdict : Type 0 where
  drop_length drop_malformed drop_unknown_source drop_unknown_epoch drop_bad_tag : Verdict
  drop_replay drop_named_budget reply_ok reply_stale reply_unknown_epoch : Verdict
  reply_rate_limited : Verdict

-- The verdict's number.
abbrev pub code : Verdict → ℕ
code drop_length = 1
code drop_malformed = 2
code drop_unknown_source = 3
code drop_unknown_epoch = 4
code drop_bad_tag = 5
code drop_replay = 6
code drop_named_budget = 7
code reply_ok = 8
code reply_stale = 9
code reply_unknown_epoch = 10
code reply_rate_limited = 11

abbrev pub replied : Verdict → Bool
replied v = leb (code reply_ok) (code v)

abbrev pub authenticated : Verdict → Bool
authenticated v = leb (code drop_replay) (code v)

-- `Verdict.String`, on the number.
unfoldable pub verdict_string : ℕ → String
verdict_string v =
    if v == 1
    then "drop_length"
    else if v == 2
    then "drop_malformed"
    else if v == 3
    then "drop_unknown_source"
    else if v == 4
    then "drop_unknown_epoch"
    else if v == 5
    then "drop_bad_tag"
    else if v == 6
    then "drop_replay"
    else if v == 7
    then "drop_named_budget"
    else if v == 8
    then "reply_ok"
    else if v == 9
    then "reply_stale"
    else if v == 10
    then "reply_unknown_epoch"
    else if v == 11
    then "reply_rate_limited"
    else "invalid"

pub record Responder : Type 0 where
  pub start_ns : ℕ
  pub table : List TableSource
  pub last_auth : ℕ

abbrev pub new_responder : ℕ → Responder
new_responder start = record { start_ns = start; table = []; last_auth = 0 }

-- `Responder.SetTable`.
unfoldable pub replace_table : Responder → List TableEntry → Result TableError Responder
replace_table r entries = elim (set_table r.table entries) [
  | ok t ↦ ok (record r { table = t })
  | err e ↦ err e
]

-- `LastAuthenticated`: `none` is the zero time.
unfoldable pub last_authenticated : Responder → Option ℕ
last_authenticated r = if r.last_auth == 0 then none else some r.last_auth

-- What one datagram leaves for its source: the reply's length, the verdict, the `out` buffer, the
-- source's state and the responder's `lastAuth`.
pub record Outcome : Type 0 where
  pub n : ℕ
  pub verdict : Verdict
  pub out : List ℕ
  pub state : SourceState
  pub last_auth : ℕ

-- The loop over `src.epochs`.
unfoldable pub find_epoch : ℕ → List TableEpoch → Option TableEpoch
find_epoch epoch [] = none
find_epoch epoch (e ∷ es) = if e.epoch == epoch then some e else find_epoch epoch es

-- A request whose stamp is before the start, or too far from now in either direction.
unfoldable pub is_stale : ℕ → ℕ → ℕ → Bool
is_stale start now sent =
    slt sent start || slt freshness_window (sub now sent) || slt freshness_window (sub sent now)

-- The verdict of `named` for a status that it sent.
abbrev pub named_verdict : Status → Verdict
named_verdict status =
    if status == status_stale
    then reply_stale
    else if status == status_unknown_epoch
    then reply_unknown_epoch
    else reply_rate_limited

-- `if st.nonces == nil { st.nonces = NewNonceCache() }`, with `fresh` for the seed of a new one.
abbrev pub cache_of : SourceState → NonceCache
cache_of st = elim st.nonces [ none ↦ new_nonce_cache | some c ↦ c ]

abbrev pub seed_of : ℕ → SourceState → ℕ
seed_of fresh st = elim st.nonces [ none ↦ fresh | some c ↦ st.seed ]

abbrev pub with_cache : ℕ → SourceState → NonceCache → SourceState
with_cache fresh st c = record st { nonces = some c; seed = seed_of fresh st }

-- The reply's length, the verdict, the `out` buffer and the responder after a call of `Handle`.
abbrev pub Answer : Type 0
Answer = ℕ × Verdict × List ℕ × Responder

module _ (h : Hmac) where
  -- `writeReply` into `out[:ReplyLen]`.
  abbrev pub reply_into : List ℕ → Key → Status → ℕ → List ℕ → ℕ → List ℕ
  reply_into out key status seq nonce now =
      write_reply h key status seq nonce now ++ drop reply_len out

  -- `named`; it does not touch `lastAuth`.
  unfoldable pub named : SourceState → TableEpoch → ℕ → Status → ℕ → List ℕ → List ℕ → ℕ → Outcome
  named st ep now status seq nonce out last =
      if not (st.last_named == 0)
        && slt (sub now st.last_named) named_reply_interval
        && not (slt now st.last_named)
      then record { n = 0; verdict = drop_named_budget; out = out; state = st; last_auth = last }
      else record {
        n = reply_len;
        verdict = named_verdict status;
        out = reply_into out ep.key status seq nonce now;
        state = record st { last_named = now };
        last_auth = last;
      }

  -- The end of `Handle`, for a nonce that was inserted: the source's rate.
  unfoldable pub spend : SourceState → TableEpoch → ℕ → ℕ → List ℕ → List ℕ → ℕ → Outcome
  spend st ep now seq nonce out last =
      let (granted, rate) = allow st.rate now in
      let st' : SourceState = record st { rate = rate } in
      if not granted then named st' ep now status_rate_limited seq nonce out last else record {
        n = reply_len;
        verdict = reply_ok;
        out = reply_into out ep.key status_ok seq nonce now;
        state = st';
        last_auth = last;
      }

  -- The tag check of `Handle`.
  unfoldable pub tag_verifies : Key → List ℕ → Bool
  tag_verifies key pkt =
      bytes_eq (take tag_len (tag h key req_domain (take req_off_tag pkt)))
        (slice req_off_tag tag_len pkt)

-- `none` of a function below says that a loop of the nonce cache or of `find` did not end. `hash` is
-- `maphash.Bytes` by seed, and `fresh` the seed that `maphash.MakeSeed` gives a new cache.
module _ (h : Hmac) (hash : ℕ → List ℕ → ℕ) (fresh : ℕ) where
  -- `Handle` on a fresh request under a live epoch: replay, nonce cache room and rate.
  unfoldable pub admit : SourceState → TableEpoch → ℕ → ℕ → ℕ → List ℕ → List ℕ → ℕ → Option Outcome
  admit st ep now sent seq nonce out last =
      let c = cache_of st in
      let key = hash (seed_of fresh st) in
      let replay : Outcome = record {
        n = 0;
        verdict = drop_replay;
        out = out;
        state = with_cache fresh st c;
        last_auth = last;
      } in
      seen key c nonce now >>= λ (was : Bool).
      if was
      then some replay
      else (insert key c nonce (add (add sent freshness_window) 1) now >>= λ (b, c'). some (
          if not b
          then named h (with_cache fresh st c') ep now status_rate_limited seq nonce out now
          else spend h (with_cache fresh st c') ep now seq nonce out now))

  -- `Handle` on a datagram whose tag verified.
  unfoldable pub judge :
      ℕ → SourceState → TableEpoch → ℕ → ℕ → ℕ → List ℕ → List ℕ → ℕ → Option Outcome
  judge start st ep now sent seq nonce out last =
      if ep.retired
      then some (named h st ep now status_unknown_epoch seq nonce out last)
      else if is_stale start now sent
      then some (named h st ep now status_stale seq nonce out last)
      else admit st ep now sent seq nonce out last

  -- `Handle` at `now`.
  unfoldable pub handle : Responder → ℕ → List ℕ → List ℕ → Option Answer
  handle r now pkt out =
      let dropped : Verdict → Option Answer = λ v. some (0, v, out, r) in
      if not (length pkt == request_len)
      then dropped drop_length
      else if ltb (length out) reply_len
      then dropped drop_length
      else elim (check_request_frame pkt) [
        | some e ↦ dropped drop_malformed
        | none ↦ elim (find r.table (uint32_at 9 pkt)) [
          | none ↦ none
          | some none ↦ dropped drop_unknown_source
          | some (some i) ↦ elim (get_elem? r.table i) [
            | none ↦ none
            | some src ↦ elim (find_epoch (uint32_at 5 pkt) src.epochs) [
              | none ↦ dropped drop_unknown_epoch
              | some ep ↦
                  if not (tag_verifies h ep.key pkt)
                  then dropped drop_bad_tag
                  else (judge r.start_ns src.state ep now (uint64_at 17 pkt) (uint32_at 13 pkt)
                        (slice 25 16 pkt) out r.last_auth
                      >>= λ (o : Outcome). some (
                        o.n,
                        o.verdict,
                        o.out,
                        record r {
                          table = set r.table i (record src { state = o.state });
                          last_auth = o.last_auth;
                        },
                      ))
            ]
          ]
        ]
      ]
