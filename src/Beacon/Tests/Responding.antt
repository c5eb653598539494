-- ===== src/Beacon/Tests/Responding.antt =====
-- The responder's theorems at a concrete request.
use lattice_sdk.Common.{
  ℕ, ◌+◌, ◌≡◌, refl, List, [], ◌∷◌, ◌++◌, replicate, set, drop, some, true, false, ok, err, ◌⊎◌,
  ◌≢◌, ◌≤◌, ◌<◌, arith,
}
use lattice_sdk.Beacon.Wire.{check_request_frame, all_zero, tag, write_reply}
use lattice_sdk.Common.Bytes.{zeros, bytes_eq}
use lattice_sdk.Common.Int64.{slt}
use lattice_sdk.Beacon.NonceCache.{
  NonceCache, empty_slot, seen, insert, compact, store, reinsert, probe, home, live_count,
  earliest_live, grow_size, keep_live,
}
use lattice_sdk.Beacon.Rate.{allow, refill}
use lattice_sdk.Beacon.Table.{
  TableError, endless, TableSource, SourceState, new_source_state, find, find_loop, set_table,
  add_entries, add_entry, add_epoch, has_epoch, carried_state, find_source, sort_sources,
  insert_source,
}
use lattice_sdk.Beacon.Responder.{
  Responder, Answer, reply_ok, reply_stale, drop_replay, handle, judge, admit, spend, named,
  is_stale, find_epoch, tag_verifies, replace_table, new_responder,
}
use lattice_sdk.Beacon.Responder.Handled.{IsResponder, Authentic}
use lattice_sdk.Beacon.Responder.Refresh.{replace_table-IsResponder, replace_table-state}
use lattice_sdk.Beacon.Responder.Freshness.{IsFresh}
use lattice_sdk.Beacon.Responder.Runs.{here, Handled-answer}
use lattice_sdk.Beacon.Responder.Evolution.{Handled-IsResponder}
use lattice_sdk.Beacon.NonceCache.Slots.{IsCache}
use lattice_sdk.Beacon.Responder.Safety.{replay-safe, answered-IsFresh}
use lattice_sdk.Beacon.Responder.Total.{IsResponder-new}
use lattice_sdk.Beacon.Responder.Replies.{Silent, Replied, handle-replies}
use lattice_sdk.Beacon.Responder.Budget.{named_spaced}
use lattice_sdk.Beacon.Responder.Liveness.{handle-answers}
use lattice_sdk.Beacon.Table.Find.{IsSorted, Answers, find-Answers}
use lattice_sdk.Beacon.Table.Groups.{lookup, grouped}
use lattice_sdk.Beacon.Table.Entries.{Acceptable}
use lattice_sdk.Beacon.Table.Sorted.{set_table-grouped}
use lattice_sdk.Beacon.Tests.{
  all_bytes-IsByte, demo_hmac, demo_hash, demo_key, demo_nonce, demo_pkt, demo_out, demo_entries,
}

abbrev demo_source : SourceState → TableSource
demo_source st = record {
  id = 7;
  epochs = record { epoch = 3; retired = false; key = demo_key } ∷ [];
  state = st;
}

abbrev other_source : TableSource
other_source = record {
  id = 9;
  epochs = record { epoch = 1; retired = true; key = zeros 32 } ∷ [];
  state = new_source_state;
}

abbrev before : Responder
before = record {
  start_ns = 1_000_000_000;
  table = demo_source new_source_state ∷ other_source ∷ [];
  last_auth = 0;
}

refresh_example : replace_table (new_responder 1_000_000_000) demo_entries ≡ ok before
unfolding replace_table set_table add_entries add_entry add_epoch has_epoch carried_state
    find_source find find_loop sort_sources insert_source
refresh_example = refl

abbrev pub spent_cache : NonceCache
spent_cache = record {
  slots =
      set (replicate 256 empty_slot) 205 (record { nonce = demo_nonce; expires = 62_000_000_001 });
  used = 1;
  full_until = 0;
}

abbrev spent_state : SourceState
spent_state = record {
  nonces = some spent_cache;
  seed = 5;
  rate = record { credit = 950_000_000; last_ns = 3_000_000_000 };
  last_named = 0;
}

abbrev after : Responder
after = record before {
  table = demo_source spent_state ∷ other_source ∷ [];
  last_auth = 3_000_000_000;
}

abbrev answer : Answer
answer = (
  64,
  reply_ok,
  write_reply demo_hmac demo_key 0 1 demo_nonce 3_000_000_000 ++ drop 64 demo_out,
  after,
)

answer_example : handle demo_hmac demo_hash 5 before 3_000_000_000 demo_pkt demo_out ≡ some answer
unfolding handle judge admit spend is_stale find_epoch tag_verifies find find_loop
    check_request_frame all_zero tag bytes_eq slt seen insert compact store reinsert probe home
    live_count grow_size allow refill keep_live earliest_live
answer_example = refl

before-IsResponder : IsResponder demo_hash before
before-IsResponder =
    replace_table-IsResponder demo_hash (new_responder 1_000_000_000) demo_entries before
      refresh_example (IsResponder-new demo_hmac demo_hash 1_000_000_000)

after-IsResponder : IsResponder demo_hash after
after-IsResponder =
    Handled-IsResponder demo_hmac demo_hash 5 before 3_000_000_000 demo_pkt demo_out
      before-IsResponder answer
      (Handled-answer demo_hmac demo_hash before 5 3_000_000_000 demo_pkt demo_out answer
        (omega arith) before-IsResponder answer_example)

pub spent_cache-IsCache : IsCache (demo_hash 5) spent_cache
spent_cache-IsCache = after-IsResponder.states 0 (demo_source spent_state) refl spent_cache refl

abbrev replay_answer : Answer
replay_answer = (0, drop_replay, demo_out, record after { last_auth = 3_000_000_000 })

-- The same datagram a second later.
replayed_example :
    handle demo_hmac demo_hash 6 after 4_000_000_000 demo_pkt demo_out ≡ some replay_answer
unfolding handle judge admit spend is_stale find_epoch tag_verifies find find_loop
    check_request_frame all_zero tag bytes_eq slt seen insert compact store reinsert probe home
    live_count grow_size allow refill keep_live earliest_live
replayed_example = refl

replay-safe_example : drop_replay ≢ reply_ok
replay-safe_example =
    replay-safe demo_hmac demo_hash before 5 3_000_000_000 demo_pkt demo_out answer
      before-IsResponder (omega arith) answer_example (all_bytes-IsByte demo_pkt refl) (omega arith)
      refl after 3_000_000_000 here 6 4_000_000_000 demo_pkt demo_out replay_answer (omega arith)
      (omega arith) replayed_example refl refl refl

answered-IsFresh_example :
    IsFresh 1_000_000_000 3_000_000_000 2_000_000_000 × (after.last_auth ≡ 3_000_000_000)
answered-IsFresh_example =
    answered-IsFresh demo_hmac demo_hash before 5 3_000_000_000 demo_pkt demo_out answer
      before-IsResponder (omega arith) answer_example (all_bytes-IsByte demo_pkt refl) (omega arith)
      refl

refresh_kept_example : replace_table after demo_entries ≡ ok after
unfolding replace_table set_table add_entries add_entry add_epoch has_epoch carried_state
    find_source find find_loop sort_sources insert_source
refresh_kept_example = refl

handle-replies_example :
    (a : Answer) × (handle demo_hmac demo_hash 5 before 3_000_000_000 demo_pkt demo_out ≡ some a)
    × (Silent demo_hmac demo_hash 5 before 3_000_000_000 demo_pkt demo_out a
        ⊎ Replied demo_hmac demo_hash 5 before 3_000_000_000 demo_pkt demo_out a)
handle-replies_example =
    handle-replies demo_hmac demo_hash 5 before 3_000_000_000 demo_pkt demo_out
      (all_bytes-IsByte demo_pkt refl) (omega arith) before-IsResponder

abbrev stale_state : ℕ → SourceState
stale_state t = record new_source_state { last_named = t }

abbrev stale_after : ℕ → Responder
stale_after t = record before { table = demo_source (stale_state t) ∷ other_source ∷ [] }

abbrev stale_answer : ℕ → Answer
stale_answer t = (
  64,
  reply_stale,
  write_reply demo_hmac demo_key 1 1 demo_nonce t ++ drop 64 demo_out,
  stale_after t,
)

stale_example :
    handle demo_hmac demo_hash 5 before 70_000_000_000 demo_pkt demo_out
    ≡ some (stale_answer 70_000_000_000)
unfolding handle judge admit spend named is_stale find_epoch tag_verifies find find_loop
    check_request_frame all_zero tag bytes_eq slt seen insert compact store reinsert probe home
    live_count grow_size allow refill keep_live earliest_live
stale_example = refl

stale_again_example :
    handle demo_hmac demo_hash 5 (stale_after 70_000_000_000) 71_500_000_000 demo_pkt demo_out
    ≡ some (stale_answer 71_500_000_000)
unfolding handle judge admit spend named is_stale find_epoch tag_verifies find find_loop
    check_request_frame all_zero tag bytes_eq slt seen insert compact store reinsert probe home
    live_count grow_size allow refill keep_live earliest_live
stale_again_example = refl

named_spaced_example : 70_000_000_000 + 1_000_000_000 ≤ 71_500_000_000
named_spaced_example =
    named_spaced demo_hmac demo_hash before 5 70_000_000_000 demo_pkt demo_out
      (stale_answer 70_000_000_000) before-IsResponder (omega arith) (omega arith) stale_example
      refl (stale_after 70_000_000_000) 70_000_000_000 here 5 71_500_000_000 demo_pkt demo_out
      (stale_answer 71_500_000_000) (omega arith) (omega arith) stale_again_example refl refl

demo-Authentic :
    Authentic demo_hmac demo_hash 5 before 3_000_000_000 demo_pkt demo_out 0
      (demo_source new_source_state)
      (record { epoch = 3; retired = false; key = demo_key })
unfolding find_epoch tag_verifies find find_loop check_request_frame all_zero tag bytes_eq
demo-Authentic = record {
  sized = refl;
  room = omega arith;
  framed = refl;
  found = refl;
  source = refl;
  epoch = refl;
  tagged = refl;
}

demo-fresh : is_stale 1_000_000_000 3_000_000_000 2_000_000_000 ≡ false
unfolding is_stale slt
demo-fresh = refl

demo-room : live_count 3_000_000_000 [] < 2400
unfolding live_count
demo-room = omega arith

demo-granted : (allow new_source_state.rate 3_000_000_000).0 ≡ true
unfolding allow refill slt
demo-granted = refl

handle-answers_example :
    (b : Answer) × (handle demo_hmac demo_hash 5 before 3_000_000_000 demo_pkt demo_out ≡ some b)
    × (b.1 ≡ reply_ok)
handle-answers_example =
    handle-answers demo_hmac demo_hash 5 before 3_000_000_000 demo_pkt demo_out 0
      (demo_source new_source_state) (record { epoch = 3; retired = false; key = demo_key })
      demo-Authentic refl demo-fresh (λ (e, k, _). absurd (omega (arith, k.within))) demo-room
      demo-granted before-IsResponder (omega arith)

replace_table-state_example :
    (s' : TableSource) × (lookup 7 after.table ≡ some s') × (s'.state ≡ spent_state)
replace_table-state_example =
    replace_table-state demo_hash after demo_entries after refresh_kept_example 7
      (demo_source spent_state) (omega arith, (omega arith, tt)) (λ e. cc) refl

set_table-grouped_example :
    ((t : List TableSource) × (set_table after.table demo_entries ≡ ok t)
      × IsSorted t
      × ((id : ℕ) → find_source t id ≡ some (grouped after.table demo_entries id))
      × Acceptable demo_entries)
    ⊎ ((x : TableError) × (set_table after.table demo_entries ≡ err x)
        × (x ≢ endless)
        × (Acceptable demo_entries → ⊥))
set_table-grouped_example =
    set_table-grouped after.table demo_entries (omega arith, (omega arith, tt))

find-Answers_example : Answers before.table 9 (omega arith, (omega arith, tt)) (find before.table 9)
find-Answers_example = find-Answers before.table 9 (omega arith, (omega arith, tt))
