-- ===== src/Beacon/Tests/Parts.antt =====
-- The theorems of the wire format, the nonce cache and the rate at concrete inputs.
use lattice_sdk.Common.{
  ℕ, ◌+◌, ◌-◌, ◌*◌, ◌≡◌, refl, Option, none, if◌then◌else◌, List, [], ◌∷◌, ◌++◌, take, drop, some,
  true, false, ok, ◌≤◌, ◌<◌, ◌⊎◌, ◌↔◌, Bool, arith,
}
use lattice_sdk.Common.Bytes.{bytes_eq, zeros, be32, be64}
use lattice_sdk.Common.Int64.{slt}
use lattice_sdk.Beacon.Wire.{
  Reply, check_request_frame, all_zero, tag, parse_request, verify_request, encode_request,
  parse_reply, write_reply, encode_reply,
}
use lattice_sdk.Beacon.Wire.RoundTrip.{parse-encode_request}
use lattice_sdk.Beacon.Wire.ReplyTrip.{parse-encode_reply}
use lattice_sdk.Beacon.Wire.Canonical.{write-parse_reply, encode-parse_request}
use lattice_sdk.Common.Decimals.{
  format_uint, format_from, parse_int, parse_uint, all_decimal, decimal_value,
}
use lattice_sdk.Common.Runes.{trim_left, trim_right, trim_space}
use lattice_sdk.Beacon.Address.{
  Addr, parse_endpoint, has_colon, endpoint_parts, cut_colon, parse_ipv4, check_ipv4, check_port,
  address_refused,
}
use lattice_sdk.Beacon.Address.Endpoints.{IsLiteral, parse_endpoint_iff}
use lattice_sdk.Beacon.PathKey.{derivation_input-injective}
use lattice_sdk.Beacon.NonceCache.{NonceCache, seen, insert, compact, live_count, earliest_live}
use lattice_sdk.Beacon.NonceCache.Slots.{Holds, IsCache}
use lattice_sdk.Beacon.NonceCache.Seen.{seen-Holds}
use lattice_sdk.Beacon.NonceCache.Insert.{Inserted, insert-Inserted}
use lattice_sdk.Beacon.NonceCache.Compact.{Compacted, compact_cases}
use lattice_sdk.Beacon.Rate.{RateState, cost_ns, allow_all}
use lattice_sdk.Beacon.Rate.Bounds.{allow_all_bound}
use lattice_sdk.Beacon.Tests.{
  demo_hmac, demo_hash, demo_key, demo_nonce, demo_request, demo_pkt, demo_out, all_bytes-IsByte,
}
use lattice_sdk.Beacon.Tests.Responding.{spent_cache, spent_cache-IsCache}

parse-encode_request_example :
    (out : List ℕ) × (encode_request demo_hmac (zeros 100) demo_key demo_request ≡ ok (96, out))
    × (parse_request (take 96 out) ≡ ok demo_request)
    × (verify_request demo_hmac (take 96 out) demo_key ≡ true)
    × (drop 96 out ≡ drop 96 (zeros 100))
parse-encode_request_example =
    parse-encode_request demo_hmac demo_key (zeros 100) demo_request
      (record {
        epoch = omega arith;
        source_id = omega arith;
        seq = omega arith;
        sent = omega arith;
        nonce = refl;
      })
      (omega arith) (omega arith) (omega arith)

abbrev demo_reply : Reply
demo_reply = record { status = 2; seq = 5; nonce = demo_nonce; responder = 4_000_000_000 }

parse-encode_reply_example :
    (out : List ℕ) × (encode_reply demo_hmac demo_out demo_key demo_reply ≡ ok (64, out))
    × (parse_reply demo_hmac (take 64 out) demo_key ≡ ok demo_reply)
    × (drop 64 out ≡ drop 64 demo_out)
parse-encode_reply_example =
    parse-encode_reply demo_hmac demo_key demo_reply
      (record { status = omega arith; seq = omega arith; nonce = refl; responder = omega arith })
      demo_out (omega arith)

abbrev demo_reply_pkt : List ℕ
demo_reply_pkt =
    b'L' ∷ b'T' ∷ b'B' ∷ b'1' ∷ 1 ∷ 2 ∷ be32 5
    ++ demo_nonce
    ++ be64 4_000_000_000
    ++ zeros 14
    ++ 62 ∷ 9 ∷ zeros 14

demo_reply_parses : parse_reply demo_hmac demo_reply_pkt demo_key ≡ ok demo_reply
unfolding parse_reply bytes_eq all_zero tag
demo_reply_parses = refl

write-parse_reply_example :
    write_reply demo_hmac demo_key 2 5 demo_nonce 4_000_000_000 ≡ demo_reply_pkt
write-parse_reply_example =
    write-parse_reply demo_hmac demo_key demo_reply_pkt demo_reply
      (all_bytes-IsByte demo_reply_pkt refl) demo_reply_parses

demo_request_parses : parse_request demo_pkt ≡ ok demo_request
unfolding parse_request check_request_frame bytes_eq all_zero
demo_request_parses = refl

demo_request_verifies : verify_request demo_hmac demo_pkt demo_key ≡ true
unfolding verify_request check_request_frame bytes_eq all_zero tag
demo_request_verifies = refl

encode-parse_request_example :
    encode_request demo_hmac (zeros 100) demo_key demo_request
    ≡ ok (96, demo_pkt ++ drop 96 (zeros 100))
encode-parse_request_example =
    encode-parse_request demo_hmac demo_key (zeros 100) demo_pkt demo_request
      (all_bytes-IsByte demo_pkt refl) demo_request_parses demo_request_verifies (omega arith)
      (omega arith) (omega arith)

abbrev demo_label : List ℕ
demo_label = b'v' ∷ b'1' ∷ []

abbrev demo_id : ℕ
demo_id = demo_request.source_id

abbrev demo_epoch : ℕ
demo_epoch = demo_request.epoch

derivation_input-injective_example :
    (demo_label ≡ take 2 demo_label) × (demo_id ≡ 3 + 4) × (demo_epoch ≡ 1 + 2)
derivation_input-injective_example =
    derivation_input-injective demo_label (take 2 demo_label) demo_id (3 + 4) demo_epoch (1 + 2)
      (omega arith) (omega arith) (omega arith) (omega arith) (omega arith) (omega arith) refl

seen-Holds_example :
    (b : Bool) × (seen (demo_hash 5) spent_cache demo_nonce 9_000_000_000 ≡ some b)
    × ((b ≡ true) ↔ ((e : ℕ) × Holds spent_cache.slots demo_nonce e × (slt 9_000_000_000 e ≡ true)))
seen-Holds_example =
    seen-Holds (demo_hash 5) spent_cache demo_nonce 9_000_000_000 spent_cache-IsCache

insert-Inserted_example :
    (b : Bool) × (c' : NonceCache) × (insert
        (demo_hash 5)
        spent_cache
        (zeros 16)
        65_000_000_000
        9_000_000_000
      ≡ some (b, c'))
    × IsCache (demo_hash 5) c'
    × Inserted spent_cache (zeros 16) 65_000_000_000 9_000_000_000 c' b
insert-Inserted_example =
    insert-Inserted (demo_hash 5) spent_cache (zeros 16) 65_000_000_000 9_000_000_000
      spent_cache-IsCache (omega arith)

compact_cases_example :
    ((2400 ≤ live_count 9_000_000_000 spent_cache.slots)
      × (compact (demo_hash 5) spent_cache 9_000_000_000
          ≡ some (
            false,
            record spent_cache { full_until = earliest_live 9_000_000_000 spent_cache.slots 0 },
          )))
    ⊎ ((live_count 9_000_000_000 spent_cache.slots < 2400)
        × (c' : NonceCache) × (compact (demo_hash 5) spent_cache 9_000_000_000 ≡ some (true, c'))
        × Compacted (demo_hash 5) spent_cache 9_000_000_000 c')
compact_cases_example =
    compact_cases (demo_hash 5) spent_cache 9_000_000_000 spent_cache-IsCache (omega arith)

abbrev demo_rate : RateState
demo_rate = record { credit = 60_000_000; last_ns = 1_000_000_000 }

abbrev demo_clocks : List ℕ
demo_clocks = 1_000_000_001 ∷ 1_000_000_002 ∷ 1_050_000_000 ∷ []

allow_all_bound_example :
    (allow_all demo_rate demo_clocks).0 * cost_ns + (allow_all demo_rate demo_clocks).1.credit
    ≤ 60_000_000 + (1_050_000_000 - 1_000_000_000)
allow_all_bound_example =
    allow_all_bound demo_rate demo_clocks (record { credit = omega arith; last_ns = omega arith })
      (omega arith)
      (
        omega arith,
        (omega arith, omega arith),
        (omega arith, (omega arith, omega arith), (omega arith, (omega arith, omega arith), tt)),
      )

-- 1.2.3.4, and a stand-in for `netip.ParseAddr` that knows no other address.
abbrev literal_text : List ℕ
literal_text = b'1' ∷ b'.' ∷ b'2' ∷ b'.' ∷ b'3' ∷ b'.' ∷ b'4' ∷ []

abbrev literal_addr : Addr
literal_addr = record { is4 = true; as4 = 1 ∷ 2 ∷ 3 ∷ 4 ∷ []; zone = []; text = literal_text }

abbrev one_address : List ℕ → Option Addr
one_address s = if bytes_eq s literal_text then some literal_addr else none

abbrev endpoint_text : List ℕ
endpoint_text = b' ' ∷ (literal_text ++ b':' ∷ b'8' ∷ b'0' ∷ [])

parse_endpoint_iff_example : (parse_endpoint one_address endpoint_text ≡ ok (literal_addr, 80)) ↔ (
    (host : List ℕ) × (trim_space endpoint_text ≡ host ++ b':' ∷ format_uint 80)
    × (0 < 80)
    × (80 ≤ 65535)
    × (has_colon host ≡ false)
    × IsLiteral one_address host literal_addr)
parse_endpoint_iff_example = parse_endpoint_iff one_address endpoint_text literal_addr 80

endpoint_read : parse_endpoint one_address endpoint_text ≡ ok (literal_addr, 80)
unfolding parse_endpoint endpoint_parts cut_colon has_colon parse_ipv4 check_ipv4 check_port
    address_refused parse_int parse_uint all_decimal decimal_value format_from trim_left trim_right
    bytes_eq slt
endpoint_read = refl
