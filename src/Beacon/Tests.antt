-- ===== src/Beacon/Tests.antt =====
-- The beacon's functions at concrete inputs, and each theorem of theirs applied to one.
pub mod Responding
mod Parts
use lattice_sdk.Common.{
  ℕ, zero, suc, ◌+◌, ◌*◌, ◌%◌, ◌≡◌, refl, List, [], ◌∷◌, ◌++◌, length, replicate, set, take, drop,
  none, some, Bool, true, false, ltb, All, ◌&&◌, arith,
}
use lattice_sdk.Common.Bytes.{zeros, be32, be64, byte_at, IsByte}
use lattice_sdk.Beacon.Wire.{Hmac, Key, Request, magic, req_domain}
use lattice_sdk.Beacon.NonceCache.{NonceCache, NonceSlot, empty_slot}
use lattice_sdk.Beacon.Table.{TableEntry, TableSource, new_source_state}
use lattice_sdk.Beacon.Responder.{Responder, Answer, Verdict, reply_ok, drop_replay}

-- A stand-in for HMAC-SHA256: it depends on the key and the message, and has 32 bytes.
abbrev pub demo_hmac : Hmac
demo_hmac = record {
  sum = λ key msg. (byte_at 0 key + length msg) % 256 ∷ byte_at 20 msg ∷ zeros 30;
  length_sum = λ key msg. refl;
}

abbrev pub demo_hash : ℕ → List ℕ → ℕ
demo_hash seed nonce = seed + byte_at 0 nonce

abbrev pub demo_key : Key
demo_key = 11 ∷ zeros 31

abbrev pub demo_nonce : List ℕ
demo_nonce = 200 ∷ replicate 15 9

abbrev pub demo_request : Request
demo_request = record {
  epoch = 3;
  source_id = 7;
  seq = 1;
  sent = 2_000_000_000;
  nonce = demo_nonce;
}

abbrev pub demo_body : List ℕ
demo_body = magic ++ 1 ∷ be32 3 ++ be32 7 ++ be32 1 ++ be64 2_000_000_000 ++ demo_nonce ++ zeros 39

abbrev pub demo_pkt : List ℕ
demo_pkt = demo_body ++ take 16 (demo_hmac.sum demo_key (req_domain ++ demo_body))

abbrev pub demo_out : List ℕ
demo_out = replicate 70 255

abbrev pub demo_entries : List TableEntry
demo_entries =
    record { source_id = 9; epoch = 1; key = zeros 32; retired = true }
    ∷ record { source_id = 7; epoch = 3; key = demo_key; retired = false }
    ∷ []

abbrev pub all_bytes : List ℕ → Bool
all_bytes [] = true
all_bytes (b ∷ bs) = ltb b 256 && all_bytes bs

pub all_bytes-IsByte : (bs : List ℕ) → all_bytes bs ≡ true → All IsByte bs
all_bytes-IsByte [] e = tt
all_bytes-IsByte (b ∷ bs) e = (ground arith, all_bytes-IsByte bs (ground arith))
