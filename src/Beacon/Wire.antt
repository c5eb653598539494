-- ===== src/Beacon/Wire.antt =====
-- beacon/beacon.go: the requests and replies of the measurement beacon, as bytes.
pub mod Layout
pub mod RoundTrip
pub mod ReplyTrip
pub mod Canonical
use Prim.Native.String.{String}
use lattice_sdk.Common.{
  ℕ, ◌+◌, ◌*◌, Bool, true, false, ◌||◌, not, Option, none, some, List, [], ◌∷◌, ◌++◌, ◌≡◌, length,
  take, drop, ltb, leb, ◌==◌, if◌then◌else◌, Result, ok, err,
}
use lattice_sdk.Common.Bytes.{
  bytes_eq, copy_at, zeros, slice, byte_at, be32, be64, uint32_at, uint64_at,
}

-- Wire constants.
abbrev pub magic : List ℕ
magic = b'L' ∷ b'T' ∷ b'B' ∷ b'1' ∷ []

abbrev pub version : ℕ
version = 1

abbrev pub request_len : ℕ
request_len = 96

abbrev pub reply_len : ℕ
reply_len = 64

abbrev pub nonce_len : ℕ
nonce_len = 16

abbrev pub tag_len : ℕ
tag_len = 16

-- Freshness, replay and rate bounds; a duration is in nanoseconds.
abbrev pub second : ℕ
second = 1_000_000_000

abbrev pub freshness_window : ℕ
freshness_window = 60 * second

abbrev pub source_rate_per_second : ℕ
source_rate_per_second = 20

abbrev pub nonce_cache_size : ℕ
nonce_cache_size = source_rate_per_second * 120

abbrev pub named_reply_interval : ℕ
named_reply_interval = second

abbrev pub max_epochs_per_source : ℕ
max_epochs_per_source = 2

-- The status byte of a reply is a uint8; only 0 to 3 are statuses.
abbrev pub Status : Type 0
Status = ℕ

abbrev pub status_ok : Status
status_ok = 0

abbrev pub status_stale : Status
status_stale = 1

abbrev pub status_unknown_epoch : Status
status_unknown_epoch = 2

abbrev pub status_rate_limited : Status
status_rate_limited = 3

unfoldable pub status_string : Status → String
status_string s =
    if s == status_ok
    then "ok"
    else if s == status_stale
    then "stale"
    else if s == status_unknown_epoch
    then "unknown_epoch"
    else if s == status_rate_limited
    then "rate_limited"
    else "invalid"

abbrev pub known : Status → Bool
known s = leb s status_rate_limited

-- The request's and the reply's offsets.
abbrev pub req_off_tag : ℕ
req_off_tag = 80

abbrev pub rep_off_tag : ℕ
rep_off_tag = 48

abbrev pub req_domain : List ℕ
req_domain = b'r' ∷ b'e' ∷ b'q' ∷ []

abbrev pub rep_domain : List ℕ
rep_domain = b'r' ∷ b'e' ∷ b'p' ∷ []

pub data WireError : Type 0 where
  err_length err_magic err_version err_padding err_tag err_status err_ids : WireError

abbrev pub Key : Type 0
Key = List ℕ

-- HMAC-SHA256 of the standard library, as far as the package relies on it: a function of the key
-- and the message whose digest has 32 bytes.
pub record Hmac : Type 0 where
  pub sum : Key → List ℕ → List ℕ
  pub length_sum : (k : Key) (m : List ℕ) → length (sum k m) ≡ 32

-- The content of a request, without its tag. `sent` is an int64's pattern.
pub record Request : Type 0 where
  pub epoch : ℕ
  pub source_id : ℕ
  pub seq : ℕ
  pub sent : ℕ
  pub nonce : List ℕ

-- The content of a reply, without its tag.
pub record Reply : Type 0 where
  pub status : Status
  pub seq : ℕ
  pub nonce : List ℕ
  pub responder : ℕ

-- The padding loop of the parsers: does no byte differ from zero?
unfoldable pub all_zero : List ℕ → Bool
all_zero [] = true
all_zero (c ∷ cs) = if not (c == 0) then false else all_zero cs

-- `nil` is `none`.
unfoldable pub check_request_frame : List ℕ → Option WireError
check_request_frame pkt =
    if not (length pkt == request_len)
    then some err_length
    else if not (bytes_eq (slice 0 4 pkt) magic)
    then some err_magic
    else if not (byte_at 4 pkt == version)
    then some err_version
    else if all_zero (slice 41 39 pkt)
    then none
    else some err_padding

abbrev pub request_fields : List ℕ → Request
request_fields pkt = record {
  epoch = uint32_at 5 pkt;
  source_id = uint32_at 9 pkt;
  seq = uint32_at 13 pkt;
  sent = uint64_at 17 pkt;
  nonce = slice 25 16 pkt;
}

abbrev pub reply_fields : List ℕ → Reply
reply_fields pkt = record {
  status = byte_at 5 pkt;
  seq = uint32_at 6 pkt;
  nonce = slice 10 16 pkt;
  responder = uint64_at 26 pkt;
}

unfoldable pub parse_request : List ℕ → Result WireError Request
parse_request pkt = elim (check_request_frame pkt) [
  | some e ↦ err e
  | none ↦ ok (request_fields pkt)
]

-- What `EncodeRequest` writes before it computes the tag, into a cleared buffer.
unfoldable pub request_frame : Request → List ℕ
request_frame req =
    let b0 = copy_at 0 (zeros request_len) magic in
    let b1 = copy_at 4 b0 (version ∷ []) in
    let b2 = copy_at 5 b1 (be32 req.epoch) in
    let b3 = copy_at 9 b2 (be32 req.source_id) in
    let b4 = copy_at 13 b3 (be32 req.seq) in
    let b5 = copy_at 17 b4 (be64 req.sent) in copy_at 25 b5 req.nonce

-- The same for `writeReply`.
unfoldable pub reply_frame : Status → ℕ → List ℕ → ℕ → List ℕ
reply_frame status seq nonce responder =
    let b0 = copy_at 0 (zeros reply_len) magic in
    let b1 = copy_at 4 b0 (version ∷ []) in
    let b2 = copy_at 5 b1 (status ∷ []) in
    let b3 = copy_at 6 b2 (be32 seq) in
    let b4 = copy_at 10 b3 (take nonce_len nonce) in copy_at 26 b4 (be64 responder)

module _ (h : Hmac) where
  -- HMAC(domain | msg).
  unfoldable pub tag : Key → List ℕ → List ℕ → List ℕ
  tag key domain msg = h.sum key (domain ++ msg)

  -- The last step of `EncodeRequest` and `writeReply`: the tag of what stands before it.
  unfoldable pub seal : Key → List ℕ → ℕ → List ℕ → List ℕ
  seal key domain off b = let sum = tag key domain (take off b) in copy_at off b (take tag_len sum)

  -- `dst[:RequestLen]` is cleared and filled; what lies behind it stays.
  unfoldable pub encode_request : List ℕ → Key → Request → Result WireError (ℕ × List ℕ)
  encode_request dst key req =
      if ltb (length dst) request_len
      then err err_length
      else if (req.source_id == 0) || (req.epoch == 0)
      then err err_ids
      else ok
          (request_len, seal key req_domain req_off_tag (request_frame req) ++ drop request_len dst)

  unfoldable pub verify_request : List ℕ → Key → Bool
  verify_request pkt key = elim (check_request_frame pkt) [
    | some e ↦ false
    | none ↦
        bytes_eq (take tag_len (tag key req_domain (take req_off_tag pkt)))
          (slice req_off_tag tag_len pkt)
  ]

  -- `writeReply` fills the whole of a 64-byte `b`.
  unfoldable pub write_reply : Key → Status → ℕ → List ℕ → ℕ → List ℕ
  write_reply key status seq nonce responder =
      seal key rep_domain rep_off_tag (reply_frame status seq nonce responder)

  unfoldable pub encode_reply : List ℕ → Key → Reply → Result WireError (ℕ × List ℕ)
  encode_reply dst key rep =
      if ltb (length dst) reply_len
      then err err_length
      else if not (known rep.status)
      then err err_status
      else ok (
        reply_len,
        write_reply key rep.status rep.seq rep.nonce rep.responder ++ drop reply_len dst,
      )

  unfoldable pub parse_reply : List ℕ → Key → Result WireError Reply
  parse_reply pkt key =
      if not (length pkt == reply_len)
      then err err_length
      else if not (bytes_eq (slice 0 4 pkt) magic)
      then err err_magic
      else if not (byte_at 4 pkt == version)
      then err err_version
      else if not (all_zero (slice 34 14 pkt))
      then err err_padding
      else if not (
          bytes_eq (take tag_len (tag key rep_domain (take rep_off_tag pkt)))
            (slice rep_off_tag tag_len pkt))
      then err err_tag
      else if not (known (byte_at 5 pkt))
      then err err_status
      else ok (reply_fields pkt)
