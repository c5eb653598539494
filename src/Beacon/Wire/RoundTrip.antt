-- ===== src/Beacon/Wire/RoundTrip.antt =====
-- beacon/beacon.go: what the encoders write is what the parsers read.
use lattice_sdk.Common.{
  ℕ, ◌≤◌, List, ◌++◌, ◌≡◌, ◌≢◌, ap, ◌∙◌, append_assoc, length, take, drop, length-append, ok, none,
  true, arith,
}
use lattice_sdk.Common.Int64.{IsU32, IsU64}
use lattice_sdk.Common.Bytes.{
  bytes_eq, bytes_eq_refl, slice, zeros, be32_value, be64_value, take-append, drop-append,
  take-length,
}
use lattice_sdk.Beacon.Wire.{
  Hmac, Key, Request, tag, req_domain, all_zero, check_request_frame, request_fields, parse_request,
  encode_request, verify_request,
}
use lattice_sdk.Beacon.Wire.Layout.{
  request_body, request_tag, length-request_body, tag-length, encode_request-layout,
}

-- A request as Go's types hold it.
pub record IsRequest (req : Request) : Type 0 where
  pub epoch : IsU32 req.epoch
  pub source_id : IsU32 req.source_id
  pub seq : IsU32 req.seq
  pub sent : IsU64 req.sent
  pub nonce : length req.nonce ≡ 16

module _ (req : Request) (t : List ℕ) (v : IsRequest req) (ht : length t ≡ 16) where
  -- From the nonce on.
  rest : (req.nonce ++ zeros 39) ++ t ≡ req.nonce ++ (zeros 39 ++ t)
  rest = append_assoc req.nonce (zeros 39) t

  frame_padding : slice 41 39 (request_body req ++ t) ≡ zeros 39
  frame_padding =
      ap (slice 16 39) rest ∙ ap (take 39) (drop-append 16 req.nonce (zeros 39 ++ t) v.nonce)

  frame_nonce : slice 25 16 (request_body req ++ t) ≡ req.nonce
  frame_nonce = ap (take 16) rest ∙ take-append 16 req.nonce (zeros 39 ++ t) v.nonce

  pub frame_fields : request_fields (request_body req ++ t) ≡ req
  frame_fields = λ i. record {
    epoch = be32_value req.epoch v.epoch i;
    source_id = be32_value req.source_id v.source_id i;
    seq = be32_value req.seq v.seq i;
    sent = be64_value req.sent v.sent i;
    nonce = frame_nonce i;
  }

  frame_length : length (request_body req ++ t) ≡ 96
  frame_length = omega (arith, length-append (request_body req) t, length-request_body req v.nonce)

  pub frame_checked : check_request_frame (request_body req ++ t) ≡ none
  unfolding check_request_frame bytes_eq all_zero
  frame_checked = rw (frame_length, frame_padding)

  frame_parses : parse_request (request_body req ++ t) ≡ ok req
  unfolding parse_request
  frame_parses = rw (frame_checked, parse_request) (ap ok frame_fields)

module _ (h : Hmac) (key : Key) where
  -- The comparison of the parsers, on a body that is followed by its tag.
  pub tag_matches :
      (domain : List ℕ) (n : ℕ) (p : List ℕ)
      → length p ≡ n
      → let pkt = p ++ take 16 (tag h key domain p) in
        bytes_eq (take 16 (tag h key domain (take n pkt))) (slice n 16 pkt) ≡ true
  tag_matches domain n p hp =
      let t = take 16 (tag h key domain p) in
      rw (take-append n p t hp, drop-append n p t hp, take-length 16 t (tag-length h key domain p))
        (bytes_eq_refl t)

  frame_verifies :
      (req : Request)
      → IsRequest req
      → verify_request h (request_body req ++ request_tag h key req) key ≡ true
  unfolding verify_request
  frame_verifies req v =
      rw
        (
          frame_checked req (request_tag h key req) v (tag-length h key req_domain _),
          verify_request,
        )
        (tag_matches req_domain 80 (request_body req) (length-request_body req v.nonce))

  -- A request with ids above zero, encoded into a buffer with room for it, fills the first 96 bytes
  -- with a datagram that parses to the same request and verifies under the same key; the rest of the
  -- buffer is unchanged.
  pub parse-encode_request :
      (dst : List ℕ) (req : Request)
      → IsRequest req
      → 96 ≤ length dst
      → req.source_id ≢ 0
      → req.epoch ≢ 0
      → (out : List ℕ) × (encode_request h dst key req ≡ ok (96, out))
        × (parse_request (take 96 out) ≡ ok req)
        × (verify_request h (take 96 out) key ≡ true)
        × (drop 96 out ≡ drop 96 dst)
  parse-encode_request dst req v room s e =
      let t = request_tag h key req in
      let ht = tag-length h key req_domain (request_body req) in
      let pkt = request_body req ++ t in
      let long = frame_length req t v ht in
      let front = take-append 96 pkt (drop 96 dst) long in
      (
        pkt ++ drop 96 dst,
        encode_request-layout h dst key req v.nonce room s e,
        ap parse_request front ∙ frame_parses req t v ht,
        ap (λ p. verify_request h p key) front ∙ frame_verifies req v,
        drop-append 96 pkt (drop 96 dst) long,
      )
