-- ===== src/Beacon/Wire/Canonical.antt =====
-- beacon/beacon.go: each accepted datagram is the one that its content encodes to.
use lattice_sdk.Common.{
  ℕ, ◌+◌, ◌≤◌, List, [], ◌∷◌, ◌++◌, ◌≡◌, ◌≢◌, refl, sym, ap, ◌∙◌, append_assoc, length, take, drop,
  true, false, ok, none, some, inl, inr, arith, All, Bool, if◌then◌else◌, Option-cases, ◌==◌,
  ==_iff, guard-eq-none,
}
use lattice_sdk.Common.Bytes.{
  IsByte, bytes_eq, bytes_eq_iff, slice, byte_at, zeros, be32, be64, uint32_at, take-append,
}
use lattice_sdk.Common.Slices.{
  slice-append-drop, length-slice, slice_last, field-append-drop, byte-drop, be32-uint32_at,
  be64-uint64_at,
}
use lattice_sdk.Beacon.Wire.{
  err_padding, Hmac, Key, Request, Reply, tag, magic, version, req_domain, rep_domain, all_zero,
  check_request_frame, request_fields, parse_request, verify_request, encode_request, reply_fields,
  write_reply, parse_reply,
}
use lattice_sdk.Beacon.Wire.Layout.{
  request_head, request_body, request_tag, reply_body, length-reply_body, length-request_body,
  write_reply-layout, encode_request-layout,
}
use lattice_sdk.Beacon.Wire.ReplyTrip.{IsAccepted, parse_reply_inv}

all_zero-zeros : (s : List ℕ) → all_zero s ≡ true → zeros (length s) ≡ s
unfolding all_zero
all_zero-zeros [] h = refl
all_zero-zeros (x ∷ s) h = ground (arith, all_zero-zeros s)

padding_zeros :
    (lo n : ℕ) (s : List ℕ)
    → lo + n ≤ length s
    → all_zero (slice lo n s) ≡ true
    → zeros n ≡ slice lo n s
padding_zeros lo n s h z = ap zeros (sym (length-slice lo n s h)) ∙ all_zero-zeros (slice lo n s) z

-- The checks that `checkRequestFrame` makes.
pub record IsFramed (pkt : List ℕ) : Type 0 where
  pub long : length pkt ≡ 96
  pub opens : slice 0 4 pkt ≡ magic
  pub speaks : byte_at 4 pkt ≡ 1
  pub padded : all_zero (slice 41 39 pkt) ≡ true

pub check_request_frame_inv : (pkt : List ℕ) → check_request_frame pkt ≡ none → IsFramed pkt
unfolding check_request_frame
check_request_frame_inv pkt e =
    let (long, e1) = guard-eq-none (length pkt == 96) _ _ e in
    let (opens, e2) = guard-eq-none (bytes_eq (slice 0 4 pkt) magic) _ _ e1 in
    let (speaks, e3) = guard-eq-none (byte_at 4 pkt == 1) _ _ e2 in
    record {
      long = (==_iff (length pkt) 96).0 long;
      opens = (bytes_eq_iff (slice 0 4 pkt) magic).0 opens;
      speaks = (==_iff (byte_at 4 pkt) 1).0 speaks;
      padded = nonzero (all_zero (slice 41 39 pkt)) e3;
    }
  where
    nonzero : (b : Bool) → (if b then none else some err_padding) ≡ none → b ≡ true
    nonzero true h = refl
    nonzero false h = cc

-- A parse or a verification that succeeds went past the frame's checks.
parse_request_inv :
    (pkt : List ℕ) (req : Request)
    → parse_request pkt ≡ ok req
    → (check_request_frame pkt ≡ none) × (request_fields pkt ≡ req)
unfolding parse_request
parse_request_inv pkt req e = elim (Option-cases (check_request_frame pkt)) [
  | inl nil ↦ (nil, cc (rw (nil, parse_request) at e))
  | inr (x, bad) ↦ cc (rw (bad, parse_request) at e)
]

module _ (pkt : List ℕ) (bytes : All IsByte pkt) where
  abbrev reply : Reply
  reply = reply_fields pkt

  abbrev reply_bytes : List ℕ
  reply_bytes = reply_body reply.status reply.seq reply.nonce reply.responder

  -- The body that a reply's fields spell is the datagram's, from its end to its start.
  reply_whole : (h : Hmac) (key : Key) → IsAccepted h key pkt → reply_bytes ++ drop 48 pkt ≡ pkt
  reply_whole h key a =
      let clock = be64 reply.responder in
      let at34 =
        field-append-drop 34 14 (zeros 14) pkt (padding_zeros 34 14 pkt (omega arith) a.padded) in
      let at26 =
        ap (◌++◌ clock) at34
        ∙ field-append-drop 26 8 clock pkt (be64-uint64_at 26 pkt (omega arith) bytes) in
      let at10 = ap (◌++◌ reply.nonce) at26 ∙ slice-append-drop 10 16 pkt in
      let at6 =
        ap (◌++◌ (be32 reply.seq)) at10
        ∙ field-append-drop 6 4 (be32 reply.seq) pkt (be32-uint32_at 6 pkt (omega arith) bytes) in
      let at5 = ap (◌∷◌ reply.status) at6 ∙ byte-drop 5 pkt (omega arith) in
      let at4 =
        ap (◌∷◌ version) at5
        ∙ ap (λ b. b ∷ drop 5 pkt) (sym a.speaks)
        ∙ byte-drop 4 pkt (omega arith) in
      let at0 =
        ap (◌++◌ magic) at4
        ∙ field-append-drop 0 4 magic pkt (sym ((bytes_eq_iff (slice 0 4 pkt) magic).0 a.opens)) in
      ap (λ t. magic ++ version ∷ reply.status ∷ (be32 reply.seq ++ t))
        (append_assoc reply.nonce (clock ++ zeros 14) (drop 48 pkt))
      ∙ at0

-- A datagram of bytes that a source accepts under its path key is the one that `writeReply` makes
-- of the reply it reads: no other bytes carry the same content.
pub write-parse_reply :
    (h : Hmac) (key : Key) (pkt : List ℕ) (rep : Reply)
    → All IsByte pkt
    → parse_reply h pkt key ≡ ok rep
    → write_reply h key rep.status rep.seq rep.nonce rep.responder ≡ pkt
write-parse_reply h key pkt rep bytes e =
    let (a, same) = parse_reply_inv h key pkt rep e in
    let n = length-slice 10 16 pkt (omega arith) in
    let r = reply pkt bytes in
    let body = reply_bytes pkt bytes in
    let whole = reply_whole pkt bytes h key a in
    let front : take 48 pkt ≡ body =
      ap (take 48) (sym whole)
      ∙ take-append 48 body (drop 48 pkt)
          (length-reply_body r.status r.seq r.nonce r.responder n) in
    let sealed : take 16 (tag h key rep_domain body) ≡ drop 48 pkt =
      ap (λ p. take 16 (tag h key rep_domain p)) (sym front)
      ∙ (bytes_eq_iff (take 16 (tag h key rep_domain (take 48 pkt))) (slice 48 16 pkt)).0 a.tagged
      ∙ slice_last 48 16 pkt a.long in
    ap (λ (r : Reply). write_reply h key r.status r.seq r.nonce r.responder) (sym same)
    ∙ write_reply-layout h key r.status r.seq r.nonce r.responder n
    ∙ ap (◌++◌ body) sealed
    ∙ whole

-- The same for the head and the body of a request.
module _ (pkt : List ℕ) (bytes : All IsByte pkt) (f : IsFramed pkt) where
  abbrev request : Request
  request = request_fields pkt

  request_whole : request_body request ++ drop 80 pkt ≡ pkt
  request_whole =
      let word = λ (lo : ℕ) (h : lo + 4 ≤ length pkt).
        field-append-drop lo 4 (be32 (uint32_at lo pkt)) pkt (be32-uint32_at lo pkt h bytes) in
      let at41 =
        field-append-drop 41 39 (zeros 39) pkt (padding_zeros 41 39 pkt (omega arith) f.padded) in
      let at25 = ap (◌++◌ request.nonce) at41 ∙ slice-append-drop 25 16 pkt in
      let at17 =
        ap (◌++◌ (be64 request.sent)) at25
        ∙ field-append-drop 17 8 (be64 request.sent) pkt
            (be64-uint64_at 17 pkt (omega arith) bytes) in
      let at13 = ap (◌++◌ (be32 request.seq)) at17 ∙ word 13 (omega arith) in
      let at9 = ap (◌++◌ (be32 request.source_id)) at13 ∙ word 9 (omega arith) in
      let at5 = ap (◌++◌ (be32 request.epoch)) at9 ∙ word 5 (omega arith) in
      let at4 =
        ap (◌∷◌ version) at5
        ∙ ap (λ b. b ∷ drop 5 pkt) (sym f.speaks)
        ∙ byte-drop 4 pkt (omega arith) in
      let at0 = ap (◌++◌ magic) at4 ∙ field-append-drop 0 4 magic pkt (sym f.opens) in
      ap (◌++◌ (request_head request)) (append_assoc request.nonce (zeros 39) (drop 80 pkt)) ∙ at0

-- A datagram of bytes that parses and verifies under a path key is the one that `EncodeRequest`
-- writes of its content, if its ids are above zero.
pub encode-parse_request :
    (h : Hmac) (key : Key) (dst pkt : List ℕ) (req : Request)
    → All IsByte pkt
    → parse_request pkt ≡ ok req
    → verify_request h pkt key ≡ true
    → 96 ≤ length dst
    → req.source_id ≢ 0
    → req.epoch ≢ 0
    → encode_request h dst key req ≡ ok (96, pkt ++ drop 96 dst)
unfolding verify_request
encode-parse_request h key dst pkt req bytes e verified room s ep =
    let (nil, same) = parse_request_inv pkt req e in
    let f = check_request_frame_inv pkt nil in
    let r = request pkt bytes f in
    let n = length-slice 25 16 pkt (omega arith) in
    let whole = request_whole pkt bytes f in
    let tagged = rw (nil, verify_request) at verified in
    let front : take 80 pkt ≡ request_body r =
      ap (take 80) (sym whole)
      ∙ take-append 80 (request_body r) (drop 80 pkt) (length-request_body r n) in
    let sealed : request_tag h key r ≡ drop 80 pkt =
      ap (λ p. take 16 (tag h key req_domain p)) (sym front)
      ∙ (bytes_eq_iff (take 16 (tag h key req_domain (take 80 pkt))) (slice 80 16 pkt)).0 tagged
      ∙ slice_last 80 16 pkt f.long in
    ap (encode_request h dst key) (sym same)
    ∙ encode_request-layout h dst key r n room
        (λ z. s (ap (λ (q : Request). q.source_id) (sym same) ∙ z))
        (λ z. ep (ap (λ (q : Request). q.epoch) (sym same) ∙ z))
    ∙ ap (λ t. ok (96, t ++ drop 96 dst)) (ap (◌++◌ (request_body r)) sealed ∙ whole)
