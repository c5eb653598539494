-- ===== src/Beacon/Wire/Layout.antt =====
-- The bytes that the encoders of beacon/beacon.go write, as one concatenation.
use lattice_sdk.Common.{
  ℕ, ◌≤◌, List, [], ◌∷◌, ◌++◌, ◌≡◌, ◌≢◌, sym, ap, ◌∙◌, append_assoc, append-nil, length, take, drop,
  length-append, length-take, ok, arith, ltb, ◌==◌, ◌||◌, false,
}
use lattice_sdk.Common.Bytes.{
  copy, copy_at, zeros, be32, be64, take-append, take-length, copy-append, copy_at-append,
}
use lattice_sdk.Beacon.Wire.{
  Hmac, Key, Request, Status, magic, version, req_domain, rep_domain, tag, seal, request_frame,
  reply_frame, encode_request, write_reply,
}

-- What stands before the nonce.
abbrev pub request_head : Request → List ℕ
request_head req =
    magic ++ version ∷ (be32 req.epoch ++ be32 req.source_id ++ be32 req.seq ++ be64 req.sent)

-- The 80 bytes that the tag covers.
abbrev pub request_body : Request → List ℕ
request_body req = request_head req ++ (req.nonce ++ zeros 39)

request_frame_lem :
    (req : Request)
    → length req.nonce ≡ 16
    → request_frame req ≡ request_head req ++ (req.nonce ++ zeros 55)
unfolding request_frame
request_frame_lem req n =
    ap (◌++◌ (request_head req)) (copy-append (zeros 16) (zeros 55) req.nonce n)

pub length-request_body : (req : Request) → length req.nonce ≡ 16 → length (request_body req) ≡ 80
length-request_body req n = omega (arith, length-append req.nonce (zeros 39))

request_frame-body :
    (req : Request) → length req.nonce ≡ 16 → request_frame req ≡ request_body req ++ zeros 16
request_frame-body req n =
    request_frame_lem req n
    ∙ ap (◌++◌ (request_head req)) (sym (append_assoc req.nonce (zeros 39) (zeros 16)))

-- What `writeReply` leaves before the tag, and the 48 bytes that the tag covers.
abbrev pub reply_body : Status → ℕ → List ℕ → ℕ → List ℕ
reply_body status seq nonce responder =
    magic ++ version ∷ status ∷ (be32 seq ++ (nonce ++ (be64 responder ++ zeros 14)))

pub length-reply_body :
    (status seq : ℕ) (nonce : List ℕ) (responder : ℕ)
    → length nonce ≡ 16
    → length (reply_body status seq nonce responder) ≡ 48
length-reply_body status seq nonce responder n =
    omega (arith, length-append nonce (be64 responder ++ zeros 14))

reply_frame-body :
    (status seq : ℕ) (nonce : List ℕ) (responder : ℕ)
    → length nonce ≡ 16
    → reply_frame status seq nonce responder ≡ reply_body status seq nonce responder ++ zeros 16
unfolding reply_frame
reply_frame-body status seq nonce responder n =
    ap (λ t. magic ++ version ∷ status ∷ (be32 seq ++ t))
      (ap (λ t. copy_at 16 (copy (zeros 54) t) (be64 responder)) (take-length 16 nonce n)
        ∙ ap (λ t. copy_at 16 t (be64 responder)) (copy-append (zeros 16) (zeros 38) nonce n)
        ∙ copy_at-append 16 nonce (zeros 38) (be64 responder) n
        ∙ sym (append_assoc nonce (be64 responder ++ zeros 14) (zeros 16)))

-- A tag copied over the last 16 bytes.
put_tag :
    (n : ℕ) (p t : List ℕ) → length p ≡ n → length t ≡ 16 → copy_at n (p ++ zeros 16) t ≡ p ++ t
put_tag n p t hp ht =
    copy_at-append n p (zeros 16) t hp ∙ ap (◌++◌ p) (copy-append (zeros 16) [] t ht ∙ append-nil t)

module _ (h : Hmac) where
  pub tag-length : (key : Key) (domain msg : List ℕ) → length (take 16 (tag h key domain msg)) ≡ 16
  unfolding tag
  tag-length key domain msg =
      omega (arith, length-take 16 (h.sum key (domain ++ msg)), h.length_sum key (domain ++ msg))

  seal-body :
      (key : Key) (domain : List ℕ) (n : ℕ) (p : List ℕ)
      → length p ≡ n
      → seal h key domain n (p ++ zeros 16) ≡ p ++ take 16 (tag h key domain p)
  unfolding seal
  seal-body key domain n p hp =
      rw (take-append n p (zeros 16) hp) (put_tag n p _ hp (tag-length key domain p))

  -- The tag that `EncodeRequest` puts behind the body.
  abbrev pub request_tag : Key → Request → List ℕ
  request_tag key req = take 16 (tag h key req_domain (request_body req))

  pub encode_request-layout :
      (dst : List ℕ) (key : Key) (req : Request)
      → length req.nonce ≡ 16
      → 96 ≤ length dst
      → req.source_id ≢ 0
      → req.epoch ≢ 0
      → encode_request h dst key req
        ≡ ok (96, (request_body req ++ request_tag key req) ++ drop 96 dst)
  unfolding encode_request
  encode_request-layout dst key req n room s e =
      let fits : ltb (length dst) 96 ≡ false = ground arith in
      let ids : (req.source_id == 0) || (req.epoch == 0) ≡ false = ground arith in
      let body = length-request_body req n in
      let sealed =
        ap (seal h key req_domain 80) (request_frame-body req n)
        ∙ seal-body key req_domain 80 (request_body req) body in
      rw (fits, ids) (ap (λ t. ok (96, t ++ drop 96 dst)) sealed)

  pub write_reply-layout :
      (key : Key) (status seq : ℕ) (nonce : List ℕ) (responder : ℕ)
      → length nonce ≡ 16
      → let body = reply_body status seq nonce responder in
        write_reply h key status seq nonce responder ≡ body ++ take 16 (tag h key rep_domain body)
  unfolding write_reply
  write_reply-layout key status seq nonce responder n =
      ap (seal h key rep_domain 48) (reply_frame-body status seq nonce responder n)
      ∙ seal-body key rep_domain 48 (reply_body status seq nonce responder)
          (length-reply_body status seq nonce responder n)
