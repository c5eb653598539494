-- ===== src/Beacon/Wire/ReplyTrip.antt =====
-- beacon/beacon.go: what `EncodeReply` writes is what `ParseReply` reads.
use lattice_sdk.Common.{
  ℕ, ◌≤◌, List, ◌++◌, ◌≡◌, refl, sym, ap, ◌∙◌, append_assoc, length, take, drop, length-append, ok,
  guard-eq-ok, true, false, arith, ltb, ◌==◌, ==_iff,
}
use lattice_sdk.Common.Int64.{IsU32, IsU64}
use lattice_sdk.Common.Bytes.{
  bytes_eq, slice, byte_at, zeros, be64, be_value, uint64_at, be32_value, be64_value, take-append,
  drop-append, drop-drop,
}
use lattice_sdk.Beacon.Wire.{
  Hmac, Key, Reply, tag, magic, rep_domain, all_zero, reply_fields, write_reply, encode_reply,
  parse_reply, known,
}
use lattice_sdk.Beacon.Wire.Layout.{reply_body, length-reply_body, tag-length, write_reply-layout}
use lattice_sdk.Beacon.Wire.RoundTrip.{tag_matches}

-- A reply as Go's types hold it, with a status the package knows.
pub record IsReply (rep : Reply) : Type 0 where
  pub status : rep.status ≤ 3
  pub seq : IsU32 rep.seq
  pub nonce : length rep.nonce ≡ 16
  pub responder : IsU64 rep.responder

module _ (rep : Reply) (t : List ℕ) (v : IsReply rep) (ht : length t ≡ 16) where
  abbrev body : List ℕ
  body = reply_body rep.status rep.seq rep.nonce rep.responder

  reply_tail :
      (rep.nonce ++ (be64 rep.responder ++ zeros 14)) ++ t
      ≡ rep.nonce ++ (be64 rep.responder ++ (zeros 14 ++ t))
  reply_tail = append_assoc rep.nonce (be64 rep.responder ++ zeros 14) t

  reply_rest : drop 26 (body ++ t) ≡ be64 rep.responder ++ (zeros 14 ++ t)
  reply_rest = ap (drop 16) reply_tail ∙ drop-append 16 rep.nonce _ v.nonce

  reply_nonce : slice 10 16 (body ++ t) ≡ rep.nonce
  reply_nonce = ap (take 16) reply_tail ∙ take-append 16 rep.nonce _ v.nonce

  reply_padding : slice 34 14 (body ++ t) ≡ zeros 14
  reply_padding = ap (take 14) (sym (drop-drop 16 8 (drop 10 (body ++ t))) ∙ ap (drop 8) reply_rest)

  reply_clock : uint64_at 26 (body ++ t) ≡ rep.responder
  reply_clock = ap (λ s. be_value 0 (take 8 s)) reply_rest ∙ be64_value rep.responder v.responder

  reply_length : length (body ++ t) ≡ 64
  reply_length = omega (
    arith,
    length-append body t,
    length-reply_body rep.status rep.seq rep.nonce rep.responder v.nonce,
  )

  reply_read : reply_fields (body ++ t) ≡ rep
  reply_read = λ i. record {
    status = rep.status;
    seq = be32_value rep.seq v.seq i;
    nonce = reply_nonce i;
    responder = reply_clock i;
  }

-- The checks that `ParseReply` makes, tag and status included.
pub record IsAccepted (h : Hmac) (key : Key) (pkt : List ℕ) : Type 0 where
  pub long : length pkt ≡ 64
  pub opens : bytes_eq (slice 0 4 pkt) magic ≡ true
  pub speaks : byte_at 4 pkt ≡ 1
  pub padded : all_zero (slice 34 14 pkt) ≡ true
  pub tagged : bytes_eq (take 16 (tag h key rep_domain (take 48 pkt))) (slice 48 16 pkt) ≡ true
  pub named : known (byte_at 5 pkt) ≡ true

module _ (h : Hmac) (key : Key) where
  pub parse_reply-eq-ok :
      (pkt : List ℕ) → IsAccepted h key pkt → parse_reply h pkt key ≡ ok (reply_fields pkt)
  unfolding parse_reply
  parse_reply-eq-ok pkt a = rw (a.long, a.opens, a.speaks, a.padded, a.tagged, a.named)

  pub parse_reply_inv :
      (pkt : List ℕ) (rep : Reply)
      → parse_reply h pkt key ≡ ok rep
      → IsAccepted h key pkt × (reply_fields pkt ≡ rep)
  unfolding parse_reply
  parse_reply_inv pkt rep e =
      let (long, e1) = guard-eq-ok (length pkt == 64) _ _ rep e in
      let (opens, e2) = guard-eq-ok (bytes_eq (slice 0 4 pkt) magic) _ _ rep e1 in
      let (speaks, e3) = guard-eq-ok (byte_at 4 pkt == 1) _ _ rep e2 in
      let (padded, e4) = guard-eq-ok (all_zero (slice 34 14 pkt)) _ _ rep e3 in
      let (tagged, e5) =
        guard-eq-ok (bytes_eq (take 16 (tag h key rep_domain (take 48 pkt))) (slice 48 16 pkt)) _ _
          rep e4 in
      let (named, e6) = guard-eq-ok (known (byte_at 5 pkt)) _ _ rep e5 in
      (
        record {
          long = (==_iff (length pkt) 64).0 long;
          opens = opens;
          speaks = (==_iff (byte_at 4 pkt) 1).0 speaks;
          padded = padded;
          tagged = tagged;
          named = named;
        },
        cc,
      )

  module _ (rep : Reply) (v : IsReply rep) where
    t : List ℕ
    t = take 16 (tag h key rep_domain (reply_body rep.status rep.seq rep.nonce rep.responder))

    ht : length t ≡ 16
    unfolding t
    ht = tag-length h key rep_domain _

    abbrev written : List ℕ
    written = write_reply h key rep.status rep.seq rep.nonce rep.responder

    layout : written ≡ body rep t v ht ++ t
    unfolding t
    layout = write_reply-layout h key rep.status rep.seq rep.nonce rep.responder v.nonce

    -- A source that holds the path key reads from `writeReply`'s datagram exactly the reply.
    pub parse-write_reply : parse_reply h written key ≡ ok rep
    unfolding all_zero bytes_eq t
    parse-write_reply =
        let b = body rep t v ht in
        ap (λ p. parse_reply h p key) layout
        ∙ parse_reply-eq-ok (b ++ t) (record {
          long = reply_length rep t v ht;
          opens = refl;
          speaks = refl;
          padded = rw (reply_padding rep t v ht);
          tagged =
              tag_matches h key rep_domain 48 b
                (length-reply_body rep.status rep.seq rep.nonce rep.responder v.nonce);
          named = ground arith;
        })
        ∙ ap ok (reply_read rep t v ht)

    -- The same through `EncodeReply`, in a buffer with room; the rest of the buffer is unchanged.
    pub parse-encode_reply :
        (dst : List ℕ)
        → 64 ≤ length dst
        → (out : List ℕ) × (encode_reply h dst key rep ≡ ok (64, out))
          × (parse_reply h (take 64 out) key ≡ ok rep)
          × (drop 64 out ≡ drop 64 dst)
    unfolding encode_reply
    parse-encode_reply dst room =
        let fits : ltb (length dst) 64 ≡ false = ground arith in
        let named : known rep.status ≡ true = ground arith in
        let long = ap length layout ∙ reply_length rep t v ht in
        (
          written ++ drop 64 dst,
          rw (fits, named),
          ap (λ p. parse_reply h p key) (take-append 64 written (drop 64 dst) long)
              ∙ parse-write_reply,
          drop-append 64 written (drop 64 dst) long,
        )
