-- ===== src/Beacon/Address/Endpoints.antt =====
-- beacon/addr.go: the texts that are endpoints.
use lattice_sdk.Common.{
  ℕ, ◌%◌, ◌^◌, ◌≤◌, ◌<◌, ◌≡◌, ◌≢◌, ◌↔◌, ◌⊎◌, inl, inr, refl, sym, subst, ap, ◌∙◌, true, false, not,
  ◌||◌, Option, none, some, some-injective, List, [], ◌∷◌, ◌++◌, ◌==◌, ==_iff, ok, err, bind-eq-ok,
  if-eq-ok, ok-injective, Bool-cases, Option-cases, ltb-false→le, ◌+◌, arith,
}
use lattice_sdk.Common.Bytes.{bytes_eq, bytes_eq_iff, bytes_eq_refl, byte_at}
use lattice_sdk.Common.Int64.{slt}
use lattice_sdk.Common.Decimals.{
  parse_int, format_int, format_uint, parse-format_int, parse_int-below, positive-format_int,
  format_uint-IsNumeral, all_decimal,
}
use lattice_sdk.Common.Runes.{trim_space}
use lattice_sdk.Beacon.Address.{
  Addr, not_ipv4_literal, address_refused_class, port_range, address_refused, cut_colon, put_before,
  has_colon, parse_ipv4, check_ipv4, check_port, endpoint_parts, parse_endpoint,
}

-- An address of a class that a beacon may use: IPv4, and neither unspecified, loopback, link-local,
-- multicast nor reserved.
pub record IsAllowed (a : Addr) : Type 0 where
  pub ipv4 : a.is4 ≡ true
  pub specified : byte_at 0 a.as4 ≢ 0
  pub not_loopback : byte_at 0 a.as4 ≢ 127
  pub not_link_local : (byte_at 0 a.as4 ≢ 169) ⊎ (byte_at 1 a.as4 ≢ 254)
  pub unicast : byte_at 0 a.as4 < 224

address_refused_iff : (a : Addr) → (address_refused a ≡ false) ↔ IsAllowed a
unfolding address_refused
address_refused_iff a = (
  (λ h. record {
    ipv4 = ground arith;
    specified = ground arith;
    not_loopback = ground arith;
    not_link_local = ground arith;
    unicast = ground arith;
  }),
  (λ r.
      let four = r.ipv4 in
      let first = r.specified in
      let loop = r.not_loopback in
      let link = r.not_link_local in let uni = r.unicast in ground arith),
)

put_before-some :
    (c : ℕ) (r : Option (List ℕ × List ℕ)) (host rest : List ℕ)
    → put_before c r ≡ some (host, rest)
    → (before : List ℕ) × (r ≡ some (before, rest)) × (host ≡ c ∷ before)
put_before-some c none host rest h = cc
put_before-some c (some (before, after)) host rest h =
    let e = some-injective (c ∷ before, after) (host, rest) h in
    (before, ap (λ x. some (before, x)) (ap (λ x. x.1) e), sym (ap (λ x. x.0) e))

-- The cut is at the first colon.
cut_colon-parts :
    (s host rest : List ℕ)
    → cut_colon s ≡ some (host, rest)
    → (s ≡ host ++ b':' ∷ rest) × (has_colon host ≡ false)
unfolding cut_colon has_colon
cut_colon-parts [] host rest h = cc
cut_colon-parts (c ∷ cs) host rest h = elim (Bool-cases (c == b':')) [
  | inl e ↦
      (let now : some ([], cs) ≡ some (host, rest) = rw e at h in
        let both = some-injective ([], cs) (host, rest) now in
        let no_host : [] ≡ host = ap (λ x. x.0) both in
        let same : cs ≡ rest = ap (λ x. x.1) both in
        let colon = (==_iff c b':').0 e in (rw (colon, ← no_host, same) refl, rw (← no_host) refl))
  | inr e ↦
      (let (before, cut, eq) = put_before-some c (cut_colon cs) host rest (rw e at h) in
        let (parts, free) = cut_colon-parts cs before rest cut in
        (rw (parts, eq) refl, rw (eq, e) free))
]

cut_colon-append :
    (host rest : List ℕ)
    → has_colon host ≡ false
    → cut_colon (host ++ b':' ∷ rest) ≡ some (host, rest)
unfolding cut_colon has_colon
cut_colon-append [] rest h = refl
cut_colon-append (c ∷ cs) rest h =
    let here : (c == b':') ≡ false = ground arith in
    let later : has_colon cs ≡ false = ground arith in
    rw (here, cut_colon-append cs rest later) refl

digits-colon : (s : List ℕ) → all_decimal s ≡ true → has_colon s ≡ false
unfolding all_decimal has_colon
digits-colon [] h = refl
digits-colon (c ∷ cs) h =
    let later : all_decimal cs ≡ true = ground arith in
    let none_later = digits-colon cs later in ground arith

format_uint-colon : (n : ℕ) → n < 10 ^ 20 → has_colon (format_uint n) ≡ false
format_uint-colon n h =
    let (c, cs, eq, all) = format_uint-IsNumeral n h in rw eq (digits-colon (c ∷ cs) all)

port_bounds : (n : ℕ) → n < 2 ^ 64 → slt n 1 ≡ false → slt 65535 n ≡ false → (0 < n) × (n ≤ 65535)
unfolding slt
port_bounds n h low high =
    let a : (1 + 2 ^ 63) % 2 ^ 64 ≤ (n + 2 ^ 63) % 2 ^ 64 = ltb-false→le _ _ low in
    let b : (n + 2 ^ 63) % 2 ^ 64 ≤ (65535 + 2 ^ 63) % 2 ^ 64 = ltb-false→le _ _ high in
    (omega arith, omega arith)

bounds_port : (n : ℕ) → 0 < n → n ≤ 65535 → (slt n 1 ≡ false) × (slt 65535 n ≡ false)
unfolding slt
bounds_port n low high =
    let sum : (n + 2 ^ 63) % 2 ^ 64 ≡ n + 2 ^ 63 = omega arith in
    (rw sum (ground arith), rw sum (ground arith))

port_iff :
    (addr : Addr) (text : List ℕ) (a : Addr) (p : ℕ)
    → (check_port addr text (parse_int text) ≡ ok (a, p))
      ↔ ((addr ≡ a) × (0 < p) × (p ≤ 65535) × (text ≡ format_uint p))
unfolding check_port
port_iff addr text a p = (
  (λ h. elim (Option-cases (parse_int text)) [
    | inl e ↦ absurd (let bad : err port_range ≡ ok (a, p) = (rw e at h) in cc)
    | inr (n, e) ↦
        (let (passed, eq) =
            if-eq-ok (slt n 1 || slt 65535 n || not (bytes_eq text (format_int n))) port_range
              (ok (addr, n % 2 ^ 16)) (a, p) (rw e at h) in
          let both = ok-injective (addr, n % 2 ^ 16) (a, p) eq in
          let (low, high) =
            port_bounds n (parse_int-below text n e) (ground arith) (ground arith) in
          let same : n ≡ p = (omega (arith, ap (λ x. x.1) both)) in
          let written = (bytes_eq_iff text (format_int n)).0 (ground arith) in
          let (above, plain) = positive-format_int n low (omega arith) in
          (ap (λ x. x.0) both, omega arith, omega arith, written ∙ (plain ∙ ap format_uint same)))
  ]),
  (λ (same, low, high, eq).
      let (ge, le) = bounds_port p low high in
      let (above, plain) = positive-format_int p low (omega arith) in
      let short : p % 2 ^ 16 ≡ p = omega arith in
      rw
        (
          eq,
          parse-format_int p (omega arith),
          ge,
          le,
          plain,
          bytes_eq_refl (format_uint p),
          same,
          short,
        )
        refl),
)

module _ (parse_addr : List ℕ → Option Addr) where
  -- The canonical form of an allowed address.
  pub record IsLiteral (host : List ℕ) (a : Addr) : Type 0 where
    pub parsed : parse_addr host ≡ some a
    pub no_zone : a.zone ≡ []
    pub canonical : a.text ≡ host
    pub allowed : IsAllowed a

  checked :
      (host : List ℕ) (a b : Addr)
      → check_ipv4 parse_addr host (some a) ≡ ok b
      → (a ≡ b) × (a.zone ≡ []) × (a.text ≡ host) × IsAllowed a
  unfolding check_ipv4
  checked host a b h =
      let (literal, h1) =
        if-eq-ok (not a.is4 || not (bytes_eq a.zone []) || not (bytes_eq a.text host))
          not_ipv4_literal _ b h in
      let (allowed, h2) = if-eq-ok (address_refused a) address_refused_class (ok a) b h1 in
      (
        ok-injective a b h2,
        (bytes_eq_iff a.zone []).0 (ground arith),
        (bytes_eq_iff a.text host).0 (ground arith),
        (address_refused_iff a).0 allowed,
      )

  ipv4_iff : (host : List ℕ) (b : Addr) → (parse_ipv4 parse_addr host ≡ ok b) ↔ IsLiteral host b
  unfolding parse_ipv4 check_ipv4
  ipv4_iff host b = (
    (λ h. elim (Option-cases (parse_addr host)) [
      | inl e ↦ absurd (let bad : err not_ipv4_literal ≡ ok b = (rw e at h) in cc)
      | inr (a, e) ↦
          (let (same, zone, text, allowed) = checked host a b (rw e at h) in
            record {
              parsed = e ∙ ap some same;
              no_zone = sym (ap (λ (x : Addr). x.zone) same) ∙ zone;
              canonical = sym (ap (λ (x : Addr). x.text) same) ∙ text;
              allowed = subst IsAllowed same allowed;
            })
    ]),
    (λ l.
        let four = l.allowed.ipv4 in
        let bare = (bytes_eq_iff b.zone []).1 l.no_zone in
        let same = (bytes_eq_iff b.text host).1 l.canonical in
        let literal : (not b.is4 || not (bytes_eq b.zone []) || not (bytes_eq b.text host))
            ≡ false =
          ground arith in
        rw (l.parsed, literal, (address_refused_iff b).1 l.allowed) refl),
  )

  -- An endpoint is read exactly if, with the space round it cut off, it is an address, a colon and a
  -- port from 1 to 65535 in decimal form, and the address is an IPv4 literal in canonical form of an
  -- allowed class.
  pub parse_endpoint_iff :
      (s : List ℕ) (a : Addr) (p : ℕ)
      → (parse_endpoint parse_addr s ≡ ok (a, p)) ↔ (
          (host : List ℕ) × (trim_space s ≡ host ++ b':' ∷ format_uint p)
          × (0 < p)
          × (p ≤ 65535)
          × (has_colon host ≡ false)
          × IsLiteral host a)
  unfolding parse_endpoint endpoint_parts
  parse_endpoint_iff s a p = (
    (λ h. elim (Option-cases (cut_colon (trim_space s))) [
      | inl e ↦ absurd (let bad : err not_ipv4_literal ≡ ok (a, p) = (rw e at h) in cc)
      | inr ((host, rest), e) ↦
          (let (parts, free) = cut_colon-parts (trim_space s) host rest e in
            let (one, h1) = if-eq-ok (has_colon rest) not_ipv4_literal _ (a, p) (rw e at h) in
            let (b, literal, h2) = bind-eq-ok (parse_ipv4 parse_addr host) _ (a, p) h1 in
            let (same, low, high, port) = (port_iff b rest a p).0 h2 in
            let address = (ipv4_iff host a).0 (literal ∙ ap ok same) in
            (host, parts ∙ ap (λ x. host ++ b':' ∷ x) port, low, high, free, address))
    ]),
    (λ (host, parts, low, high, free, address).
        let cut = ap cut_colon parts ∙ cut_colon-append host (format_uint p) free in
        rw
          (
            cut,
            format_uint-colon p (omega arith),
            (ipv4_iff host a).1 address,
            (port_iff a (format_uint p) a p).1 (refl, low, high, refl),
          )
          refl),
  )
