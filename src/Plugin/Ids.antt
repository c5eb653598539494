-- ===== src/Plugin/Ids.antt =====
-- plugin/host.go: `validInvocationID` and `validHostCallID`, on the bytes of an id.
use lattice_sdk.Common.{
  ℕ, ◌^◌, ◌<◌, ◌≡◌, ◌↔◌, sym, ◌∙◌, ap, inl, inr, Bool, true, false, ◌&&◌, Option, none, some,
  Option-cases, Bool-cases, List, [], ◌∷◌, ◌==◌, ltb, lt→ltb, ltb→lt, if◌then◌else◌, arith,
}
use lattice_sdk.Common.Bytes.{bytes_eq, bytes_eq_iff, bytes_eq_refl}
use lattice_sdk.Common.Int64.{slt}
use lattice_sdk.Common.Decimals.{
  parse_uint, parse_int, format_uint, format_int, parse-format_uint, parse-format_int,
  parse_int-below, parse_uint-below, format_uint-IsNumeral, format_int-positive,
  positive-format_int,
}

-- `err == nil && n > 0 && strconv.FormatInt(n, 10) == id`.
unfoldable pub is_canonical_int : Option ℕ → List ℕ → Bool
is_canonical_int none id = false
is_canonical_int (some n) id = slt 0 n && bytes_eq (format_int n) id

unfoldable pub valid_invocation_id : List ℕ → Bool
valid_invocation_id id = is_canonical_int (parse_int id) id

unfoldable pub is_canonical_call : Option ℕ → List ℕ → Bool
is_canonical_call none id = false
is_canonical_call (some n) id = ltb 0 n && bytes_eq (b'h' ∷ format_uint n) id

unfoldable pub valid_host_call_id : List ℕ → Bool
valid_host_call_id [] = false
valid_host_call_id (c ∷ []) = false
valid_host_call_id (c ∷ d ∷ cs) =
    if c == b'h' then is_canonical_call (parse_uint (d ∷ cs)) (c ∷ d ∷ cs) else false

-- An invocation's id is the decimal form of a positive int64, with no sign and no leading zero.
pub valid_invocation_id_iff :
    (id : List ℕ)
    → (valid_invocation_id id ≡ true) ↔ ((n : ℕ) × (0 < n) × (n < 2 ^ 63) × (id ≡ format_uint n))
unfolding valid_invocation_id is_canonical_int
valid_invocation_id_iff id = (
  (λ h. elim (Option-cases (parse_int id)) [
    | inl e ↦ absurd (let bad : false ≡ true = (rw e at h) in cc)
    | inr (n, e) ↦
        (let both : (slt 0 n && bytes_eq (format_int n) id) ≡ true = (rw e at h) in
          let (positive, small, plain) =
            format_int-positive n (parse_int-below id n e) (ground arith) in
          (n, positive, small, sym ((bytes_eq_iff (format_int n) id).0 (ground arith)) ∙ plain))
  ]),
  (λ (n, positive, small, eq).
      let (above, plain) = positive-format_int n positive small in
      rw (eq, parse-format_int n small, above, plain) (bytes_eq_refl (format_uint n))),
)

host_call-canonical :
    (id : List ℕ)
    → valid_host_call_id id ≡ true
    → (n : ℕ) × (0 < n) × (n < 2 ^ 64) × (id ≡ b'h' ∷ format_uint n)
unfolding valid_host_call_id is_canonical_call
host_call-canonical [] h = cc
host_call-canonical (c ∷ []) h = cc
host_call-canonical (c ∷ d ∷ cs) h = elim (Bool-cases (c == b'h')) [
  | inl e ↦ elim (Option-cases (parse_uint (d ∷ cs))) [
    | inl e1 ↦ absurd (let bad : false ≡ true = (rw (e, e1) at h) in cc)
    | inr (n, e1) ↦
        (let both : (ltb 0 n && bytes_eq (b'h' ∷ format_uint n) (c ∷ d ∷ cs)) ≡ true =
            (rw (e, e1) at h) in
          (
            n,
            ltb→lt 0 n (ground arith),
            parse_uint-below (d ∷ cs) n e1,
            sym ((bytes_eq_iff (b'h' ∷ format_uint n) (c ∷ d ∷ cs)).0 (ground arith)),
          ))
  ]
  | inr e ↦ absurd (let bad : false ≡ true = (rw e at h) in cc)
]

canonical-host_call :
    (n : ℕ) → 0 < n → n < 2 ^ 64 → valid_host_call_id (b'h' ∷ format_uint n) ≡ true
unfolding valid_host_call_id is_canonical_call
canonical-host_call n positive small =
    let (d, cs, eq, all) = format_uint-IsNumeral n (omega arith) in
    let read : parse_uint (d ∷ cs) ≡ some n = sym (ap parse_uint eq) ∙ parse-format_uint n small in
    rw (eq, read, lt→ltb 0 n positive, eq) (bytes_eq_refl (b'h' ∷ d ∷ cs))

-- A host call's id is an h and the decimal form of a positive uint64, with no leading zero.
pub valid_host_call_id_iff :
    (id : List ℕ)
    → (valid_host_call_id id ≡ true)
      ↔ ((n : ℕ) × (0 < n) × (n < 2 ^ 64) × (id ≡ b'h' ∷ format_uint n))
valid_host_call_id_iff id = (
  host_call-canonical id,
  (λ (n, positive, small, eq). rw eq (canonical-host_call n positive small)),
)
