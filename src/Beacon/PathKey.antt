-- ===== src/Beacon/PathKey.antt =====
-- beacon/beacon.go, `DerivePathKey`: the path key of one source in one epoch.
use lattice_sdk.Common.{
  ℕ, ◌%◌, ◌^◌, List, [], ◌∷◌, ◌++◌, ◌≡◌, refl, sym, ap, ◌∙◌, length, take, drop, append-nil, arith,
}
use lattice_sdk.Common.Int64.{IsU32}
use lattice_sdk.Common.Bytes.{be32, be_value, be32_value, take-append, drop-append}
use lattice_sdk.Beacon.Wire.{Hmac, Key}

-- "lattice-beacon/v1".
abbrev derivation_label : List ℕ
derivation_label =
    b'l' ∷ b'a' ∷ b't' ∷ b't' ∷ b'i' ∷ b'c' ∷ b'e' ∷ b'-' ∷ b'b' ∷ b'e' ∷ b'a' ∷ b'c' ∷ b'o' ∷ b'n'
    ∷ b'/' ∷ b'v' ∷ b'1' ∷ []

-- What one call of `writeLP` adds to the hash: `uint32(len(p))`, then `p`.
unfoldable pub write_lp : List ℕ → List ℕ
write_lp p = be32 (length p % 2 ^ 32) ++ p

-- The whole input of the HMAC, in the order of the three calls.
unfoldable pub derivation_input : List ℕ → ℕ → ℕ → List ℕ
derivation_input label source_id epoch =
    write_lp label ++ (write_lp (be32 source_id) ++ write_lp (be32 epoch))

unfoldable pub derive_path_key : Hmac → Key → ℕ → ℕ → Key
derive_path_key h target source_id epoch =
    h.sum target (derivation_input derivation_label source_id epoch)

-- A length-prefixed string can be told from what follows it.
write_lp-injective :
    (p q r s : List ℕ)
    → IsU32 (length p)
    → IsU32 (length q)
    → write_lp p ++ r ≡ write_lp q ++ s
    → (p ≡ q) × (r ≡ s)
unfolding write_lp
write_lp-injective p q r s hp hq e =
    let long : length p ≡ length q = omega (
      arith,
      ap (λ (t : List ℕ). be_value 0 (take 4 t)) e,
      be32_value (length p % 2 ^ 32) (omega arith),
      be32_value (length q % 2 ^ 32) (omega arith),
    ) in
    let rest : p ++ r ≡ q ++ s = ap (drop 4) e in
    (
      sym (take-append (length p) p r refl)
          ∙ ap (take (length p)) rest
          ∙ take-append (length p) q s (sym long),
      sym (drop-append (length p) p r refl)
          ∙ ap (drop (length p)) rest
          ∙ drop-append (length p) q s (sym long),
    )

be32-injective : (a b : ℕ) → IsU32 a → IsU32 b → be32 a ≡ be32 b → a ≡ b
be32-injective a b ha hb e = sym (be32_value a ha) ∙ ap (be_value 0) e ∙ be32_value b hb

-- Two derivations hash the same bytes only if their labels, their source ids and their epochs are
-- the same: the length prefixes keep different inputs apart.
pub derivation_input-injective :
    (label label' : List ℕ) (source_id source_id' epoch epoch' : ℕ)
    → IsU32 (length label)
    → IsU32 (length label')
    → IsU32 source_id
    → IsU32 source_id'
    → IsU32 epoch
    → IsU32 epoch'
    → derivation_input label source_id epoch ≡ derivation_input label' source_id' epoch'
    → (label ≡ label') × (source_id ≡ source_id') × (epoch ≡ epoch')
unfolding derivation_input
derivation_input-injective label label' source_id source_id' epoch epoch' hl hl' hs hs' he he' e =
    let (labels, tail) = write_lp-injective label label' _ _ hl hl' e in
    let (sources, last) =
      write_lp-injective (be32 source_id) (be32 source_id') (write_lp (be32 epoch))
        (write_lp (be32 epoch')) (omega arith) (omega arith) tail in
    let (epochs, _) =
      write_lp-injective (be32 epoch) (be32 epoch') [] [] (omega arith) (omega arith)
        (append-nil (write_lp (be32 epoch)) ∙ last ∙ sym (append-nil (write_lp (be32 epoch')))) in
    (
      labels,
      be32-injective source_id source_id' hs hs' sources,
      be32-injective epoch epoch' he he' epochs,
    )
