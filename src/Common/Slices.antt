-- ===== src/Common/Slices.antt =====
-- A byte string from its slices, and integers from their bytes.
use Prim.Native.Nat.{ℕ, zero, suc, ◌+◌, ◌/◌, ◌^◌, ◌≤◌, ◌<◌}
use mathlib.Core.Path.{◌≡◌, refl, sym, ap, ap₂, ◌∙◌}
use mathlib.Core.List.{List, [], ◌∷◌, ◌++◌}
use native.Mathlib.Omega.{arith}
use lattice_sdk.Common.Lists.{All, length, take, drop, take-append-drop, length-take, length-drop}
use lattice_sdk.Common.Bytes.{
  IsByte, slice, byte_at, be32, be64, be_value, uint32_at, uint64_at, drop-drop, take-length,
}

pub slice-append-drop : (lo n : ℕ) (s : List ℕ) → slice lo n s ++ drop (lo + n) s ≡ drop lo s
slice-append-drop lo n s =
    ap (◌++◌ (slice lo n s)) (sym (drop-drop lo n s)) ∙ take-append-drop n (drop lo s)

pub length-slice : (lo n : ℕ) (s : List ℕ) → lo + n ≤ length s → length (slice lo n s) ≡ n
length-slice lo n s h = omega (arith, length-take n (drop lo s), length-drop lo s)

-- The last slice is what is left.
pub slice_last : (lo n : ℕ) (s : List ℕ) → length s ≡ lo + n → slice lo n s ≡ drop lo s
slice_last lo n s h = take-length n (drop lo s) (omega (arith, length-drop lo s))

-- A field put back before what follows it.
pub field-append-drop :
    (lo n : ℕ) (f s : List ℕ) → f ≡ slice lo n s → f ++ drop (lo + n) s ≡ drop lo s
field-append-drop lo n f s e = ap (λ t. t ++ drop (lo + n) s) e ∙ slice-append-drop lo n s

pub byte-drop : (i : ℕ) (s : List ℕ) → i < length s → byte_at i s ∷ drop (suc i) s ≡ drop i s
byte-drop i [] h = absurd (omega arith)
byte-drop zero (x ∷ s) h = refl
byte-drop (suc i) (x ∷ s) h = byte-drop i s (omega arith)

All-take : (n : ℕ) (s : List ℕ) → All IsByte s → All IsByte (take n s)
All-take zero s h = tt
All-take (suc n) [] h = tt
All-take (suc n) (x ∷ s) (hx, hs) = (hx, All-take n s hs)

All-drop : (n : ℕ) (s : List ℕ) → All IsByte s → All IsByte (drop n s)
All-drop zero s h = h
All-drop (suc n) [] h = tt
All-drop (suc n) (x ∷ s) (hx, hs) = All-drop n s hs

-- Four bytes are the big-endian form of the number that they spell.
be32-be_value : (s : List ℕ) → length s ≡ 4 → All IsByte s → be32 (be_value 0 s) ≡ s
be32-be_value (a ∷ b ∷ c ∷ d ∷ []) h (ha, (hb, (hc, (hd, _)))) = ground arith
be32-be_value s h b = absurd (omega arith)

-- The low four of eight bytes, behind a number `v` that the high four spell.
be64_low :
    (v : ℕ) (s : List ℕ)
    → length s ≡ 4
    → All IsByte s
    → (be_value v s / 2 ^ 32 ≡ v) × (be32 (be_value v s) ≡ s)
be64_low v (a ∷ b ∷ c ∷ d ∷ []) h (ha, (hb, (hc, (hd, _)))) = (omega arith, ground arith)
be64_low v s h b = absurd (omega arith)

be64-be_value : (s : List ℕ) → length s ≡ 8 → All IsByte s → be64 (be_value 0 s) ≡ s
be64-be_value (a ∷ b ∷ c ∷ d ∷ s) h (ha, (hb, (hc, (hd, hs)))) =
    let front : List ℕ = a ∷ b ∷ c ∷ d ∷ [] in
    let low = be64_low (be_value 0 front) s (omega arith) hs in
    ap₂ (λ x y. be32 x ++ y) low.0 low.1
    ∙ ap (λ t. t ++ s) (be32-be_value front refl (ha, (hb, (hc, (hd, tt)))))
be64-be_value s h b = absurd (omega arith)

pub be32-uint32_at :
    (lo : ℕ) (s : List ℕ) → lo + 4 ≤ length s → All IsByte s → be32 (uint32_at lo s) ≡ slice lo 4 s
be32-uint32_at lo s h b =
    be32-be_value (slice lo 4 s) (length-slice lo 4 s h) (All-take 4 (drop lo s) (All-drop lo s b))

pub be64-uint64_at :
    (lo : ℕ) (s : List ℕ) → lo + 8 ≤ length s → All IsByte s → be64 (uint64_at lo s) ≡ slice lo 8 s
be64-uint64_at lo s h b =
    be64-be_value (slice lo 8 s) (length-slice lo 8 s h) (All-take 8 (drop lo s) (All-drop lo s b))

be_value-lt : (s : List ℕ) → length s ≡ 4 → All IsByte s → be_value 0 s < 2 ^ 32
be_value-lt (a ∷ b ∷ c ∷ d ∷ s) h (ha, (hb, (hc, (hd, hs)))) =
    let nil : length s ≡ 0 = omega arith in at_end s nil
  where
    at_end : (s : List ℕ) → length s ≡ 0 → be_value 0 (a ∷ b ∷ c ∷ d ∷ s) < 2 ^ 32
    at_end [] e = omega arith
    at_end (x ∷ s) e = absurd (omega arith)
be_value-lt s h b = absurd (omega arith)

-- Four bytes are a uint32.
pub uint32_at-lt :
    (lo : ℕ) (s : List ℕ) → lo + 4 ≤ length s → All IsByte s → uint32_at lo s < 2 ^ 32
uint32_at-lt lo s h b =
    be_value-lt (slice lo 4 s) (length-slice lo 4 s h) (All-take 4 (drop lo s) (All-drop lo s b))

be_value-lt_8 : (s : List ℕ) → length s ≡ 8 → All IsByte s → be_value 0 s < 2 ^ 64
be_value-lt_8 (a ∷ b ∷ c ∷ d ∷ e ∷ f ∷ g ∷ i ∷ []) h
      (ha, (hb, (hc, (hd, (he, (hf, (hg, (hi, _)))))))) =
    omega arith
be_value-lt_8 s h b = absurd (omega arith)

-- Eight bytes are a uint64.
pub uint64_at-lt :
    (lo : ℕ) (s : List ℕ) → lo + 8 ≤ length s → All IsByte s → uint64_at lo s < 2 ^ 64
uint64_at-lt lo s h b =
    be_value-lt_8 (slice lo 8 s) (length-slice lo 8 s h) (All-take 8 (drop lo s) (All-drop lo s b))
