-- ===== src/Plugin/Cron/Dialect.antt =====
-- plugin/task_schedule.go: the items of a cron field as the comment on `TaskSchedule.Cron` describes
-- them.
use lattice_sdk.Common.{
  ℕ, ◌+◌, ◌-◌, ◌*◌, ◌≤◌, ◌<◌, ◌≡◌, refl, sym, ap, ◌∙◌, inl, inr, true, false, ◌||◌, List, [], ◌∷◌,
  ◌++◌, length, ltb, leb, ◌==◌, ==_iff, not, Bool-cases, ltb-false→le, ok, Option, none, some,
  if-eq-ok, ok-injective, arith,
}
use lattice_sdk.Common.Runes.{cut, rune_len, byte_len, all_digits, atoi}
use lattice_sdk.Plugin.Cron.{Item, cron_number, not_a_number}

-- One or two decimal digits, and the number that they write.
abbrev pub IsDigit : ℕ → Type 0
IsDigit c = (48 ≤ c) × (c ≤ 57)

abbrev pub IsNumber : List ℕ → ℕ → Type 0
IsNumber [] n = ⊥
IsNumber (a ∷ []) n = IsDigit a × (n ≡ a - 48)
IsNumber (a ∷ b ∷ []) n = IsDigit a × IsDigit b × (n ≡ (a - 48) * 10 + (b - 48))
IsNumber (a ∷ b ∷ c ∷ rest) n = ⊥

-- "*" and "a-b", with the first and the last value.
pub data Span (lo hi : ℕ) : List ℕ → ℕ → ℕ → Type 0 where
  star : Span lo hi (b'*' ∷ []) lo hi
  span :
      (a b : List ℕ) (x y : ℕ)
      → IsNumber a x
      → IsNumber b y
      → x ≤ y
      → Span lo hi (a ++ b'-' ∷ b) x y

-- "*", "*/n", "a", "a-b" and "a-b/n", with the values that they stand for.
pub data Reads (lo hi : ℕ) : List ℕ → Item → Type 0 where
  plain :
      (range : List ℕ) (x y : ℕ)
      → Span lo hi range x y
      → Reads lo hi range (record { start = x; end = y; step = 1 })
  stepped :
      (range step : List ℕ) (x y n : ℕ)
      → Span lo hi range x y
      → IsNumber step n
      → 1 ≤ n
      → Reads lo hi (range ++ b'/' ∷ step) (record { start = x; end = y; step = n })
  single :
      (text : List ℕ) (n : ℕ)
      → IsNumber text n
      → Reads lo hi text (record { start = n; end = n; step = 1 })

-- An item of a field whose values go from `lo` to `hi`.
pub record IsItemOf (lo hi : ℕ) (text : List ℕ) (i : Item) : Type 0 where
  pub reads : Reads lo hi text i
  pub above : lo ≤ i.start
  pub below : i.end ≤ hi

pub IsNumber-cron : (s : List ℕ) (n : ℕ) → IsNumber s n → cron_number s ≡ ok n
unfolding cron_number all_digits atoi byte_len
IsNumber-cron [] n h = absurd h
IsNumber-cron (a ∷ []) n (d, e) =
    let ascii : ltb a 128 ≡ true = ground arith in
    let low : leb 48 a ≡ true = ground arith in
    let high : leb a 57 ≡ true = ground arith in rw (ascii, low, high) (ap ok (omega arith))
IsNumber-cron (a ∷ b ∷ []) n (d, f, e) =
    let ascii : ltb a 128 ≡ true = ground arith in
    let low : leb 48 a ≡ true = ground arith in
    let high : leb a 57 ≡ true = ground arith in
    let ascii2 : ltb b 128 ≡ true = ground arith in
    let low2 : leb 48 b ≡ true = ground arith in
    let high2 : leb b 57 ≡ true = ground arith in
    rw (ascii, low, high, ascii2, low2, high2) (ap ok (omega arith))
IsNumber-cron (a ∷ b ∷ c ∷ rest) n h = absurd h

rune_len-positive : (c : ℕ) → 1 ≤ rune_len c
rune_len-positive c = ground arith

cron_number-inv :
    (s : List ℕ) (n : ℕ)
    → cron_number s ≡ ok n
    → (ltb 2 (byte_len s) ≡ false) × (all_digits s ≡ true) × (atoi 0 s ≡ n)
unfolding cron_number
cron_number-inv s n h =
    let (passed, e) =
      if-eq-ok (length s == 0 || ltb 2 (byte_len s) || not (all_digits s)) not_a_number
        (ok (atoi 0 s)) n h in
    (ground arith, ground arith, ok-injective (atoi 0 s) n e)

pub cron-IsNumber : (s : List ℕ) (n : ℕ) → cron_number s ≡ ok n → IsNumber s n
unfolding cron_number all_digits atoi byte_len
cron-IsNumber [] n h = cc
cron-IsNumber (a ∷ []) n h =
    let (short, digits, value) = cron_number-inv (a ∷ []) n h in
    let v : 0 + (a - 48) ≡ n = value in ((ground arith, ground arith), omega arith)
cron-IsNumber (a ∷ b ∷ []) n h =
    let (short, digits, value) = cron_number-inv (a ∷ b ∷ []) n h in
    let v : (0 + (a - 48)) * 10 + (b - 48) ≡ n = value in
    ((ground arith, ground arith), (ground arith, ground arith), omega arith)
cron-IsNumber (a ∷ b ∷ c ∷ rest) n h =
    let (short, digits, value) = cron_number-inv (a ∷ b ∷ c ∷ rest) n h in
    let few : byte_len (a ∷ b ∷ c ∷ rest) ≤ 2 = ltb-false→le 2 _ short in
    absurd (omega (arith, few, rune_len-positive a, rune_len-positive b, rune_len-positive c))

-- Cutting.
abbrev Free : ℕ → List ℕ → Type 0
Free sep [] = Unit {0}
Free sep (c ∷ cs) = ((c == sep) ≡ false) × Free sep cs

pub cut-Free : (sep : ℕ) (s : List ℕ) → Free sep s → cut sep s ≡ (s, none)
unfolding cut
cut-Free sep [] f = refl
cut-Free sep (c ∷ cs) (h, f) = rw (h, cut-Free sep cs f) refl

pub cut-append : (sep : ℕ) (s t : List ℕ) → Free sep s → cut sep (s ++ sep ∷ t) ≡ (s, some t)
unfolding cut
cut-append sep [] t f = let same : (sep == sep) ≡ true = (==_iff sep sep).1 refl in rw same refl
cut-append sep (c ∷ cs) t (h, f) = rw (h, cut-append sep cs t f) refl

abbrev pub rejoin : ℕ → List ℕ → Option (List ℕ) → List ℕ
rejoin sep s none = s
rejoin sep s (some t) = s ++ sep ∷ t

rejoin-cons :
    (sep c : ℕ) (s : List ℕ) (o : Option (List ℕ)) → rejoin sep (c ∷ s) o ≡ c ∷ rejoin sep s o
rejoin-cons sep c s none = refl
rejoin-cons sep c s (some t) = refl

pub rejoin-cut : (sep : ℕ) (s : List ℕ) → rejoin sep (cut sep s).0 (cut sep s).1 ≡ s
unfolding cut
rejoin-cut sep [] = refl
rejoin-cut sep (c ∷ cs) = elim (Bool-cases (c == sep)) [
  | inl e ↦ let same : c ≡ sep = (==_iff c sep).0 e in rw e (ap (λ x. x ∷ cs) (sym same))
  | inr e ↦
      rw e (rejoin-cons sep c (cut sep cs).0 (cut sep cs).1 ∙ ap (λ x. c ∷ x) (rejoin-cut sep cs))
]

pub IsNumber-Free : (sep : ℕ) (s : List ℕ) (n : ℕ) → sep < 48 → IsNumber s n → Free sep s
IsNumber-Free sep [] n lt h = tt
IsNumber-Free sep (a ∷ []) n lt (d, e) = (ground arith, tt)
IsNumber-Free sep (a ∷ b ∷ []) n lt (d, f, e) = (ground arith, (ground arith, tt))
IsNumber-Free sep (a ∷ b ∷ c ∷ rest) n lt h = absurd h

append-Free : (sep : ℕ) (s t : List ℕ) → Free sep s → Free sep t → Free sep (s ++ t)
append-Free sep [] t f g = g
append-Free sep (c ∷ cs) t (h, f) g = (h, append-Free sep cs t f g)

pub Span-Free : (lo hi : ℕ) (range : List ℕ) (x y : ℕ) → Span lo hi range x y → Free b'/' range
Span-Free lo hi _ _ _ star = (refl, tt)
Span-Free lo hi _ _ _ (span a b x y ha hb le) =
    append-Free b'/' a (b'-' ∷ b) (IsNumber-Free b'/' a x (omega arith) ha)
      (refl, IsNumber-Free b'/' b y (omega arith) hb)
