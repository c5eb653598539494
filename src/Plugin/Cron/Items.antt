-- ===== src/Plugin/Cron/Items.antt =====
-- plugin/task_schedule.go: `parseCronField` reads exactly the items of the dialect.
use lattice_sdk.Common.{
  ℕ, ◌≤◌, ◌≡◌, ◌⊎◌, ◌↔◌, refl, sym, subst, ap, ◌∙◌, inl, inr, Bool, true, false, ◌||◌, List, [],
  append-nil, ◌∷◌, ◌++◌, ltb, ◌==◌, if◌then◌else◌, Bool-cases, ltb-false→le, Result, ok, err,
  Option, none, some, bind-eq-ok, if-eq-ok, ok-injective, arith,
}
use lattice_sdk.Common.Bytes.{bytes_eq, bytes_eq_iff, bytes_eq_refl}
use lattice_sdk.Common.Runes.{cut}
use lattice_sdk.Plugin.Cron.{
  CronError, Item, cron_number, parse_step, parse_span, parse_single, or_else, invalid_range,
  invalid_value, step_needs_range, bounded_item, parse_range, parse_item, invalid_step, outside,
}
use lattice_sdk.Plugin.Cron.Dialect.{
  IsNumber, Span, star, span, Reads, plain, stepped, single, IsItemOf, IsNumber-cron, cron-IsNumber,
  cut-Free, cut-append, rejoin, rejoin-cut, IsNumber-Free, Span-Free,
}

not_star : (s t : List ℕ) (n : ℕ) → IsNumber s n → bytes_eq (s ++ t) (b'*' ∷ []) ≡ false
unfolding bytes_eq
not_star [] t n h = absurd h
not_star (a ∷ []) t n (d, e) = let other : (a == b'*') ≡ false = ground arith in rw other refl
not_star (a ∷ b ∷ []) t n (d, f, e) =
    let other : (a == b'*') ≡ false = ground arith in rw other refl
not_star (a ∷ b ∷ c ∷ rest) t n h = absurd h

IsNumber-parse_span :
    (a b : List ℕ) (x y : ℕ) → IsNumber a x → IsNumber b y → x ≤ y → parse_span a b ≡ ok (x, y)
unfolding parse_span
IsNumber-parse_span a b x y ha hb le =
    let ordered : ltb y x ≡ false = ground arith in
    rw (IsNumber-cron a x ha, IsNumber-cron b y hb, ordered) refl

Span-parse :
    (lo hi : ℕ) (range : List ℕ) (x y : ℕ) (has_step : Bool)
    → Span lo hi range x y
    → parse_range lo hi range has_step ≡ ok (x, y)
unfolding parse_range
Span-parse lo hi _ _ _ has_step star = rw (bytes_eq_refl (b'*' ∷ [])) refl
Span-parse lo hi _ _ _ has_step (span a b x y ha hb le) =
    let cuts = cut-append b'-' a b (IsNumber-Free b'-' a x (omega arith) ha) in
    rw (not_star a (b'-' ∷ b) x ha, ap (λ q. q.1) cuts, ap (λ q. q.0) cuts)
      (IsNumber-parse_span a b x y ha hb le)

IsNumber-parse_range :
    (lo hi : ℕ) (s : List ℕ) (n : ℕ) → IsNumber s n → parse_range lo hi s false ≡ ok (n, n)
unfolding parse_range parse_single
IsNumber-parse_range lo hi s n h =
    let other : bytes_eq s (b'*' ∷ []) ≡ false =
      subst (λ t. bytes_eq t (b'*' ∷ []) ≡ false) (append-nil s) (not_star s [] n h) in
    rw (other, cut-Free b'-' s (IsNumber-Free b'-' s n (omega arith) h), IsNumber-cron s n h) refl

or_else-ok : (r : Result CronError ℕ) (e : CronError) (n : ℕ) → or_else r e ≡ ok n → r ≡ ok n
or_else-ok (ok a) e n h = h
or_else-ok (err x) e n h = cc

-- What a range is read from.
Ranged : ℕ → ℕ → List ℕ → Bool → ℕ × ℕ → Type 0
Ranged lo hi range has_step (x, y) =
    Span lo hi range x y ⊎ ((has_step ≡ false) × IsNumber range x × (x ≡ y))

parse_span-Span :
    (lo hi : ℕ) (a b : List ℕ) (x y : ℕ)
    → parse_span a b ≡ ok (x, y)
    → Span lo hi (a ++ b'-' ∷ b) x y
unfolding parse_span
parse_span-Span lo hi a b x y h =
    let (start, e1, h1) = bind-eq-ok (or_else (cron_number a) invalid_range) _ (x, y) h in
    let (end, e2, h2) = bind-eq-ok (or_else (cron_number b) invalid_range) _ (x, y) h1 in
    let (ge, h3) = if-eq-ok (ltb end start) invalid_range _ (x, y) h2 in
    let both = ok-injective (start, end) (x, y) h3 in
    subst (λ (q : ℕ × ℕ). Span lo hi (a ++ b'-' ∷ b) q.0 q.1) both
      (span a b start end
        (cron-IsNumber a start (or_else-ok (cron_number a) invalid_range start e1))
        (cron-IsNumber b end (or_else-ok (cron_number b) invalid_range end e2))
        (ltb-false→le end start ge))

single-Ranged :
    (lo hi : ℕ) (range : List ℕ) (has_step : Bool) (p : ℕ × ℕ)
    → parse_single range has_step ≡ ok p
    → Ranged lo hi range has_step p
unfolding Ranged parse_single
single-Ranged lo hi range has_step p h =
    let (no_step, h1) = if-eq-ok has_step step_needs_range _ p h in
    let (n, e1, h2) = bind-eq-ok (or_else (cron_number range) invalid_value) _ p h1 in
    subst (Ranged lo hi range has_step) (ok-injective (n, n) p h2) (
      inr
        (no_step, cron-IsNumber range n (or_else-ok (cron_number range) invalid_value n e1), refl))

parse_range-Ranged :
    (lo hi : ℕ) (range : List ℕ) (has_step : Bool) (p : ℕ × ℕ)
    → parse_range lo hi range has_step ≡ ok p
    → Ranged lo hi range has_step p
unfolding parse_range Ranged
parse_range-Ranged lo hi range has_step p h = elim (Bool-cases (bytes_eq range (b'*' ∷ []))) [
  | inl e ↦
      let all = ok-injective (lo, hi) p (rw (parse_range, e) at h) in
      let text : range ≡ b'*' ∷ [] = (bytes_eq_iff range (b'*' ∷ [])).0 e in
      subst (Ranged lo hi range has_step) all
        (inl (subst (λ r. Span lo hi r lo hi) (sym text) star))
  | inr e ↦ by_cut (cut b'-' range).1 (rejoin-cut b'-' range) (rw (parse_range, e) at h)
]
  where
    by_cut :
        (o : Option (List ℕ))
        → rejoin b'-' (cut b'-' range).0 o ≡ range
        → (elim o [ some b ↦ parse_span (cut b'-' range).0 b | none ↦ parse_single range has_step ])
          ≡ ok p
        → Ranged lo hi range has_step p
    by_cut none joined h = single-Ranged lo hi range has_step p h
    by_cut (some b) joined h = inl (
        subst (λ r. Span lo hi r p.0 p.1) joined
          (parse_span-Span lo hi (cut b'-' range).0 b p.0 p.1 h))

parse_step_inv : (s : List ℕ) (n : ℕ) → parse_step (some s) ≡ ok n → IsNumber s n × (1 ≤ n)
unfolding parse_step
parse_step_inv s n h = by_number (cron_number s) refl h
  where
    by_number :
        (r : Result CronError ℕ)
        → cron_number s ≡ r
        → (elim r [ err x ↦ err invalid_step | ok n ↦ if ltb n 1 then err invalid_step else ok n ])
          ≡ ok n
        → IsNumber s n × (1 ≤ n)
    by_number (err x) e h = cc
    by_number (ok m) e h =
        let (ge, h1) = if-eq-ok (ltb m 1) invalid_step (ok m) n h in
        let same = ok-injective m n h1 in
        (cron-IsNumber s n (e ∙ ap ok same), subst (λ k. 1 ≤ k) same (ltb-false→le m 1 ge))

IsNumber-parse_step : (s : List ℕ) (n : ℕ) → IsNumber s n → 1 ≤ n → parse_step (some s) ≡ ok n
unfolding parse_step
IsNumber-parse_step s n h le =
    let positive : ltb n 1 ≡ false = ground arith in
    rw (parse_step, IsNumber-cron s n h, positive) refl

abbrev has : Option (List ℕ) → Bool
has o = elim o [ none ↦ false | some s ↦ true ]

bounded_item_inv :
    (lo hi n x y : ℕ) (i : Item)
    → bounded_item lo hi n (x, y) ≡ ok i
    → (lo ≤ x) × (y ≤ hi) × (record { start = x; end = y; step = n } ≡ i)
unfolding bounded_item
bounded_item_inv lo hi n x y i h =
    let (inside, h1) = if-eq-ok (ltb x lo || ltb hi y) outside _ i h in
    (ground arith, ground arith, ok-injective (record { start = x; end = y; step = n }) i h1)

Ranged-Reads :
    (lo hi : ℕ) (range item : List ℕ) (o : Option (List ℕ)) (x y n : ℕ)
    → rejoin b'/' range o ≡ item
    → parse_step o ≡ ok n
    → Ranged lo hi range (has o) (x, y)
    → Reads lo hi item (record { start = x; end = y; step = n })
unfolding parse_step Ranged
Ranged-Reads lo hi range item none x y n joined e (inl sp) =
    let one = ok-injective 1 n e in
    subst (λ k. Reads lo hi item (record { start = x; end = y; step = k })) one
      (subst (λ t. Reads lo hi t (record { start = x; end = y; step = 1 })) joined
        (plain range x y sp))
Ranged-Reads lo hi range item none x y n joined e (inr (_, num, same)) =
    let one = ok-injective 1 n e in
    subst (λ k. Reads lo hi item (record { start = x; end = y; step = k })) one
      (subst (λ z. Reads lo hi item (record { start = x; end = z; step = 1 })) same
        (subst (λ t. Reads lo hi t (record { start = x; end = x; step = 1 })) joined
          (single range x num)))
Ranged-Reads lo hi range item (some s) x y n joined e (inl sp) =
    let (num, le) = parse_step_inv s n e in
    subst (λ t. Reads lo hi t (record { start = x; end = y; step = n })) joined
      (stepped range s x y n sp num le)
Ranged-Reads lo hi range item (some s) x y n joined e (inr (step_free, _, _)) = cc

parse_item-IsItemOf :
    (lo hi : ℕ) (item : List ℕ) (i : Item) → parse_item lo hi item ≡ ok i → IsItemOf lo hi item i
unfolding parse_item
parse_item-IsItemOf lo hi item i h =
    let (range, step) = cut b'/' item in
    let (n, e0, e1) = bind-eq-ok (parse_step step) _ i h in
    let ((x, y), e2, e3) = bind-eq-ok (parse_range lo hi range (has step)) _ i e1 in
    let (above, below, same) = bounded_item_inv lo hi n x y i e3 in
    subst (IsItemOf lo hi item) same (record {
      reads =
          Ranged-Reads lo hi range item step x y n (rejoin-cut b'/' item) e0
            (parse_range-Ranged lo hi range (has step) (x, y) e2);
      above = above;
      below = below;
    })

module _ (lo hi x y n : ℕ) (above : lo ≤ x) (below : y ≤ hi) where
  parse_item-of :
      (item range : List ℕ) (o : Option (List ℕ))
      → cut b'/' item ≡ (range, o)
      → parse_step o ≡ ok n
      → parse_range lo hi range (has o) ≡ ok (x, y)
      → parse_item lo hi item ≡ ok (record { start = x; end = y; step = n })
  unfolding parse_item bounded_item
  parse_item-of item range o cuts step ranged =
      let low : ltb x lo ≡ false = ground arith in
      let high : ltb hi y ≡ false = ground arith in
      let first = ap (λ q. q.0) cuts in
      let second = ap (λ q. q.1) cuts in rw (first, second, step, ranged, low, high) refl

one_step : parse_step none ≡ ok 1
unfolding parse_step
one_step = refl

Reads-parse_item :
    (lo hi : ℕ) (item : List ℕ) (i : Item)
    → Reads lo hi item i
    → lo ≤ i.start
    → i.end ≤ hi
    → parse_item lo hi item ≡ ok i
Reads-parse_item lo hi item _ (plain _ x y sp) above below =
    parse_item-of lo hi x y 1 above below item item none
      (cut-Free b'/' item (Span-Free lo hi item x y sp)) one_step
      (Span-parse lo hi item x y false sp)
Reads-parse_item lo hi _ _ (stepped range step x y n sp num le) above below =
    parse_item-of lo hi x y n above below (range ++ b'/' ∷ step) range (some step)
      (cut-append b'/' range step (Span-Free lo hi range x y sp))
      (IsNumber-parse_step step n num le) (Span-parse lo hi range x y true sp)
Reads-parse_item lo hi item _ (single _ n num) above below =
    parse_item-of lo hi n n 1 above below item item none
      (cut-Free b'/' item (IsNumber-Free b'/' item n (omega arith) num)) one_step
      (IsNumber-parse_range lo hi item n num)

-- An item is read exactly if it is one of the dialect, with values within the field's bounds.
pub parse_item_iff :
    (lo hi : ℕ) (item : List ℕ) (i : Item) → (parse_item lo hi item ≡ ok i) ↔ IsItemOf lo hi item i
parse_item_iff lo hi item i =
    (parse_item-IsItemOf lo hi item i, (λ v. Reads-parse_item lo hi item i v.reads v.above v.below))
