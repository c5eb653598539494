-- ===== src/Plugin/Cron/Interval.antt =====
-- plugin/task_schedule.go, `CronMinInterval`: the gap of a day's runs.
use lattice_sdk.Common.{
  ℕ, ◌+◌, ◌-◌, ◌*◌, ◌/◌, ◌%◌, ◌≤◌, ◌<◌, ◌≡◌, ◌⊎◌, sym, ap, subst, inl, inr, true, false, List, [],
  ◌∷◌, ◌++◌, min, ltb, ltb→lt, ltb-false→le, leb, Bool-cases, ok, ok-injective, arith,
}
use lattice_sdk.Plugin.Cron.{
  insert_int, sort_ints, runs_of_hour, runs_of, last_run, min_gap, gap_of,
}
use lattice_sdk.Plugin.Cron.Ranges.{In}

-- Runs in order.
abbrev pub IsSorted : ℕ → List ℕ → Type 0
IsSorted b [] = Unit {0}
IsSorted b (x ∷ xs) = (b ≤ x) × IsSorted x xs

module _ (v x : ℕ) (xs : List ℕ) where
  insert_int-front : leb v x ≡ true → insert_int v (x ∷ xs) ≡ v ∷ x ∷ xs
  unfolding insert_int
  insert_int-front e = rw e

  insert_int-behind : leb v x ≡ false → insert_int v (x ∷ xs) ≡ x ∷ insert_int v xs
  unfolding insert_int
  insert_int-behind e = rw e

insert_int-IsSorted : (b v : ℕ) (xs : List ℕ) → b ≤ v → IsSorted b xs → IsSorted b (insert_int v xs)
unfolding insert_int
insert_int-IsSorted b v [] h s = (h, tt)
insert_int-IsSorted b v (x ∷ xs) h (le, s) = elim (Bool-cases (leb v x)) [
  | inl e ↦ subst (IsSorted b) (sym (insert_int-front v x xs e)) (h, (ground arith, s))
  | inr e ↦
      subst (IsSorted b) (sym (insert_int-behind v x xs e))
        (le, insert_int-IsSorted x v xs (ground arith) s)
]

sort_ints-IsSorted : (xs : List ℕ) → IsSorted 0 (sort_ints xs)
unfolding sort_ints
sort_ints-IsSorted [] = tt
sort_ints-IsSorted (x ∷ xs) =
    insert_int-IsSorted 0 x (sort_ints xs) (omega arith) (sort_ints-IsSorted xs)

In-insert_int : (u v : ℕ) (xs : List ℕ) → (u ≡ v) ⊎ In u xs → In u (insert_int v xs)
unfolding insert_int
In-insert_int u v [] k = k
In-insert_int u v (x ∷ xs) k = elim (Bool-cases (leb v x)) [
  | inl e ↦ subst (In u) (sym (insert_int-front v x xs e)) k
  | inr e ↦ subst (In u) (sym (insert_int-behind v x xs e)) (elim k [
    | inl f ↦ inr (In-insert_int u v xs (inl f))
    | inr f ↦ elim f [ inl g ↦ inl g | inr g ↦ inr (In-insert_int u v xs (inr g)) ]
  ])
]

pub In-sort_ints : (u : ℕ) (xs : List ℕ) → In u xs → In u (sort_ints xs)
unfolding sort_ints
In-sort_ints u [] k = k
In-sort_ints u (x ∷ xs) k =
    In-insert_int u x (sort_ints xs) (elim k [ inl e ↦ inl e | inr i ↦ inr (In-sort_ints u xs i) ])

In-append_left : (u : ℕ) (xs ys : List ℕ) → In u xs → In u (xs ++ ys)
In-append_left u [] ys k = elim k [ ]
In-append_left u (x ∷ xs) ys (inl e) = inl e
In-append_left u (x ∷ xs) ys (inr k) = inr (In-append_left u xs ys k)

In-append_right : (u : ℕ) (xs ys : List ℕ) → In u ys → In u (xs ++ ys)
In-append_right u [] ys k = k
In-append_right u (x ∷ xs) ys k = inr (In-append_right u xs ys k)

In-runs_of_hour :
    (h m : ℕ) (minutes : List ℕ) → In m minutes → In (h * 60 + m) (runs_of_hour h minutes)
unfolding runs_of_hour
In-runs_of_hour h m [] k = k
In-runs_of_hour h m (x ∷ xs) (inl e) = inl (ap (λ (d : ℕ). h * 60 + d) e)
In-runs_of_hour h m (x ∷ xs) (inr k) = inr (In-runs_of_hour h m xs k)

pub In-runs_of :
    (h m : ℕ) (hours minutes : List ℕ)
    → In h hours
    → In m minutes
    → In (h * 60 + m) (runs_of hours minutes)
unfolding runs_of
In-runs_of h m [] minutes i j = i
In-runs_of h m (x ∷ xs) minutes (inl e) j =
    In-append_left (h * 60 + m) (runs_of_hour x minutes) (runs_of xs minutes) (
      subst (λ (d : ℕ). In (h * 60 + m) (runs_of_hour d minutes)) e (In-runs_of_hour h m minutes j))
In-runs_of h m (x ∷ xs) minutes (inr i) j =
    In-append_right (h * 60 + m) (runs_of_hour x minutes) (runs_of xs minutes)
      (In-runs_of h m xs minutes i j)

-- Sorted runs lie between the first and the last.
IsSorted-above : (b u : ℕ) (xs : List ℕ) → IsSorted b xs → In u xs → b ≤ u
IsSorted-above b u [] s k = elim k [ ]
IsSorted-above b u (x ∷ xs) (le, s) (inl e) = omega arith
IsSorted-above b u (x ∷ xs) (le, s) (inr k) = omega (arith, IsSorted-above x u xs s k)

last_run-ge : (x : ℕ) (xs : List ℕ) → IsSorted x xs → x ≤ last_run x xs
unfolding last_run
last_run-ge x [] s = omega arith
last_run-ge x (y ∷ ys) (le, s) = omega (arith, last_run-ge y ys s)

last_run-above : (x u : ℕ) (xs : List ℕ) → IsSorted x xs → In u (x ∷ xs) → u ≤ last_run x xs
unfolding last_run
last_run-above x u [] s (inl e) = omega arith
last_run-above x u [] s (inr k) = elim k [ ]
last_run-above x u (y ∷ ys) (le, s) (inl e) = omega (arith, last_run-ge y ys s)
last_run-above x u (y ∷ ys) (le, s) (inr k) = last_run-above y u ys s k

min_gap-le : (gap x : ℕ) (xs : List ℕ) → min_gap gap x xs ≤ gap
unfolding min_gap
min_gap-le gap x [] = omega arith
min_gap-le gap x (y ∷ ys) = omega (arith, min_gap-le (min gap (y - x)) y ys)

min_gap-apart :
    (gap x : ℕ) (xs : List ℕ) (a b : ℕ)
    → IsSorted x xs
    → In a (x ∷ xs)
    → In b (x ∷ xs)
    → a < b
    → min_gap gap x xs ≤ b - a
unfolding min_gap
min_gap-apart gap x [] a b s (inl e) (inl f) lt = absurd (omega arith)
min_gap-apart gap x [] a b s (inr k) j lt = elim k [ ]
min_gap-apart gap x [] a b s (inl e) (inr k) lt = elim k [ ]
min_gap-apart gap x (y ∷ ys) a b (le, s) (inl e) (inl f) lt = absurd (omega arith)
min_gap-apart gap x (y ∷ ys) a b (le, s) (inl e) (inr j) lt =
    omega (arith, min_gap-le (min gap (y - x)) y ys, IsSorted-above y b (y ∷ ys) (omega arith, s) j)
min_gap-apart gap x (y ∷ ys) a b (le, s) (inr i) (inl f) lt =
    absurd (omega (arith, IsSorted-above y a (y ∷ ys) (omega arith, s) i))
min_gap-apart gap x (y ∷ ys) a b (le, s) (inr i) (inr j) lt =
    min_gap-apart (min gap (y - x)) y ys a b s i j lt

-- The gap bounds the distance of two runs of a day, and of a run and one of the next day.
pub gap_of-apart :
    (runs : List ℕ) (gap a b : ℕ)
    → IsSorted 0 runs
    → gap_of runs ≡ ok gap
    → In a runs
    → In b runs
    → (a < b → gap ≤ b - a) × (gap ≤ b + 1440 - a)
unfolding gap_of
gap_of-apart [] gap a b s e i j = elim i [ ]
gap_of-apart (x ∷ xs) gap a b (_, s) e i j =
    let start = x + 1440 - last_run x xs in
    let same : min_gap start x xs ≡ gap = ok-injective (min_gap start x xs) gap e in
    (
      (λ lt. omega (arith, same, min_gap-apart start x xs a b s i j lt)),
      omega (
        arith,
        same,
        min_gap-le start x xs,
        last_run-above x a xs s i,
        IsSorted-above x b (x ∷ xs) (omega arith, s) j,
      ),
    )

-- Two run times of a schedule, in minutes from a midnight, are at least the gap apart, on whatever
-- days they fall.
pub gap_of-times :
    (hours minutes : List ℕ) (gap t u : ℕ)
    → gap_of (sort_ints (runs_of hours minutes)) ≡ ok gap
    → In (t % 60) minutes × In (t / 60 % 24) hours
    → In (u % 60) minutes × In (u / 60 % 24) hours
    → t < u
    → gap ≤ u - t
gap_of-times hours minutes gap t u e (tm, th) (um, uh) lt =
    let runs = sort_ints (runs_of hours minutes) in
    let a = t / 60 % 24 * 60 + t % 60 in
    let b = u / 60 % 24 * 60 + u % 60 in
    let apart =
      gap_of-apart runs gap a b (sort_ints-IsSorted (runs_of hours minutes)) e
        (In-sort_ints a (runs_of hours minutes)
          (In-runs_of (t / 60 % 24) (t % 60) hours minutes th tm))
        (In-sort_ints b (runs_of hours minutes)
          (In-runs_of (u / 60 % 24) (u % 60) hours minutes uh um)) in
    elim (Bool-cases (ltb a b)) [
      | inl f ↦ omega (arith, apart.0 (ltb→lt a b f), ltb→lt a b f)
      | inr f ↦ omega (arith, apart.1, ltb-false→le a b f)
    ]
