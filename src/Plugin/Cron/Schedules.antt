-- ===== src/Plugin/Cron/Schedules.antt =====
-- plugin/task_schedule.go: what an accepted cron expression and an accepted set of schedules promise.
use lattice_sdk.Common.{
  ℕ, ◌+◌, ◌-◌, ◌*◌, ◌/◌, ◌%◌, ◌≤◌, ◌<◌, ◌≡◌, ◌≢◌, ◌↔◌, true, refl, sym, subst, inl, inr, Bool,
  false, not, ◌&&◌, ◌||◌, none, some, List, [], ◌∷◌, ◌++◌, ◌==◌, length, ltb, if◌then◌else◌,
  Bool-cases, Option-cases, Result, ok, err, bind-eq-ok, if-eq-ok, if-eq-none, All, ltb-false→le,
  arith,
}
use lattice_sdk.Common.Bytes.{bytes_eq, bytes_eq_iff}
use lattice_sdk.Common.Runes.{byte_len, fields, split, split_from}
use lattice_sdk.Plugin.Cron.{
  CronError, TaskSchedule, interval_of_fields, expression_long, parse_item, parse_items,
  parse_cron_field, min_gap, last_run, sort_ints, runs_of, gap_of, cron_min_interval, validate,
  validate_from, validate_task_schedules, contains_id, id_twice, too_many, too_often,
  task_schedule_id, name_invalid, id_invalid, service_invalid, method_invalid, payload_long,
  payload_not_json,
}
use lattice_sdk.Plugin.Cron.Items.{parse_item_iff}
use lattice_sdk.Plugin.Cron.Ranges.{In, Selects}
use lattice_sdk.Plugin.Cron.Fields.{parse_item-IsItem, parse_cron_field-Selects}
use lattice_sdk.Plugin.Cron.Interval.{In-sort_ints, In-runs_of, gap_of-times}

-- A time, in minutes from a midnight, that the minute and the hour fields select.
abbrev pub IsRunOf : List (List ℕ) → ℕ → Type 0
IsRunOf [] t = ⊥
IsRunOf (minute ∷ []) t = ⊥
IsRunOf (minute ∷ hour ∷ others) t =
    Selects 0 59 (split b',' minute) (t % 60) × Selects 0 23 (split b',' hour) (t / 60 % 24)

abbrev pub IsRun : List ℕ → ℕ → Type 0
IsRun expr t = IsRunOf (fields expr) t

interval_of_fields-apart :
    (fs : List (List ℕ)) (gap t u : ℕ)
    → interval_of_fields fs ≡ ok gap
    → IsRunOf fs t
    → IsRunOf fs u
    → t < u
    → gap ≤ u - t
unfolding interval_of_fields
interval_of_fields-apart [] gap t u e rt ru lt = elim rt [ ]
interval_of_fields-apart (a ∷ []) gap t u e rt ru lt = elim rt [ ]
interval_of_fields-apart (a ∷ b ∷ []) gap t u e rt ru lt = cc
interval_of_fields-apart (a ∷ b ∷ c ∷ []) gap t u e rt ru lt = cc
interval_of_fields-apart (a ∷ b ∷ c ∷ d ∷ []) gap t u e rt ru lt = cc
interval_of_fields-apart (minute ∷ hour ∷ day ∷ month ∷ weekday ∷ []) gap t u e (tm, th) (um, uh)
      lt =
    let (minutes, e0, e1) = bind-eq-ok (parse_cron_field minute 0 59) _ gap e in
    let (hours, e2, e3) = bind-eq-ok (parse_cron_field hour 0 23) _ gap e1 in
    let (days, e4, e5) = bind-eq-ok (parse_cron_field day 1 31) _ gap e3 in
    let (months, e6, e7) = bind-eq-ok (parse_cron_field month 1 12) _ gap e5 in
    let (weekdays, e8, e9) = bind-eq-ok (parse_cron_field weekday 0 7) _ gap e7 in
    let m = (parse_cron_field-Selects minute 0 59 minutes (omega arith) e0).1 in
    let h = (parse_cron_field-Selects hour 0 23 hours (omega arith) e2).1 in
    gap_of-times hours minutes gap t u e9 ((m (t % 60)).1 tm, (h (t / 60 % 24)).1 th)
      ((m (u % 60)).1 um, (h (u / 60 % 24)).1 uh) lt
interval_of_fields-apart (a ∷ b ∷ c ∷ d ∷ f ∷ g ∷ rest) gap t u e rt ru lt = cc

-- Two times that an expression selects, on the same day or on different days, are never closer than
-- the interval that `CronMinInterval` returns.
pub cron_min_interval-apart :
    (expr : List ℕ) (gap t u : ℕ)
    → cron_min_interval expr ≡ ok gap
    → IsRun expr t
    → IsRun expr u
    → t < u
    → gap ≤ u - t
unfolding cron_min_interval
cron_min_interval-apart expr gap t u e rt ru lt =
    let (short, e1) = if-eq-ok (ltb 128 (byte_len expr)) expression_long _ gap e in
    interval_of_fields-apart (fields expr) gap t u e1 rt ru lt

-- The items of a field that parses select something.
split_from-cons :
    (sep : ℕ) (part s : List ℕ)
    → (x : List ℕ) × (xs : List (List ℕ)) × (split_from sep part s ≡ x ∷ xs)
unfolding split_from
split_from-cons sep part [] = (part, [], refl)
split_from-cons sep part (r ∷ rs) = elim (Bool-cases (r == sep)) [
  | inl e ↦ (part, split_from sep [] rs, rw e)
  | inr e ↦ let (x, xs, f) = split_from-cons sep (part ++ r ∷ []) rs in (x, xs, rw e f)
]

parse_cron_field-some :
    (field : List ℕ) (lo hi : ℕ) (set : List ℕ)
    → lo ≤ hi
    → parse_cron_field field lo hi ≡ ok set
    → (u : ℕ) × In u set
unfolding parse_cron_field parse_items
parse_cron_field-some field lo hi set h e =
    let (x, xs, f) = split_from-cons b',' [] field in
    let (rising, all) = parse_cron_field-Selects field lo hi set h e in
    let e' : parse_items lo hi (x ∷ xs) [] ≡ ok set =
      subst (λ items. parse_items lo hi items [] ≡ ok set) f e in
    let (i, parsed, _) = bind-eq-ok (parse_item lo hi x) _ set e' in
    let v = parse_item-IsItem lo hi x i h parsed in
    (
      i.start,
      (all i.start).1 (
          subst (λ items. Selects lo hi items i.start) (sym f)
            (inl (i, (parse_item_iff lo hi x i).0 parsed, (0, omega arith, v.ordered)))),
    )

gap_of-total : (u : ℕ) (runs : List ℕ) → In u runs → (gap : ℕ) × (gap_of runs ≡ ok gap)
unfolding gap_of
gap_of-total u [] k = elim k [ ]
gap_of-total u (x ∷ xs) k = (min_gap (x + 1440 - last_run x xs) x xs, refl)

-- An expression of at most 128 bytes with five fields that parse has an interval: the code never
-- indexes an empty slice of runs.
pub cron_min_interval-total :
    (expr minute hour day month weekday minutes hours days months weekdays : List ℕ)
    → byte_len expr ≤ 128
    → fields expr ≡ minute ∷ hour ∷ day ∷ month ∷ weekday ∷ []
    → parse_cron_field minute 0 59 ≡ ok minutes
    → parse_cron_field hour 0 23 ≡ ok hours
    → parse_cron_field day 1 31 ≡ ok days
    → parse_cron_field month 1 12 ≡ ok months
    → parse_cron_field weekday 0 7 ≡ ok weekdays
    → (gap : ℕ) × (cron_min_interval expr ≡ ok gap)
unfolding cron_min_interval interval_of_fields
cron_min_interval-total expr minute hour day month weekday minutes hours days months weekdays short
      five em eh ed eo ew =
    let (m, im) = parse_cron_field-some minute 0 59 minutes (omega arith) em in
    let (n, ih) = parse_cron_field-some hour 0 23 hours (omega arith) eh in
    let (gap, e) =
      gap_of-total (n * 60 + m) (sort_ints (runs_of hours minutes))
        (In-sort_ints (n * 60 + m) (runs_of hours minutes) (In-runs_of n m hours minutes ih im)) in
    let fits : ltb 128 (byte_len expr) ≡ false = ground arith in
    (gap, rw (fits, five, em, eh, ed, eo, ew) e)

module _ (json_valid : List ℕ → Bool) where
  -- A schedule that passes validation never runs twice within five minutes.
  pub validate-apart :
      (s : TaskSchedule) (t u : ℕ)
      → validate json_valid s ≡ none
      → IsRun s.cron t
      → IsRun s.cron u
      → t < u
      → t + 5 ≤ u
  unfolding validate
  validate-apart s t u e rt ru lt =
      let (_, e1) =
        if-eq-none (ltb 64 (byte_len s.id) || not (task_schedule_id s.id)) id_invalid _ e in
      let (_, e2) = if-eq-none (name_invalid s.service) service_invalid _ e1 in
      let (_, e3) = if-eq-none (name_invalid s.method) method_invalid _ e2 in
      let (_, e4) = if-eq-none (ltb 65536 (length s.payload)) payload_long _ e3 in
      let (_, e5) =
        if-eq-none (ltb 0 (length s.payload) && not (json_valid s.payload)) payload_not_json _ e4 in
      by_interval (cron_min_interval s.cron) refl e5
    where
      by_interval :
          (r : Result CronError ℕ)
          → cron_min_interval s.cron ≡ r
          → (elim r [ err x ↦ some x | ok gap ↦ if ltb gap 5 then some too_often else none ]) ≡ none
          → t + 5 ≤ u
      by_interval (err x) f e = cc
      by_interval (ok gap) f e =
          let (wide, _) = if-eq-none (ltb gap 5) too_often none e in
          omega (arith, cron_min_interval-apart s.cron gap t u f rt ru lt, ltb-false→le gap 5 wide)

  -- No id twice, nor one of those seen before.
  abbrev pub Fresh : List (List ℕ) → List TaskSchedule → Type 0
  Fresh seen [] = Unit {0}
  Fresh seen (s ∷ schedules) = All (λ id. s.id ≢ id) seen × Fresh (s.id ∷ seen) schedules

  contains_id_iff :
      (id : List ℕ) (seen : List (List ℕ)) → (contains_id id seen ≡ false) ↔ All (λ x. id ≢ x) seen
  unfolding contains_id
  contains_id_iff id [] = ((λ e. tt), (λ a. refl))
  contains_id_iff id (x ∷ xs) =
      let ih = contains_id_iff id xs in
      elim (Bool-cases (bytes_eq id x)) [
        | inl same ↦ (
          (λ e. let bad : true ≡ false = rw (contains_id, same) at e in cc),
          (λ (new, all). absurd (new ((bytes_eq_iff id x).0 same))),
        )
        | inr differs ↦ (
          (λ e. (
            (λ same. let t = (bytes_eq_iff id x).1 same in cc),
            ih.0 (rw (contains_id, differs) at e),
          )),
          (λ (new, all). rw (contains_id, differs) (ih.1 all)),
        )
      ]

  validate_from_iff :
      (seen : List (List ℕ)) (schedules : List TaskSchedule)
      → (validate_from json_valid seen schedules ≡ none) ↔ (
          All (λ (s : TaskSchedule). validate json_valid s ≡ none) schedules × Fresh seen schedules)
  unfolding validate_from
  validate_from_iff seen [] = ((λ e. (tt, tt)), (λ v. refl))
  validate_from_iff seen (s ∷ schedules) =
      let ih = validate_from_iff (s.id ∷ seen) schedules in
      elim (Option-cases (validate json_valid s)) [
        | inr (x, bad) ↦ (
          (λ e. let failed : some x ≡ none = rw (validate_from, bad) at e in cc),
          (λ ((good, _), _). cc),
        )
        | inl good ↦ (
          (λ e.
              let (new, rest) =
                if-eq-none (contains_id s.id seen) id_twice _ (rw (validate_from, good) at e) in
              let (all, fresh) = ih.0 rest in
              ((good, all), ((contains_id_iff s.id seen).0 new, fresh))),
          (λ ((_, all), (new, fresh)).
              rw (validate_from, good, (contains_id_iff s.id seen).1 new) (ih.1 (all, fresh))),
        )
      ]

  -- A set of schedules passes validation exactly if it holds at most 64, each passes by itself, and
  -- no two have the same id.
  pub validate_task_schedules_iff :
      (schedules : List TaskSchedule)
      → (validate_task_schedules json_valid schedules ≡ none) ↔ (
          (length schedules ≤ 64)
          × All (λ (s : TaskSchedule). validate json_valid s ≡ none) schedules
          × Fresh [] schedules)
  unfolding validate_task_schedules
  validate_task_schedules_iff schedules =
      let each = validate_from_iff [] schedules in
      (
        (λ e.
            let (few, rest) = if-eq-none (ltb 64 (length schedules)) too_many _ e in
            let (all, fresh) = each.0 rest in (ltb-false→le 64 (length schedules) few, all, fresh)),
        (λ (few, all, fresh).
            let fits : ltb 64 (length schedules) ≡ false = ground arith in
            rw fits (each.1 (all, fresh))),
      )
