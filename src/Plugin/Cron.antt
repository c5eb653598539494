-- ===== src/Plugin/Cron.antt =====
-- plugin/task_schedule.go: cron expressions and task schedules. A string is the list of its runes,
-- as valid UTF-8 has them; a Go error is a `CronError`. Go's ints here are never negative.
pub mod Dialect
pub mod Items
pub mod Ranges
pub mod Fields
pub mod Interval
pub mod Schedules
use lattice_sdk.Common.{
  ℕ, zero, suc, ◌+◌, ◌-◌, ◌*◌, ◌≤◌, Bool, true, false, ◌||◌, ◌&&◌, not, Option, none, some, List,
  [], ◌∷◌, ◌++◌, map, length, ltb, leb, ◌==◌, min, if◌then◌else◌, Result, ok, err, ◌>>=◌,
}
use lattice_sdk.Common.Bytes.{bytes_eq}
use lattice_sdk.Common.Runes.{
  all_digits, atoi, byte_len, cut, fields, fields_from, is_digit, is_space, rune_len, split,
  split_from,
}

abbrev pub max_task_schedules_per_plugin : ℕ
max_task_schedules_per_plugin = 64

-- In minutes.
abbrev pub min_task_schedule_interval : ℕ
min_task_schedule_interval = 5

abbrev pub max_task_schedule_id_bytes : ℕ
max_task_schedule_id_bytes = 64

abbrev pub max_task_schedule_cron_bytes : ℕ
max_task_schedule_cron_bytes = 128

abbrev pub max_task_schedule_name_bytes : ℕ
max_task_schedule_name_bytes = 128

abbrev pub max_task_schedule_payload_bytes : ℕ
max_task_schedule_payload_bytes = 64 * 1024

pub data CronError : Type 0 where
  not_a_number invalid_step invalid_range invalid_value step_needs_range outside : CronError
  expression_long five_fields index_out_of_range : CronError
  id_invalid service_invalid method_invalid payload_long payload_not_json too_often : CronError
  too_many id_twice : CronError

unfoldable pub cron_number : List ℕ → Result CronError ℕ
cron_number s =
    if length s == 0 || ltb 2 (byte_len s) || not (all_digits s)
    then err not_a_number
    else ok (atoi 0 s)

-- What an item selects: every `step`th number from `start` to `end`.
pub record Item : Type 0 where
  pub start : ℕ
  pub end : ℕ
  pub step : ℕ

-- `if err != nil { return nil, … }`, with the error that the code makes of it.
abbrev pub or_else {ℓ} : {A : Type ℓ} → Result CronError A → CronError → Result CronError A
or_else (ok a) e = ok a
or_else (err x) e = err e

unfoldable pub parse_step : Option (List ℕ) → Result CronError ℕ
parse_step none = ok 1
parse_step (some s) = elim (cron_number s) [
  | err x ↦ err invalid_step
  | ok n ↦ if ltb n 1 then err invalid_step else ok n
]

-- `a-b`.
unfoldable pub parse_span : List ℕ → List ℕ → Result CronError (ℕ × ℕ)
parse_span a b = do
  start ← or_else (cron_number a) invalid_range
  end ← or_else (cron_number b) invalid_range
  if ltb end start then err invalid_range else ok (start, end)

-- A number alone.
unfoldable pub parse_single : List ℕ → Bool → Result CronError (ℕ × ℕ)
parse_single range has_step =
    if has_step
    then err step_needs_range
    else (or_else (cron_number range) invalid_value >>= λ (n : ℕ). ok (n, n))

-- The `switch` on `rangePart`.
unfoldable pub parse_range : ℕ → ℕ → List ℕ → Bool → Result CronError (ℕ × ℕ)
parse_range lo hi range has_step =
    let (a, rest) = cut b'-' range in
    if bytes_eq range (b'*' ∷ [])
    then ok (lo, hi)
    else elim rest [ some b ↦ parse_span a b | none ↦ parse_single range has_step ]

-- The bounds check behind the `switch`.
unfoldable pub bounded_item : ℕ → ℕ → ℕ → ℕ × ℕ → Result CronError Item
bounded_item lo hi step (start, end) =
    if ltb start lo || ltb hi end
    then err outside
    else ok (record { start = start; end = end; step = step })

-- One round of `parseCronField`, up to its loop.
unfoldable pub parse_item : ℕ → ℕ → List ℕ → Result CronError Item
parse_item lo hi item =
    let (range, step) = cut b'/' item in
    parse_step step >>= λ (n : ℕ).
    (parse_range lo hi range (elim step [ none ↦ false | some s ↦ true ]) >>= λ (p : ℕ × ℕ).
    bounded_item lo hi n p)

-- A value among the selected, which stand sorted and distinct.
unfoldable pub select : ℕ → List ℕ → List ℕ
select v [] = v ∷ []
select v (x ∷ xs) =
    let rest = select v xs in if v == x then x ∷ xs else if ltb v x then v ∷ x ∷ xs else x ∷ rest

-- `for v := start; v <= end; v += step { selected[v] = struct{}{} }`. A round needs one fuel.
unfoldable pub select_range : ℕ → ℕ → ℕ → ℕ → List ℕ → List ℕ
select_range zero v end step selected = selected
select_range (suc fuel) v end step selected =
    let rest = select_range fuel (v + step) end step (select v selected) in
    if leb v end then rest else selected

unfoldable pub parse_items : ℕ → ℕ → List (List ℕ) → List ℕ → Result CronError (List ℕ)
parse_items lo hi [] selected = ok selected
parse_items lo hi (item ∷ items) selected = parse_item lo hi item >>= λ (i : Item).
    parse_items lo hi items (select_range (suc i.end - i.start) i.start i.end i.step selected)

unfoldable pub parse_cron_field : List ℕ → ℕ → ℕ → Result CronError (List ℕ)
parse_cron_field field lo hi = parse_items lo hi (split b',' field) []

-- `sort.Ints`.
unfoldable pub insert_int : ℕ → List ℕ → List ℕ
insert_int v [] = v ∷ []
insert_int v (x ∷ xs) = let rest = insert_int v xs in if leb v x then v ∷ x ∷ xs else x ∷ rest

unfoldable pub sort_ints : List ℕ → List ℕ
sort_ints [] = []
sort_ints (x ∷ xs) = insert_int x (sort_ints xs)

-- The two loops that fill `runs`.
unfoldable pub runs_of_hour : ℕ → List ℕ → List ℕ
runs_of_hour hour [] = []
runs_of_hour hour (minute ∷ minutes) = (hour * 60 + minute) ∷ runs_of_hour hour minutes

unfoldable pub runs_of : List ℕ → List ℕ → List ℕ
runs_of [] minutes = []
runs_of (hour ∷ hours) minutes = runs_of_hour hour minutes ++ runs_of hours minutes

-- `runs[len(runs)-1]`, for the first run and the others.
unfoldable pub last_run : ℕ → List ℕ → ℕ
last_run x [] = x
last_run x (y ∷ ys) = last_run y ys

-- The loop over neighbours.
unfoldable pub min_gap : ℕ → ℕ → List ℕ → ℕ
min_gap gap x [] = gap
min_gap gap x (y ∷ ys) = min_gap (min gap (y - x)) y ys

-- The gap of sorted runs; `runs[0]` panics if there are none.
unfoldable pub gap_of : List ℕ → Result CronError ℕ
gap_of [] = err index_out_of_range
gap_of (x ∷ xs) = ok (min_gap (x + 24 * 60 - last_run x xs) x xs)

-- `CronMinInterval` behind `strings.Fields`.
unfoldable pub interval_of_fields : List (List ℕ) → Result CronError ℕ
interval_of_fields (minute ∷ hour ∷ day ∷ month ∷ weekday ∷ []) = do
  minutes ← parse_cron_field minute 0 59
  hours ← parse_cron_field hour 0 23
  days ← parse_cron_field day 1 31
  months ← parse_cron_field month 1 12
  weekdays ← parse_cron_field weekday 0 7
  gap_of (sort_ints (runs_of hours minutes))
interval_of_fields fields = err five_fields

-- `CronMinInterval`, in minutes.
unfoldable pub cron_min_interval : List ℕ → Result CronError ℕ
cron_min_interval expr =
    if ltb max_task_schedule_cron_bytes (byte_len expr)
    then err expression_long
    else interval_of_fields (fields expr)

-- `Payload` is a string of bytes.
pub record TaskSchedule : Type 0 where
  pub id : List ℕ
  pub cron : List ℕ
  pub service : List ℕ
  pub method : List ℕ
  pub payload : List ℕ

-- `^[a-z0-9][a-z0-9._-]*$`.
abbrev pub is_id_start : ℕ → Bool
is_id_start r = (leb b'a' r && leb r b'z') || is_digit r

unfoldable pub all_id : List ℕ → Bool
all_id [] = true
all_id (r ∷ rs) = (is_id_start r || r == b'.' || r == b'_' || r == b'-') && all_id rs

unfoldable pub task_schedule_id : List ℕ → Bool
task_schedule_id [] = false
task_schedule_id (r ∷ rs) = is_id_start r && all_id rs

-- `strings.ContainsFunc` with the test of the loop over the names.
unfoldable pub has_control : List ℕ → Bool
has_control [] = false
has_control (r ∷ rs) = leb r b' ' || r == 127 || has_control rs

unfoldable pub name_invalid : List ℕ → Bool
name_invalid v = length v == 0 || ltb max_task_schedule_name_bytes (byte_len v) || has_control v

unfoldable pub contains_id : List ℕ → List (List ℕ) → Bool
contains_id id [] = false
contains_id id (x ∷ xs) = bytes_eq id x || contains_id id xs

-- `json_valid` is `json.Valid`. nil is `none`. The loop over the two names runs in no fixed order;
-- here the service comes first, which shows in the error alone.
module _ (json_valid : List ℕ → Bool) where
  unfoldable pub validate : TaskSchedule → Option CronError
  validate s =
      if ltb max_task_schedule_id_bytes (byte_len s.id) || not (task_schedule_id s.id)
      then some id_invalid
      else if name_invalid s.service
      then some service_invalid
      else if name_invalid s.method
      then some method_invalid
      else if ltb max_task_schedule_payload_bytes (length s.payload)
      then some payload_long
      else if ltb 0 (length s.payload) && not (json_valid s.payload)
      then some payload_not_json
      else elim (cron_min_interval s.cron) [
        | err e ↦ some e
        | ok interval ↦ if ltb interval min_task_schedule_interval then some too_often else none
      ]

  -- The loop of `ValidateTaskSchedules`.
  unfoldable pub validate_from : List (List ℕ) → List TaskSchedule → Option CronError
  validate_from seen [] = none
  validate_from seen (s ∷ schedules) =
      let rest = validate_from (s.id ∷ seen) schedules in
      elim (validate s) [
        | some e ↦ some e
        | none ↦ if contains_id s.id seen then some id_twice else rest
      ]

  unfoldable pub validate_task_schedules : List TaskSchedule → Option CronError
  validate_task_schedules schedules =
      if ltb max_task_schedules_per_plugin (length schedules)
      then some too_many
      else validate_from [] schedules
