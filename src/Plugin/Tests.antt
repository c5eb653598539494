-- ===== src/Plugin/Tests.antt =====
-- The plugin contracts at concrete inputs.
mod Calls
use mathlib.Core.Option
use lattice_sdk.Common.{
  ℕ, zero, suc, ◌+◌, ◌-◌, ◌^◌, ◌≤◌, ◌≡◌, ◌↔◌, refl, Option, some, none, true, false, ok,
  some-injective, subst, arith, List, [], ◌∷◌, ◌++◌, length, Bool, ltb, inl, All,
}
use lattice_sdk.Common.Bytes.{bytes_eq}
use lattice_sdk.Common.Int64.{slt}
use lattice_sdk.Common.Runes.{
  all_digits, atoi, byte_len, cut, fields, fields_from, split, split_from,
}
use lattice_sdk.Plugin.Session.{new_v2_session}
use lattice_sdk.Plugin.Session.Order.{Invocation, IsNumbered, frames_of, accept_all, accept_all_iff}
use lattice_sdk.Plugin.Contracts.{
  InterfaceContract, effective_methods, effective_method_scopes, marshal_json, unmarshal_json,
}
use lattice_sdk.Plugin.Contracts.Marshalled.{effective_methods-unmarshal}
use lattice_sdk.Plugin.Cron.{
  TaskSchedule, cron_min_interval, interval_of_fields, cron_number, parse_step, parse_span,
  parse_single, parse_range, bounded_item, parse_item, select, select_range, parse_items,
  parse_cron_field, insert_int, sort_ints, runs_of_hour, runs_of, last_run, min_gap, gap_of,
  validate, validate_task_schedules, task_schedule_id, all_id, name_invalid, has_control,
}
use lattice_sdk.Plugin.Cron.Items.{parse_item_iff}
use lattice_sdk.Plugin.Cron.Ranges.{In, Rising, Selects}
use lattice_sdk.Plugin.Cron.Fields.{parse_cron_field-Selects}
use lattice_sdk.Plugin.Cron.Schedules.{
  IsRun, Fresh, cron_min_interval-apart, cron_min_interval-total, validate-apart,
  validate_task_schedules_iff,
}
use lattice_sdk.Plugin.Budget.{
  InvokeBudgetSpec, resolve_invoke_budget, validate_invoke_budget_spec, default_invoke_budget_spec,
}
use lattice_sdk.Plugin.Budget.Bounds.{
  IsSpec, IsValid, IsBounded, resolve-IsBounded, validate_iff, resolve-valid,
}

-- A timeout beyond the maximum and a host call bound of -1.
abbrev wild_spec : InvokeBudgetSpec
wild_spec = record {
  timeout_ms = 90_000;
  stdout_bytes = 5_000;
  stderr_bytes = 0;
  host_calls = 2 ^ 64 - 1;
  http_response_bytes = 0;
}

wild-IsSpec : IsSpec wild_spec
wild-IsSpec = record {
  timeout_ms = omega arith;
  stdout_bytes = omega arith;
  stderr_bytes = omega arith;
  host_calls = omega arith;
  http_response_bytes = omega arith;
}

default-IsSpec : IsSpec default_invoke_budget_spec
default-IsSpec = record {
  timeout_ms = omega arith;
  stdout_bytes = omega arith;
  stderr_bytes = omega arith;
  host_calls = omega arith;
  http_response_bytes = omega arith;
}

default-IsValid : IsValid default_invoke_budget_spec
default-IsValid = record {
  timeout_ms = (omega arith, omega arith);
  stdout_bytes = (omega arith, omega arith);
  stderr_bytes = (omega arith, omega arith);
  host_calls = omega arith;
  http_response_bytes = omega arith;
}

resolve-IsBounded_example :
    IsBounded (resolve_invoke_budget (some wild_spec) default_invoke_budget_spec)
resolve-IsBounded_example =
    resolve-IsBounded (some wild_spec) default_invoke_budget_spec
      (λ b e. subst IsSpec (some-injective wild_spec b e) wild-IsSpec) default-IsSpec

validate_iff_example : (validate_invoke_budget_spec wild_spec ≡ none) ↔ IsValid wild_spec
validate_iff_example = validate_iff wild_spec wild-IsSpec

resolve-valid_example : resolve_invoke_budget (some default_invoke_budget_spec) wild_spec ≡ record {
  timeout = 10_000_000_000;
  stdout_bytes = 1_048_576;
  stderr_bytes = 1_048_576;
  host_calls = 64;
  http_response_bytes = 262_144;
  declared = true;
}
resolve-valid_example =
    resolve-valid default_invoke_budget_spec wild_spec default-IsSpec default-IsValid

-- "*/15", "3,9" and "1-5", and the expression that they stand in.
abbrev quarters : List ℕ
quarters = b'*' ∷ b'/' ∷ b'1' ∷ b'5' ∷ []

abbrev two_hours : List ℕ
two_hours = b'3' ∷ b',' ∷ b'9' ∷ []

abbrev work_days : List ℕ
work_days = b'1' ∷ b'-' ∷ b'5' ∷ []

abbrev every : List ℕ
every = b'*' ∷ []

abbrev expr : List ℕ
expr = quarters ++ b' ' ∷ two_hours ++ b' ' ∷ every ++ b' ' ∷ every ++ b' ' ∷ b' ' ∷ work_days

expr_interval : cron_min_interval expr ≡ ok 15
unfolding cron_min_interval interval_of_fields byte_len fields_from split_from cut all_digits atoi
    cron_number parse_step parse_span parse_single parse_range bounded_item parse_item select
    select_range parse_items parse_cron_field insert_int sort_ints runs_of_hour runs_of last_run
    min_gap gap_of bytes_eq
expr_interval = refl

expr-IsRun_195 : IsRun expr 195
unfolding cron_min_interval interval_of_fields byte_len fields_from split_from cut all_digits atoi
    cron_number parse_step parse_span parse_single parse_range bounded_item parse_item select
    select_range parse_items parse_cron_field insert_int sort_ints runs_of_hour runs_of last_run
    min_gap gap_of bytes_eq
expr-IsRun_195 = (
  inl (
    record { start = 0; end = 59; step = 15 },
    (parse_item_iff 0 59 quarters _).0 refl,
    (1, refl, omega arith),
  ),
  inl (
    record { start = 3; end = 3; step = 1 },
    (parse_item_iff 0 23 (b'3' ∷ []) _).0 refl,
    (0, refl, omega arith),
  ),
)

-- The first run of the next day.
expr-IsRun_1620 : IsRun expr 1620
unfolding cron_min_interval interval_of_fields byte_len fields_from split_from cut all_digits atoi
    cron_number parse_step parse_span parse_single parse_range bounded_item parse_item select
    select_range parse_items parse_cron_field insert_int sort_ints runs_of_hour runs_of last_run
    min_gap gap_of bytes_eq
expr-IsRun_1620 = (
  inl (
    record { start = 0; end = 59; step = 15 },
    (parse_item_iff 0 59 quarters _).0 refl,
    (0, refl, omega arith),
  ),
  inl (
    record { start = 3; end = 3; step = 1 },
    (parse_item_iff 0 23 (b'3' ∷ []) _).0 refl,
    (0, refl, omega arith),
  ),
)

cron_min_interval-apart_example : 15 ≤ 1620 - 195
cron_min_interval-apart_example =
    cron_min_interval-apart expr 15 195 1620 expr_interval expr-IsRun_195 expr-IsRun_1620
      (omega arith)

quarters_parse : parse_cron_field quarters 0 59 ≡ ok (0 ∷ 15 ∷ 30 ∷ 45 ∷ [])
unfolding cron_min_interval interval_of_fields byte_len fields_from split_from cut all_digits atoi
    cron_number parse_step parse_span parse_single parse_range bounded_item parse_item select
    select_range parse_items parse_cron_field insert_int sort_ints runs_of_hour runs_of last_run
    min_gap gap_of bytes_eq
quarters_parse = refl

parse_cron_field-Selects_example :
    Rising 0 (0 ∷ 15 ∷ 30 ∷ 45 ∷ [])
    × ((u : ℕ) → In u (0 ∷ 15 ∷ 30 ∷ 45 ∷ []) ↔ Selects 0 59 (split b',' quarters) u)
parse_cron_field-Selects_example =
    parse_cron_field-Selects quarters 0 59 (0 ∷ 15 ∷ 30 ∷ 45 ∷ []) (omega arith) quarters_parse

-- The five fields of an expression parse.
abbrev one_to : ℕ → ℕ → List ℕ
one_to x zero = []
one_to x (suc n) = x ∷ one_to (suc x) n

two_hours_parse : parse_cron_field two_hours 0 23 ≡ ok (3 ∷ 9 ∷ [])
unfolding cron_min_interval interval_of_fields byte_len fields_from split_from cut all_digits atoi
    cron_number parse_step parse_span parse_single parse_range bounded_item parse_item select
    select_range parse_items parse_cron_field insert_int sort_ints runs_of_hour runs_of last_run
    min_gap gap_of bytes_eq
two_hours_parse = refl

days_parse : parse_cron_field every 1 31 ≡ ok (one_to 1 31)
unfolding cron_min_interval interval_of_fields byte_len fields_from split_from cut all_digits atoi
    cron_number parse_step parse_span parse_single parse_range bounded_item parse_item select
    select_range parse_items parse_cron_field insert_int sort_ints runs_of_hour runs_of last_run
    min_gap gap_of bytes_eq
days_parse = refl

months_parse : parse_cron_field every 1 12 ≡ ok (one_to 1 12)
unfolding cron_min_interval interval_of_fields byte_len fields_from split_from cut all_digits atoi
    cron_number parse_step parse_span parse_single parse_range bounded_item parse_item select
    select_range parse_items parse_cron_field insert_int sort_ints runs_of_hour runs_of last_run
    min_gap gap_of bytes_eq
months_parse = refl

weekdays_parse : parse_cron_field work_days 0 7 ≡ ok (one_to 1 5)
unfolding cron_min_interval interval_of_fields byte_len fields_from split_from cut all_digits atoi
    cron_number parse_step parse_span parse_single parse_range bounded_item parse_item select
    select_range parse_items parse_cron_field insert_int sort_ints runs_of_hour runs_of last_run
    min_gap gap_of bytes_eq
weekdays_parse = refl

expr-fields : fields expr ≡ quarters ∷ two_hours ∷ every ∷ every ∷ work_days ∷ []
unfolding fields_from
expr-fields = refl

expr_short : byte_len expr ≤ 128
unfolding byte_len
expr_short = omega arith

cron_min_interval-total_example : (gap : ℕ) × (cron_min_interval expr ≡ ok gap)
cron_min_interval-total_example =
    cron_min_interval-total expr quarters two_hours every every work_days (0 ∷ 15 ∷ 30 ∷ 45 ∷ [])
      (3 ∷ 9 ∷ []) (one_to 1 31) (one_to 1 12) (one_to 1 5) expr_short expr-fields quarters_parse
      two_hours_parse days_parse months_parse weekdays_parse

abbrev schedule : TaskSchedule
schedule = record {
  id = b'd' ∷ b'a' ∷ b'y' ∷ [];
  cron = expr;
  service = b's' ∷ [];
  method = b'm' ∷ [];
  payload = b'{' ∷ b'}' ∷ [];
}

-- A stand-in for `json.Valid`.
abbrev accepts : List ℕ → Bool
accepts payload = ltb 1 (length payload)

schedule_valid : validate accepts schedule ≡ none
unfolding cron_min_interval interval_of_fields byte_len fields_from split_from cut all_digits atoi
    cron_number parse_step parse_span parse_single parse_range bounded_item parse_item select
    select_range parse_items parse_cron_field insert_int sort_ints runs_of_hour runs_of last_run
    min_gap gap_of bytes_eq validate task_schedule_id all_id name_invalid has_control
schedule_valid = refl

validate-apart_example : 195 + 5 ≤ 1620
validate-apart_example =
    validate-apart accepts schedule 195 1620 schedule_valid expr-IsRun_195 expr-IsRun_1620
      (omega arith)

validate_task_schedules_iff_example :
    (validate_task_schedules accepts (schedule ∷ schedule ∷ []) ≡ none) ↔ (
      (length (schedule ∷ schedule ∷ []) ≤ 64)
      × All (λ (s : TaskSchedule). validate accepts s ≡ none) (schedule ∷ schedule ∷ [])
      × Fresh accepts [] (schedule ∷ schedule ∷ []))
validate_task_schedules_iff_example = validate_task_schedules_iff accepts (schedule ∷ schedule ∷ [])

-- A typed contract whose one method asks no scope of its own, so the contract's scope stands.
abbrev typed_contract : InterfaceContract
typed_contract = record {
  service = b's' ∷ [];
  methods = [];
  method_specs =
      record {
        name = b'm' ∷ [];
        effect = b'w' ∷ [];
        scopes = [];
        operator_target_fields = [];
        budget = some wild_spec;
      }
      ∷ [];
  scopes = (b'k' ∷ []) ∷ [];
  backing = [];
  typed_methods = false;
}

wild-nonneg : slt wild_spec.http_response_bytes 0 ≡ false
unfolding slt
wild-nonneg = refl

effective_methods-unmarshal_example :
    (Option.map effective_methods (unmarshal_json (marshal_json typed_contract))
      ≡ some (effective_methods typed_contract))
    × (Option.map
          (λ (d : InterfaceContract). effective_method_scopes d (b'm' ∷ []))
          (unmarshal_json (marshal_json typed_contract))
        ≡ some (effective_method_scopes typed_contract (b'm' ∷ [])))
effective_methods-unmarshal_example =
    effective_methods-unmarshal typed_contract (b'm' ∷ []) ((wild-IsSpec, wild-nonneg), tt)

-- Two invocations, the first of which writes two chunks to its standard error.
abbrev two_invocations : List Invocation
two_invocations = record { id = b'1' ∷ []; chunks = 2 } ∷ record { id = b'2' ∷ []; chunks = 0 } ∷ []

accept_all_iff_example :
    (accept_all (new_v2_session 7) (frames_of 7 two_invocations) ≡ some (new_v2_session 7))
    ↔ ((is : List Invocation) × All IsNumbered is × (frames_of 7 two_invocations ≡ frames_of 7 is))
accept_all_iff_example = accept_all_iff 7 (frames_of 7 two_invocations)
