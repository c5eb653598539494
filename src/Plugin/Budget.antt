-- ===== src/Plugin/Budget.antt =====
-- plugin/budget.go: the budget of one invocation. A Go int is an int64's pattern.
pub mod Bounds
use lattice_sdk.Common.{
  ℕ, zero, suc, ◌+◌, ◌*◌, ◌%◌, ◌^◌, Bool, true, false, not, ◌||◌, Option, none, some, ◌==◌,
  if◌then◌else◌, Result, ok, err,
}
use lattice_sdk.Common.Int64.{slt}

abbrev pub default_invoke_timeout_ms : ℕ
default_invoke_timeout_ms = 10_000

abbrev pub default_invoke_stdout_bytes : ℕ
default_invoke_stdout_bytes = 2 ^ 20

abbrev pub default_invoke_stderr_bytes : ℕ
default_invoke_stderr_bytes = 2 ^ 20

abbrev pub default_invoke_host_calls : ℕ
default_invoke_host_calls = 64

abbrev pub host_max_invoke_timeout_ms : ℕ
host_max_invoke_timeout_ms = 30_000

abbrev pub host_max_invoke_stdout_bytes : ℕ
host_max_invoke_stdout_bytes = 8 * 2 ^ 20

abbrev pub host_max_invoke_stderr_bytes : ℕ
host_max_invoke_stderr_bytes = 2 ^ 20

abbrev pub host_max_invoke_host_calls : ℕ
host_max_invoke_host_calls = 512

abbrev pub default_invoke_http_response_bytes : ℕ
default_invoke_http_response_bytes = 256 * 2 ^ 10

abbrev pub host_max_invoke_http_response_bytes : ℕ
host_max_invoke_http_response_bytes = 8 * 2 ^ 20

pub record InvokeBudgetSpec : Type 0 where
  pub timeout_ms : ℕ
  pub stdout_bytes : ℕ
  pub stderr_bytes : ℕ
  pub host_calls : ℕ
  pub http_response_bytes : ℕ

-- The struct of pointers that `UnmarshalJSON` decodes into: a member of the JSON object, or nil.
pub record RawBudget : Type 0 where
  pub timeout_ms : Option ℕ
  pub stdout_bytes : Option ℕ
  pub stderr_bytes : Option ℕ
  pub host_calls : Option ℕ
  pub http_response_bytes : Option ℕ

pub data BudgetError : Type 0 where
  missing_member http_response_bytes_present : BudgetError
  timeout_positive stdout_positive stderr_positive host_calls_negative http_negative : BudgetError
  timeout_maximum stdout_maximum stderr_maximum host_calls_maximum http_maximum : BudgetError

-- `v <= 0`.
abbrev pub not_positive : ℕ → Bool
not_positive v = not (slt 0 v)

-- `UnmarshalJSON` behind `decodeStrict`.
unfoldable pub unmarshal : RawBudget → Result BudgetError InvokeBudgetSpec
unmarshal raw = elim raw.timeout_ms [
  | none ↦ err missing_member
  | some timeout ↦ elim raw.stdout_bytes [
    | none ↦ err missing_member
    | some stdout ↦ elim raw.stderr_bytes [
      | none ↦ err missing_member
      | some stderr ↦ elim raw.host_calls [
        | none ↦ err missing_member
        | some calls ↦
            let b : InvokeBudgetSpec = record {
              timeout_ms = timeout;
              stdout_bytes = stdout;
              stderr_bytes = stderr;
              host_calls = calls;
              http_response_bytes = 0;
            } in
            elim raw.http_response_bytes [
              | none ↦ ok b
              | some http ↦
                  if not_positive http
                  then err http_response_bytes_present
                  else ok (record b { http_response_bytes = http })
            ]
      ]
    ]
  ]
]

-- The members that `MarshalJSON` writes: `omitempty` leaves a zero out.
unfoldable pub marshal : InvokeBudgetSpec → RawBudget
marshal b = record {
  timeout_ms = some b.timeout_ms;
  stdout_bytes = some b.stdout_bytes;
  stderr_bytes = some b.stderr_bytes;
  host_calls = some b.host_calls;
  http_response_bytes = if b.http_response_bytes == 0 then none else some b.http_response_bytes;
}

abbrev pub default_invoke_budget_spec : InvokeBudgetSpec
default_invoke_budget_spec = record {
  timeout_ms = default_invoke_timeout_ms;
  stdout_bytes = default_invoke_stdout_bytes;
  stderr_bytes = default_invoke_stderr_bytes;
  host_calls = default_invoke_host_calls;
  http_response_bytes = 0;
}

-- nil is `none`.
unfoldable pub validate_invoke_budget_positive : InvokeBudgetSpec → Option BudgetError
validate_invoke_budget_positive b =
    if not_positive b.timeout_ms
    then some timeout_positive
    else if not_positive b.stdout_bytes
    then some stdout_positive
    else if not_positive b.stderr_bytes
    then some stderr_positive
    else if slt b.host_calls 0
    then some host_calls_negative
    else if slt b.http_response_bytes 0
    then some http_negative
    else none

unfoldable pub validate_invoke_budget_spec : InvokeBudgetSpec → Option BudgetError
validate_invoke_budget_spec b = elim (validate_invoke_budget_positive b) [
  | some e ↦ some e
  | none ↦
      if slt host_max_invoke_timeout_ms b.timeout_ms
      then some timeout_maximum
      else if slt host_max_invoke_stdout_bytes b.stdout_bytes
      then some stdout_maximum
      else if slt host_max_invoke_stderr_bytes b.stderr_bytes
      then some stderr_maximum
      else if slt host_max_invoke_host_calls b.host_calls
      then some host_calls_maximum
      else if slt host_max_invoke_http_response_bytes b.http_response_bytes
      then some http_maximum
      else none
]

-- `timeout` is a duration in nanoseconds.
pub record ResolvedInvokeBudget : Type 0 where
  pub timeout : ℕ
  pub stdout_bytes : ℕ
  pub stderr_bytes : ℕ
  pub host_calls : ℕ
  pub http_response_bytes : ℕ
  pub declared : Bool

-- `if v > most { v = most }`.
abbrev pub at_most : ℕ → ℕ → ℕ
at_most most v = if slt most v then most else v

unfoldable pub clamp_invoke_budget : InvokeBudgetSpec → InvokeBudgetSpec
clamp_invoke_budget b = record {
  timeout_ms = at_most host_max_invoke_timeout_ms b.timeout_ms;
  stdout_bytes = at_most host_max_invoke_stdout_bytes b.stdout_bytes;
  stderr_bytes = at_most host_max_invoke_stderr_bytes b.stderr_bytes;
  host_calls = at_most host_max_invoke_host_calls b.host_calls;
  http_response_bytes = at_most host_max_invoke_http_response_bytes b.http_response_bytes;
}

-- `if v <= 0 { v = default }`.
abbrev pub or_default : ℕ → ℕ → ℕ
or_default default v = if not_positive v then default else v

unfoldable pub resolve_invoke_budget :
    Option InvokeBudgetSpec → InvokeBudgetSpec → ResolvedInvokeBudget
resolve_invoke_budget spec defaults =
    let b = clamp_invoke_budget (elim spec [ none ↦ defaults | some s ↦ s ]) in
    record {
      timeout = (or_default default_invoke_timeout_ms b.timeout_ms * 1_000_000) % 2 ^ 64;
      stdout_bytes = or_default default_invoke_stdout_bytes b.stdout_bytes;
      stderr_bytes = or_default default_invoke_stderr_bytes b.stderr_bytes;
      host_calls = if slt b.host_calls 0 then 0 else b.host_calls;
      http_response_bytes = or_default default_invoke_http_response_bytes b.http_response_bytes;
      declared = elim spec [ none ↦ false | some s ↦ true ];
    }
