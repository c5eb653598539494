-- ===== src/Plugin/Budget/Bounds.antt =====
-- plugin/budget.go: what validation promises, and that a resolved budget is within the host's maxima.
use lattice_sdk.Common.{
  ℕ, ◌*◌, ◌%◌, ◌^◌, ◌≤◌, ◌<◌, ◌≡◌, ◌↔◌, refl, ap, inl, inr, true, false, Option, none, some, ◌==◌,
  if◌then◌else◌, Bool-cases, Option-cases, ok, if-eq-none, arith,
}
use lattice_sdk.Common.Int64.{IsU64, slt}
use lattice_sdk.Plugin.Budget.{
  InvokeBudgetSpec, ResolvedInvokeBudget, not_positive, unmarshal, marshal,
  validate_invoke_budget_positive, validate_invoke_budget_spec, at_most, or_default,
  clamp_invoke_budget, resolve_invoke_budget,
}

-- Every field is an int64's pattern.
pub record IsSpec (b : InvokeBudgetSpec) : Type 0 where
  pub timeout_ms : IsU64 b.timeout_ms
  pub stdout_bytes : IsU64 b.stdout_bytes
  pub stderr_bytes : IsU64 b.stderr_bytes
  pub host_calls : IsU64 b.host_calls
  pub http_response_bytes : IsU64 b.http_response_bytes

-- A budget that a host may sign, in plain numbers.
pub record IsValid (b : InvokeBudgetSpec) : Type 0 where
  pub timeout_ms : (0 < b.timeout_ms) × (b.timeout_ms ≤ 30_000)
  pub stdout_bytes : (0 < b.stdout_bytes) × (b.stdout_bytes ≤ 8_388_608)
  pub stderr_bytes : (0 < b.stderr_bytes) × (b.stderr_bytes ≤ 1_048_576)
  pub host_calls : b.host_calls ≤ 512
  pub http_response_bytes : b.http_response_bytes ≤ 8_388_608

-- The bounds of a resolved budget; the timeout is in nanoseconds.
pub record IsBounded (r : ResolvedInvokeBudget) : Type 0 where
  pub timeout : (1_000_000 ≤ r.timeout) × (r.timeout ≤ 30_000_000_000)
  pub stdout_bytes : (0 < r.stdout_bytes) × (r.stdout_bytes ≤ 8_388_608)
  pub stderr_bytes : (0 < r.stderr_bytes) × (r.stderr_bytes ≤ 1_048_576)
  pub host_calls : r.host_calls ≤ 512
  pub http_response_bytes : (0 < r.http_response_bytes) × (r.http_response_bytes ≤ 8_388_608)

-- A value behind the clamp and the default is between 1 and the maximum.
clamped :
    (most default v : ℕ)
    → most < 2 ^ 63
    → 0 < default
    → default ≤ most
    → IsU64 v
    → (0 < or_default default (at_most most v)) × (or_default default (at_most most v) ≤ most)
unfolding slt
clamped most default v hm pos le h = ground arith

clamped_calls : (v : ℕ) → IsU64 v → (if slt (at_most 512 v) 0 then 0 else at_most 512 v) ≤ 512
unfolding slt
clamped_calls v h = ground arith

chosen : Option InvokeBudgetSpec → InvokeBudgetSpec → InvokeBudgetSpec
chosen spec defaults = elim spec [ none ↦ defaults | some s ↦ s ]

chosen-IsSpec :
    (spec : Option InvokeBudgetSpec) (defaults : InvokeBudgetSpec)
    → ((b : InvokeBudgetSpec) → spec ≡ some b → IsSpec b)
    → IsSpec defaults
    → IsSpec (chosen spec defaults)
unfolding chosen
chosen-IsSpec none defaults hs hd = hd
chosen-IsSpec (some b) defaults hs hd = hs b refl

-- The tests of the source on a value from 0 to a maximum.
in_range :
    (most v : ℕ)
    → most < 2 ^ 63
    → v ≤ most
    → (slt v 0 ≡ false) × (slt most v ≡ false) × (at_most most v ≡ v)
unfolding slt
in_range most v hm h = (ground arith, ground arith, ground arith)

positive :
    (v : ℕ)
    → 0 < v
    → v < 2 ^ 63
    → (not_positive v ≡ false) × ((default : ℕ) → or_default default v ≡ v)
unfolding slt
positive v h k = (ground arith, λ default. ground arith)

tested : (most v : ℕ) → most < 2 ^ 63 → IsU64 v → slt v 0 ≡ false → slt most v ≡ false → v ≤ most
unfolding slt
tested most v hm h e f = ground arith

tested_positive : (v : ℕ) → IsU64 v → not_positive v ≡ false → (0 < v) × (slt v 0 ≡ false)
unfolding slt
tested_positive v h e = (ground arith, ground arith)

http_default : (v : ℕ) → v ≤ 8_388_608 → or_default 262_144 v ≡ (if v == 0 then 262_144 else v)
unfolding slt
http_default v h = ground arith

-- A resolved budget is within the host's maxima, whatever was declared, the defaults included, and
-- every bound but the one on host calls is positive.
pub resolve-IsBounded :
    (spec : Option InvokeBudgetSpec) (defaults : InvokeBudgetSpec)
    → ((b : InvokeBudgetSpec) → spec ≡ some b → IsSpec b)
    → IsSpec defaults
    → IsBounded (resolve_invoke_budget spec defaults)
unfolding resolve_invoke_budget clamp_invoke_budget chosen
resolve-IsBounded spec defaults hs hd =
    let c = chosen spec defaults in
    let h = chosen-IsSpec spec defaults hs hd in
    let t =
      clamped 30_000 10_000 c.timeout_ms (omega arith) (omega arith) (omega arith) h.timeout_ms in
    record {
      timeout = (omega (arith, t), omega (arith, t));
      stdout_bytes =
          clamped 8_388_608 1_048_576 c.stdout_bytes (omega arith) (omega arith) (omega arith)
            h.stdout_bytes;
      stderr_bytes =
          clamped 1_048_576 1_048_576 c.stderr_bytes (omega arith) (omega arith) (omega arith)
            h.stderr_bytes;
      host_calls = clamped_calls c.host_calls h.host_calls;
      http_response_bytes =
          clamped 8_388_608 262_144 c.http_response_bytes (omega arith) (omega arith) (omega arith)
            h.http_response_bytes;
    }

validate-IsValid :
    (b : InvokeBudgetSpec) → IsSpec b → validate_invoke_budget_spec b ≡ none → IsValid b
unfolding validate_invoke_budget_spec validate_invoke_budget_positive
validate-IsValid b h e = elim (Option-cases (validate_invoke_budget_positive b)) [
  | inr (x, bad) ↦ let failed : some x ≡ none = rw (validate_invoke_budget_spec, bad) at e in cc
  | inl good ↦
      let (p1, q1) = if-eq-none _ _ _ good in
      let (p2, q2) = if-eq-none _ _ _ q1 in
      let (p3, q3) = if-eq-none _ _ _ q2 in
      let (p4, q4) = if-eq-none _ _ _ q3 in
      let (p5, q5) = if-eq-none _ _ _ q4 in
      let (m1, n1) = if-eq-none _ _ _ (rw (validate_invoke_budget_spec, good) at e) in
      let (m2, n2) = if-eq-none _ _ _ n1 in
      let (m3, n3) = if-eq-none _ _ _ n2 in
      let (m4, n4) = if-eq-none _ _ _ n3 in
      let (m5, n5) = if-eq-none _ _ _ n4 in
      let t = tested_positive b.timeout_ms h.timeout_ms p1 in
      let o = tested_positive b.stdout_bytes h.stdout_bytes p2 in
      let r = tested_positive b.stderr_bytes h.stderr_bytes p3 in
      record {
        timeout_ms = (t.0, tested 30_000 b.timeout_ms (omega arith) h.timeout_ms t.1 m1);
        stdout_bytes = (o.0, tested 8_388_608 b.stdout_bytes (omega arith) h.stdout_bytes o.1 m2);
        stderr_bytes = (r.0, tested 1_048_576 b.stderr_bytes (omega arith) h.stderr_bytes r.1 m3);
        host_calls = tested 512 b.host_calls (omega arith) h.host_calls p4 m4;
        http_response_bytes =
            tested 8_388_608 b.http_response_bytes (omega arith) h.http_response_bytes p5 m5;
      }
]

IsValid-validate : (b : InvokeBudgetSpec) → IsValid b → validate_invoke_budget_spec b ≡ none
unfolding validate_invoke_budget_spec validate_invoke_budget_positive
IsValid-validate b v =
    let t = in_range 30_000 b.timeout_ms (omega arith) v.timeout_ms.1 in
    let o = in_range 8_388_608 b.stdout_bytes (omega arith) v.stdout_bytes.1 in
    let e = in_range 1_048_576 b.stderr_bytes (omega arith) v.stderr_bytes.1 in
    let c = in_range 512 b.host_calls (omega arith) v.host_calls in
    let r = in_range 8_388_608 b.http_response_bytes (omega arith) v.http_response_bytes in
    let pt = (positive b.timeout_ms v.timeout_ms.0 (omega (arith, v.timeout_ms))).0 in
    let po = (positive b.stdout_bytes v.stdout_bytes.0 (omega (arith, v.stdout_bytes))).0 in
    let pe = (positive b.stderr_bytes v.stderr_bytes.0 (omega (arith, v.stderr_bytes))).0 in
    rw (
      validate_invoke_budget_spec, validate_invoke_budget_positive, pt, po, pe, c.0, r.0, t.1, o.1,
      e.1, c.1, r.1,
    )

-- A budget passes validation exactly if its timeout and output bounds are positive, its host calls and
-- HTTP response bytes are not negative, and no value is beyond the host's maximum.
pub validate_iff :
    (b : InvokeBudgetSpec) → IsSpec b → (validate_invoke_budget_spec b ≡ none) ↔ IsValid b
validate_iff b h = (validate-IsValid b h, IsValid-validate b)

-- A declared budget that passes validation is the one the invocation runs under; a zero for the
-- HTTP response bytes means their default.
pub resolve-valid :
    (b defaults : InvokeBudgetSpec)
    → IsSpec b
    → IsValid b
    → resolve_invoke_budget (some b) defaults ≡ record {
      timeout = b.timeout_ms * 1_000_000;
      stdout_bytes = b.stdout_bytes;
      stderr_bytes = b.stderr_bytes;
      host_calls = b.host_calls;
      http_response_bytes = if b.http_response_bytes == 0 then 262_144 else b.http_response_bytes;
      declared = true;
    }
unfolding resolve_invoke_budget clamp_invoke_budget
resolve-valid b defaults h v =
    let t = in_range 30_000 b.timeout_ms (omega arith) v.timeout_ms.1 in
    let o = in_range 8_388_608 b.stdout_bytes (omega arith) v.stdout_bytes.1 in
    let e = in_range 1_048_576 b.stderr_bytes (omega arith) v.stderr_bytes.1 in
    let c = in_range 512 b.host_calls (omega arith) v.host_calls in
    let r = in_range 8_388_608 b.http_response_bytes (omega arith) v.http_response_bytes in
    let pt = (positive b.timeout_ms v.timeout_ms.0 (omega (arith, v.timeout_ms))).1 10_000 in
    let po =
      (positive b.stdout_bytes v.stdout_bytes.0 (omega (arith, v.stdout_bytes))).1 1_048_576 in
    let pe =
      (positive b.stderr_bytes v.stderr_bytes.0 (omega (arith, v.stderr_bytes))).1 1_048_576 in
    let fits : (b.timeout_ms * 1_000_000) % 2 ^ 64 ≡ b.timeout_ms * 1_000_000 =
      omega (arith, v.timeout_ms) in
    let http = http_default b.http_response_bytes v.http_response_bytes in
    rw (
      resolve_invoke_budget, clamp_invoke_budget, t.2, o.2, e.2, c.2, r.2, c.0, pt, po, pe, fits,
      http,
    )

nonzero : (v : ℕ) → IsU64 v → slt v 0 ≡ false → (v == 0) ≡ false → not_positive v ≡ false
unfolding slt
nonzero v u h nz = ground arith

-- The JSON of a budget reads back as the budget, unless its HTTP response bytes are negative.
pub unmarshal-marshal :
    (b : InvokeBudgetSpec)
    → IsSpec b
    → slt b.http_response_bytes 0 ≡ false
    → unmarshal (marshal b) ≡ ok b
unfolding unmarshal marshal
unmarshal-marshal b u h = elim (Bool-cases (b.http_response_bytes == 0)) [
  | inl z ↦
      let zero_bytes : 0 ≡ b.http_response_bytes = ground arith in
      rw (unmarshal, marshal, z)
        (ap (λ (d : ℕ). ok (record b { http_response_bytes = d })) zero_bytes)
  | inr nz ↦
      let pos : not_positive b.http_response_bytes ≡ false =
        nonzero b.http_response_bytes u.http_response_bytes h nz in
      rw (unmarshal, marshal, nz, pos)
]
