-- ===== src/Beacon/Responder/Budget.antt =====
-- beacon/responder.go, `Responder.named`: how often a source has a reply that is not ok.
use lattice_sdk.Common.{
  ℕ, ◌+◌, ◌≤◌, ◌<◌, ◌≡◌, sym, ap, subst, ◌∙◌, inl, inr, true, false, some, some-injective, List,
  ltb, ltb→lt, ltb-false→le, Bool-cases, ◌==◌, arith,
}
use lattice_sdk.Common.Int64.{IsNonneg, slt, slt_iff, sub}
use lattice_sdk.Common.Bytes.{uint32_at}
use lattice_sdk.Beacon.Wire.{Hmac}
use lattice_sdk.Beacon.Table.{TableSource}
use lattice_sdk.Beacon.Table.Groups.{lookup}
use lattice_sdk.Beacon.Responder.{Answer, Responder, handle}
use lattice_sdk.Beacon.Responder.Ended.{is_budgeted}
use lattice_sdk.Beacon.Responder.Handled.{IsResponder, Handled}
use lattice_sdk.Beacon.Responder.Answered.{is_named, Handled-Named}
use lattice_sdk.Beacon.Responder.Evolution.{Handled-IsResponder}
use lattice_sdk.Beacon.Responder.Runs.{
  Keeps, Run, here, next, Run-≤, Run-IsResponder, Step-Later, Handled-answer,
}
use lattice_sdk.Beacon.Responder.Safety.{Step-≤}

-- Out of budget in plain arithmetic.
is_budgeted-false :
    (l now : ℕ)
    → 0 < l
    → l ≤ now
    → IsNonneg now
    → is_budgeted l now ≡ false
    → l + 1_000_000_000 ≤ now
is_budgeted-false l now pos le hn e =
    let set' : (l == 0) ≡ false = ground arith in
    let forward : slt now l ≡ false = elim (Bool-cases (slt now l)) [
      | inl t ↦ absurd (omega (arith, (slt_iff now l hn (omega arith)).0 t))
      | inr f ↦ f
    ] in
    elim (Bool-cases (slt (sub now l) 1_000_000_000)) [
      | inl t ↦ let all : is_budgeted l now ≡ true = rw (set', t, forward) in cc
      | inr f ↦ elim (Bool-cases (ltb now (l + 1_000_000_000))) [
        | inl lt ↦
            let near =
              (slt_iff (sub now l) 1_000_000_000 (omega arith) (omega arith)).1
                (omega (arith, ltb→lt now (l + 1_000_000_000) lt)) in
            cc
        | inr ge ↦ ltb-false→le now (l + 1_000_000_000) ge
      ]
    ]

module _ (h : Hmac) (hash : ℕ → List ℕ → ℕ) where
  -- A source had its last named reply between `t0` and now.
  abbrev Marked : ℕ → ℕ → Responder → ℕ → Type 0
  Marked id t0 r t =
      (s : TableSource) × (lookup id r.table ≡ some s)
      × (t0 ≤ s.state.last_named)
      × (s.state.last_named ≤ t)

  Marked-Run :
      (id : ℕ) {r : Responder} {t : ℕ} {r' : Responder} {t' : ℕ} (t0 : ℕ)
      → t0 ≤ t
      → IsResponder hash r
      → Run h hash (Keeps id) r t r' t'
      → Marked id t0 r t
      → Marked id t0 r' t'
  Marked-Run id t0 le w here m = m
  Marked-Run id t0 le w (next p s) m =
      let (src, l, low, high) = Marked-Run id t0 le w p m in
      let (src', l', later) = Step-Later h hash id src (Run-IsResponder h hash w p) s l in
      elim later.named [
        | inl same ↦ (src', l', omega arith, omega (arith, Step-≤ h hash s))
        | inr now ↦ (src', l', omega (arith, Step-≤ h hash s, Run-≤ h hash p), omega arith)
      ]

  module _ (r : Responder) (fresh now : ℕ) (pkt out : List ℕ) (a : Answer) (w : IsResponder hash r)
      (clock : IsNonneg now) (pos : 0 < now) (answer : handle h hash fresh r now pkt out ≡ some a)
      (yes : is_named a.1 ≡ true) (r' : Responder) (t : ℕ)
      (run : Run h hash (Keeps (uint32_at 9 pkt)) a.3 now r' t) (fresh' now' : ℕ)
      (pkt' out' : List ℕ) (b : Answer) (later : t ≤ now') (clock' : IsNonneg now')
      (answer' : handle h hash fresh' r' now' pkt' out' ≡ some b)
      (same_source : uint32_at 9 pkt' ≡ uint32_at 9 pkt) (yes' : is_named b.1 ≡ true) where
    first : Handled h hash fresh r now pkt out a
    first = Handled-answer h hash r fresh now pkt out a clock w answer

    -- Two replies to one source with a status that is not ok are at least a second apart, whatever
    -- datagrams and table refreshes that keep the source come between them, if the first is sent at a
    -- clock above zero and the clocks after it do not go back.
    pub named_spaced : now + 1_000_000_000 ≤ now'
    named_spaced =
        let n1 = Handled-Named h hash fresh r now pkt out w a first yes in
        let w1 = Handled-IsResponder h hash fresh r now pkt out w a first in
        let w2 = Run-IsResponder h hash w1 run in
        let n2 =
          Handled-Named h hash fresh' r' now' pkt' out' w2 b
            (Handled-answer h hash r' fresh' now' pkt' out' b clock' w2 answer') yes' in
        let (s, l, low, high) =
          Marked-Run (uint32_at 9 pkt) now (omega arith) w1 run
            (n1.src', n1.stays, omega (arith, n1.marked), omega (arith, n1.marked)) in
        let same : s ≡ n2.src =
          some-injective s n2.src
            (sym l ∙ ap (λ d. lookup d r'.table) (sym same_source) ∙ n2.listed) in
        let spaced = is_budgeted-false s.state.last_named now' (omega arith) (omega arith) clock' (
          subst (λ (q : TableSource). is_budgeted q.state.last_named now' ≡ false) (sym same)
            n2.in_budget) in
        omega arith
