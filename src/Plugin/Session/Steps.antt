-- ===== src/Plugin/Session/Steps.antt =====
-- plugin/runtime.go, `V2Session.Accept`: what an accepted frame was, in each state.
use lattice_sdk.Common.{
  ℕ, ◌≡◌, ◌⊎◌, inl, inr, refl, true, not, ◌||◌, Option, none, some, some-injective, List, [], ◌==◌,
  ==_iff, if◌then◌else◌, arith,
}
use lattice_sdk.Common.Bytes.{bytes_eq, bytes_eq_iff}
use lattice_sdk.Common.Options.{guard-eq-some, unless-eq-some}
use lattice_sdk.Plugin.Session.{
  Kind, invoke, stderr_chunk, invoke_result, stderr_complete, invoke_ready, other, ready, invoked,
  result, stderr_completed, V2Session, step, accept,
}
use lattice_sdk.Plugin.Ids.{valid_invocation_id}

pub accept-split :
    (s : V2Session) (kind : Kind) (generation : ℕ) (id : List ℕ) (s' : V2Session)
    → accept s kind generation id ≡ some s'
    → (generation ≡ s.generation)
      × (valid_invocation_id id ≡ true)
      × (step s kind id s.state ≡ some s')
unfolding accept
accept-split s kind generation id s' h =
    let (refused, stepped) =
      unless-eq-some (not (generation == s.generation) || not (valid_invocation_id id)) _ s' h in
    ((==_iff generation s.generation).0 (ground arith), ground arith, stepped)

pub accept-join :
    (s : V2Session) (kind : Kind) (id : List ℕ)
    → valid_invocation_id id ≡ true
    → accept s kind s.generation id ≡ step s kind id s.state
unfolding accept
accept-join s kind id ok = rw ((==_iff s.generation s.generation).1 refl, ok) refl

pub step-ready :
    (s : V2Session) (kind : Kind) (id : List ℕ) (s' : V2Session)
    → step s kind id ready ≡ some s'
    → (kind ≡ invoke) × (record s { invocation = id; state = invoked } ≡ s')
unfolding step
step-ready s invoke id s' h = (refl, some-injective _ s' h)
step-ready s stderr_chunk id s' h = cc
step-ready s invoke_result id s' h = cc
step-ready s stderr_complete id s' h = cc
step-ready s invoke_ready id s' h = cc
step-ready s other id s' h = cc

same_id :
    (s : V2Session) (id : List ℕ) (r : Option V2Session) (s' : V2Session)
    → (if not (bytes_eq id s.invocation) then none else r) ≡ some s'
    → (id ≡ s.invocation) × (r ≡ some s')
same_id s id r s' h =
    let (same, eq) = guard-eq-some (bytes_eq id s.invocation) r s' h in
    ((bytes_eq_iff id s.invocation).0 same, eq)

pub step-invoked :
    (s : V2Session) (kind : Kind) (id : List ℕ) (s' : V2Session)
    → step s kind id invoked ≡ some s'
    → (id ≡ s.invocation)
      × (((kind ≡ stderr_chunk) × (s ≡ s'))
          ⊎ ((kind ≡ invoke_result) × (record s { state = result } ≡ s')))
unfolding step
step-invoked s stderr_chunk id s' h =
    let (same, eq) = same_id s id (some s) s' h in (same, inl (refl, some-injective s s' eq))
step-invoked s invoke_result id s' h =
    let (same, eq) = same_id s id _ s' h in (same, inr (refl, some-injective _ s' eq))
step-invoked s invoke id s' h = cc
step-invoked s stderr_complete id s' h = cc
step-invoked s invoke_ready id s' h = cc
step-invoked s other id s' h = cc

pub step-result :
    (s : V2Session) (kind : Kind) (id : List ℕ) (s' : V2Session)
    → step s kind id result ≡ some s'
    → (id ≡ s.invocation) × (kind ≡ stderr_complete) × (record s { state = stderr_completed } ≡ s')
unfolding step
step-result s stderr_complete id s' h =
    let (same, eq) = same_id s id _ s' h in (same, refl, some-injective _ s' eq)
step-result s invoke id s' h = cc
step-result s stderr_chunk id s' h = cc
step-result s invoke_result id s' h = cc
step-result s invoke_ready id s' h = cc
step-result s other id s' h = cc

pub step-completed :
    (s : V2Session) (kind : Kind) (id : List ℕ) (s' : V2Session)
    → step s kind id stderr_completed ≡ some s'
    → (id ≡ s.invocation)
      × (kind ≡ invoke_ready)
      × (record s { state = ready; invocation = [] } ≡ s')
unfolding step
step-completed s invoke_ready id s' h =
    let (same, eq) = same_id s id _ s' h in (same, refl, some-injective _ s' eq)
step-completed s invoke id s' h = cc
step-completed s stderr_chunk id s' h = cc
step-completed s invoke_result id s' h = cc
step-completed s stderr_complete id s' h = cc
step-completed s other id s' h = cc
