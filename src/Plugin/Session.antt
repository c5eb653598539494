-- ===== src/Plugin/Session.antt =====
-- plugin/runtime.go, `V2Session`: the order of the frames of one invocation. A string is the list of
-- its bytes, and a frame's kind is one of those that the session knows, or another one.
pub mod Steps
pub mod Order
use lattice_sdk.Common.{ℕ, Bool, not, ◌||◌, Option, none, some, List, [], ◌==◌, if◌then◌else◌}
use lattice_sdk.Common.Bytes.{bytes_eq}
use lattice_sdk.Plugin.Ids.{valid_invocation_id}

pub data Kind : Type 0 where
  invoke stderr_chunk invoke_result stderr_complete invoke_ready other : Kind

pub data State : Type 0 where
  ready invoked result stderr_completed : State

pub record V2Session : Type 0 where
  pub generation : ℕ
  pub state : State
  pub invocation : List ℕ

abbrev pub new_v2_session : ℕ → V2Session
new_v2_session generation = record { generation = generation; state = ready; invocation = [] }

-- `none` is ErrV2Protocol, which leaves the session as it was.
-- The `switch` on the state.
unfoldable pub step : V2Session → Kind → List ℕ → State → Option V2Session
step s invoke invocation ready = some (record s { invocation = invocation; state = invoked })
step s kind invocation ready = none
step s stderr_chunk invocation invoked =
    if not (bytes_eq invocation s.invocation) then none else some s
step s invoke_result invocation invoked =
    if not (bytes_eq invocation s.invocation) then none else some (record s { state = result })
step s kind invocation invoked = none
step s stderr_complete invocation result =
    if not (bytes_eq invocation s.invocation)
    then none
    else some (record s { state = stderr_completed })
step s kind invocation result = none
step s invoke_ready invocation stderr_completed =
    if not (bytes_eq invocation s.invocation)
    then none
    else some (record s { state = ready; invocation = [] })
step s kind invocation stderr_completed = none

unfoldable pub accept : V2Session → Kind → ℕ → List ℕ → Option V2Session
accept s kind generation invocation =
    if not (generation == s.generation) || not (valid_invocation_id invocation)
    then none
    else step s kind invocation s.state
