-- ===== src/Plugin/Session/Order.antt =====
-- plugin/runtime.go, `V2Session`: the sequences of frames that a session accepts.
use lattice_sdk.Common.{
  ℕ, ◌<◌, ◌^◌, zero, suc, ◌≡◌, ◌↔◌, inl, inr, refl, ap, ap₂, ◌∙◌, true, Option, some,
  some-injective, List, [], ◌∷◌, ◌++◌, All,
}
use lattice_sdk.Common.Bytes.{bytes_eq_refl}
use lattice_sdk.Common.Options.{◌>>=◌, bind-eq-some}
use lattice_sdk.Plugin.Session.{
  Kind, invoke, stderr_chunk, invoke_result, stderr_complete, invoke_ready, State, ready, invoked,
  result, stderr_completed, V2Session, new_v2_session, step, accept,
}
use lattice_sdk.Plugin.Ids.{valid_invocation_id, valid_invocation_id_iff}
use lattice_sdk.Plugin.Session.Steps.{
  accept-split, accept-join, step-ready, step-invoked, step-result, step-completed,
}
use lattice_sdk.Common.Decimals.{format_uint}

pub record Frame : Type 0 where
  pub kind : Kind
  pub generation : ℕ
  pub invocation : List ℕ

-- An invocation by its id, and how many chunks of its standard error are sent.
pub record Invocation : Type 0 where
  pub id : List ℕ
  pub chunks : ℕ

abbrev frame : Kind → ℕ → List ℕ → Frame
frame kind generation id = record { kind = kind; generation = generation; invocation = id }

abbrev chunk_frames : ℕ → List ℕ → ℕ → List Frame
chunk_frames generation id zero = []
chunk_frames generation id (suc n) = frame stderr_chunk generation id ∷ chunk_frames generation id n

abbrev last_frames : ℕ → List ℕ → List Frame
last_frames generation id =
    frame invoke_result generation id
    ∷ frame stderr_complete generation id
    ∷ frame invoke_ready generation id
    ∷ []

-- The frames of whole invocations, one after the other.
abbrev pub frames_of : ℕ → List Invocation → List Frame
frames_of generation [] = []
frames_of generation (i ∷ is) =
    frame invoke generation i.id
    ∷ (chunk_frames generation i.id i.chunks
        ++ (last_frames generation i.id ++ frames_of generation is))

-- A session that is given the frames in turn. `none` is an error at one of them.
unfoldable pub accept_all : V2Session → List Frame → Option V2Session
accept_all s [] = some s
accept_all s (f ∷ fs) = accept s f.kind f.generation f.invocation >>= λ s'. accept_all s' fs

-- What is still to come in each state, up to the end of an invocation.
abbrev Whole : ℕ → List Frame → Type 0
Whole g fs =
    (is : List Invocation) × All (λ i. valid_invocation_id i.id ≡ true) is × (fs ≡ frames_of g is)

abbrev in_state : ℕ → State → List ℕ → V2Session
in_state g state id = record { generation = g; state = state; invocation = id }

abbrev Rest : ℕ → State → List ℕ → List Frame → Type 0
Rest g ready id fs = Whole g fs
Rest g invoked id fs =
    (n : ℕ) × (later : List Frame) × (fs ≡ chunk_frames g id n ++ (last_frames g id ++ later))
    × Whole g later
Rest g result id fs =
    (later : List Frame) × (fs ≡ frame stderr_complete g id ∷ frame invoke_ready g id ∷ later)
    × Whole g later
Rest g stderr_completed id fs =
    (later : List Frame) × (fs ≡ frame invoke_ready g id ∷ later) × Whole g later

first_accepted :
    (s s2 : V2Session) (f : Frame) (fs : List Frame)
    → accept_all s (f ∷ fs) ≡ some s2
    → (s1 : V2Session) × (f.generation ≡ s.generation)
      × (valid_invocation_id f.invocation ≡ true)
      × (step s f.kind f.invocation s.state ≡ some s1)
      × (accept_all s1 fs ≡ some s2)
unfolding accept_all
first_accepted s s2 f fs h =
    let (s1, one, rest) = bind-eq-some (accept s f.kind f.generation f.invocation) _ s2 h in
    let (gen, ok, stepped) = accept-split s f.kind f.generation f.invocation s1 one in
    (s1, gen, ok, stepped, rest)

frame-eq :
    (f : Frame) (k : Kind) (g : ℕ) (id : List ℕ)
    → f.kind ≡ k
    → f.generation ≡ g
    → f.invocation ≡ id
    → f ≡ frame k g id
frame-eq f k g id hk hg hi = rw (← hk, ← hg, ← hi) refl

unfinished :
    (g : ℕ) (state : State) (id : List ℕ)
    → accept_all (in_state g state id) [] ≡ some (new_v2_session g)
    → state ≡ ready
unfolding accept_all
unfinished g state id h = ap (λ (s : V2Session). s.state) (some-injective (in_state g state id) _ h)

accept_all-Rest :
    (g : ℕ) (state : State) (id : List ℕ) (fs : List Frame)
    → accept_all (in_state g state id) fs ≡ some (new_v2_session g)
    → Rest g state id fs
accept_all-Rest g ready id [] h = ([], tt, refl)
accept_all-Rest g invoked id [] h = absurd (let e = unfinished g invoked id h in cc)
accept_all-Rest g result id [] h = absurd (let e = unfinished g result id h in cc)
accept_all-Rest g stderr_completed id [] h =
    absurd (let e = unfinished g stderr_completed id h in cc)
accept_all-Rest g ready id (f ∷ fs) h =
    let (s1, gen, ok, stepped, rest) = first_accepted (in_state g ready id) _ f fs h in
    let (kind, now) = step-ready (in_state g ready id) f.kind f.invocation s1 stepped in
    let (n, later, eq, (is, all, whole)) =
      accept_all-Rest g invoked f.invocation fs (rw (← now) at rest) in
    (
      record { id = f.invocation; chunks = n } ∷ is,
      (ok, all),
      ap₂ (λ a b. a ∷ b) (frame-eq f invoke g f.invocation kind gen refl) (rw whole at eq),
    )
accept_all-Rest g invoked id (f ∷ fs) h =
    let (s1, gen, ok, stepped, rest) = first_accepted (in_state g invoked id) _ f fs h in
    let (same, cases) = step-invoked (in_state g invoked id) f.kind f.invocation s1 stepped in
    elim cases [
      | inl (kind, now) ↦
          (let (n, later, eq, whole) = accept_all-Rest g invoked id fs (rw (← now) at rest) in
            (
              suc n,
              later,
              ap₂ (λ a b. a ∷ b) (frame-eq f stderr_chunk g id kind gen same) eq,
              whole,
            ))
      | inr (kind, now) ↦
          (let (later, eq, whole) = accept_all-Rest g result id fs (rw (← now) at rest) in
            (
              zero,
              later,
              ap₂ (λ a b. a ∷ b) (frame-eq f invoke_result g id kind gen same) eq,
              whole,
            ))
    ]
accept_all-Rest g result id (f ∷ fs) h =
    let (s1, gen, ok, stepped, rest) = first_accepted (in_state g result id) _ f fs h in
    let (same, kind, now) = step-result (in_state g result id) f.kind f.invocation s1 stepped in
    let (later, eq, whole) = accept_all-Rest g stderr_completed id fs (rw (← now) at rest) in
    (later, ap₂ (λ a b. a ∷ b) (frame-eq f stderr_complete g id kind gen same) eq, whole)
accept_all-Rest g stderr_completed id (f ∷ fs) h =
    let (s1, gen, ok, stepped, rest) = first_accepted (in_state g stderr_completed id) _ f fs h in
    let (same, kind, now) =
      step-completed (in_state g stderr_completed id) f.kind f.invocation s1 stepped in
    let whole = accept_all-Rest g ready [] fs (rw (← now) at rest) in
    (fs, ap (λ a. a ∷ fs) (frame-eq f invoke_ready g id kind gen same), whole)

chunks-accepted :
    (g : ℕ) (id : List ℕ) (n : ℕ) (fs : List Frame)
    → valid_invocation_id id ≡ true
    → accept_all (in_state g invoked id) (chunk_frames g id n ++ fs)
      ≡ accept_all (in_state g invoked id) fs
unfolding accept_all step
chunks-accepted g id zero fs ok = refl
chunks-accepted g id (suc n) fs ok =
    rw (accept-join (in_state g invoked id) stderr_chunk id ok, bytes_eq_refl id)
      (chunks-accepted g id n fs ok)

last-accepted :
    (g : ℕ) (id : List ℕ) (fs : List Frame)
    → valid_invocation_id id ≡ true
    → accept_all (in_state g invoked id) (last_frames g id ++ fs) ≡ accept_all (new_v2_session g) fs
unfolding accept_all step
last-accepted g id fs ok =
    rw
      (
        accept-join (in_state g invoked id) invoke_result id ok,
        bytes_eq_refl id,
        accept-join (in_state g result id) stderr_complete id ok,
        bytes_eq_refl id,
        accept-join (in_state g stderr_completed id) invoke_ready id ok,
        bytes_eq_refl id,
      )
      refl

whole-accepted :
    (g : ℕ) (is : List Invocation)
    → All (λ i. valid_invocation_id i.id ≡ true) is
    → accept_all (new_v2_session g) (frames_of g is) ≡ some (new_v2_session g)
unfolding accept_all step
whole-accepted g [] all = refl
whole-accepted g (i ∷ is) (ok, all) = rw (accept-join (new_v2_session g) invoke i.id ok) (
    chunks-accepted g i.id i.chunks (last_frames g i.id ++ frames_of g is) ok
    ∙ (last-accepted g i.id (frames_of g is) ok ∙ whole-accepted g is all))

-- The ids of whole invocations, as the numbers they are.
abbrev pub IsNumbered : Invocation → Type 0
IsNumbered i = (n : ℕ) × (0 < n) × (n < 2 ^ 63) × (i.id ≡ format_uint n)

valid-IsNumbered :
    (is : List Invocation) → All (λ i. valid_invocation_id i.id ≡ true) is → All IsNumbered is
valid-IsNumbered [] all = tt
valid-IsNumbered (i ∷ is) (ok, all) = ((valid_invocation_id_iff i.id).0 ok, valid-IsNumbered is all)

IsNumbered-valid :
    (is : List Invocation) → All IsNumbered is → All (λ i. valid_invocation_id i.id ≡ true) is
IsNumbered-valid [] all = tt
IsNumbered-valid (i ∷ is) (n, all) = ((valid_invocation_id_iff i.id).1 n, IsNumbered-valid is all)

-- A new session accepts a sequence of frames and is ready again exactly if the sequence is the
-- frames of whole invocations, one after the other, all of the session's generation: an invoke, any
-- number of stderr chunks, the result, the end of stderr and ready. The id of each invocation is the
-- decimal form of a positive int64.
pub accept_all_iff :
    (g : ℕ) (fs : List Frame)
    → (accept_all (new_v2_session g) fs ≡ some (new_v2_session g))
      ↔ ((is : List Invocation) × All IsNumbered is × (fs ≡ frames_of g is))
accept_all_iff g fs = (
  (λ h. let (is, all, eq) = accept_all-Rest g ready [] fs h in (is, valid-IsNumbered is all, eq)),
  (λ (is, all, eq).
      ap (accept_all (new_v2_session g)) eq ∙ whole-accepted g is (IsNumbered-valid is all)),
)
