-- ===== src/Plugin/Frames.antt =====
-- plugin/frame_fast.go: the frames of the runtime, decoded member by member. A decoder that answers
-- `none` leaves the frame to encoding/json. A Go map of members is the list of them in document
-- order, in which no key stands twice.
pub mod Members
use lattice_sdk.Common.{
  ℕ, Bool, true, false, ◌&&◌, ◌||◌, Option, none, some, List, [], ◌∷◌, ◌++◌, length, ◌==◌,
  if◌then◌else◌,
}
use lattice_sdk.Common.Bytes.{bytes_eq}
use lattice_sdk.Common.Options.{◌>>=◌}
use lattice_sdk.StrictJson.Lexer.{Bytes}
use lattice_sdk.StrictJson.Scanner.{Field, fields, has_key}
use lattice_sdk.StrictJson.Unquote.{string_into}

abbrev pub service_name : Bytes
service_name = b's' ∷ b'e' ∷ b'r' ∷ b'v' ∷ b'i' ∷ b'c' ∷ b'e' ∷ []

abbrev pub method_name : Bytes
method_name = b'm' ∷ b'e' ∷ b't' ∷ b'h' ∷ b'o' ∷ b'd' ∷ []

abbrev pub payload_name : Bytes
payload_name = b'p' ∷ b'a' ∷ b'y' ∷ b'l' ∷ b'o' ∷ b'a' ∷ b'd' ∷ []

abbrev pub action_name : Bytes
action_name = b'a' ∷ b'c' ∷ b't' ∷ b'i' ∷ b'o' ∷ b'n' ∷ []

abbrev pub protocol_name : Bytes
protocol_name = b'p' ∷ b'r' ∷ b'o' ∷ b't' ∷ b'o' ∷ b'c' ∷ b'o' ∷ b'l' ∷ []

abbrev pub kind_name : Bytes
kind_name = b'k' ∷ b'i' ∷ b'n' ∷ b'd' ∷ []

abbrev pub generation_name : Bytes
generation_name = b'g' ∷ b'e' ∷ b'n' ∷ b'e' ∷ b'r' ∷ b'a' ∷ b't' ∷ b'i' ∷ b'o' ∷ b'n' ∷ []

abbrev pub invocation_id_name : Bytes
invocation_id_name =
    b'i' ∷ b'n' ∷ b'v' ∷ b'o' ∷ b'c' ∷ b'a' ∷ b't' ∷ b'i' ∷ b'o' ∷ b'n' ∷ b'_' ∷ b'i' ∷ b'd' ∷ []

abbrev pub host_call_id_name : Bytes
host_call_id_name =
    b'h' ∷ b'o' ∷ b's' ∷ b't' ∷ b'_' ∷ b'c' ∷ b'a' ∷ b'l' ∷ b'l' ∷ b'_' ∷ b'i' ∷ b'd' ∷ []

abbrev pub host_response_name : Bytes
host_response_name =
    b'h' ∷ b'o' ∷ b's' ∷ b't' ∷ b'_' ∷ b'r' ∷ b'e' ∷ b's' ∷ b'p' ∷ b'o' ∷ b'n' ∷ b's' ∷ b'e' ∷ []

abbrev pub id_name : Bytes
id_name = b'i' ∷ b'd' ∷ []

abbrev pub ok_name : Bytes
ok_name = b'o' ∷ b'k' ∷ []

abbrev pub result_name : Bytes
result_name = b'r' ∷ b'e' ∷ b's' ∷ b'u' ∷ b'l' ∷ b't' ∷ []

abbrev pub error_name : Bytes
error_name = b'e' ∷ b'r' ∷ b'r' ∷ b'o' ∷ b'r' ∷ []

abbrev pub request_name : Bytes
request_name = b'r' ∷ b'e' ∷ b'q' ∷ b'u' ∷ b'e' ∷ b's' ∷ b't' ∷ []

-- Whether every member is one of the names.
unfoldable pub all_known : List Bytes → List Field → Bool
all_known names [] = true
all_known names (f ∷ fs) = has_key names f.key && all_known names fs

-- What a member is decoded into, by the type of its target: a raw message, a string, or anything
-- else, which is `json.Unmarshal`.
pub data Target {ℓ} (S : Type ℓ) : Type ℓ where
  raw_message : (Bytes → S → S) → Target S
  text : (S → Bytes) → (Bytes → S → S) → Target S
  other : (Bytes → S → Option S) → Target S

module _ {ℓ} {S : Type ℓ} where
  unfoldable pub target_of : Bytes → List (Bytes × Target S) → Option (Target S)
  target_of key [] = none
  target_of key ((name, target) ∷ targets) =
      if bytes_eq name key then some target else target_of key targets

  unfoldable pub decode_into : Bytes → S → Target S → Option S
  decode_into value s (raw_message put) = some (put value s)
  decode_into value s (text old put) = string_into value (old s) >>= λ t. some (put t s)
  decode_into value s (other put) = put value s

  unfoldable pub decode_member : List (Bytes × Target S) → Field → S → Option S
  decode_member targets f s = target_of f.key targets >>= decode_into f.value s

  unfoldable pub decode_members : List (Bytes × Target S) → List Field → S → Option S
  decode_members targets [] s = some s
  decode_members targets (f ∷ fs) s =
      decode_member targets f s >>= λ s'. decode_members targets fs s'

pub record CallPayload : Type 0 where
  pub service : Bytes
  pub method : Bytes
  pub payload : Bytes

abbrev pub no_call : CallPayload
no_call = record { service = []; method = []; payload = [] }

abbrev pub call_names : List Bytes
call_names = service_name ∷ method_name ∷ payload_name ∷ []

abbrev pub call_targets : List (Bytes × Target CallPayload)
call_targets =
    (service_name, text (λ c. c.service) (λ t c. record c { service = t }))
    ∷ (method_name, text (λ c. c.method) (λ t c. record c { method = t }))
    ∷ (payload_name, raw_message (λ v c. record c { payload = v }))
    ∷ []

pub record Request : Type 0 where
  pub action : Bytes
  pub service : Bytes
  pub method : Bytes
  pub payload : Bytes

abbrev pub request_names : List Bytes
request_names = action_name ∷ service_name ∷ method_name ∷ payload_name ∷ []

abbrev pub request_targets : List (Bytes × Target Request)
request_targets =
    (action_name, text (λ r. r.action) (λ t r. record r { action = t }))
    ∷ (service_name, text (λ r. r.service) (λ t r. record r { service = t }))
    ∷ (method_name, text (λ r. r.method) (λ t r. record r { method = t }))
    ∷ (payload_name, raw_message (λ v r. record r { payload = v }))
    ∷ []

pub record InvokeV2Frame : Type 0 where
  pub protocol : ℕ
  pub kind : Bytes
  pub generation : ℕ
  pub invocation_id : Bytes
  pub request : Option Request

abbrev pub invoke_names : List Bytes
invoke_names = protocol_name ∷ kind_name ∷ generation_name ∷ invocation_id_name ∷ request_name ∷ []

-- The members of a host's response, each of them raw.
pub record HostResponsePayload : Type 0 where
  pub id : Bytes
  pub ok : Bytes
  pub result : Bytes
  pub error : Bytes

abbrev pub no_payload : HostResponsePayload
no_payload = record { id = []; ok = []; result = []; error = [] }

abbrev pub response_names : List Bytes
response_names = id_name ∷ ok_name ∷ result_name ∷ error_name ∷ []

abbrev pub response_targets : List (Bytes × Target HostResponsePayload)
response_targets =
    (id_name, raw_message (λ v r. record r { id = v }))
    ∷ (ok_name, raw_message (λ v r. record r { ok = v }))
    ∷ (result_name, raw_message (λ v r. record r { result = v }))
    ∷ (error_name, raw_message (λ v r. record r { error = v }))
    ∷ []

pub record HostResponseEnvelope : Type 0 where
  pub protocol : ℕ
  pub kind : Bytes
  pub generation : ℕ
  pub invocation_id : Bytes
  pub host_call_id : Bytes
  pub host_response : HostResponsePayload

abbrev pub envelope_names : List Bytes
envelope_names =
    protocol_name ∷ kind_name ∷ generation_name ∷ invocation_id_name ∷ host_call_id_name
    ∷ host_response_name ∷ []

-- The first member of a name, and the members without it.
unfoldable pub member : Bytes → List Field → Option Bytes
member name [] = none
member name (f ∷ fs) = if bytes_eq f.key name then some f.value else member name fs

unfoldable pub delete : Bytes → List Field → List Field
delete name [] = []
delete name (f ∷ fs) = if bytes_eq f.key name then delete name fs else f ∷ delete name fs

-- The first two parameters are those of the scanner; `decode_int` and `decode_uint` are
-- `json.Unmarshal` into an int and a uint64 that holds a value already.
module _ (parse_float : Bytes → Bool) (unmarshal : Bytes → Option Bytes)
    (decode_int decode_uint : Bytes → ℕ → Option ℕ) where
  unfoldable pub strict_members : Bytes → List Bytes → Option (List Field)
  strict_members raw names =
      fields parse_float unmarshal raw >>= λ fs. if all_known names fs then some fs else none

  unfoldable pub call_payload_fast : Bytes → Option CallPayload
  call_payload_fast raw =
      strict_members raw call_names >>= λ ms. decode_members call_targets ms no_call

  abbrev pub invoke_targets : List (Bytes × Target InvokeV2Frame)
  invoke_targets =
      (
        protocol_name,
        other (λ v f. decode_int v f.protocol >>= λ n. some (record f { protocol = n })),
      )
      ∷ (kind_name, text (λ f. f.kind) (λ t f. record f { kind = t }))
      ∷ (
        generation_name,
        other (λ v f. decode_uint v f.generation >>= λ n. some (record f { generation = n })),
      )
      ∷ (invocation_id_name, text (λ f. f.invocation_id) (λ t f. record f { invocation_id = t }))
      ∷ []

  unfoldable pub decode_request : Option Bytes → Option (Option Request)
  decode_request none = some none
  decode_request (some request) = do
    inner ← strict_members request request_names
    r ←
        decode_members request_targets inner
          (record { action = []; service = []; method = []; payload = [] })
    some (some r)

  unfoldable pub decode_invoke_v2_fast : Bytes → Option InvokeV2Frame
  decode_invoke_v2_fast raw = do
    members ← strict_members raw invoke_names
    request ← decode_request (member request_name members)
    decode_members invoke_targets (delete request_name members)
        (record { protocol = 0; kind = []; generation = 0; invocation_id = []; request = request })

  abbrev pub envelope_targets : List (Bytes × Target HostResponseEnvelope)
  envelope_targets =
      (
        protocol_name,
        other (λ v e. decode_uint v e.protocol >>= λ n. some (record e { protocol = n })),
      )
      ∷ (kind_name, text (λ e. e.kind) (λ t e. record e { kind = t }))
      ∷ (
        generation_name,
        other (λ v e. decode_uint v e.generation >>= λ n. some (record e { generation = n })),
      )
      ∷ (invocation_id_name, text (λ e. e.invocation_id) (λ t e. record e { invocation_id = t }))
      ∷ (host_call_id_name, text (λ e. e.host_call_id) (λ t e. record e { host_call_id = t }))
      ∷ []

  unfoldable pub decode_host_payload : Option Bytes → Option HostResponsePayload
  decode_host_payload none = some no_payload
  decode_host_payload (some response) = do
    inner ← strict_members response response_names
    decode_members response_targets inner no_payload

  unfoldable pub decode_host_response_fast : Bytes → Option HostResponseEnvelope
  decode_host_response_fast raw = do
    members ← strict_members raw envelope_names
    response ← decode_host_payload (member host_response_name members)
    decode_members envelope_targets (delete host_response_name members) (record {
      protocol = 0;
      kind = [];
      generation = 0;
      invocation_id = [];
      host_call_id = [];
      host_response = response;
    })
