-- ===== src/Plugin/Contracts.antt =====
-- plugin/manifest.go: the interfaces a plugin exposes, their methods and the scopes they need. A
-- string is the list of its bytes, valid UTF-8, and a nil slice is an empty list.
pub mod Marshalled
use lattice_sdk.Common.{
  ℕ, Bool, true, false, not, ◌||◌, Option, none, some, List, [], ◌∷◌, map, if◌then◌else◌, ok, err,
}
use lattice_sdk.Common.Bytes.{bytes_eq}
use lattice_sdk.Common.Options.{◌>>=◌}
use lattice_sdk.Plugin.Budget.{InvokeBudgetSpec, RawBudget, marshal, unmarshal}

-- "read".
abbrev interface_effect_read : List ℕ
interface_effect_read = 114 ∷ 101 ∷ 97 ∷ 100 ∷ []

-- "runtime".
abbrev pub backing_runtime : List ℕ
backing_runtime = 114 ∷ 117 ∷ 110 ∷ 116 ∷ 105 ∷ 109 ∷ 101 ∷ []

pub record InterfaceMethod : Type 0 where
  pub name : List ℕ
  pub effect : List ℕ
  pub scopes : List (List ℕ)
  pub operator_target_fields : List (List ℕ)
  pub budget : Option InvokeBudgetSpec

pub record InterfaceContract : Type 0 where
  pub service : List ℕ
  pub methods : List (List ℕ)
  pub method_specs : List InterfaceMethod
  pub scopes : List (List ℕ)
  pub backing : List ℕ
  pub typed_methods : Bool

abbrev pub is_empty {ℓ} : {A : Type ℓ} → List A → Bool
is_empty [] = true
is_empty (x ∷ xs) = false

-- `Manifest.InterfaceFor`, on the manifest's interfaces.
unfoldable interface_for : List InterfaceContract → List ℕ → Option InterfaceContract
interface_for [] service = none
interface_for (contract ∷ contracts) service =
    let rest = interface_for contracts service in
    if bytes_eq contract.service service then some contract else rest

unfoldable pub effective_backing : InterfaceContract → List ℕ
effective_backing c = if is_empty c.backing then backing_runtime else c.backing

unfoldable pub has_typed_methods : InterfaceContract → Bool
has_typed_methods c = c.typed_methods || not (is_empty c.method_specs)

unfoldable pub read_method : InterfaceContract → List ℕ → InterfaceMethod
read_method c name = record {
  name = name;
  effect = interface_effect_read;
  scopes = c.scopes;
  operator_target_fields = [];
  budget = none;
}

unfoldable pub effective_methods : InterfaceContract → List InterfaceMethod
effective_methods c = if has_typed_methods c then c.method_specs else map (read_method c) c.methods

-- `MethodContracts` copies the slices of each method: the same list.
unfoldable pub method_contracts : InterfaceContract → List InterfaceMethod
method_contracts c = effective_methods c

unfoldable pub find_method : List InterfaceMethod → List ℕ → Option InterfaceMethod
find_method [] name = none
find_method (method ∷ methods) name =
    let rest = find_method methods name in if bytes_eq method.name name then some method else rest

unfoldable pub method_contract : InterfaceContract → List ℕ → Option InterfaceMethod
method_contract c name = find_method (method_contracts c) name

unfoldable pub scopes_or : List (List ℕ) → List (List ℕ) → List (List ℕ)
scopes_or [] scopes = scopes
scopes_or (scope ∷ rest) scopes = scope ∷ rest

unfoldable pub scopes_of : InterfaceContract → Option InterfaceMethod → Option (List (List ℕ))
scopes_of c none = none
scopes_of c (some method) = some (scopes_or method.scopes c.scopes)

unfoldable pub effective_method_scopes : InterfaceContract → List ℕ → Option (List (List ℕ))
effective_method_scopes c name = scopes_of c (method_contract c name)

-- A method object, with the JSON object of its budget.
pub record RawMethod : Type 0 where
  pub name : List ℕ
  pub effect : List ℕ
  pub scopes : List (List ℕ)
  pub operator_target_fields : List (List ℕ)
  pub budget : Option RawBudget

-- The member "methods" of the JSON object: left out, an array of strings (the empty array and null
-- among them), an array of method objects that is not empty, or something else: a mixture, or an
-- object with a member that its struct does not have.
pub data MethodsMember : Type 0 where
  absent mixed : MethodsMember
  strings : List (List ℕ) → MethodsMember
  objects : RawMethod → List RawMethod → MethodsMember

pub record RawContract : Type 0 where
  pub service : List ℕ
  pub methods : MethodsMember
  pub scopes : List (List ℕ)
  pub backing : List ℕ

-- The budget is written by `InvokeBudgetSpec.MarshalJSON`; nil is left out.
unfoldable pub marshal_budget : Option InvokeBudgetSpec → Option RawBudget
marshal_budget none = none
marshal_budget (some b) = some (marshal b)

unfoldable pub marshal_method : InterfaceMethod → RawMethod
marshal_method m = record {
  name = m.name;
  effect = m.effect;
  scopes = m.scopes;
  operator_target_fields = m.operator_target_fields;
  budget = marshal_budget m.budget;
}

unfoldable pub typed_member : List InterfaceMethod → MethodsMember
typed_member [] = strings []
typed_member (m ∷ ms) = objects (marshal_method m) (map marshal_method ms)

-- `MarshalJSON`, up to the encoder of encoding/json.
unfoldable pub marshal_json : InterfaceContract → RawContract
marshal_json c = record {
  service = c.service;
  methods = if has_typed_methods c then typed_member c.method_specs else strings c.methods;
  scopes = c.scopes;
  backing = c.backing;
}

-- The decoder of the method objects, which reads a budget by `InvokeBudgetSpec.UnmarshalJSON`.
-- `none` is its error.
unfoldable pub unmarshal_budget : Option RawBudget → Option (Option InvokeBudgetSpec)
unmarshal_budget none = some none
unmarshal_budget (some raw) = elim (unmarshal raw) [ ok b ↦ some (some b) | err e ↦ none ]

unfoldable pub unmarshal_method : RawMethod → Option InterfaceMethod
unmarshal_method raw = elim (unmarshal_budget raw.budget) [
  | none ↦ none
  | some budget ↦ some (record {
    name = raw.name;
    effect = raw.effect;
    scopes = raw.scopes;
    operator_target_fields = raw.operator_target_fields;
    budget = budget;
  })
]

unfoldable pub unmarshal_specs : List RawMethod → Option (List InterfaceMethod)
unmarshal_specs [] = some []
unmarshal_specs (raw ∷ raws) = do
  method ← unmarshal_method raw
  methods ← unmarshal_specs raws
  some (method ∷ methods)

-- `UnmarshalJSON` after `decodeStrict`. `none` is its error on the methods.
unfoldable pub unmarshal_methods : InterfaceContract → MethodsMember → Option InterfaceContract
unmarshal_methods c absent = some c
unmarshal_methods c mixed = none
unmarshal_methods c (strings names) = some (record c { methods = names })
unmarshal_methods c (objects raw raws) = do
  specs ← unmarshal_specs (raw ∷ raws)
  some (record c {
    method_specs = specs;
    typed_methods = true;
    methods = map (λ method. method.name) specs;
  })

unfoldable pub unmarshal_json : RawContract → Option InterfaceContract
unmarshal_json raw =
    unmarshal_methods
      (record {
        service = raw.service;
        methods = [];
        method_specs = [];
        scopes = raw.scopes;
        backing = raw.backing;
        typed_methods = false;
      })
      raw.methods
