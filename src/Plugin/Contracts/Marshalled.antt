-- ===== src/Plugin/Contracts/Marshalled.antt =====
-- plugin/manifest.go: what the JSON form of an interface contract keeps.
use mathlib.Core.Option
use lattice_sdk.Common.{
  ℕ, Bool, true, false, ◌≡◌, refl, Option, none, some, List, [], ◌∷◌, map, All,
}
use lattice_sdk.Common.Int64.{slt}
use lattice_sdk.Plugin.Budget.{InvokeBudgetSpec}
use lattice_sdk.Plugin.Budget.Bounds.{IsSpec, unmarshal-marshal}
use lattice_sdk.Plugin.Contracts.{
  InterfaceContract, InterfaceMethod, effective_methods, effective_method_scopes, marshal_json,
  marshal_method, marshal_budget, unmarshal_json, unmarshal_methods, unmarshal_specs,
  unmarshal_method, unmarshal_budget, typed_member, has_typed_methods, method_contract,
  method_contracts, scopes_of,
}

-- A budget of int64 patterns whose HTTP response bytes are not negative.
abbrev pub IsWritable : Option InvokeBudgetSpec → Type 0
IsWritable none = Unit {0}
IsWritable (some b) = IsSpec b × (slt b.http_response_bytes 0 ≡ false)

unmarshal-marshal_budget :
    (b : Option InvokeBudgetSpec) → IsWritable b → unmarshal_budget (marshal_budget b) ≡ some b
unfolding unmarshal_budget marshal_budget
unmarshal-marshal_budget none w = refl
unmarshal-marshal_budget (some b) (spec, positive) =
    rw (unmarshal_budget, unmarshal-marshal b spec positive) refl

unmarshal-marshal_method :
    (m : InterfaceMethod) → IsWritable m.budget → unmarshal_method (marshal_method m) ≡ some m
unfolding unmarshal_method marshal_method
unmarshal-marshal_method m w = rw (unmarshal_method, unmarshal-marshal_budget m.budget w) refl

unmarshal_specs-marshal :
    (ms : List InterfaceMethod)
    → All (λ (m : InterfaceMethod). IsWritable m.budget) ms
    → unmarshal_specs (map marshal_method ms) ≡ some ms
unfolding unmarshal_specs
unmarshal_specs-marshal [] w = refl
unmarshal_specs-marshal (m ∷ ms) (own, all) =
    rw (unmarshal-marshal_method m own, unmarshal_specs-marshal ms all) refl

-- A contract that differs from another one in how its methods are written.
abbrev with_methods : InterfaceContract → Bool → List InterfaceMethod → InterfaceContract
with_methods c typed specs = record c { typed_methods = typed; method_specs = specs }

Kept : InterfaceContract → List ℕ → Type 0
Kept c name =
    (Option.map effective_methods (unmarshal_json (marshal_json c)) ≡ some (effective_methods c))
    × (Option.map (λ (d : InterfaceContract). effective_method_scopes d name)
          (unmarshal_json (marshal_json c))
        ≡ some (effective_method_scopes c name))

with_methods-Kept :
    (typed : Bool) (specs : List InterfaceMethod) (c : InterfaceContract) (name : List ℕ)
    → All (λ (m : InterfaceMethod). IsWritable m.budget) specs
    → Kept (with_methods c typed specs) name
unfolding Kept effective_methods unmarshal_json marshal_json unmarshal_methods typed_member
    has_typed_methods effective_method_scopes method_contract method_contracts scopes_of
with_methods-Kept true [] c name w = (refl, refl)
with_methods-Kept true (m ∷ ms) c name w =
    let back = unmarshal_specs-marshal (m ∷ ms) w in (rw back refl, rw back refl)
with_methods-Kept false [] c name w = (refl, refl)
with_methods-Kept false (m ∷ ms) c name w =
    let back = unmarshal_specs-marshal (m ∷ ms) w in (rw back refl, rw back refl)

-- An interface contract, typed or not, in which no budget's HTTP response bytes are negative, reads
-- back from its JSON form as one that offers the same methods with the same budgets, and that asks
-- the same scopes of each name.
pub effective_methods-unmarshal :
    (c : InterfaceContract) (name : List ℕ)
    → All (λ (m : InterfaceMethod). IsWritable m.budget) c.method_specs
    → (Option.map effective_methods (unmarshal_json (marshal_json c)) ≡ some (effective_methods c))
      × (Option.map
            (λ (d : InterfaceContract). effective_method_scopes d name)
            (unmarshal_json (marshal_json c))
          ≡ some (effective_method_scopes c name))
unfolding Kept
effective_methods-unmarshal c name w = with_methods-Kept c.typed_methods c.method_specs c name w
