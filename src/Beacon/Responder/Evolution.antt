-- ===== src/Beacon/Responder/Evolution.antt =====
-- beacon/responder.go: what one call does to a source that stays in the table.
use lattice_sdk.Common.{
  ℕ, ◌≡◌, ◌⊎◌, refl, sym, subst, ◌∙◌, inl, inr, true, some, some-injective, List, get_elem?, set,
  set-forall, ◌==◌, ==_iff, Bool-cases,
}
use lattice_sdk.Common.Int64.{slt}
use lattice_sdk.Common.Bytes.{slice, uint32_at, uint64_at}
use lattice_sdk.Beacon.Wire.{Hmac}
use lattice_sdk.Beacon.NonceCache.Slots.{Holds}
use lattice_sdk.Beacon.Table.{TableEpoch, SourceState, TableSource}
use lattice_sdk.Beacon.Table.Groups.{lookup}
use lattice_sdk.Beacon.Table.Sorted.{lookup-some}
use lattice_sdk.Beacon.Table.Update.{find_inv, set-IsSorted, lookup-set_other, lookup-set_same}
use lattice_sdk.Beacon.Responder.{Outcome, Answer, Responder, cache_of}
use lattice_sdk.Beacon.Responder.Judge.{IsState}
use lattice_sdk.Beacon.Responder.Ended.{Ended, was_replay, was_budget, was_named, was_ok}
use lattice_sdk.Beacon.Responder.Handled.{IsResponder, Handled, unauthentic, authentic, updated}

-- A source's state after a call at `now`: unexpired nonces stay, and the time of the last named
-- reply stays or is now.
pub record Later (now : ℕ) (st st' : SourceState) : Type 0 where
  pub keeps :
      (m : List ℕ) (e : ℕ)
      → slt now e ≡ true
      → Holds (cache_of st).slots m e
      → Holds (cache_of st').slots m e
  pub named : (st'.last_named ≡ st.last_named) ⊎ (st'.last_named ≡ now)

pub Later-same : (now : ℕ) (st : SourceState) → Later now st st
Later-same now st = record { keeps = λ m e _ k. k; named = inl refl }

module _ (h : Hmac) (hash : ℕ → List ℕ → ℕ) (fresh : ℕ) where
  module _ (start : ℕ) (st : SourceState) (ep : TableEpoch) (now sent seq : ℕ) (nonce out : List ℕ)
      (last : ℕ) where
    pub Ended-Later :
        (o : Outcome)
        → Ended h hash fresh start st ep now sent seq nonce out last o
        → Later now st o.state × IsState hash o.state
    Ended-Later _ (was_replay u st' v) =
        (record { keeps = v.keeps; named = inl v.same_named }, v.valid)
    Ended-Later _ (was_budget s l why b st' v) =
        (record { keeps = v.keeps; named = inl v.same_named }, v.valid)
    Ended-Later _ (was_named s l why b st' v) =
        (record { keeps = v.keeps; named = inr refl }, v.valid)
    Ended-Later _ (was_ok r s u st' v k) =
        (record { keeps = v.keeps; named = inl v.same_named }, v.valid)

  module _ (r : Responder) (now : ℕ) (pkt out : List ℕ) (w : IsResponder hash r) where
    updated-IsResponder :
        (i : ℕ) (src : TableSource) (o : Outcome)
        → get_elem? r.table i ≡ some src
        → IsState hash o.state
        → IsResponder hash (updated h hash fresh r now pkt out i src o)
    updated-IsResponder i src o at v = record {
      sorted = set-IsSorted src (record src { state = o.state }) refl r.table i at w.sorted;
      states =
          set-forall (λ s. IsState hash s.state) r.table i (record src { state = o.state }) v
            w.states;
    }

    pub Handled-IsResponder :
        (a : Answer) → Handled h hash fresh r now pkt out a → IsResponder hash a.3
    Handled-IsResponder _ (unauthentic v f) = w
    Handled-IsResponder _ (authentic i src ep a o e) =
        updated-IsResponder i src o a.source
          (Ended-Later r.start_ns src.state ep now (uint64_at 17 pkt) (uint32_at 13 pkt)
            (slice 25 16 pkt) out r.last_auth o e).1

    pub Handled-Later :
        (id : ℕ) (s : TableSource) (a : Answer)
        → Handled h hash fresh r now pkt out a
        → lookup id r.table ≡ some s
        → (s' : TableSource) × (lookup id a.3.table ≡ some s') × Later now s.state s'.state
    Handled-Later id s _ (unauthentic v f) l = (s, l, Later-same now s.state)
    Handled-Later id s _ (authentic i src ep a o e) l =
        let src' : TableSource = record src { state = o.state } in
        let at = find_inv r.table (uint32_at 9 pkt) i src w.sorted a.found a.source in
        elim (Bool-cases (src.id == id)) [
          | inl f ↦
              let own : src.id ≡ id = (==_iff src.id id).0 f in
              let found = lookup-some r.table id 0 i src w.sorted a.source own in
              let one : src ≡ s = some-injective src s (sym found ∙ l) in
              (
                src',
                subst (λ d. lookup d (set r.table i src') ≡ some src') own
                    (lookup-set_same src src' refl 0 r.table i a.source w.sorted),
                subst (λ (q : TableSource). Later now q.state o.state) one
                    (Ended-Later r.start_ns src.state ep now (uint64_at 17 pkt) (uint32_at 13 pkt)
                      (slice 25 16 pkt) out r.last_auth o e).0,
              )
          | inr f ↦ (
            s,
            lookup-set_other src src' refl r.table i id a.source
                  (λ q. let t = (==_iff src.id id).1 q in cc)
                ∙ l,
            Later-same now s.state,
          )
        ]
