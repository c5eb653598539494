-- ===== src/Beacon/Responder/Total.antt =====
-- beacon/responder.go, `Responder.Handle`: it ends in every state that a responder reaches, and
-- does nothing for a datagram whose tag did not verify.
use lattice_sdk.Common.{ℕ, ◌≡◌, true, false, List}
use lattice_sdk.Beacon.Wire.{Hmac}
use lattice_sdk.Beacon.Table.{TableEpoch, TableSource}
use lattice_sdk.Beacon.Responder.{authenticated, Answer, Responder, new_responder}
use lattice_sdk.Beacon.Responder.Ended.{Ended}
use lattice_sdk.Beacon.Responder.Handled.{IsResponder, Authentic, Handled}

module _ (h : Hmac) (hash : ℕ → List ℕ → ℕ) where
  pub IsResponder-new : (start : ℕ) → IsResponder hash (new_responder start)
  IsResponder-new start = record { sorted = tt; states = λ i s e. cc }

  module _ (fresh : ℕ) (r : Responder) (now : ℕ) (pkt out : List ℕ) where
    abbrev pub Unknown : Answer → Type 0
    Unknown (n, v, out', r') = (authenticated v ≡ false) × (n ≡ 0) × (out' ≡ out) × (r' ≡ r)

    abbrev pub Known : Answer → Type 0
    Known (n, v, out', r') =
        (authenticated v ≡ true)
        × ((i : ℕ) × (src : TableSource) × (ep : TableEpoch) × Authentic h hash fresh r now pkt out
              i src ep)
