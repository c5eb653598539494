-- ===== src/Beacon/Responder/Runs.antt =====
-- beacon/responder.go: a responder over time. Datagrams and table refreshes follow one another, and
-- the clock that `Handle` is given does not go back.
use lattice_sdk.Common.{
  ℕ, ◌≤◌, ◌≡◌, ◌≢◌, sym, subst, ◌∙◌, some, some-injective, List, [], ok, arith,
}
use lattice_sdk.Common.Int64.{IsNonneg}
use lattice_sdk.Beacon.Wire.{Hmac}
use lattice_sdk.Beacon.Table.{TableEntry, TableSource}
use lattice_sdk.Beacon.Table.Groups.{held, lookup}
use lattice_sdk.Beacon.Responder.{Answer, Responder, handle, replace_table}
use lattice_sdk.Beacon.Responder.Evolution.{Later, Later-same, Handled-IsResponder, Handled-Later}
use lattice_sdk.Beacon.Responder.Refresh.{replace_table-IsResponder, replace_table-state}
use lattice_sdk.Beacon.Responder.Handled.{IsResponder, Handled, handle_cases}

-- A table in which a source stays.
abbrev pub Keeps : ℕ → List TableEntry → Type 0
Keeps id entries = held id entries ≢ []

module _ (h : Hmac) (hash : ℕ → List ℕ → ℕ) where
  -- One call, from the clock of the last datagram to that of the next; `keep` says which tables a
  -- refresh may bring.
  pub data Step (keep : List TableEntry → Type 0) : Responder → ℕ → Responder → ℕ → Type 0 where
    datagram :
        {r : Responder} {t : ℕ} (fresh now : ℕ) (pkt out : List ℕ) (a : Answer)
        → t ≤ now
        → IsNonneg now
        → handle h hash fresh r now pkt out ≡ some a
        → Step keep r t a.3 now
    refresh :
        {r : Responder} {t : ℕ} (entries : List TableEntry) (r' : Responder)
        → keep entries
        → replace_table r entries ≡ ok r'
        → Step keep r t r' t

  pub data Run (keep : List TableEntry → Type 0) (r : Responder) (t : ℕ)
      : Responder → ℕ → Type 0 where
    here : Run keep r t r t
    next :
        {r1 r2 : Responder} {t1 t2 : ℕ}
        → Run keep r t r1 t1
        → Step keep r1 t1 r2 t2
        → Run keep r t r2 t2

  pub Run-≤ :
      {keep : List TableEntry → Type 0} {r : Responder} {t : ℕ} {r' : Responder} {t' : ℕ}
      → Run keep r t r' t'
      → t ≤ t'
  Run-≤ here = omega arith
  Run-≤ (next p (datagram fresh now pkt out a le n e)) = omega (arith, Run-≤ p)
  Run-≤ (next p (refresh entries r' k e)) = Run-≤ p

  -- A call that was answered is one of the cases of `Handled`.
  pub Handled-answer :
      (r : Responder) (fresh now : ℕ) (pkt out : List ℕ) (a : Answer)
      → IsNonneg now
      → IsResponder hash r
      → handle h hash fresh r now pkt out ≡ some a
      → Handled h hash fresh r now pkt out a
  Handled-answer r fresh now pkt out a hn w e =
      let (b, run, k) = handle_cases h hash fresh r now pkt out w hn in
      subst (Handled h hash fresh r now pkt out) (some-injective b a (sym run ∙ e)) k

  Step-IsResponder :
      {keep : List TableEntry → Type 0} {r : Responder} {t : ℕ} {r' : Responder} {t' : ℕ}
      → IsResponder hash r
      → Step keep r t r' t'
      → IsResponder hash r'
  Step-IsResponder {r = r} w (datagram fresh now pkt out a le n e) =
      Handled-IsResponder h hash fresh r now pkt out w a
        (Handled-answer r fresh now pkt out a n w e)
  Step-IsResponder {r = r} w (refresh entries r' k e) =
      replace_table-IsResponder hash r entries r' e w

  pub Run-IsResponder :
      {keep : List TableEntry → Type 0} {r : Responder} {t : ℕ} {r' : Responder} {t' : ℕ}
      → IsResponder hash r
      → Run keep r t r' t'
      → IsResponder hash r'
  Run-IsResponder w here = w
  Run-IsResponder w (next p s) = Step-IsResponder (Run-IsResponder w p) s

  pub Step-Later :
      (id : ℕ) {r : Responder} {t : ℕ} {r' : Responder} {t' : ℕ} (s : TableSource)
      → IsResponder hash r
      → Step (Keeps id) r t r' t'
      → lookup id r.table ≡ some s
      → (s' : TableSource) × (lookup id r'.table ≡ some s') × Later t' s.state s'.state
  Step-Later id {r = r} s w (datagram fresh now pkt out a le n e) l =
      Handled-Later h hash fresh r now pkt out w id s a (Handled-answer r fresh now pkt out a n w e)
        l
  Step-Later id {r = r} {t = t} s w (refresh entries r' k e) l =
      let (s', found, same) = replace_table-state hash r entries r' e id s w.sorted k l in
      (s', found, subst (Later t s.state) (sym same) (Later-same t s.state))
