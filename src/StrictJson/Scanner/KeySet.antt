-- ===== src/StrictJson/Scanner/KeySet.antt =====
-- strictjson/strictjson.go: the duplicate check of `object`, whose slice becomes a map at 64 keys.
use lattice_sdk.Common.{
  ◌≡◌, refl, sym, ◌∙◌, ap, Bool, true, false, ◌||◌, Option, none, some, List, [], ◌∷◌, ◌++◌, length,
  ◌==◌, if◌then◌else◌, arith, some-injective,
}
use lattice_sdk.Common.Bytes.{bytes_eq}
use lattice_sdk.Common.Options.{unless-eq-some}
use lattice_sdk.StrictJson.Lexer.{Bytes}
use lattice_sdk.StrictJson.Scanner.{
  Keys, no_keys, has_key, add_linear, add_seen, add_key, linear_keys,
}

-- The keys that the next one is compared with.
abbrev held : List Bytes → Option (List Bytes) → List Bytes
held keys none = keys
held keys (some seen) = seen

-- A key set that refuses exactly the keys of a list.
abbrev pub Holds : Keys → List Bytes → Type 0
Holds ks earlier = (key : Bytes) → has_key (held ks.keys ks.seen) key ≡ has_key earlier key

pub no_keys-Holds : Holds no_keys []
no_keys-Holds key = refl

has_key-concat :
    (keys : List Bytes) (key k : Bytes)
    → has_key (keys ++ key ∷ []) k ≡ (bytes_eq key k || has_key keys k)
unfolding has_key
has_key-concat [] key k = refl
has_key-concat (x ∷ keys) key k = ground (arith, has_key-concat keys key k)

linear-Holds :
    (keys earlier : List Bytes) (key : Bytes) (full : Bool)
    → ((k : Bytes) → has_key keys k ≡ has_key earlier k)
    → Holds
        (record { keys = keys ++ key ∷ []; seen = if full then some (keys ++ key ∷ []) else none })
        (key ∷ earlier)
unfolding has_key
linear-Holds keys earlier key true h k = rw (has_key-concat keys key k, h k) refl
linear-Holds keys earlier key false h k = rw (has_key-concat keys key k, h k) refl

-- A new key is added, and a key that is there is refused.
pub add_seen-Holds :
    (key : Bytes) (keys : List Bytes) (seen : Option (List Bytes)) (earlier : List Bytes)
    → Holds (record { keys = keys; seen = seen }) earlier
    → has_key earlier key ≡ false
    → (ks : Keys) × (add_seen key (record { keys = keys; seen = seen }) seen ≡ some ks)
      × Holds ks (key ∷ earlier)
unfolding add_seen add_linear has_key
add_seen-Holds key keys none earlier h new = (
  record {
    keys = keys ++ key ∷ [];
    seen = if length (keys ++ key ∷ []) == linear_keys then some (keys ++ key ∷ []) else none;
  },
  rw (h key ∙ new) refl,
  linear-Holds keys earlier key (length (keys ++ key ∷ []) == linear_keys) h,
)
add_seen-Holds key keys (some seen) earlier h new = (
  record { keys = keys; seen = some (key ∷ seen) },
  rw (h key ∙ new) refl,
  λ k. ap (λ b. bytes_eq key k || b) (h k),
)

pub add_key-Holds :
    (key : Bytes) (ks : Keys) (earlier : List Bytes)
    → Holds ks earlier
    → has_key earlier key ≡ false
    → (ks' : Keys) × (add_key key ks ≡ some ks') × Holds ks' (key ∷ earlier)
unfolding add_key
add_key-Holds key ks earlier h new = add_seen-Holds key ks.keys ks.seen earlier h new

add_seen-new :
    (key : Bytes) (keys : List Bytes) (seen : Option (List Bytes)) (ks : Keys)
    → add_seen key (record { keys = keys; seen = seen }) seen ≡ some ks
    → has_key (held keys seen) key ≡ false
unfolding add_seen add_linear
add_seen-new key keys none ks h = (unless-eq-some (has_key keys key) _ ks h).0
add_seen-new key keys (some seen) ks h = (unless-eq-some (has_key seen key) _ ks h).0

pub add_key-new :
    (key : Bytes) (ks ks' : Keys) (earlier : List Bytes)
    → Holds ks earlier
    → add_key key ks ≡ some ks'
    → (has_key earlier key ≡ false) × Holds ks' (key ∷ earlier)
unfolding add_key
add_key-new key ks ks' earlier h e =
    let new = sym (h key) ∙ add_seen-new key ks.keys ks.seen ks' e in
    let (made, eq, held) = add_key-Holds key ks earlier h new in
    (new, rw (some-injective made ks' (sym eq ∙ e)) at held)
