-- ===== src/Plugin/Frames/Members.antt =====
-- plugin/frame_fast.go: what the fast decoder of a call answers, by the names of the members.

use lattice_sdk.Common.{ℕ, ◌≡◌, Bool, false, Option, none, some, List, [], ◌∷◌}
use lattice_sdk.Common.Options.{◌>>=◌}
use lattice_sdk.StrictJson.Lexer.{Bytes}
use lattice_sdk.StrictJson.Grammar.{Members, MoreMembers, end_object, next_member}
use lattice_sdk.StrictJson.Trees.{AreMembers, AreMoreMembers}
use lattice_sdk.StrictJson.Scanner.{Field, has_key}
use lattice_sdk.StrictJson.Scanner.After.{member_fields, more_member_fields}
use lattice_sdk.StrictJson.Scanner.Parts.{Decodes-key_of}
use lattice_sdk.StrictJson.Unquote.{string_into}
use lattice_sdk.Plugin.Frames.{
  service_name, method_name, payload_name, decode_member, CallPayload, call_targets, member,
}

-- No key stands twice, and none of `keys` at all.
abbrev Distinct : List Bytes → List Field → Type 0
Distinct keys [] = Unit
Distinct keys (f ∷ fs) = (has_key keys f.key ≡ false) × Distinct (f.key ∷ keys) fs

-- A member's string, or what was there before.
abbrev pub text_or : Bytes → Option Bytes → Option Bytes
text_or old none = some old
text_or old (some value) = string_into value old

abbrev pub raw_or : Bytes → Option Bytes → Bytes
raw_or old none = old
raw_or old (some value) = value

-- A call, from its members by name.
abbrev pub call_of : List Field → CallPayload → Option CallPayload
call_of ms c = do
  service ← text_or c.service (member service_name ms)
  method ← text_or c.method (member method_name ms)
  some (record {
    service = service;
    method = method;
    payload = raw_or c.payload (member payload_name ms);
  })

-- One member, where the ones after it do not have its name.
module _ (v : Bytes) (fs : List Field) (c : CallPayload) where
  abbrev Steps : Bytes → Type 0
  Steps key =
      (decode_member call_targets (record { key = key; value = v }) c >>= call_of fs)
      ≡ call_of (record { key = key; value = v } ∷ fs) c

-- The members of an object of the grammar have distinct keys.
module _ (parse_float : Bytes → Bool) (unmarshal : Bytes → Option Bytes) where
  mutual
    unfolding member_fields more_member_fields AreMembers AreMoreMembers

    members-Distinct :
        (depth : ℕ) (keys : List Bytes) (ms : Members)
        → AreMembers parse_float unmarshal depth keys ms
        → Distinct keys (member_fields unmarshal ms)
    members-Distinct depth keys (Members.member cs w1 w2 v w3 more)
          (chars, white1, white2, ist, white3, (key, decodes, new, are)) =
        rw (Decodes-key_of parse_float unmarshal cs key decodes)
          (new, more-Distinct depth (key ∷ keys) more are)

    more-Distinct :
        (depth : ℕ) (keys : List Bytes) (more : MoreMembers)
        → AreMoreMembers parse_float unmarshal depth keys more
        → Distinct keys (more_member_fields unmarshal more)
    more-Distinct depth keys end_object are = tt
    more-Distinct depth keys (next_member w ms) (white, are) = members-Distinct depth keys ms are
