-- ===== src/Beacon/Address.antt =====
-- beacon/addr.go: the addresses and the ports a beacon may use. A string is the list of its runes.
-- `Addr` is what the rules read of a `netip.Addr`: `Is4`, `As4`, `Zone` and `String`.
pub mod Endpoints
use lattice_sdk.Common.{
  ℕ, ◌%◌, ◌^◌, true, false, ◌∷◌, Bool, not, ◌||◌, ◌&&◌, Option, none, some, List, [], ◌==◌, ltb,
  if◌then◌else◌, Result, ok, err, ◌>>=◌,
}
use lattice_sdk.Common.Bytes.{bytes_eq, byte_at}
use lattice_sdk.Common.Int64.{slt}
use lattice_sdk.Common.Decimals.{parse_int, format_int}
use lattice_sdk.Common.Runes.{trim_space}

abbrev port_override_min : ℕ
port_override_min = 1024

pub data AddrError : Type 0 where
  not_ipv4_literal address_refused_class port_range : AddrError

pub record Addr : Type 0 where
  pub is4 : Bool
  pub as4 : List ℕ
  pub zone : List ℕ
  pub text : List ℕ

unfoldable pub address_refused : Addr → Bool
address_refused a =
    not a.is4
    || (byte_at 0 a.as4 == 0)
    || (byte_at 0 a.as4 == 127)
    || ((byte_at 0 a.as4 == 169) && (byte_at 1 a.as4 == 254))
    || not (ltb (byte_at 0 a.as4) 224)

abbrev pub put_before : ℕ → Option (List ℕ × List ℕ) → Option (List ℕ × List ℕ)
put_before c none = none
put_before c (some (before, after)) = some (c ∷ before, after)

-- `strings.Cut` at the first colon; `none` stands for ok false.
unfoldable pub cut_colon : List ℕ → Option (List ℕ × List ℕ)
cut_colon [] = none
cut_colon (c ∷ cs) =
    let rest = cut_colon cs in if c == b':' then some ([], cs) else put_before c rest

-- `strings.Contains`.
unfoldable pub has_colon : List ℕ → Bool
has_colon [] = false
has_colon (c ∷ cs) = (c == b':') || has_colon cs

-- `port` is an int64's pattern.
unfoldable pub valid_listen_port : ℕ → Bool
valid_listen_port port = not (slt port port_override_min) && not (slt 65535 port)

-- `netip.ParseAddr` is `parse_addr`.
module _ (parse_addr : List ℕ → Option Addr) where
  unfoldable pub check_ipv4 : List ℕ → Option Addr → Result AddrError Addr
  check_ipv4 s none = err not_ipv4_literal
  check_ipv4 s (some a) =
      if not a.is4 || not (bytes_eq a.zone []) || not (bytes_eq a.text s)
      then err not_ipv4_literal
      else if address_refused a
      then err address_refused_class
      else ok a

  unfoldable pub parse_ipv4 : List ℕ → Result AddrError Addr
  parse_ipv4 s = check_ipv4 s (parse_addr s)

-- `uint16(port)` of the number that was read.
unfoldable pub check_port : Addr → List ℕ → Option ℕ → Result AddrError (Addr × ℕ)
check_port addr port_text none = err port_range
check_port addr port_text (some port) =
    if slt port 1 || slt 65535 port || not (bytes_eq port_text (format_int port))
    then err port_range
    else ok (addr, port % 2 ^ 16)

module _ (parse_addr : List ℕ → Option Addr) where
  unfoldable pub endpoint_parts : Option (List ℕ × List ℕ) → Result AddrError (Addr × ℕ)
  endpoint_parts none = err not_ipv4_literal
  endpoint_parts (some (host, port_text)) =
      if has_colon port_text
      then err not_ipv4_literal
      else (do addr ← parse_ipv4 parse_addr host; check_port addr port_text (parse_int port_text))

  unfoldable pub parse_endpoint : List ℕ → Result AddrError (Addr × ℕ)
  parse_endpoint s = endpoint_parts (cut_colon (trim_space s))
