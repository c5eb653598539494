-- ===== src/Model/StatusSet.antt =====
-- model/monitor_checks.go: the `expect_status` list of an HTTP check. A string is the list of its
-- runes.
pub mod Merged
pub mod Parsed
use lattice_sdk.Common.{
  ℕ, zero, suc, ◌+◌, ◌-◌, ◌*◌, ◌≤◌, Bool, true, false, ◌||◌, ◌&&◌, not, Option, none, some, List,
  [], ◌∷◌, ◌++◌, length, ltb, leb, ◌==◌, if◌then◌else◌, Result, ok, err, ◌>>=◌,
}
use lattice_sdk.Common.Runes.{
  all_digits, atoi, cut, is_space, split, trim_left, trim_right, trim_space,
}

-- "200-399".
abbrev pub monitor_expect_status_default : List ℕ
monitor_expect_status_default = b'2' ∷ b'0' ∷ b'0' ∷ b'-' ∷ b'3' ∷ b'9' ∷ b'9' ∷ []

abbrev pub monitor_status_set_max_parts : ℕ
monitor_status_set_max_parts = 16

-- An inclusive range of status codes.
pub record MonitorStatusRange : Type 0 where
  pub lo : ℕ
  pub hi : ℕ

abbrev pub MonitorStatusSet : Type 0
MonitorStatusSet = List MonitorStatusRange

pub data StatusError : Type 0 where
  too_many_entries not_a_status runs_backwards : StatusError

-- `parseStatusCode`. A sign is no status either: with it two digits are left, below 100.
unfoldable pub parse_status_code : List ℕ → Result StatusError ℕ
parse_status_code raw =
    let s = trim_space raw in
    let code = atoi 0 s in
    if not (length s == 3)
    then err not_a_status
    else if not (all_digits s) || ltb code 100 || ltb 599 code
    then err not_a_status
    else ok code

-- The two ends of an entry, from what stands before and behind the hyphen.
unfoldable pub parse_ends : List ℕ → Option (List ℕ) → Result StatusError MonitorStatusRange
parse_ends lo none = do a ← parse_status_code lo; ok (record { lo = a; hi = a })
parse_ends lo (some hi) = do
  a ← parse_status_code lo
  b ← parse_status_code hi
  if ltb b a then err runs_backwards else ok (record { lo = a; hi = b })

unfoldable pub parse_entry : List ℕ → Result StatusError MonitorStatusRange
parse_entry part = let (lo, hi) = cut b'-' (trim_space part) in parse_ends lo hi

unfoldable pub parse_entries : List (List ℕ) → Result StatusError (List MonitorStatusRange)
parse_entries [] = ok []
parse_entries (part ∷ parts) = do
  r ← parse_entry part
  ranges ← parse_entries parts
  ok (r ∷ ranges)

-- `slices.SortFunc` by the lower end.
unfoldable pub insert_range : MonitorStatusRange → List MonitorStatusRange → List MonitorStatusRange
insert_range r [] = r ∷ []
insert_range r (x ∷ xs) =
    let rest = insert_range r xs in if leb r.lo x.lo then r ∷ x ∷ xs else x ∷ rest

unfoldable pub sort_ranges : List MonitorStatusRange → List MonitorStatusRange
sort_ranges [] = []
sort_ranges (x ∷ xs) = insert_range x (sort_ranges xs)

abbrev pub max : ℕ → ℕ → ℕ
max a b = if ltb a b then b else a

-- The loop over the other ranges, with the last merged one.
unfoldable pub merge_from : MonitorStatusRange → List MonitorStatusRange → MonitorStatusSet
merge_from last [] = last ∷ []
merge_from last (r ∷ rs) =
    let joined = merge_from (record { lo = last.lo; hi = max last.hi r.hi }) rs in
    let apart = merge_from r rs in if leb r.lo (last.hi + 1) then joined else last ∷ apart

-- `ranges[0]` exists, since a list that is split has a part.
unfoldable pub merge : List MonitorStatusRange → MonitorStatusSet
merge [] = []
merge (r ∷ rs) = merge_from r rs

unfoldable pub parse_monitor_status_set : List ℕ → Result StatusError MonitorStatusSet
parse_monitor_status_set raw =
    let s = trim_space raw in
    let text = if length s == 0 then monitor_expect_status_default else s in
    let parts = split b',' text in
    if ltb monitor_status_set_max_parts (length parts)
    then err too_many_entries
    else (do ranges ← parse_entries parts; ok (merge (sort_ranges ranges)))

abbrev pub in_range : MonitorStatusRange → ℕ → Bool
in_range r code = leb r.lo code && leb code r.hi

-- `Contains`.
unfoldable pub contains : MonitorStatusSet → ℕ → Bool
contains [] code = false
contains (r ∷ rs) code = in_range r code || contains rs code
