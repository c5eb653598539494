-- ===== src/Model/StatusSet/Parsed.antt =====
-- model/monitor_checks.go, `ParseMonitorStatusSet`: what an accepted list passes.
use lattice_sdk.Common.{ℕ, List, length, ◌==◌, if◌then◌else◌}
use lattice_sdk.Common.Runes.{trim_space}
use lattice_sdk.Model.StatusSet.{monitor_expect_status_default}

-- The text whose entries are read: the default for an empty list.
abbrev pub expected_text : List ℕ → List ℕ
expected_text raw =
    if length (trim_space raw) == 0 then monitor_expect_status_default else trim_space raw
