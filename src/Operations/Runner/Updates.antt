-- ===== src/Operations/Runner/Updates.antt =====
-- internal/operations/runner.go: checks for system updates, and the count that is reported.
pub mod Reported
use dockhand.Prelude.{
  ℕ, Bool, true, false, not, ◌&&◌, Option, none, some, List, [], ◌∷◌, ◌++◌, if◌then◌else◌, or_zero,
  Text, codes, is_empty, quoted, trim_space, Result, ok, err, ℤ, pos, itoa, atoi, is_positive,
}
use dockhand.Config.{App}
use dockhand.Config.Intervals.{enabled, refresh_duration}
use dockhand.Operations.VersionCache.{VersionCache, set, get}
use dockhand.Operations.SysUpdate.{
  AptChecker, SystemUpdateInfo, SysUpdateTracker, check, try_acquire, mark_attempt, record_success,
  record_error, info,
}
use dockhand.Operations.Output.{last_non_empty_line}
use dockhand.Operations.Runner.{Runner}

-- What a check meets: the times at which it begins and ends, time.ParseDuration, the apt checker, and
-- what a line prints in a shell without profiles.
pub record Checks : Type 0 where
  pub asked_at : ℕ
  pub checked_at : ℕ
  pub parse_duration : Text → Option ℤ
  pub checker : AptChecker
  pub shell : Text → Result Text

abbrev sys_update_key : Text → Text
sys_update_key app = codes "__sysupdate:" ++ app

abbrev pub publish : ℕ → Text → ℤ → Runner → Runner
publish now app count r = record r {
  version_cache = set now (sys_update_key app) (itoa count) r.version_cache;
}

abbrev pub republish_info : ℕ → Text → Option SystemUpdateInfo → Runner → Runner
republish_info now app none r = r
republish_info now app (some i) r = if i.has_count then publish now app i.count r else r

-- republishSystemUpdateCount
unfoldable pub republish_system_update_count : ℕ → Text → Runner → Runner
republish_system_update_count now app r = republish_info now app (info app r.sys_update) r

abbrev parse_count : Text → Option ℤ → Result ℤ
parse_count raw none =
    err
      (codes "system_update_check parse error: raw output " ++ quoted raw ++ codes ": not a number")
parse_count raw (some n) = ok n

-- runSystemUpdateCheck
unfoldable pub run_system_update_check : (Text → Result Text) → Text → Result ℤ
run_system_update_check shell line = elim (shell line) [
  | err e ↦ err e
  | ok out ↦ let raw = last_non_empty_line (trim_space out) in parse_count raw (atoi raw)
]

-- A successful check is recorded and published.
abbrev pub accept_count : Checks → Text → ℤ → Runner → Runner
accept_count c app n r =
    publish c.checked_at app n
      (record r { sys_update = record_success c.checked_at app n r.sys_update })

abbrev pub reject : Checks → Text → Text → Runner → Runner
reject c app e r = record r { sys_update = record_error c.checked_at app e r.sys_update }

-- The built-in checker, once it may run.
abbrev pub settle_builtin : Checks → Text → Result ℤ → Runner → Runner
settle_builtin c app (ok n) r = accept_count c app n r
settle_builtin c app (err e) r = republish_system_update_count c.checked_at app (reject c app e r)

abbrev pub settle_command : Checks → Text → Result ℤ → Runner → Runner
settle_command c app (ok n) r = accept_count c app n r
settle_command c app (err e) r = reject c app e r

-- The first half of the built-in branch: whether the check may run, and the tracker with the attempt.
abbrev pub ask : Checks → Text → App → Bool → SysUpdateTracker → Bool × SysUpdateTracker
ask c name app true t = (true, mark_attempt c.asked_at name t)
ask c name app false t =
    try_acquire c.asked_at name (refresh_duration c.parse_duration app.system_updates) t

abbrev pub check_builtin : Checks → Text → Bool × SysUpdateTracker → Runner → Runner
check_builtin c name (true, t) r =
    settle_builtin c name (check c.checker) (record r { sys_update = t })
check_builtin c name (false, t) r =
    republish_system_update_count c.asked_at name (record r { sys_update = t })

-- checkSystemUpdates
unfoldable pub check_system_updates : Checks → Text → App → Bool → Runner → Runner
check_system_updates c name app force r =
    if enabled app.system_updates
    then check_builtin c name (ask c name app force r.sys_update) r
    else if is_empty app.system_update_check
    then r
    else settle_command c name (run_system_update_check c.shell app.system_update_check) r

abbrev cached_count : Option Text → ℤ
cached_count none = pos 0
cached_count (some v) = or_zero (pos 0) (atoi v)

abbrev count_or : Option SystemUpdateInfo → ℤ → ℤ
count_or none d = d
count_or (some i) d = if i.has_count then i.count else d

-- SystemUpdateCount
unfoldable pub system_update_count : ℕ → Text → Runner → ℤ
system_update_count now app r =
    count_or (info app r.sys_update) (cached_count (get now (sys_update_key app) r.version_cache))

-- SystemUpdatesAvailable
unfoldable pub system_updates_available : ℕ → Text → Runner → Bool
unfolding system_update_count
system_updates_available now app r = is_positive (system_update_count now app r)
