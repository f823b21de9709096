-- ===== src/Config/Intervals.antt =====
-- internal/config/config.go: when the built-in checker of system updates runs.
use dockhand.Prelude.{
  ℕ, ◌*◌, ◌≤◌, ◌<◌, max, ◌≡◌, Bool, false, Option, none, some, not, arith, ltb, if◌then◌else◌, Text,
  codes, text_eq, trim_space, to_lower, is_empty, ℤ, pos, negsuc,
}
use dockhand.Config.{SystemUpdates}

-- SystemUpdates.Enabled
unfoldable pub enabled : Option SystemUpdates → Bool
unfolding trim_space to_lower text_eq
enabled none = false
enabled (some su) = text_eq (to_lower (trim_space su.type)) (codes "apt")

abbrev minute : ℕ
minute = 60 * 1000000000

-- defaultSysUpdateRefresh, minSysUpdateRefresh
abbrev default_sys_update_refresh : ℕ
default_sys_update_refresh = 6 * 60 * minute

abbrev min_sys_update_refresh : ℕ
min_sys_update_refresh = 15 * minute

-- A parsed duration that is an error or not positive is replaced by the default, and a short one
-- raised to the minimum.
abbrev clamp : Option ℤ → ℕ
clamp none = default_sys_update_refresh
clamp (some (negsuc n)) = default_sys_update_refresh
clamp (some (pos n)) =
    if not (ltb 0 n)
    then default_sys_update_refresh
    else if ltb n min_sys_update_refresh
    then min_sys_update_refresh
    else n

-- SystemUpdates.RefreshDuration; `parse` is time.ParseDuration.
unfoldable pub refresh_duration : (Text → Option ℤ) → Option SystemUpdates → ℕ
unfolding trim_space
refresh_duration parse none = default_sys_update_refresh
refresh_duration parse (some su) =
    if is_empty (trim_space su.refresh_interval)
    then default_sys_update_refresh
    else clamp (parse (trim_space su.refresh_interval))

-- Whatever the configuration says, the refresh interval is at least 15 minutes.
refresh_duration-ge_min :
    (parse : Text → Option ℤ) (su : Option SystemUpdates)
    → min_sys_update_refresh ≤ refresh_duration parse su
unfolding refresh_duration
refresh_duration-ge_min parse su = ground arith

-- A configured interval that parses to a positive duration is taken, raised to 15 minutes.
refresh_duration-max :
    (parse : Text → Option ℤ) (su : SystemUpdates) (n : ℕ)
    → is_empty (trim_space su.refresh_interval) ≡ false
    → parse (trim_space su.refresh_interval) ≡ some (pos n)
    → 0 < n
    → refresh_duration parse (some su) ≡ max min_sys_update_refresh n
unfolding refresh_duration
refresh_duration-max parse su n f p h = ground arith
