-- ===== src/Operations/SysUpdate.antt =====
-- internal/operations/sysupdate.go: the apt checker and the tracker of update checks. A time is the
-- number of nanoseconds since the zero `time.Time`, which is 0; `t.now()` is an argument.
pub mod Tracking
pub mod Counting
use dockhand.Prelude.{
  ℕ, ◌+◌, ◌*◌, Bool, true, false, not, ◌&&◌, Option, none, some, List, [], ◌∷◌, ◌++◌, ltb, ◌==◌,
  if◌then◌else◌, or_zero, count_of, Text, codes, has_prefix, scan_lines, Map, lookup, insert,
  Result, ok, err, ℤ, pos,
}

-- aptChecker: the effective user id, and what a command run with its arguments returns.
pub record AptChecker : Type 0 where
  pub geteuid : ℕ
  pub run : Text → List Text → Result Text

-- wrapErr
abbrev wrap_err : Text → Text → Text
wrap_err what e = what ++ codes ": " ++ e

-- countInstLines, with a buffer of 1 MiB
unfoldable pub count_inst_lines : Text → ℕ
count_inst_lines output =
    count_of (λ line. has_prefix line (codes "Inst ")) (scan_lines (1024 * 1024) output)

abbrev pub simulate_args : List Text
simulate_args = codes "-s" ∷ codes "-o" ∷ codes "Debug::NoLocking=true" ∷ codes "dist-upgrade" ∷ []

-- The second half of `check`, after the index was refreshed.
count_upgrades : AptChecker → Result ℤ
count_upgrades c = elim (c.run (codes "apt-get") simulate_args) [
  | err e ↦ err (wrap_err (codes "apt-get dist-upgrade simulate") e)
  | ok out ↦ ok (pos (count_inst_lines out))
]

-- check
unfoldable pub check : AptChecker → Result ℤ
unfolding count_upgrades
check c =
    if not (c.geteuid == 0)
    then err (codes "apt update check requires root")
    else elim (c.run (codes "apt-get") (codes "update" ∷ codes "-qq" ∷ [])) [
      | err e ↦ err (wrap_err (codes "apt-get update") e)
      | ok _ ↦ count_upgrades c
    ]

-- SystemUpdateInfo
pub record SystemUpdateInfo : Type 0 where
  pub count : ℤ
  pub has_count : Bool
  pub last_checked : ℕ
  pub last_error : Text
  pub last_error_time : ℕ

pub record SysUpdateStatus : Type 0 where
  pub count : ℤ
  pub has_count : Bool
  pub last_checked : ℕ
  pub last_attempt : ℕ
  pub last_error : Text
  pub last_error_time : ℕ

-- sysUpdateTracker
pub record SysUpdateTracker : Type 0 where
  pub statuses : Map SysUpdateStatus

abbrev pub new_sys_update_tracker : SysUpdateTracker
new_sys_update_tracker = record { statuses = [] }

-- &sysUpdateStatus{}
abbrev zero_status : SysUpdateStatus
zero_status = record {
  count = pos 0;
  has_count = false;
  last_checked = 0;
  last_attempt = 0;
  last_error = [];
  last_error_time = 0;
}

-- What `status` returns a pointer to; it also enters a new status under the name.
abbrev pub status : Text → SysUpdateTracker → SysUpdateStatus
status app t = or_zero zero_status (lookup app t.statuses)

-- A write through the pointer that `status` returned.
abbrev pub put : Text → SysUpdateStatus → SysUpdateTracker → SysUpdateTracker
put app st t = record { statuses = insert app st t.statuses }

-- st.lastAttempt is set and less than the interval ago.
abbrev too_early : ℕ → ℕ → SysUpdateStatus → Bool
too_early now interval st = not (st.last_attempt == 0) && ltb now (st.last_attempt + interval)

-- tryAcquire
unfoldable pub try_acquire : ℕ → Text → ℕ → SysUpdateTracker → Bool × SysUpdateTracker
try_acquire now app interval t =
    let st = status app t in
    if too_early now interval st
    then (false, put app st t)
    else (true, put app (record st { last_attempt = now }) t)

-- markAttempt
unfoldable pub mark_attempt : ℕ → Text → SysUpdateTracker → SysUpdateTracker
mark_attempt now app t = put app (record (status app t) { last_attempt = now }) t

-- recordSuccess
unfoldable pub record_success : ℕ → Text → ℤ → SysUpdateTracker → SysUpdateTracker
record_success now app count t =
    put app
      (record (status app t) {
        count = count;
        has_count = true;
        last_checked = now;
        last_error = [];
        last_error_time = 0;
      })
      t

-- recordError
unfoldable pub record_error : ℕ → Text → Text → SysUpdateTracker → SysUpdateTracker
record_error now app e t =
    put app (record (status app t) { last_error = e; last_error_time = now }) t

abbrev info_of : Option SysUpdateStatus → Option SystemUpdateInfo
info_of none = none
info_of (some st) = some (record {
  count = st.count;
  has_count = st.has_count;
  last_checked = st.last_checked;
  last_error = st.last_error;
  last_error_time = st.last_error_time;
})

-- info
unfoldable pub info : Text → SysUpdateTracker → Option SystemUpdateInfo
info app t = info_of (lookup app t.statuses)
