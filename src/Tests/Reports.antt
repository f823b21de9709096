-- ===== src/Tests/Reports.antt =====
-- System updates at concrete inputs: internal/operations/sysupdate.go, runner.go, internal/config/config.go.
use dockhand.Prelude.{
  ℕ, ◌+◌, ◌*◌, ◌≤◌, ◌≡◌, refl, false, List, [], ◌∷◌, arith, ◌⊎◌, some, Text, codes, text_eq, lookup,
  insert, ok, err, ℤ, pos,
}
use dockhand.Config.{App, SystemUpdates}
use dockhand.Operations.SysUpdate.{
  AptChecker, new_sys_update_tracker, check, record_error, try_acquire,
}
use dockhand.Operations.SysUpdate.Tracking.{
  apply, Event, acquire, success, failure, run, known, last_success, known-run, try_acquire_spaced,
}
use dockhand.Operations.Runner.Versions.{zero_app}
use dockhand.Operations.Runner.Updates.{Checks, check_system_updates, run_system_update_check}
use dockhand.Operations.Runner.Updates.Reported.{check_system_updates-known}
use dockhand.Tests.Runs.{runner}

abbrev web : Text
web = codes "web"

abbrev events : List (ℕ × Event)
events =
    (5, success web (pos 3)) ∷ (9, failure web (codes "no network")) ∷ (9, acquire web 100) ∷ []

known-run_example :
    known web (run new_sys_update_tracker events)
    ≡ last_success web (known web new_sys_update_tracker) events
known-run_example = known-run web new_sys_update_tracker events

try_acquire_spaced_example : 5 + 10 ≤ 20
unfolding try_acquire run lookup insert text_eq apply record_error
try_acquire_spaced_example =
    try_acquire_spaced web 10 10 5 20 new_sys_update_tracker
      ((9, failure web (codes "no network")) ∷ []) (omega arith) refl (omega arith) refl

abbrev root : AptChecker
root = record { geteuid = 0; run = λ name args. ok (codes "Inst curl") }

abbrev hourly : SystemUpdates
hourly = record { type = codes "apt"; refresh_interval = codes "1h" }

abbrev app : App
app = record zero_app { system_updates = some hourly }

abbrev checks : Checks
checks = record {
  asked_at = 5;
  checked_at = 6;
  parse_duration = λ s. some (pos (60 * 60 * 1000000000));
  checker = root;
  shell = λ s. err (codes "not found");
}

check_system_updates-known_example :
    let after = (check_system_updates checks web app false runner).sys_update in
    (known web after ≡ known web runner.sys_update)
    ⊎ ((n : ℤ) × (web ≡ web)
        × (known web after ≡ some (n, checks.checked_at))
        × ((check checks.checker ≡ ok n)
            ⊎ (run_system_update_check checks.shell app.system_update_check ≡ ok n)))
check_system_updates-known_example = check_system_updates-known checks web web app false runner
