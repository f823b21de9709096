-- ===== src/Tests/Sessions.antt =====
-- Sessions of internal/operations/runner.go at concrete inputs.
use mathlib.Core.List.{map}
use dockhand.Prelude.{
  ◌+◌, ◌≡◌, refl, [], ◌∷◌, List, Option, none, some, arith, take, Text, codes, ok, err, pos,
  text_eq, lookup, insert, delete, ◌++◌, newline,
}
use dockhand.Operations.History.{empty_table, scan_rows, or_default, list_history, insert_run}
use dockhand.Operations.History.Keys.{Change, insert as enter, update, prune_old, apply_all}
use dockhand.Operations.History.Log.{empty_log, log_all, view}
use dockhand.Operations.History.Log.Refinement.{list_history-log_all}
use dockhand.Operations.History.Log.Runs.{report, newest_runs}
use dockhand.Operations.Slots.{is_active, cancel}
use dockhand.Operations.Runner.{World, run}
use dockhand.Operations.Runner.Sessions.{Action, run_operation, new_operations, session}
use dockhand.Operations.Runner.Sessions.Made.{IsClean, all_made}
use dockhand.Operations.Runner.Sessions.Listed.{session-list_history}
use dockhand.Operations.Runner.Sessions.Sound.{IsSound, Preserves, session_sound}
use dockhand.Operations.Runner.Queries.{last_run}
use dockhand.Operations.Runner.Sessions.Latest.{last_run-run}
use dockhand.Operations.Output.{emitted, capture}
use dockhand.Tests.Database.{sorting}
use dockhand.Tests.Runs.{backup, op, runner, world, good_world}

-- Two runs of different operations, one of whose ends is not recorded.
abbrev changes : List (Option Text × Change)
changes =
    (none, enter backup 63000000000000000000)
    ∷ (none, enter (codes "deploy") 63000000000000000000)
    ∷ (some (codes "locked"), update 2 63000000001000000000 (pos 0) [])
    ∷ (none, update 1 63000000001000000000 (pos 0) (codes "done"))
    ∷ (none, prune_old backup)
    ∷ []

list_history-log_all_example :
    list_history sorting none backup (pos 0) (apply_all sorting empty_table changes)
    ≡ scan_rows (take (or_default 20 (pos 0)) (log_all backup empty_log changes).entries)
unfolding text_eq
list_history-log_all_example = list_history-log_all sorting backup changes (pos 0) (omega arith, tt)

abbrev later_world : World
later_world = record good_world {
  started_at = good_world.started_at + 5000000000;
  finished_at = good_world.started_at + 6000000000;
}

abbrev acts : List Action
acts =
    run_operation world 8 (λ command dir. err []) backup
    ∷ new_operations ((backup, op) ∷ [])
    ∷ run_operation later_world 9 (λ command dir. err []) backup
    ∷ []

world-IsClean : IsClean world
world-IsClean = record {
  inserted = refl;
  updated = refl;
  pruned = refl;
  ends = λ c. (_, _, _, (_, refl));
}

later_world-IsClean : IsClean later_world
later_world-IsClean = record {
  inserted = refl;
  updated = refl;
  pruned = refl;
  ends = λ c. (_, _, _, (_, refl));
}

session-list_history_example :
    list_history sorting none backup (pos 1) (session sorting acts runner).history
    ≡ ok (map report (take 1 (take 50 (newest_runs backup 1 [] (all_made sorting acts runner)))))
unfolding text_eq all_made session run lookup insert delete is_active insert_run
session-list_history_example =
    session-list_history sorting acts runner backup (pos 1)
      (world-IsClean, (tt, (later_world-IsClean, tt))) refl (omega arith, (omega arith, tt))

runner-IsSound : IsSound runner
unfolding is_active cancel lookup
runner-IsSound = record {
  keyed = record { unique = λ i. omega arith; bounded = tt };
  paired = λ n h. refl;
  apps_paired = λ n h. refl;
}

session_sound_example : Preserves runner (session sorting acts runner)
session_sound_example = session_sound sorting acts runner runner-IsSound

last_run-run_example :
    last_run sorting none backup (run sorting world backup runner).state
    ≡ some (
        report (
          1,
          record {
            name = backup;
            started_at = world.started_at;
            finished_at = world.finished_at;
            exit_code = pos 3;
            output = capture (emitted [] (codes "one" ++ newline ∷ codes "two") []);
          },
        ))
unfolding run lookup is_active text_eq view
last_run-run_example =
    last_run-run sorting world backup runner
      (record {
        exit_code = pos 3;
        output = capture (emitted [] (codes "one" ++ newline ∷ codes "two") []);
        duration = 2000000000;
      })
      world-IsClean (record { unique = λ i. omega arith; bounded = tt })
      (record { before = tt; descending = tt }) refl
