-- ===== src/Tests/Runs.antt =====
-- Runs of internal/operations/runner.go at concrete inputs.
use dockhand.Prelude.{
  ok, true, ◌⊎◌, ℕ, ◌+◌, ◌*◌, ◌≡◌, refl, [], ◌∷◌, ◌++◌, inl, none, some, Text, codes, newline,
  text_eq, lookup, insert, err, pos, split_lines, join_lines, delete,
}
use dockhand.Config.{Operation}
use dockhand.Operations.History.{Row, list_history, null_error, insert_run, update_run, prune}
use dockhand.Operations.Slots.{new_slots, is_active}
use dockhand.Operations.Output.{truncation_mark, truncate, emitted, capture}
use dockhand.Operations.VersionCache.{new_version_cache}
use dockhand.Operations.SysUpdate.{new_sys_update_tracker}
use dockhand.Operations.Runner.{
  Runner, World, exited, exit_error, start_failed, ended, run, exit_code_of,
}
use dockhand.Operations.Runner.Recorded.{Closed, run-Closed, run_start_failed}
use dockhand.Operations.Runner.Followups.{succeeded, operate, current_version-operate}
use dockhand.Operations.Runner.Versions.{run_version_command, zero_operation, current_version}
use dockhand.Tests.Database.{sorting, sort_rows}

abbrev pub backup : Text
backup = codes "backup"

abbrev pub op : Operation
op = record zero_operation {
  command = codes "backup.sh";
  timeout = pos 60;
  current_version = codes "1.0";
}

abbrev pub runner : Runner
runner = record {
  ops = (backup, op) ∷ [];
  apps = [];
  history = record { rows = []; sequence = 0 };
  slots = new_slots;
  apps_slots = new_slots;
  next_context = 1;
  version_cache = new_version_cache;
  sys_update = new_sys_update_tracker;
}

abbrev now : ℕ
now = 63000000000 * 1000000000

-- The command prints two lines and exits with 3.
abbrev pub world : World
world = record {
  started_at = now;
  finished_at = now + 2000000000;
  insert_fault = none;
  update_fault = none;
  prune_fault = none;
  execute = λ c. ended [] (codes "one" ++ newline ∷ codes "two") [] (exit_error (pos 3));
}

abbrev no_bash : World
no_bash = record world { execute = λ c. start_failed (codes "chdir: no such directory") }

abbrev after : Row
after = record {
  id = 1;
  operation_name = backup;
  started_at = 864403200;
  finished_at = some 864403202;
  exit_code = some (pos 3);
  output = some (codes "one" ++ newline ∷ codes "two" ++ newline ∷ []);
}

run-Closed_example :
    Closed world.finished_at
      (exit_code_of (exit_error (pos 3)))
      (capture (emitted [] (codes "one" ++ newline ∷ codes "two") []))
      after
unfolding run is_active lookup text_eq insert_run sort_rows emitted capture prune update_run insert
    delete
run-Closed_example =
    run-Closed sorting world backup runner op [] (codes "one" ++ newline ∷ codes "two") []
      (exit_error (pos 3)) after refl refl refl refl refl (inl refl) refl

run_start_failed_example :
    list_history sorting none backup (pos 1) (run sorting no_bash backup runner).state.history
    ≡ err null_error
unfolding lookup text_eq is_active
run_start_failed_example =
    run_start_failed sorting no_bash backup runner op (codes "chdir: no such directory") (pos 1)
      refl refl refl refl refl

truncate_example :
    truncate (codes "one" ++ newline ∷ codes "two" ++ newline ∷ codes "three") 8
    ≡ truncation_mark ++ codes "three"
unfolding truncate split_lines join_lines
truncate_example = refl

abbrev pub good_world : World
good_world = record world { execute = λ c. ended [] (codes "done") [] exited }

abbrev versioned : Runner
versioned = record runner {
  ops = (backup, record op { version_command = codes "backup.sh --version" }) ∷ [];
}

current_version-operate_example :
    let after =
      current_version 9 backup
        (operate sorting good_world 8 (λ command dir. ok (codes "2.0")) backup versioned).0 in
    (after ≡ current_version 9 backup versioned)
    ⊎ ((backup ≡ backup)
        × (succeeded (run sorting good_world backup versioned).result ≡ true)
        × ((found : Operation) × (lookup backup versioned.ops ≡ some found)
            × (run_version_command (λ command dir. ok (codes "2.0")) found ≡ ok after)))
current_version-operate_example =
    current_version-operate sorting good_world 8 9 (λ command dir. ok (codes "2.0")) backup backup
      versioned
