-- ===== src/Operations/Runner.antt =====
-- internal/operations/runner.go: the runner's state and a run of an operation. What the outside
-- does during one call (clock, database errors, the command) is the argument `World`.
pub mod Versions
pub mod Updates
pub mod Cleanup
pub mod LongLines
pub mod Recorded
pub mod Followups
pub mod Queries
pub mod Warming
pub mod Sessions
use dockhand.Prelude.{
  scan_lines, max_scan_token_size, ℕ, zero, suc, ◌+◌, ◌-◌, ◌*◌, ◌%◌, ◌^◌, Bool, true, false, not,
  ◌&&◌, Option, none, some, List, [], ◌∷◌, ◌++◌, ltb, ◌==◌, if◌then◌else◌, or_zero, Text, codes,
  quoted, is_empty, Map, lookup, Result, ok, err, on_result, ℤ, pos, negsuc,
}
use dockhand.Config.{Operation, App, AppOperation}
use dockhand.Operations.History.{Table, Sql, insert_run, update_run, prune}
use dockhand.Operations.Slots.{Slots, admit, register, release, app_key}
use dockhand.Operations.VersionCache.{VersionCache}
use dockhand.Operations.SysUpdate.{SysUpdateTracker}
use dockhand.Operations.Output.{emitted, capture}

-- Runner; `cancels` and `appsCancels` hold the numbers of contexts, drawn from `next_context`. The
-- checker and the path of the configuration never change and are arguments where they are used.
pub record Runner : Type 0 where
  pub ops : Map Operation
  pub apps : Map App
  pub history : Table
  pub slots : Slots
  pub apps_slots : Slots
  pub next_context : ℕ
  pub version_cache : VersionCache
  pub sys_update : SysUpdateTracker

-- The command that a run starts: its shell line and directory, the timeout of its context in
-- nanoseconds, and whether the context is detached from the request.
pub record Command : Type 0 where
  pub line : Text
  pub dir : Text
  pub timeout : ℕ
  pub detached : Bool

-- cmd.Wait()
pub data Waited : Type 0 where
  exited : Waited
  exit_error : ℤ → Waited
  wait_error : Text → Waited

-- What becomes of a command: a pipe or the start fails, or it ends with what it wrote to its two
-- outputs, read in some order.
pub data Execution : Type 0 where
  pipe_failed : Text → Execution
  start_failed : Text → Execution
  ended : List Bool → Text → Text → Waited → Execution

pub record World : Type 0 where
  pub started_at : ℕ
  pub finished_at : ℕ
  pub insert_fault : Option Text
  pub update_fault : Option Text
  pub prune_fault : Option Text
  pub execute : Command → Execution

pub record RunResult : Type 0 where
  pub exit_code : ℤ
  pub output : Text
  pub duration : ℕ

abbrev pub second : ℕ
second = 1000000000

-- time.Duration(n) * time.Second in 64 bits, as a bit pattern
abbrev seconds_word : ℤ → ℕ
seconds_word (pos n) = n * second % 2 ^ 64
seconds_word (negsuc n) = (2 ^ 64 - suc n * second % 2 ^ 64) % 2 ^ 64

-- The timeout of a run: five minutes where the configured one is not positive.
unfoldable pub run_timeout : ℤ → ℕ
run_timeout n = let w = seconds_word n in if ltb 0 w && ltb w (2 ^ 63) then w else 5 * 60 * second

abbrev or_root : Text → Text
or_root [] = b'/' ∷ []
or_root (c ∷ s) = c ∷ s

abbrev pub exit_code_of : Waited → ℤ
exit_code_of exited = pos 0
exit_code_of (exit_error n) = n
exit_code_of (wait_error e) = pos 1

-- A call of `Run` or `RunApp`: the new state, the result, and the lines that each of the two goroutines
-- gives to the callback, those of stdout first.
pub record Call (S : Type 0) : Type 0 where
  pub state : S
  pub result : Result RunResult
  pub outputs : List Text × List Text

-- The part of the state that a run changes.
pub record Books : Type 0 where
  pub table : Table
  pub busy : Slots

module _ (sql : Sql) (w : World) where
  -- The end of a run in the history, if the run was entered there.
  unfoldable pub close_run : Text → ℕ → ℤ → Text → Table → Table
  close_run name zero code captured t = t
  close_run name (suc n) code captured t =
      prune sql w.prune_fault name (update_run w.update_fault (suc n) w.finished_at code captured t)

  -- What follows the call of `Start`; the deferred cleanup is last on every path.
  unfoldable pub finish : Text → ℕ → Books → Execution → Call Books
  unfolding close_run release
  finish name run_id b (pipe_failed e) = record {
    state = record b { busy = release name b.busy };
    result = err e;
    outputs = ([], []);
  }
  finish name run_id b (start_failed e) = record {
    state = record b { busy = release name b.busy };
    result = err (codes "start command: " ++ e);
    outputs = ([], []);
  }
  finish name run_id b (ended order stdout stderr waited) = record {
    state = record {
      table =
          close_run name run_id (exit_code_of waited) (capture (emitted order stdout stderr))
            b.table;
      busy = release name b.busy;
    };
    result = ok (record {
      exit_code = exit_code_of waited;
      output = capture (emitted order stdout stderr);
      duration = w.finished_at - w.started_at;
    });
    outputs = (scan_lines max_scan_token_size stdout, scan_lines max_scan_token_size stderr);
  }

  -- A run that was admitted, from the entry in the history on.
  unfoldable pub run_admitted : Text → ℕ → Command → Books → Call Books
  unfolding finish register insert_run
  run_admitted name context command b =
      let (inserted, table) = insert_run w.insert_fault name w.started_at b.table in
      let run_id = on_result inserted (λ id. id) (λ e. 0) in
      finish name run_id (record { table = table; busy = register name context b.busy })
        (w.execute command)

  abbrev refused : Text → Books → Call Books
  refused message b = record { state = b; result = err message; outputs = ([], []) }

  -- From the test under the first lock on.
  unfoldable pub run_known : Text → ℕ → Command → Text → Books → Call Books
  unfolding run_admitted admit
  run_known name context command busy_message b = elim (admit name b.busy) [
    | none ↦ refused busy_message b
    | some busy ↦ run_admitted name context command (record b { busy = busy })
  ]

  abbrev pub op_command : Operation → Command
  op_command op = record {
    line = op.command;
    dir = or_root op.working_dir;
    timeout = run_timeout op.timeout;
    detached = op.persistent;
  }

  abbrev pub app_op_command : AppOperation → Command
  app_op_command op = record {
    line = op.command;
    dir = or_root op.working_dir;
    timeout = run_timeout op.timeout;
    detached = op.persistent;
  }

  abbrev run_op : Text → Runner → Operation → Call Runner
  run_op name r op =
      let c =
        run_known name r.next_context (op_command op)
          (codes "operation " ++ quoted name ++ codes " is already running")
          (record { table = r.history; busy = r.slots }) in
      record {
        state = record r {
          history = c.state.table;
          slots = c.state.busy;
          next_context = suc r.next_context;
        };
        result = c.result;
        outputs = c.outputs;
      }

  -- Run
  unfoldable pub run : Text → Runner → Call Runner
  unfolding run_known run_timeout
  run name r = elim (lookup name r.ops) [
    | none ↦ record {
      state = r;
      result = err (codes "unknown operation " ++ quoted name);
      outputs = ([], []);
    }
    | some op ↦ run_op name r op
  ]

  abbrev run_app_op : Text → Text → Runner → AppOperation → Call Runner
  run_app_op app op_name r op =
      let c =
        run_known (app_key app op_name) r.next_context (app_op_command op)
          (codes "operation "
            ++ quoted op_name
            ++ codes " on app "
            ++ quoted app
            ++ codes " is already running")
          (record { table = r.history; busy = r.apps_slots }) in
      record {
        state = record r {
          history = c.state.table;
          apps_slots = c.state.busy;
          next_context = suc r.next_context;
        };
        result = c.result;
        outputs = c.outputs;
      }

  -- RunApp
  unfoldable pub run_app : Text → Text → Runner → Call Runner
  unfolding run_known run_timeout app_key
  run_app app op_name r = elim (lookup app r.apps) [
    | none ↦ record {
      state = r;
      result = err (codes "unknown app " ++ quoted app);
      outputs = ([], []);
    }
    | some a ↦ elim (lookup op_name a.operations) [
      | none ↦ record {
        state = r;
        result =
            err (codes "unknown operation " ++ quoted op_name ++ codes " on app " ++ quoted app);
        outputs = ([], []);
      }
      | some op ↦ run_app_op app op_name r op
    ]
  ]
