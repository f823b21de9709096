-- ===== src/Operations/Runner/Sessions/Latest.antt =====
-- What LastRun and LastAppRun of internal/operations/runner.go answer after a run.
use dockhand.Prelude.{
  ℕ, suc, ◌≡◌, refl, ap, ◌∙◌, none, some, List, [], ◌∷◌, arith, take, select, Text, text_eq_refl,
  ok, pos,
}
use dockhand.Operations.History.{
  Row, Table, Sql, unix, finish_row, map_rows, scan_row, scan_rows, is_named, list_history,
}
use dockhand.Operations.History.Keys.{IsKeyed}
use dockhand.Operations.History.Order.{newest_first-reverse}
use dockhand.Operations.History.Log.{Log, log_change, log_all, view}
use dockhand.Operations.History.Log.Refinement.{IsTimed, refines}
use dockhand.Operations.History.Log.Runs.{Made, report, changes_from, closed_row}
use dockhand.Operations.Slots.{app_key}
use dockhand.Operations.Runner.{Runner, World, RunResult, run, run_app}
use dockhand.Operations.Runner.Queries.{first_of, last_run, last_app_run}
use dockhand.Operations.Runner.Sessions.Made.{IsClean, made_by, after, run-after, run_app-after}

module _ (sql : Sql) (m : Made) (t : Table) where
  -- The log is headed by the run.
  headed :
      (es : List Row) (n : ℕ)
      → (rest : List Row) × ((log_all m.name
            (record { entries = es; sequence = n })
            (changes_from (suc n) (m ∷ []))).entries
          ≡ closed_row (suc n, m) ∷ rest)
  unfolding log_all log_change
  headed es n =
      rw (text_eq_refl m.name) (
        take 49 (map_rows (finish_row (suc n) m.finished_at m.exit_code m.output) es),
        ground arith,
      )

  listed_first :
      IsKeyed t
      → IsTimed (unix m.started_at) (view m.name t).entries
      → list_history sql none m.name (pos 1) (after sql t (m ∷ []))
        ≡ ok (report (suc t.sequence, m) ∷ [])
  unfolding list_history view scan_rows scan_row
  listed_first k w =
      let (v, d) =
        refines sql m.name (changes_from (suc t.sequence) (m ∷ [])) t (unix m.started_at) refl k w
          (rw (text_eq_refl m.name) (omega arith, tt)) in
      let (rest, h) = headed (view m.name t).entries t.sequence in
      rw (newest_first-reverse sql (select (is_named m.name) (after sql t (m ∷ [])).rows) d)
        (ap (λ rs. scan_rows (take 1 rs)) (ap (λ (l : Log). l.entries) v ∙ h))

-- After a run of an operation that ended with a result, `LastRun` answers with that run: its id, its times
-- in seconds, and the exit code and the output that the call returned. It is asked that the database
-- reports no error, that every started command ends, that the table has distinct ids up to its sequence,
-- and that its rows of the operation started in different seconds, in their order and before this run.
pub last_run-run :
    (sql : Sql) (w : World) (name : Text) (r : Runner) (x : RunResult)
    → IsClean w
    → IsKeyed r.history
    → IsTimed (unix w.started_at) (view name r.history).entries
    → (run sql w name r).result ≡ ok x
    → last_run sql none name (run sql w name r).state
      ≡ some (
          report (
            suc r.history.sequence,
            record {
              name = name;
              started_at = w.started_at;
              finished_at = w.finished_at;
              exit_code = x.exit_code;
              output = x.output;
            },
          ))
unfolding last_run made_by
last_run-run sql w name r x clean k timed h =
    let m : Made = record {
      name = name;
      started_at = w.started_at;
      finished_at = w.finished_at;
      exit_code = x.exit_code;
      output = x.output;
    } in
    let entered =
      run-after sql w clean name r ∙ ap (λ y. after sql r.history (made_by name w y)) h in
    ap (λ t. first_of (list_history sql none name (pos 1) t)) entered
    ∙ ap first_of (listed_first sql m r.history k timed)

-- So does `LastAppRun` after a run of an operation of an app, whose rows are those under its key.
last_app_run-run_app :
    (sql : Sql) (w : World) (app name : Text) (r : Runner) (x : RunResult)
    → IsClean w
    → IsKeyed r.history
    → IsTimed (unix w.started_at) (view (app_key app name) r.history).entries
    → (run_app sql w app name r).result ≡ ok x
    → last_app_run sql none app name (run_app sql w app name r).state
      ≡ some (
          report (
            suc r.history.sequence,
            record {
              name = app_key app name;
              started_at = w.started_at;
              finished_at = w.finished_at;
              exit_code = x.exit_code;
              output = x.output;
            },
          ))
unfolding last_app_run made_by
last_app_run-run_app sql w app name r x clean k timed h =
    let m : Made = record {
      name = app_key app name;
      started_at = w.started_at;
      finished_at = w.finished_at;
      exit_code = x.exit_code;
      output = x.output;
    } in
    let entered =
      run_app-after sql w clean app name r
      ∙ ap (λ y. after sql r.history (made_by (app_key app name) w y)) h in
    ap (λ t. first_of (list_history sql none (app_key app name) (pos 1) t)) entered
    ∙ ap first_of (listed_first sql m r.history k timed)
