-- ===== src/Operations/Runner/Sessions/Listed.antt =====
-- What ListHistory of internal/operations/history.go tells after a session of
-- internal/operations/runner.go.
use mathlib.Core.List.{map}
use dockhand.Prelude.{
  ◌≡◌, refl, ap, ◌∙◌, none, List, [], ◌∷◌, ◌++◌, take, All, Text, Result, ok, err, ℤ,
}
use dockhand.Operations.History.{
  Table, Sql, empty_table, insert_run, update_run, prune, or_default, list_history,
}
use dockhand.Operations.History.Keys.{apply, apply_all}
use dockhand.Operations.History.Log.Runs.{
  Made, newest_runs, report, IsSpaced, list_history-changes_from,
}
use dockhand.Operations.Slots.{app_key}
use dockhand.Operations.Runner.{Runner, World, RunResult, run, run_app}
use dockhand.Operations.Runner.Sessions.{
  Action, run_operation, run_app_operation, job, new_operations, new_apps, act, session,
}
use dockhand.Operations.Runner.Sessions.Made.{
  IsCleanAction, made_by, made, all_made, after, act-after,
}

-- Runs that follow others are entered under the ids that follow theirs.
after-append :
    (sql : Sql) (t : Table) (key : Text) (w : World) (x : Result RunResult) (ms : List Made)
    → after sql (after sql t (made_by key w x)) ms ≡ after sql t (made_by key w x ++ ms)
unfolding made_by apply_all apply insert_run update_run prune
after-append sql t key w (err e) ms = refl
after-append sql t key w (ok x) ms = refl

after-made :
    (sql : Sql) (a : Action) (r : Runner) (t : Table) (ms : List Made)
    → after sql (after sql t (made sql a r)) ms ≡ after sql t (made sql a r ++ ms)
unfolding made apply_all
after-made sql (run_operation w now shell name) r t ms =
    after-append sql t name w (run sql w name r).result ms
after-made sql (run_app_operation w now shell c app name) r t ms =
    after-append sql t (app_key app name) w (run_app sql w app name r).result ms
after-made sql (job now shell c j) r t ms = refl
after-made sql (new_operations ops) r t ms = refl
after-made sql (new_apps apps) r t ms = refl

session-after :
    (sql : Sql) (acts : List Action) (r : Runner)
    → All IsCleanAction acts
    → (session sql acts r).history ≡ after sql r.history (all_made sql acts r)
unfolding session all_made apply_all
session-after sql [] r c = refl
session-after sql (a ∷ rest) r c =
    session-after sql rest (act sql a r) c.1
    ∙ ap (λ t. after sql t (all_made sql rest (act sql a r))) (act-after sql a r c.0)
    ∙ after-made sql a r r.history (all_made sql rest (act sql a r))

-- After any session that begins with an empty history, in which the database reports no error and
-- every started command ends, the listing of an operation, or of an app operation under its key, tells
-- of the runs that were made of it, newest first, with what each call returned: of the last fifty at
-- most and of no more than the limit. It is asked that these runs started in different seconds, in
-- their order.
pub session-list_history :
    (sql : Sql) (acts : List Action) (r : Runner) (name : Text) (limit : ℤ)
    → All IsCleanAction acts
    → r.history ≡ empty_table
    → IsSpaced name 0 (all_made sql acts r)
    → list_history sql none name limit (session sql acts r).history
      ≡ ok (
          map report
            (take (or_default 20 limit) (take 50 (newest_runs name 1 [] (all_made sql acts r)))))
session-list_history sql acts r name limit clean fresh spaced =
    ap (list_history sql none name limit)
      (session-after sql acts r clean ∙ ap (λ (t : Table). after sql t (all_made sql acts r)) fresh)
    ∙ list_history-changes_from name sql (all_made sql acts r) limit spaced
