-- ===== src/Operations/Runner/Sessions/Made.antt =====
-- The runs that a session of internal/operations/runner.go makes, and the history that they leave.

use dockhand.Prelude.{
  ℕ, suc, ◌≡◌, refl, ◌∙◌, Bool, none, List, [], ◌∷◌, ◌++◌, Text, lookup, Option-cases, inl, inr,
  Result, ok, err, codes, quoted,
}
use dockhand.Operations.History.{Table, Sql, insert_run}
use dockhand.Operations.History.Keys.{apply, apply_all}
use dockhand.Operations.History.Log.Runs.{Made, changes_from}
use dockhand.Operations.Slots.{admit, register, app_key}
use dockhand.Operations.Runner.{
  Runner, World, Waited, Command, Execution, ended, RunResult, Books, op_command, app_op_command,
  finish, run_admitted, run_known, run, run_app,
}
use dockhand.Operations.Runner.Followups.{operate, operate_app}
use dockhand.Operations.Runner.Versions.{reload, reload_apps}
use dockhand.Operations.Runner.Sessions.{
  Action, run_operation, run_app_operation, job, new_operations, new_apps, act,
}
use dockhand.Operations.Runner.Sessions.Kept.{Keeps-run_job, Keeps-follow_run, Keeps-follow_run_app}

-- The database reports no error during the run, and every command that is started ends.
pub record IsClean (w : World) : Type 0 where
  pub inserted : w.insert_fault ≡ none
  pub updated : w.update_fault ≡ none
  pub pruned : w.prune_fault ≡ none
  pub ends :
      (c : Command)
      → (order : List Bool) × (stdout : Text) × (stderr : Text) × ((w' : Waited) × (w.execute c
            ≡ ended order stdout stderr w'))

abbrev pub IsCleanAction : Action → Type 0
IsCleanAction (run_operation w now shell name) = IsClean w
IsCleanAction (run_app_operation w now shell c app name) = IsClean w
IsCleanAction (job now shell c j) = Unit
IsCleanAction (new_operations ops) = Unit
IsCleanAction (new_apps apps) = Unit

-- The run that a call has made, by its result; a call that is refused has made none.
unfoldable pub made_by : Text → World → Result RunResult → List Made
made_by key w (err e) = []
made_by key w (ok x) =
    record {
      name = key;
      started_at = w.started_at;
      finished_at = w.finished_at;
      exit_code = x.exit_code;
      output = x.output;
    }
    ∷ []

unfoldable pub made : Sql → Action → Runner → List Made
unfolding made_by run run_app
made sql (run_operation w now shell name) r = made_by name w (run sql w name r).result
made sql (run_app_operation w now shell c app name) r =
    made_by (app_key app name) w (run_app sql w app name r).result
made sql (job now shell c j) r = []
made sql (new_operations ops) r = []
made sql (new_apps apps) r = []

-- The runs of a session, in their order.
unfoldable pub all_made : Sql → List Action → Runner → List Made
unfolding made act
all_made sql [] r = []
all_made sql (a ∷ rest) r = made sql a r ++ all_made sql rest (act sql a r)

-- The table that the runs `ms` make of `t`.
abbrev pub after : Sql → Table → List Made → Table
after sql t ms = apply_all sql t (changes_from (suc t.sequence) ms)

module _ (sql : Sql) (w : World) (clean : IsClean w) where
  finish-after :
      (key : Text) (context : ℕ) (b : Books) (e : Execution) (order : List Bool)
      (stdout stderr : Text) (w' : Waited)
      → e ≡ ended order stdout stderr w'
      → let c =
          finish sql w key
            (suc b.table.sequence)
            (record b { table = (insert_run none key w.started_at b.table).1 })
            e in
        c.state.table ≡ after sql b.table (made_by key w c.result)
  unfolding finish made_by apply_all apply insert_run
  finish-after key context b e order stdout stderr w' h = rw (h, clean.updated, clean.pruned) refl

  run_known-after :
      (key : Text) (context : ℕ) (command : Command) (message : Text) (b : Books)
      → let c = run_known sql w key context command message b in
        c.state.table ≡ after sql b.table (made_by key w c.result)
  unfolding run_known run_admitted made_by apply_all insert_run
  run_known-after key context command message b = elim (Option-cases (admit key b.busy)) [
    | inl e ↦ rw (e, run_known) refl
    | inr (busy, e) ↦
        let (order, stdout, stderr, (w', h)) = clean.ends command in
        rw (e, run_known, clean.inserted)
          (finish-after key context (record { table = b.table; busy = register key context busy })
            (w.execute command) order stdout stderr w' h)
  ]

  pub run-after :
      (name : Text) (r : Runner)
      → (run sql w name r).state.history
        ≡ after sql r.history (made_by name w (run sql w name r).result)
  unfolding run made_by apply_all
  run-after name r = elim (Option-cases (lookup name r.ops)) [
    | inl e ↦ rw (e, run) refl
    | inr (op, e) ↦
        rw (e, run)
          (run_known-after name r.next_context (op_command sql w op)
            (codes "operation " ++ quoted name ++ codes " is already running")
            (record { table = r.history; busy = r.slots }))
  ]

  pub run_app-after :
      (app name : Text) (r : Runner)
      → (run_app sql w app name r).state.history
        ≡ after sql r.history (made_by (app_key app name) w (run_app sql w app name r).result)
  unfolding run_app made_by apply_all
  run_app-after app name r = elim (Option-cases (lookup app r.apps)) [
    | inl e ↦ rw (e, run_app) refl
    | inr (a, e) ↦ elim (Option-cases (lookup name a.operations)) [
      | inl f ↦ rw (e, f, run_app) refl
      | inr (op, f) ↦
          rw (e, f, run_app)
            (run_known-after (app_key app name) r.next_context (app_op_command sql w op)
              (codes "operation "
                ++ quoted name
                ++ codes " on app "
                ++ quoted app
                ++ codes " is already running")
              (record { table = r.history; busy = r.apps_slots }))
    ]
  ]

  operate-after :
      (now : ℕ) (shell : Text → Text → Result Text) (name : Text) (r : Runner)
      → (operate sql w now shell name r).0.history
        ≡ after sql r.history (made_by name w (run sql w name r).result)
  unfolding operate run made_by apply_all
  operate-after now shell name r = elim (Option-cases (lookup name r.ops)) [
    | inl e ↦ rw (e, operate, run) refl
    | inr (op, e) ↦
        rw (e, operate)
          ((Keeps-follow_run now shell name op (run sql w name r).result
              (run sql w name r).state).history
            ∙ run-after name r)
  ]

pub act-after :
    (sql : Sql) (a : Action) (r : Runner)
    → IsCleanAction a
    → (act sql a r).history ≡ after sql r.history (made sql a r)
unfolding act made operate_app reload reload_apps apply_all
act-after sql (run_operation w now shell name) r c = operate-after sql w c now shell name r
act-after sql (run_app_operation w now shell checks app name) r c =
    let x = run_app sql w app name r in
    (Keeps-follow_run_app now shell checks app x.result x.state).history
    ∙ run_app-after sql w c app name r
act-after sql (job now shell checks j) r c = (Keeps-run_job now shell checks j r).history
act-after sql (new_operations ops) r c = refl
act-after sql (new_apps apps) r c = refl
