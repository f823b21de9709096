-- ===== src/Operations/Runner/Sessions/Sound.antt =====
-- What every session of internal/operations/runner.go keeps: a sound table, and maps of running operations
-- that answer as before.
use dockhand.Prelude.{
  ℕ, zero, suc, ◌≡◌, refl, ◌∙◌, sym, ap, subst, false, none, List, [], ◌∷◌, ◌++◌, Text, lookup,
  Option-cases, inl, inr, Result, codes, quoted, on_result, ℤ,
}
use dockhand.Operations.History.{Table, Sql, insert_run, update_run}
use dockhand.Operations.History.Keys.{
  IsKeyed, insert_run-IsKeyed, update_run-IsKeyed, prune-IsKeyed,
}
use dockhand.Operations.Slots.{Slots, is_active, cancel, admit, register, app_key}
use dockhand.Operations.Runner.{
  Runner, World, Command, Execution, pipe_failed, start_failed, ended, Books, close_run, finish,
  run_admitted, run_known, run, run_app, op_command, app_op_command,
}
use dockhand.Operations.Runner.Cleanup.{run_known_slots}
use dockhand.Operations.Runner.Versions.{reload, reload_apps}
use dockhand.Operations.Runner.Followups.{operate, operate_app}
use dockhand.Operations.Runner.Sessions.{
  Action, run_operation, run_app_operation, job, new_operations, new_apps, act, session,
}
use dockhand.Operations.Runner.Sessions.Kept.{
  Keeps, Keeps-refl, Keeps-run_job, Keeps-follow_run, Keeps-follow_run_app,
}

-- An operation that is not active has no cancel function stored.
abbrev pub IsPaired : Slots → Type 0
IsPaired s = (n : Text) → is_active n s ≡ false → cancel n s ≡ none

-- The maps answer for every name as those of `s` did.
abbrev pub SameAnswers : Slots → Slots → Type 0
SameAnswers s t = (n : Text) → (is_active n t ≡ is_active n s) × (cancel n t ≡ cancel n s)

pub record IsSound (r : Runner) : Type 0 where
  pub keyed : IsKeyed r.history
  pub paired : IsPaired r.slots
  pub apps_paired : IsPaired r.apps_slots

-- From one runner to another.
pub record Preserves (r u : Runner) : Type 0 where
  pub keyed : IsKeyed u.history
  pub answers : SameAnswers r.slots u.slots
  pub apps_answers : SameAnswers r.apps_slots u.apps_slots

Preserves-IsSound : {r u : Runner} → IsSound r → Preserves r u → IsSound u
Preserves-IsSound s p = record {
  keyed = p.keyed;
  paired = λ n h. (p.answers n).1 ∙ s.paired n (sym (p.answers n).0 ∙ h);
  apps_paired = λ n h. (p.apps_answers n).1 ∙ s.apps_paired n (sym (p.apps_answers n).0 ∙ h);
}

Preserves-trans : {r u v : Runner} → Preserves r u → Preserves u v → Preserves r v
Preserves-trans p q = record {
  keyed = q.keyed;
  answers = λ n. ((q.answers n).0 ∙ (p.answers n).0, (q.answers n).1 ∙ (p.answers n).1);
  apps_answers = λ n.
      ((q.apps_answers n).0 ∙ (p.apps_answers n).0, (q.apps_answers n).1 ∙ (p.apps_answers n).1);
}

Preserves-Keeps : {r u : Runner} → IsKeyed r.history → Keeps r u → Preserves r u
Preserves-Keeps k h = record {
  keyed = subst IsKeyed (sym h.history) k;
  answers = λ n. (ap (is_active n) h.slots, ap (cancel n) h.slots);
  apps_answers = λ n. (ap (is_active n) h.apps_slots, ap (cancel n) h.apps_slots);
}

module _ (sql : Sql) (w : World) where
  close_run-IsKeyed :
      (name : Text) (id : ℕ) (code : ℤ) (out : Text) (t : Table)
      → IsKeyed t
      → IsKeyed (close_run sql w name id code out t)
  unfolding close_run
  close_run-IsKeyed name zero code out t k = k
  close_run-IsKeyed name (suc n) code out t k =
      prune-IsKeyed sql w.prune_fault name
        (update_run w.update_fault (suc n) w.finished_at code out t)
        (update_run-IsKeyed w.update_fault (suc n) w.finished_at code out t k)

  finish-IsKeyed :
      (name : Text) (id : ℕ) (b : Books) (e : Execution)
      → IsKeyed b.table
      → IsKeyed (finish sql w name id b e).state.table
  unfolding finish
  finish-IsKeyed name id b (pipe_failed e) k = k
  finish-IsKeyed name id b (start_failed e) k = k
  finish-IsKeyed name id b (ended _ _ _ _) k = close_run-IsKeyed name id _ _ b.table k

  run_known-IsKeyed :
      (key : Text) (context : ℕ) (command : Command) (message : Text) (b : Books)
      → IsKeyed b.table
      → IsKeyed (run_known sql w key context command message b).state.table
  unfolding run_known run_admitted
  run_known-IsKeyed key context command message b k = elim (Option-cases (admit key b.busy)) [
    | inl e ↦ rw (e, run_known) k
    | inr (busy, e) ↦
        let inserted = insert_run w.insert_fault key w.started_at b.table in
        rw (e, run_known)
          (finish-IsKeyed key (on_result inserted.0 (λ (id : ℕ). id) (λ e. 0))
            (record { table = inserted.1; busy = register key context busy }) (w.execute command)
            (insert_run-IsKeyed w.insert_fault key w.started_at b.table k))
  ]

  Preserves-run : (name : Text) (r : Runner) → IsSound r → Preserves r (run sql w name r).state
  unfolding run
  Preserves-run name r s = elim (Option-cases (lookup name r.ops)) [
    | inl e ↦ rw (e, run) (Preserves-Keeps s.keyed Keeps-refl)
    | inr (op, e) ↦
        let b : Books = record { table = r.history; busy = r.slots } in
        let message = codes "operation " ++ quoted name ++ codes " is already running" in
        rw (e, run)
          (record {
            keyed = run_known-IsKeyed name r.next_context (op_command sql w op) message b s.keyed;
            answers = λ n.
                run_known_slots sql w name n r.next_context (op_command sql w op) message b
                  (s.paired name);
            apps_answers = λ n. (refl, refl);
          })
  ]

  Preserves-run_app :
      (app name : Text) (r : Runner) → IsSound r → Preserves r (run_app sql w app name r).state
  unfolding run_app
  Preserves-run_app app name r s = elim (Option-cases (lookup app r.apps)) [
    | inl e ↦ rw (e, run_app) (Preserves-Keeps s.keyed Keeps-refl)
    | inr (a, e) ↦ elim (Option-cases (lookup name a.operations)) [
      | inl f ↦ rw (e, f, run_app) (Preserves-Keeps s.keyed Keeps-refl)
      | inr (op, f) ↦
          let b : Books = record { table = r.history; busy = r.apps_slots } in
          let message =
            codes "operation "
            ++ quoted name
            ++ codes " on app "
            ++ quoted app
            ++ codes " is already running" in
          let key = app_key app name in
          rw (e, f, run_app)
            (record {
              keyed =
                  run_known-IsKeyed key r.next_context (app_op_command sql w op) message b s.keyed;
              answers = λ n. (refl, refl);
              apps_answers = λ n.
                  run_known_slots sql w key n r.next_context (app_op_command sql w op) message b
                    (s.apps_paired key);
            })
    ]
  ]

  Preserves-operate :
      (now : ℕ) (shell : Text → Text → Result Text) (name : Text) (r : Runner)
      → IsSound r
      → Preserves r (operate sql w now shell name r).0
  unfolding operate
  Preserves-operate now shell name r s = elim (Option-cases (lookup name r.ops)) [
    | inl e ↦ rw (e, operate) (Preserves-Keeps s.keyed Keeps-refl)
    | inr (op, e) ↦
        let p = Preserves-run name r s in
        rw (e, operate)
          (Preserves-trans p (
            Preserves-Keeps p.keyed (
              Keeps-follow_run now shell name op (run sql w name r).result
                (run sql w name r).state)))
  ]

Preserves-act : (sql : Sql) (a : Action) (r : Runner) → IsSound r → Preserves r (act sql a r)
unfolding act operate_app reload reload_apps
Preserves-act sql (run_operation w now shell name) r s = Preserves-operate sql w now shell name r s
Preserves-act sql (run_app_operation w now shell c app name) r s =
    let x = run_app sql w app name r in
    let p = Preserves-run_app sql w app name r s in
    Preserves-trans p
      (Preserves-Keeps p.keyed (Keeps-follow_run_app now shell c app x.result x.state))
Preserves-act sql (job now shell c j) r s = Preserves-Keeps s.keyed (Keeps-run_job now shell c j r)
Preserves-act sql (new_operations ops) r s =
    Preserves-Keeps s.keyed (record { history = refl; slots = refl; apps_slots = refl })
Preserves-act sql (new_apps apps) r s =
    Preserves-Keeps s.keyed (record { history = refl; slots = refl; apps_slots = refl })

-- Every session, whatever fails in it, keeps the ids of the history distinct and below its sequence, and
-- leaves `IsActive` and `Cancel` with the answers that they gave before it for every name, and so for app
-- operations: no path leaves an operation marked as running or a cancel function behind. It is asked
-- that the table has such ids at the start, and that an operation that is not active then has no cancel
-- function stored.
pub session_sound :
    (sql : Sql) (acts : List Action) (r : Runner) → IsSound r → Preserves r (session sql acts r)
unfolding session
session_sound sql [] r s = Preserves-Keeps s.keyed Keeps-refl
session_sound sql (a ∷ rest) r s =
    let p = Preserves-act sql a r s in
    Preserves-trans p (session_sound sql rest (act sql a r) (Preserves-IsSound s p))
