-- ===== src/Operations/Runner/Cleanup.antt =====
-- How a run leaves the runner, on every path of `Run` and `RunApp` of internal/operations/runner.go.
use dockhand.Prelude.{
  ℕ, ◌≡◌, refl, false, none, arith, Option-cases, inl, inr, on_result, ◌++◌, codes, quoted, Text,
  text_eq_iff, lookup,
}
use dockhand.Operations.History.{Sql, insert_run}
use dockhand.Operations.Slots.{is_active, admit, register, release, cancel}
use dockhand.Operations.Slots.Protocol.Exclusion.{
  is_active-release, is_active-register, cancel-release, cancel-register, admit-some,
}
use dockhand.Operations.Runner.{
  Runner, Command, Execution, pipe_failed, start_failed, ended, World, Books, op_command, finish,
  run_admitted, run_known, run,
}

-- The last of a run is the cleanup, whether the command could be started or not.
finish-release :
    (sql : Sql) (w : World) (k : Text) (id : ℕ) (b : Books) (e : Execution)
    → (finish sql w k id b e).state.busy ≡ release k b.busy
unfolding finish
finish-release sql w k id b (pipe_failed e) = refl
finish-release sql w k id b (start_failed e) = refl
finish-release sql w k id b (ended _ _ _ _) = refl

-- Whether the operation is refused or runs, and however the run ends.
pub run_known_slots :
    (sql : Sql) (w : World) (k n : Text) (context : ℕ) (command : Command) (message : Text)
    (b : Books)
    → (is_active k b.busy ≡ false → cancel k b.busy ≡ none)
    → (is_active n (run_known sql w k context command message b).state.busy ≡ is_active n b.busy)
      × (cancel n (run_known sql w k context command message b).state.busy ≡ cancel n b.busy)
unfolding run_known run_admitted
run_known_slots sql w k n context command message b idle = elim (Option-cases (admit k b.busy)) [
  | inl e ↦ rw (e, run_known) (refl, refl)
  | inr (busy, e) ↦
      let inserted = insert_run w.insert_fault k w.started_at b.table in
      let id = on_result inserted.0 (λ (i : ℕ). i) (λ e. 0) in
      let books : Books = record { table = inserted.1; busy = register k context busy } in
      rw (e, run_known, finish-release sql w k id books (w.execute command))
        (ground (
          arith,
          text_eq_iff k n,
          admit-some k n b.busy busy e,
          is_active-release k n (register k context busy),
          is_active-register k n context busy,
          cancel-release k n (register k context busy),
          cancel-register k n context busy,
        ))
]

-- A call of `Run` leaves no trace in the maps of running operations: for every name, `IsActive` and
-- `Cancel` answer after it what they answered before, and so they do for app operations; whether the
-- operation is unknown, refused, cannot be started or runs. It is asked only that an operation that
-- is not active has no cancel function stored.
run_slots :
    (sql : Sql) (w : World) (k n : Text) (r : Runner)
    → (is_active k r.slots ≡ false → cancel k r.slots ≡ none)
    → (is_active n (run sql w k r).state.slots ≡ is_active n r.slots)
      × (cancel n (run sql w k r).state.slots ≡ cancel n r.slots)
      × ((run sql w k r).state.apps_slots ≡ r.apps_slots)
unfolding run
run_slots sql w k n r idle = elim (Option-cases (lookup k r.ops)) [
  | inl e ↦ rw (e, run) (refl, refl, refl)
  | inr (op, e) ↦
      let b : Books = record { table = r.history; busy = r.slots } in
      let kept =
        run_known_slots sql w k n r.next_context (op_command sql w op)
          (codes "operation " ++ quoted k ++ codes " is already running") b idle in
      rw (e, run) (kept.0, kept.1, refl)
]
