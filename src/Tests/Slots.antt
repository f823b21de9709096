-- ===== src/Tests/Slots.antt =====
-- Runs and cancellations of internal/operations/runner.go at concrete inputs.
use dockhand.Prelude.{
  ◌≡◌, ◌≤◌, ◌↔◌, refl, true, false, [], ◌∷◌, count_of, is_some, Text, codes, lookup, insert,
  text_eq,
}
use dockhand.Operations.Slots.{Slots, is_active, admit, register, cancel}
use dockhand.Operations.Slots.Protocol.{
  System, Reach, here, next, enter, store, idle, runs, cancellable,
}
use dockhand.Operations.Slots.Protocol.Exclusion.{Reach-runs, Reach-cancel}

abbrev backup : Text
backup = codes "backup"

abbrev marked : Slots
marked = record { active = (backup, true) ∷ []; cancels = [] }

abbrev stored : Slots
stored = record { active = (backup, true) ∷ []; cancels = (backup, 7) ∷ [] }

abbrev running : System
running = record {
  slots = stored;
  threads = record { name = backup; context = 7; registered = true } ∷ [];
  cancelled = [];
}

-- One run of the operation has stored its cancel function.
Reach-running : Reach idle running
unfolding admit register lookup insert text_eq
Reach-running =
    next (next here (enter backup 7 marked refl refl))
      (store [] [] (record { name = backup; context = 7; registered = false }) refl refl refl)

Reach-runs_example :
    (count_of (runs backup) running.threads ≤ 1)
    × ((is_active backup running.slots ≡ true) ↔ (1 ≤ count_of (runs backup) running.threads))
Reach-runs_example = Reach-runs backup Reach-running

Reach-cancel_example :
    (is_some (cancel backup running.slots) ≡ true)
    ↔ (count_of (cancellable backup) running.threads ≡ 1)
Reach-cancel_example = Reach-cancel backup Reach-running
