-- ===== src/Config/Watcher/Quiet.antt =====
-- When the watcher of internal/config/watcher.go reloads, and when it does not.
use dockhand.Prelude.{ℕ, ◌+◌, ◌≡◌, ◌≢◌, ◌≤◌, ◌⊎◌, Bool, true, false, List, [], ◌∷◌}
use dockhand.Config.Watcher.{Watch, Event, edited, removed, replaced, recorded, tick}

-- The file is missing, or as it was when it was seen last, or as the program wrote it last.
abbrev IsSettled : Watch → Type 0
IsSettled w =
    (w.file ≡ 0) ⊎ ((w.file ≡ w.last_mod) ⊎ ((w.last_write ≢ 0) × (w.file ≡ w.last_write)))

-- No event in which somebody else writes the file.
abbrev pub IsOwn : Event → Type 0
IsOwn (edited t) = ⊥
IsOwn removed = Unit
IsOwn (replaced t) = Unit
IsOwn recorded = Unit
IsOwn tick = Unit

-- How many write-backs are seen by a tick between their rename and the record of their time. The first
-- argument says whether such a write-back is under way.
abbrev pub torn : Bool → List Event → ℕ
torn b [] = 0
torn b (edited t ∷ es) = torn b es
torn b (removed ∷ es) = torn b es
torn b (replaced t ∷ es) = torn true es
torn b (recorded ∷ es) = torn false es
torn true (tick ∷ es) = 1 + torn false es
torn false (tick ∷ es) = torn false es

abbrev IsSettledUnless : Bool → Watch → Type 0
IsSettledUnless true w = Unit
IsSettledUnless false w = IsSettled w

abbrev Within : ℕ → ℕ → ℕ → Type 0
Within low extra n = (low ≤ n) × (n ≤ low + extra)
