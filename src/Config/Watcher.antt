-- ===== src/Config/Watcher.antt =====
-- internal/config/watcher.go: Watch, and the part of internal/config/writer.go that tells it which writes
-- are the program's own. A modification time is in nanoseconds since Go's zero time, which stands for a
-- file that is missing. What happens to the file and the ticks of the watcher are a list of events; a
-- write-back is two of them, the rename and the record of its time.
pub mod Quiet
use dockhand.Prelude.{ℕ, ◌+◌, ◌*◌, Bool, true, false, not, ◌&&◌, List, [], ◌∷◌, ◌==◌, if◌then◌else◌}

-- The file's modification time, lastWriteTime, lastMod, and how often onChange was called.
pub record Watch : Type 0 where
  pub file : ℕ
  pub last_write : ℕ
  pub last_mod : ℕ
  pub changes : ℕ

pub data Event : Type 0 where
  edited : ℕ → Event
  removed : Event
  replaced : ℕ → Event
  recorded : Event
  tick : Event

-- Watch up to its first tick
abbrev pub start : ℕ → ℕ → Watch
start mod_time last_write = record {
  file = mod_time;
  last_write = last_write;
  last_mod = mod_time;
  changes = 0;
}

-- IsOwnWrite
unfoldable pub is_own_write : ℕ → Watch → Bool
is_own_write t w = not (w.last_write == 0) && (t == w.last_write)

-- recordWriteTime
unfoldable pub record_write_time : Watch → Watch
record_write_time w = if w.file == 0 then w else record w { last_write = w.file }

abbrev changed : Watch → Watch
changed w =
    if is_own_write w.file w
    then record w { last_mod = w.file }
    else record w { last_mod = w.file; changes = w.changes + 1 }

-- A tick in Watch
unfoldable pub poll : Watch → Watch
unfolding is_own_write
poll w = if not (w.file == 0) && not (w.file == w.last_mod) then changed w else w

unfoldable pub step : Event → Watch → Watch
unfolding poll record_write_time
step (edited t) w = record w { file = t }
step removed w = record w { file = 0 }
step (replaced t) w = record w { file = t }
step recorded w = record_write_time w
step tick w = poll w

-- The events, the first one first.
unfoldable pub watch : List Event → Watch → Watch
unfolding step
watch [] w = w
watch (e ∷ es) w = watch es (step e w)
