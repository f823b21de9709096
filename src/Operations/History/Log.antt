-- ===== src/Operations/History/Log.antt =====
-- The history of one operation as a log, newest first, which its prunes cut to fifty entries: what the
-- statements of internal/operations/history.go do to the table is what happens to the log.
pub mod Views
pub mod Refinement
pub mod Runs
use mathlib.Core.List.{reverse-cons, reverse-reverse, reverse-append}
use dockhand.Prelude.{
  ℕ, zero, suc, ◌+◌, ◌≤◌, ◌<◌, ◌≡◌, refl, sym, subst, ap, ◌∙◌, Bool, true, false, ◌&&◌, Option,
  none, some, List, [], ◌∷◌, ◌++◌, append-nil, arith, ◌==◌, if◌then◌else◌, Bool-cases, inl, inr,
  count_of, select, any_of, take, drop, take-append-drop, length, reverse, All, Text, text_eq,
  text_eq_refl, eq_of-text_eq, text_eq_iff, ℤ, Result,
}
use dockhand.Operations.History.{
  Row, Table, Sql, HistoryRecord, empty_table, unix, new_row, insert_run, finish_row, map_rows,
  update_run, has_id, is_named, survives, newest_of, prune, scan_rows, or_default, list_history,
}
use dockhand.Operations.History.Keys.{
  count_of-select, IsKeyed, Change, insert, update, prune_old, apply, apply_all, apply-IsKeyed,
  count_of-append, count_of-select, select-append,
}
use dockhand.Operations.History.Pruning.{
  is_kept, count_of-is_kept_all, count_of-take, count_of-true, select-survives_other,
}
use dockhand.Operations.History.Listing.{count_of-le}
use dockhand.Operations.History.Order.{IsDescending, count_of-reverse, newest_first-reverse}

-- The entries, and the last id given out.
pub record Log : Type 0 where
  pub entries : List Row
  pub sequence : ℕ

abbrev pub empty_log : Log
empty_log = record { entries = []; sequence = 0 }

-- What a change of the history means for the log of the operation `name`: its inserts put an entry in
-- front, the end of a run is noted in its entry, and a prune leaves the newest fifty.
unfoldable pub log_change : Text → Log → Change → Log
log_change name l (insert other at) = record {
  entries = if text_eq other name then new_row (suc l.sequence) other at ∷ l.entries else l.entries;
  sequence = suc l.sequence;
}
log_change name l (update id at code out) = record l {
  entries = map_rows (finish_row id at code out) l.entries;
}
log_change name l (prune_old other) = record l {
  entries = if text_eq other name then take 50 l.entries else l.entries;
}

-- A change that the database refuses means nothing.
unfoldable pub log_all : Text → Log → List (Option Text × Change) → Log
log_all name l [] = l
log_all name l ((some e, c) ∷ cs) = log_all name l cs
log_all name l ((none, c) ∷ cs) = log_all name (log_change name l c) cs

-- The runs of the operation that are entered start in different seconds, in their order, from the
-- second `n` on.
abbrev pub StartsFrom : Text → ℕ → List (Option Text × Change) → Type 0
StartsFrom name n [] = Unit
StartsFrom name n ((none, insert other at) ∷ cs) =
    if text_eq other name
    then (n ≤ unix at) × StartsFrom name (suc (unix at)) cs
    else StartsFrom name n cs
StartsFrom name n (c ∷ cs) = StartsFrom name n cs

-- The log that a table holds.
unfoldable pub view : Text → Table → Log
view name t = record { entries = reverse (select (is_named name) t.rows); sequence = t.sequence }
