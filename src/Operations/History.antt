-- ===== src/Operations/History.antt =====
-- internal/operations/history.go: the table of runs. SQLite is a parameter: `ORDER BY` is the field
-- of an interface with what SQL promises of it, and each call is given the error that the database
-- reports, if it reports one; a call that fails changes nothing. The rest of each statement
-- (`WHERE`, `LIMIT`, `INSERT`, `UPDATE`, `DELETE`) is written out.
pub mod Keys
pub mod Pruning
pub mod Retained
pub mod Listing
pub mod Order
pub mod Log
use dockhand.Prelude.{
  ℕ, suc, ◌+◌, ◌-◌, ◌*◌, ◌/◌, ◌≤◌, ◌≡◌, Bool, true, false, not, ◌&&◌, Option, none, some, List, [],
  ◌∷◌, ◌++◌, ltb, leb, ◌==◌, if◌then◌else◌, count_of, any_of, select, take, All, Text, codes,
  text_eq, contains_byte, Result, ok, err, ℤ, is_positive, pos, negsuc, or_zero,
}

-- A row of `operation_history`; NULL is `none`. Times are Unix seconds.
pub record Row : Type 0 where
  pub id : ℕ
  pub operation_name : Text
  pub started_at : ℕ
  pub finished_at : Option ℕ
  pub exit_code : Option ℤ
  pub output : Option Text

-- The table, with the sequence that AUTOINCREMENT draws ids from.
pub record Table : Type 0 where
  pub rows : List Row
  pub sequence : ℕ

abbrev pub empty_table : Table
empty_table = record { rows = []; sequence = 0 }

-- OpenDB: what opening the file, the pragma and the schema report; a table that is there is kept.
unfoldable pub open_db : Option Text → Option Text → Option Text → Option Table → Result Table
open_db (some e) wal schema found = err (codes "open history db: " ++ e)
open_db none (some e) schema found = err (codes "set WAL mode: " ++ e)
open_db none none (some e) found = err (codes "init schema: " ++ e)
open_db none none none found = ok (or_zero empty_table found)

-- Each row is followed by rows that are no newer.
abbrev pub IsNewestFirst : List Row → Type 0
IsNewestFirst [] = Unit
IsNewestFirst (r ∷ rs) = All (λ x. x.started_at ≤ r.started_at) rs × IsNewestFirst rs

-- `ORDER BY started_at DESC`: the same rows, as often, in descending order. SQL says nothing about
-- the order of rows that started in the same second.
pub record Sql : Type 0 where
  pub newest_first : List Row → List Row
  pub same_rows : (p : Row → Bool) (rs : List Row) → count_of p (newest_first rs) ≡ count_of p rs
  pub descending : (rs : List Row) → IsNewestFirst (newest_first rs)

-- The Unix second of a time in nanoseconds since the zero time, and back.
abbrev unix_epoch : ℕ
unix_epoch = 62135596800

abbrev pub unix : ℕ → ℕ
unix t = t / 1000000000 - unix_epoch

abbrev pub from_unix : ℕ → ℕ
from_unix s = (s + unix_epoch) * 1000000000

-- HistoryRecord
pub record HistoryRecord : Type 0 where
  pub id : ℕ
  pub operation_name : Text
  pub started_at : ℕ
  pub finished_at : Option ℕ
  pub exit_code : Option ℤ
  pub output : Text

abbrev pub fails {ℓ} : {A : Type ℓ} → Option Text → A → Result A
fails none a = ok a
fails (some e) a = err e

abbrev pub new_row : ℕ → Text → ℕ → Row
new_row id name started_at = record {
  id = id;
  operation_name = name;
  started_at = unix started_at;
  finished_at = none;
  exit_code = none;
  output = none;
}

-- InsertRun
unfoldable pub insert_run : Option Text → Text → ℕ → Table → Result ℕ × Table
insert_run (some e) name started_at t = (err e, t)
insert_run none name started_at t =
    let id = suc t.sequence in
    (ok id, record { rows = t.rows ++ new_row id name started_at ∷ []; sequence = id })

abbrev pub finish_row : ℕ → ℕ → ℤ → Text → Row → Row
finish_row id finished_at exit_code output r =
    if r.id == id
    then record r {
      finished_at = some (unix finished_at);
      exit_code = some exit_code;
      output = some output;
    }
    else r

abbrev pub map_rows : (Row → Row) → List Row → List Row
map_rows f [] = []
map_rows f (r ∷ rs) = f r ∷ map_rows f rs

-- UpdateRun
unfoldable pub update_run : Option Text → ℕ → ℕ → ℤ → Text → Table → Table
update_run (some e) id finished_at exit_code output t = t
update_run none id finished_at exit_code output t = record t {
  rows = map_rows (finish_row id finished_at exit_code output) t.rows;
}

-- The error of Scan for an output that is NULL, as database/sql words it.
abbrev pub null_error : Text
null_error =
    codes "sql: Scan error on column index 5, name \"output\": "
    ++ codes "converting NULL to string is unsupported"

abbrev pub or_default : ℕ → ℤ → ℕ
or_default d (pos n) = if n == 0 then d else n
or_default d (negsuc n) = d

abbrev pub map_unix : Option ℕ → Option ℕ
map_unix none = none
map_unix (some s) = some (from_unix s)

abbrev scan_output : Row → Option Text → Result HistoryRecord
scan_output r none = err null_error
scan_output r (some out) = ok (record {
  id = r.id;
  operation_name = r.operation_name;
  started_at = from_unix r.started_at;
  finished_at = map_unix r.finished_at;
  exit_code = r.exit_code;
  output = out;
})

-- The body of the loop over the rows: `rows.Scan`, and the fields of the record.
unfoldable pub scan_row : Row → Result HistoryRecord
scan_row r = scan_output r r.output

abbrev pub add_record :
    Result HistoryRecord → Result (List HistoryRecord) → Result (List HistoryRecord)
add_record (err e) rest = err e
add_record (ok h) (err e) = err e
add_record (ok h) (ok hs) = ok (h ∷ hs)

-- The loop over the rows; the first error ends it, and drops what was read.
unfoldable pub scan_rows : List Row → Result (List HistoryRecord)
scan_rows [] = ok []
scan_rows (r ∷ rs) = add_record (scan_row r) (scan_rows rs)

abbrev pub is_named : Text → Row → Bool
is_named name r = text_eq r.operation_name name

-- operation_name LIKE '%:%'
abbrev is_app_row : Row → Bool
is_app_row r = contains_byte r.operation_name b':'

abbrev pub has_id : ℕ → Row → Bool
has_id i r = r.id == i

-- The `WHERE` of the `DELETE` does not take the row.
abbrev pub survives : Text → List Row → Row → Bool
survives name kept r = not (is_named name r && not (any_of (has_id r.id) kept))

module _ (sql : Sql) where
  open sql use {newest_first}

  -- A `SELECT` with its error, and the loop over its rows.
  abbrev query : Option Text → (Row → Bool) → ℕ → Table → Result (List HistoryRecord)
  query (some e) p limit t = err e
  query none p limit t = scan_rows (take limit (newest_first (select p t.rows)))

  -- ListHistory
  unfoldable pub list_history : Option Text → Text → ℤ → Table → Result (List HistoryRecord)
  unfolding scan_rows scan_row
  list_history fault name limit t = query fault (is_named name) (or_default 20 limit) t

  -- ListAllHistory
  unfoldable pub list_all_history : Option Text → ℤ → Table → Result (List HistoryRecord)
  unfolding scan_rows scan_row
  list_all_history fault limit t = query fault (λ r. true) (or_default 50 limit) t

  -- ListAllAppHistory
  unfoldable pub list_all_app_history : Option Text → ℤ → Table → Result (List HistoryRecord)
  unfolding scan_rows scan_row
  list_all_app_history fault limit t = query fault is_app_row (or_default 50 limit) t

  -- What the inner `SELECT` of `Prune` yields.
  abbrev pub newest_of : Text → List Row → List Row
  newest_of name rows = take 50 (newest_first (select (is_named name) rows))

  -- Prune, with maxHistoryPerOperation = 50
  unfoldable pub prune : Option Text → Text → Table → Table
  prune (some e) name t = t
  prune none name t = record t { rows = select (survives name (newest_of name t.rows)) t.rows }
