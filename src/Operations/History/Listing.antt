-- ===== src/Operations/History/Listing.antt =====
-- What the queries of internal/operations/history.go list.
use dockhand.Prelude.{
  ℕ, zero, suc, ◌-◌, ◌<◌, ◌≤◌, ◌<◌, ◌≡◌, refl, Bool, true, ◌&&◌, none, List, [], ◌∷◌, arith, leb,
  is_some, or_zero, count_of, select, take, length, min, length-take, All, Text, ℤ, pos, negsuc,
  Result, ok, err, text_eq,
}
use dockhand.Operations.History.{
  Row, Table, Sql, HistoryRecord, IsNewestFirst, is_named, null_error, add_record, or_default,
  map_unix, from_unix, scan_row, scan_rows, list_history,
}
use dockhand.Operations.History.Pruning.{count_of-true}

-- Each record is followed by records that are no newer.
abbrev pub IsLatestFirst : List HistoryRecord → Type 0
IsLatestFirst [] = Unit
IsLatestFirst (h ∷ hs) = All (λ x. x.started_at ≤ h.started_at) hs × IsLatestFirst hs

pub count_of-le : (p : Row → Bool) (rs : List Row) → count_of p rs ≤ length rs
count_of-le p [] = omega arith
count_of-le p (r ∷ rs) = ground (arith, count_of-le p rs)

length-newest_first : (sql : Sql) (rs : List Row) → length (sql.newest_first rs) ≡ length rs
length-newest_first sql rs =
    omega
      (arith, count_of-true (sql.newest_first rs), count_of-true rs, sql.same_rows (λ r. true) rs)

-- The records of rows whose runs are finished.
abbrev pub record_of : Row → HistoryRecord
record_of r = record {
  id = r.id;
  operation_name = r.operation_name;
  started_at = from_unix r.started_at;
  finished_at = map_unix r.finished_at;
  exit_code = r.exit_code;
  output = or_zero [] r.output;
}

abbrev records : List Row → List HistoryRecord
records [] = []
records (r ∷ rs) = record_of r ∷ records rs

add_record_ok :
    (r : Row) (rs : List Row) (rest : Result (List HistoryRecord)) (hs : List HistoryRecord)
    → ((qs : List HistoryRecord) → rest ≡ ok qs → qs ≡ records rs)
    → add_record (scan_row r) rest ≡ ok hs
    → hs ≡ records (r ∷ rs)
unfolding scan_row
add_record_ok r rs (err e) hs ih h = ground arith
add_record_ok r rs (ok qs) hs ih h = ground (arith, ih qs refl)

scan_rows_ok : (rs : List Row) (hs : List HistoryRecord) → scan_rows rs ≡ ok hs → hs ≡ records rs
unfolding scan_rows
scan_rows_ok [] hs h = ground arith
scan_rows_ok (r ∷ rs) hs h = add_record_ok r rs (scan_rows rs) hs (scan_rows_ok rs) h

length-records : (rs : List Row) → length (records rs) ≡ length rs
length-records [] = refl
length-records (r ∷ rs) = omega (arith, length-records rs)

records_bounded :
    (n : ℕ) (rs : List Row)
    → All (λ r. r.started_at ≤ n) rs
    → All (λ h. h.started_at ≤ from_unix n) (records rs)
records_bounded n [] h = tt
records_bounded n (r ∷ rs) h = (omega arith, records_bounded n rs h.1)

records-IsLatestFirst : (rs : List Row) → IsNewestFirst rs → IsLatestFirst (records rs)
records-IsLatestFirst [] h = tt
records-IsLatestFirst (r ∷ rs) h =
    (records_bounded r.started_at rs h.0, records-IsLatestFirst rs h.1)

records_named :
    (name : Text) (rs : List Row)
    → count_of (is_named name) rs ≡ length rs
    → All (λ h. text_eq h.operation_name name ≡ true) (records rs)
records_named name [] h = tt
records_named name (r ∷ rs) h = ground (arith, count_of-le p rs, records_named name rs)
  where
    p : Row → Bool
    p = is_named name

All-take :
    (n m : ℕ) (rs : List Row)
    → All (λ r. r.started_at ≤ m) rs
    → All (λ r. r.started_at ≤ m) (take n rs)
All-take zero m rs h = tt
All-take (suc n) m [] h = tt
All-take (suc n) m (r ∷ rs) h = (h.0, All-take n m rs h.1)

IsNewestFirst-take : (n : ℕ) (rs : List Row) → IsNewestFirst rs → IsNewestFirst (take n rs)
IsNewestFirst-take zero rs h = tt
IsNewestFirst-take (suc n) [] h = tt
IsNewestFirst-take (suc n) (r ∷ rs) h =
    (All-take n r.started_at rs h.0, IsNewestFirst-take n rs h.1)

length-select : (p : Row → Bool) (rs : List Row) → length (select p rs) ≡ count_of p rs
length-select p [] = refl
length-select p (r ∷ rs) = ground (arith, length-select p rs)

count_of-select_eq : (p : Row → Bool) (rs : List Row) → count_of p (select p rs) ≡ count_of p rs
count_of-select_eq p [] = refl
count_of-select_eq p (r ∷ rs) = ground (arith, count_of-select_eq p rs)

-- If all rows pass a test, so do the first `n`.
count_of-take_all :
    (p : Row → Bool) (n : ℕ) (rs : List Row)
    → count_of p rs ≡ length rs
    → count_of p (take n rs) ≡ length (take n rs)
count_of-take_all p zero rs h = refl
count_of-take_all p (suc n) [] h = refl
count_of-take_all p (suc n) (r ∷ rs) h = ground (arith, count_of-le p rs, count_of-take_all p n rs)

module _ (sql : Sql) (name : Text) (limit : ℤ) (t : Table) (hs : List HistoryRecord) where
  open sql use {newest_first, same_rows, descending}

  -- A successful `ListHistory` lists records of the named operation only, newest first, and as many
  -- as the table has rows of it, up to the limit (20 for a limit that is not positive).
  list_history_ok :
      list_history sql none name limit t ≡ ok hs
      → (length hs ≡ min (or_default 20 limit) (count_of (is_named name) t.rows))
        × All (λ h. text_eq h.operation_name name ≡ true) hs
        × IsLatestFirst hs
  unfolding list_history
  list_history_ok h =
      let n = or_default 20 limit in
      let named = select (is_named name) t.rows in
      let listed = take n (newest_first named) in
      let e = scan_rows_ok listed hs h in
      let size = length-newest_first sql named in
      rw e (
        omega (
          arith,
          length-records listed,
          length-take n (newest_first named),
          size,
          length-select (is_named name) t.rows,
        ),
        records_named name listed (
            count_of-take_all (is_named name) n (newest_first named) (
              omega (
                arith,
                same_rows (is_named name) named,
                count_of-select_eq (is_named name) t.rows,
                length-select (is_named name) t.rows,
                size,
              ))),
        records-IsLatestFirst listed (IsNewestFirst-take n (newest_first named) (descending named)),
      )

-- The row started in the second `s` or later, and its output is there.
abbrev pub is_done_since : ℕ → Row → Bool
is_done_since s r = leb s r.started_at && is_some r.output

abbrev pub is_since : ℕ → Row → Bool
is_since s r = leb s r.started_at

count_of-bounded :
    (s n : ℕ) (rs : List Row)
    → All (λ x. x.started_at ≤ n) rs
    → n < s
    → count_of (is_since s) rs ≡ 0
count_of-bounded s n [] b h = refl
count_of-bounded s n (r ∷ rs) b h = ground (arith, count_of-bounded s n rs b.1 h)

-- In descending order, if some rows are that recent and all of these are unfinished, the first is.
scan_rows_unfinished :
    (s n : ℕ) (rs : List Row)
    → IsNewestFirst rs
    → 1 ≤ count_of (is_since s) rs
    → count_of (is_done_since s) rs ≡ 0
    → scan_rows (take (suc n) rs) ≡ err null_error
unfolding scan_rows scan_row
scan_rows_unfinished s n [] w some_since none_done = absurd (omega arith)
scan_rows_unfinished s n (r ∷ rs) w some_since none_done =
    ground (arith, count_of-bounded s r.started_at rs w.0)

-- If the table has rows of the operation that started in the second `s` or later, and none of these
-- is finished, `ListHistory` fails for every limit, since the output of an unfinished run is NULL
-- and NULL cannot be scanned into a string.
pub list_history_unfinished :
    (sql : Sql) (name : Text) (limit : ℤ) (t : Table) (s : ℕ)
    → 1 ≤ count_of (is_since s) (select (is_named name) t.rows)
    → count_of (is_done_since s) (select (is_named name) t.rows) ≡ 0
    → list_history sql none name limit t ≡ err null_error
unfolding list_history
list_history_unfinished sql name limit t s some_since none_done =
    let named = select (is_named name) t.rows in
    let n = or_default 20 limit in
    let e : n ≡ suc (n - 1) = limit_pos limit in
    rw e (
      scan_rows_unfinished s (n - 1) (sql.newest_first named) (sql.descending named)
        (rw (sql.same_rows (is_since s) named) some_since)
        (rw (sql.same_rows (is_done_since s) named) none_done))
  where
    limit_pos : (l : ℤ) → or_default 20 l ≡ suc (or_default 20 l - 1)
    limit_pos (pos m) = ground arith
    limit_pos (negsuc m) = omega arith
