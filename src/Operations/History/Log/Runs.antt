-- ===== src/Operations/History/Log/Runs.antt =====
-- The log of internal/operations/history.go for runs that are entered, closed and pruned one after the
-- other, as a run of internal/operations/runner.go does it.
use mathlib.Core.List.{map}
use dockhand.Prelude.{
  ℕ, zero, suc, ◌≤◌, ◌<◌, ◌≡◌, refl, ap, ◌∙◌, Bool, true, false, Option, none, some, List, [], ◌∷◌,
  arith, if◌then◌else◌, Bool-cases, inl, inr, take, All, Text, text_eq, ℤ, ok,
}
use dockhand.Operations.History.{
  Row, Sql, HistoryRecord, new_row, empty_table, unix, from_unix, finish_row, map_rows, scan_row,
  scan_rows, or_default, list_history,
}
use dockhand.Operations.History.Keys.{Change, insert, update, prune_old, apply_all}
use dockhand.Operations.History.Log.{Log, log_change, log_all, StartsFrom}
use dockhand.Operations.History.Log.Refinement.{list_history-log_all}

-- A run that was made, with its times in nanoseconds.
pub record Made : Type 0 where
  pub name : Text
  pub started_at : ℕ
  pub finished_at : ℕ
  pub exit_code : ℤ
  pub output : Text

-- What the runs do to the table, the first of them under the id `n`.
abbrev pub changes_from : ℕ → List Made → List (Option Text × Change)
changes_from n [] = []
changes_from n (m ∷ ms) =
    (none, insert m.name m.started_at)
    ∷ (none, update n m.finished_at m.exit_code m.output)
    ∷ (none, prune_old m.name)
    ∷ changes_from (suc n) ms

-- The runs of one operation with their ids, newest first, before those of `acc`.
unfoldable pub newest_runs : Text → ℕ → List (ℕ × Made) → List Made → List (ℕ × Made)
newest_runs name n acc [] = acc
newest_runs name n acc (m ∷ ms) =
    newest_runs name (suc n) (if text_eq m.name name then (n, m) ∷ acc else acc) ms

-- What a client is told of a run: its times in whole seconds.
abbrev pub report : ℕ × Made → HistoryRecord
report (n, m) = record {
  id = n;
  operation_name = m.name;
  started_at = from_unix (unix m.started_at);
  finished_at = some (from_unix (unix m.finished_at));
  exit_code = some m.exit_code;
  output = m.output;
}

-- The runs of the operation start in different seconds, from the second `n` on.
abbrev pub IsSpaced : Text → ℕ → List Made → Type 0
IsSpaced name n [] = Unit
IsSpaced name n (m ∷ ms) =
    if text_eq m.name name
    then (n ≤ unix m.started_at) × IsSpaced name (suc (unix m.started_at)) ms
    else IsSpaced name n ms

abbrev pub closed_row : ℕ × Made → Row
closed_row (n, m) = record {
  id = n;
  operation_name = m.name;
  started_at = unix m.started_at;
  finished_at = some (unix m.finished_at);
  exit_code = some m.exit_code;
  output = some m.output;
}

Below_suc : (n : ℕ) (xs : List (ℕ × Made)) → All (λ x. x.0 < n) xs → All (λ x. x.0 < suc n) xs
Below_suc n [] b = tt
Below_suc n ((i, m) ∷ xs) b = (omega arith, Below_suc n xs b.1)

finish-older :
    (n at : ℕ) (code : ℤ) (out : Text) (k : ℕ) (xs : List (ℕ × Made))
    → All (λ x. x.0 < n) xs
    → map_rows (finish_row n at code out) (take k (map closed_row xs)) ≡ take k (map closed_row xs)
finish-older n at code out zero xs b = refl
finish-older n at code out (suc k) [] b = refl
finish-older n at code out (suc k) ((i, m) ∷ xs) b = ground (arith, finish-older n at code out k xs)

take-take-suc {ℓ} : {A : Type ℓ} (k : ℕ) (xs : List A) → take k (take (suc k) xs) ≡ take k xs
take-take-suc zero xs = refl
take-take-suc (suc k) [] = refl
take-take-suc (suc k) (x ∷ xs) = ap (λ l. x ∷ l) (take-take-suc k xs)

take_twice {ℓ} :
    {A : Type ℓ} (k : ℕ) (x : A) (xs : List A) → take k (x ∷ take k xs) ≡ take k (x ∷ xs)
take_twice zero x xs = refl
take_twice (suc k) x xs = ap (λ l. x ∷ l) (take-take-suc k xs)

take-map : (k : ℕ) (xs : List (ℕ × Made)) → take k (map closed_row xs) ≡ map closed_row (take k xs)
take-map zero xs = refl
take-map (suc k) [] = refl
take-map (suc k) (x ∷ xs) = ap (λ l. closed_row x ∷ l) (take-map k xs)

scan_rows-closed_row : (xs : List (ℕ × Made)) → scan_rows (map closed_row xs) ≡ ok (map report xs)
unfolding scan_rows scan_row
scan_rows-closed_row [] = refl
scan_rows-closed_row ((n, m) ∷ xs) = rw (scan_rows-closed_row xs)

module _ (name : Text) where
  -- The log after the runs of `xs`.
  abbrev log_of : ℕ → List (ℕ × Made) → Log
  log_of n xs = record { entries = take 50 (map closed_row xs); sequence = n }

  after_run :
      (c : Bool) (n : ℕ) (m : Made) (xs : List (ℕ × Made))
      → All (λ x. x.0 < suc n) xs
      → let f = finish_row (suc n) m.finished_at m.exit_code m.output in
        let before = take 50 (map closed_row xs) in
        let entered = if c then new_row (suc n) m.name m.started_at ∷ before else before in
        (if c then take 50 (map_rows f entered) else map_rows f entered)
        ≡ take 50 (map closed_row (if c then (suc n, m) ∷ xs else xs))
  after_run true n m xs b =
      rw (finish-older (suc n) m.finished_at m.exit_code m.output 50 xs b, finish_row_self)
        (take_twice 50 (closed_row (suc n, m)) (map closed_row xs))
    where
      finish_row_self :
          finish_row
            (suc n)
            m.finished_at
            m.exit_code
            m.output
            (new_row (suc n) m.name m.started_at)
          ≡ closed_row (suc n, m)
      finish_row_self = ground arith
  after_run false n m xs b = finish-older (suc n) m.finished_at m.exit_code m.output 50 xs b

  Below-newer :
      (c : Bool) (n : ℕ) (m : Made) (xs : List (ℕ × Made))
      → All (λ x. x.0 < suc n) xs
      → All (λ x. x.0 < suc (suc n)) (if c then (suc n, m) ∷ xs else xs)
  Below-newer true n m xs b = (omega arith, Below_suc (suc n) xs b)
  Below-newer false n m xs b = Below_suc (suc n) xs b

  log_all-changes_from :
      (ms : List Made) (n : ℕ) (xs : List (ℕ × Made))
      → All (λ x. x.0 < suc n) xs
      → (log_all name (log_of n xs) (changes_from (suc n) ms)).entries
        ≡ take 50 (map closed_row (newest_runs name (suc n) xs ms))
  unfolding log_all log_change newest_runs
  log_all-changes_from [] n xs b = refl
  log_all-changes_from (m ∷ ms) n xs b =
      ap
        (λ es.
          (log_all name (record { entries = es; sequence = suc n })
            (changes_from (suc (suc n)) ms)).entries)
        (after_run (text_eq m.name name) n m xs b)
      ∙ log_all-changes_from ms (suc n) (if text_eq m.name name then (suc n, m) ∷ xs else xs)
          (Below-newer (text_eq m.name name) n m xs b)

  StartsFrom-changes_from :
      (ms : List Made) (i n : ℕ) → IsSpaced name n ms → StartsFrom name n (changes_from i ms)
  StartsFrom-changes_from [] i n s = tt
  StartsFrom-changes_from (m ∷ ms) i n s = elim (Bool-cases (text_eq m.name name)) [
    | inl e ↦
        let s' = rw e at s in
        rw e (s'.0, StartsFrom-changes_from ms (suc i) (suc (unix m.started_at)) s'.1)
    | inr e ↦ rw e (StartsFrom-changes_from ms (suc i) n (rw e at s))
  ]

  -- In a history that begins empty, after runs that were entered, closed and pruned one after the other,
  -- those of the operation in different seconds, the listing of the operation tells of its runs, newest
  -- first, with their ids, times in seconds, exit codes and outputs: of the last fifty at most, and of
  -- no more than the limit.
  pub list_history-changes_from :
      (sql : Sql) (ms : List Made) (limit : ℤ)
      → IsSpaced name 0 ms
      → list_history sql none name limit (apply_all sql empty_table (changes_from 1 ms))
        ≡ ok (map report (take (or_default 20 limit) (take 50 (newest_runs name 1 [] ms))))
  list_history-changes_from sql ms limit s =
      let n = or_default 20 limit in
      let runs = newest_runs name 1 [] ms in
      list_history-log_all sql name (changes_from 1 ms) limit (StartsFrom-changes_from ms 1 0 s)
      ∙ rw (log_all-changes_from ms 0 [] tt, take-map 50 runs, take-map n (take 50 runs))
          (scan_rows-closed_row (take n (take 50 runs)))
