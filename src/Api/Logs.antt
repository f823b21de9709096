-- ===== src/Api/Logs.antt =====
-- internal/api/handlers/logs.go: the recent entries of the journal. What journalctl prints for a number of
-- lines is an argument.
use dockhand.Api.{capped_param, capped_param_bounds}
use dockhand.Prelude.{
  ℕ, ◌≡◌, ◌≤◌, refl, ap, ◌∙◌, true, ◌&&◌, Option, none, some, List, [], ◌∷◌, ◌++◌, arith, ◌==◌,
  if◌then◌else◌, length, All, Text, codes, newline, is_empty, split_lines, join_lines,
  join_lines-split_lines, Result, ok, err, Bool-cases, inl, inr,
}

-- The number of lines, of the query parameter `lines`
unfoldable lines_param : Text → ℕ
unfolding capped_param
lines_param s = capped_param 100 1000 s

-- strings.TrimRight(s, "\n")
unfoldable trim_newlines : Text → Text
trim_newlines [] = []
trim_newlines (c ∷ s) =
    let rest = trim_newlines s in if (c == newline) && is_empty rest then [] else c ∷ rest

-- The answer; there is no count where journalctl failed, and no error where it did not.
pub record LogsAnswer : Type 0 where
  pub lines : List Text
  pub error : Option Text
  pub count : Option ℕ

abbrev journal_lines : Text → List Text
journal_lines raw = if is_empty raw then [] else split_lines raw

abbrev answer : Result Text → LogsAnswer
answer (err e) = record {
  lines = [];
  error = some (codes "journalctl unavailable: " ++ e);
  count = none;
}
answer (ok out) = record {
  lines = journal_lines (trim_newlines out);
  error = none;
  count = some (length (journal_lines (trim_newlines out)));
}

-- Logs
unfoldable pub logs : (ℕ → Result Text) → Text → LogsAnswer
unfolding lines_param trim_newlines split_lines
logs journalctl lines = answer (journalctl (lines_param lines))

-- A text of which nothing is left has newlines only.
trim_newlines_all : (s : Text) → is_empty (trim_newlines s) ≡ true → All (λ c. c ≡ newline) s
unfolding trim_newlines
trim_newlines_all [] h = tt
trim_newlines_all (c ∷ s) h = ground (arith, trim_newlines_all s)

trim_newlines_rest :
    (s : Text) → (ends : Text) × All (λ c. c ≡ newline) ends × (trim_newlines s ++ ends ≡ s)
unfolding trim_newlines
trim_newlines_rest [] = ([], tt, refl)
trim_newlines_rest (c ∷ s) =
    let (ends, all, e) = trim_newlines_rest s in
    elim (Bool-cases ((c == newline) && is_empty (trim_newlines s))) [
      | inl b ↦ rw b (c ∷ s, (ground arith, trim_newlines_all s (ground arith)), refl)
      | inr b ↦ rw b (ends, all, ap (λ t. c ∷ t) e)
    ]

join_lines-journal_lines : (raw : Text) → join_lines (journal_lines raw) ≡ raw
unfolding join_lines
join_lines-journal_lines [] = refl
join_lines-journal_lines (c ∷ s) = join_lines-split_lines (c ∷ s)

-- However the parameter is written, journalctl is asked for at least one line and at most 1000.
lines_param_bounds : (s : Text) → (1 ≤ lines_param s) × (lines_param s ≤ 1000)
unfolding lines_param
lines_param_bounds s = capped_param_bounds 100 1000 s (omega arith) (omega arith)

-- If journalctl succeeds, the answer has no error, the lines of its output up to the newlines at the end,
-- and their number.
logs_lines :
    (journalctl : ℕ → Result Text) (param out : Text)
    → journalctl (lines_param param) ≡ ok out
    → (ends : Text) × All (λ c. c ≡ newline) ends
      × (join_lines (logs journalctl param).lines ++ ends ≡ out)
      × ((logs journalctl param).error ≡ none)
      × ((logs journalctl param).count ≡ some (length (logs journalctl param).lines))
unfolding logs
logs_lines journalctl param out h =
    let (ends, all, e) = trim_newlines_rest out in
    rw (logs, h)
      (
        ends,
        all,
        ap (λ t. t ++ ends) (join_lines-journal_lines (trim_newlines out)) ∙ e,
        refl,
        refl,
      )
