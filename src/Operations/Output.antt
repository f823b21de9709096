-- ===== src/Operations/Output.antt =====
-- The texts that internal/operations/runner.go makes of a command's output.
pub mod Truncation
pub mod LastLine
pub mod LongLines
use dockhand.Prelude.{
  ℕ, ◌-◌, ◌*◌, Bool, true, false, List, [], ◌∷◌, ◌++◌, reverse, leb, if◌then◌else◌, length, drop,
  Text, codes, newline, is_empty, trim_space, split_lines, join_lines, scan_lines,
  max_scan_token_size, unlines,
}

-- What stands in front of a truncated output.
abbrev pub truncation_mark : Text
truncation_mark = codes "[...truncated]" ++ newline ∷ []

-- `lines[1:]` where there is more than one line
abbrev pub drop_partial : List Text → List Text
drop_partial [] = []
drop_partial (l ∷ []) = l ∷ []
drop_partial (l ∷ m ∷ ls) = m ∷ ls

-- truncate
unfoldable pub truncate : Text → ℕ → Text
truncate s max_bytes =
    if leb (length s) max_bytes
    then s
    else truncation_mark ++ join_lines (drop_partial (split_lines (drop (length s - max_bytes) s)))

-- The loop of `lastNonEmptyLine`, over the lines from the last.
unfoldable pub pick_line : List Text → Text → Text
pick_line [] s = s
pick_line (l ∷ ls) s =
    let rest = pick_line ls s in if is_empty (trim_space l) then rest else trim_space l

-- lastNonEmptyLine
unfoldable pub last_non_empty_line : Text → Text
unfolding pick_line
last_non_empty_line s = pick_line (reverse (split_lines s)) s

-- Two sequences in an order in which they come from the two `drain` goroutines: `true` is an item of the
-- first.
unfoldable pub interleave : List Bool → List Text → List Text → List Text
interleave [] a b = a ++ b
interleave (p ∷ ps) [] b = b
interleave (p ∷ ps) (x ∷ a) [] = x ∷ a
interleave (true ∷ ps) (x ∷ a) (y ∷ b) = x ∷ interleave ps a (y ∷ b)
interleave (false ∷ ps) (x ∷ a) (y ∷ b) = y ∷ interleave ps (x ∷ a) b

-- The lines that `Run` emits, in the order in which it puts them into its buffer, and what it stores of
-- them, at most 64 KiB and the mark.
unfoldable pub emitted : List Bool → Text → Text → List Text
unfolding interleave scan_lines
emitted order stdout stderr =
    interleave order (scan_lines max_scan_token_size stdout) (scan_lines max_scan_token_size stderr)

unfoldable pub capture : List Text → Text
unfolding truncate unlines
capture lines = truncate (unlines lines) (64 * 1024)
