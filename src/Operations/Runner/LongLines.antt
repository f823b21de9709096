-- ===== src/Operations/Runner/LongLines.antt =====
-- What becomes of a run (internal/operations/runner.go) whose command prints a line that does not fit in
-- the scanner's buffer.
use dockhand.Prelude.{
  ℕ, ◌≤◌, ◌<◌, ◌≡◌, refl, ap, Bool, List, ◌∷◌, ◌++◌, length, All, Text, IsLine, unlines, scan_lines,
  max_scan_token_size,
}
use dockhand.Operations.Output.{interleave, emitted}
use dockhand.Operations.Output.LongLines.{scan_lines-long}
use dockhand.Operations.History.{Sql}
use dockhand.Operations.Runner.{World, Books, Waited, ended, finish}

module _ (order : List Bool) (before after : List Text) (long other : Text)
    (lines : All IsLine (before ++ long ∷ after))
    (short : All (λ l. length l < max_scan_token_size) before)
    (too_long : max_scan_token_size ≤ length long) where
  emitted-long_stdout :
      emitted order (unlines (before ++ long ∷ after)) other ≡ emitted order (unlines before) other
  unfolding emitted
  emitted-long_stdout =
      ap (λ ls. interleave order ls (scan_lines max_scan_token_size other))
        (scan_lines-long before after long lines short too_long)

  emitted-long_stderr :
      emitted order other (unlines (before ++ long ∷ after)) ≡ emitted order other (unlines before)
  unfolding emitted
  emitted-long_stderr =
      ap (interleave order (scan_lines max_scan_token_size other))
        (scan_lines-long before after long lines short too_long)

  -- Where a command prints to one of its outputs lines that fit in the buffer of 64 KiB and then one that
  -- does not, the end of its run is that of a run in which this output stopped in front of that line:
  -- the same lines are emitted, the same output is stored and returned, with the same exit code. This holds for either output, whatever is printed to the other one and in which order.
  pub finish_long :
      (sql : Sql) (w : World) (name : Text) (id : ℕ) (b : Books) (end : Waited)
      → (finish sql w name id b (ended order (unlines (before ++ long ∷ after)) other end)
          ≡ finish sql w name id b (ended order (unlines before) other end))
        × (finish sql w name id b (ended order other (unlines (before ++ long ∷ after)) end)
            ≡ finish sql w name id b (ended order other (unlines before) end))
  unfolding finish
  finish_long sql w name id b end =
      let same = scan_lines-long before after long lines short too_long in
      (rw (emitted-long_stdout, same) refl, rw (emitted-long_stderr, same) refl)
