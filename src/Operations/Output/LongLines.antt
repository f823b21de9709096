-- ===== src/Operations/Output/LongLines.antt =====
-- What the scanners in Run, RunApp (internal/operations/runner.go) and streamCommand
-- (internal/docker/upgrade.go) make of a line that does not fit in their buffer.
use dockhand.Prelude.{
  ℕ, ◌≤◌, ◌<◌, ◌≡◌, ap, sym, ◌∙◌, List, [], ◌∷◌, ◌++◌, arith, length, All, Text, IsLine, unlines,
  lines-unlines, until_long, scan_lines, max_scan_token_size,
}

until_long-append :
    (n : ℕ) (before after : List Text) (long : Text)
    → All (λ l. length l < n) before
    → n ≤ length long
    → until_long n (before ++ long ∷ after) ≡ until_long n before
unfolding until_long
until_long-append n [] after long b h = ground arith
until_long-append n (l ∷ ls) after long b h = ground (arith, until_long-append n ls after long b.1)

All-IsLine-left : (before rest : List Text) → All IsLine (before ++ rest) → All IsLine before
All-IsLine-left [] rest h = tt
All-IsLine-left (l ∷ before) rest h = (h.0, All-IsLine-left before rest h.1)

-- An output whose lines in front of the first long one fit is scanned like one that ends there.
pub scan_lines-long :
    (before after : List Text) (long : Text)
    → All IsLine (before ++ long ∷ after)
    → All (λ l. length l < max_scan_token_size) before
    → max_scan_token_size ≤ length long
    → scan_lines max_scan_token_size (unlines (before ++ long ∷ after))
      ≡ scan_lines max_scan_token_size (unlines before)
unfolding scan_lines
scan_lines-long before after long lines short too_long =
    ap (until_long max_scan_token_size) (lines-unlines (before ++ long ∷ after) lines)
    ∙ until_long-append max_scan_token_size before after long short too_long
    ∙ sym (
        ap (until_long max_scan_token_size)
          (lines-unlines before (All-IsLine-left before (long ∷ after) lines)))
