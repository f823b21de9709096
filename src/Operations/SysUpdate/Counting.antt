-- ===== src/Operations/SysUpdate/Counting.antt =====
-- What `countInstLines` of internal/operations/sysupdate.go counts, and when `check` yields a count.
use dockhand.Prelude.{
  ℕ, ◌*◌, ◌<◌, ◌≡◌, refl, Bool, List, [], ◌∷◌, arith, length, All, count_of, Text, codes,
  has_prefix, drop_cr, until_long, scan_lines, unlines, IsLine, lines-unlines, ℤ, pos, ok,
}
use dockhand.Operations.SysUpdate.{count_inst_lines, AptChecker, simulate_args, check}

abbrev is_inst : Text → Bool
is_inst line = has_prefix line (codes "Inst ")

is_inst-drop_cr : (l : Text) → is_inst (drop_cr l) ≡ is_inst l
unfolding has_prefix drop_cr
is_inst-drop_cr [] = ground arith
is_inst-drop_cr (a ∷ []) = ground arith
is_inst-drop_cr (a ∷ b ∷ []) = ground arith
is_inst-drop_cr (a ∷ b ∷ c ∷ []) = ground arith
is_inst-drop_cr (a ∷ b ∷ c ∷ d ∷ []) = ground arith
is_inst-drop_cr (a ∷ b ∷ c ∷ d ∷ e ∷ []) = ground arith
is_inst-drop_cr (a ∷ b ∷ c ∷ d ∷ e ∷ f ∷ l) = ground arith

count_of-until_long :
    (limit : ℕ) (ls : List Text)
    → All (λ l. length l < limit) ls
    → count_of is_inst (until_long limit ls) ≡ count_of is_inst ls
unfolding until_long
count_of-until_long limit [] h = refl
count_of-until_long limit (l ∷ ls) h =
    ground (arith, is_inst-drop_cr l, count_of-until_long limit ls h.1)

-- For an output made of lines that each fit in the scanner's buffer, `countInstLines` is the number
-- of those lines that begin with "Inst ".
count_inst_lines-unlines :
    (ls : List Text)
    → All IsLine ls
    → All (λ l. length l < 1024 * 1024) ls
    → count_inst_lines (unlines ls) ≡ count_of (λ l. has_prefix l (codes "Inst ")) ls
unfolding count_inst_lines scan_lines
count_inst_lines-unlines ls hl hs = rw (lines-unlines ls hl) (count_of-until_long _ ls hs)

-- The checker yields a count only as root, after the index was refreshed and the upgrade simulated
-- without an error, and the count is that of the simulation's output. In every other case the
-- result is an error, so a failed check is never reported as a number.
check_ok :
    (c : AptChecker) (n : ℤ)
    → check c ≡ ok n
    → (c.geteuid ≡ 0)
      × ((fetched : Text) × (c.run (codes "apt-get") (codes "update" ∷ codes "-qq" ∷ [])
            ≡ ok fetched))
      × ((out : Text) × (c.run (codes "apt-get") simulate_args ≡ ok out)
          × (n ≡ pos (count_inst_lines out)))
unfolding check
check_ok c n h = ground arith
