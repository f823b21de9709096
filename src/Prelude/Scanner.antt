-- ===== src/Prelude/Scanner.antt =====
-- bufio.Scanner with ScanLines over a whole input. The scan ends at the first line that does not fit
-- in the buffer with its line end, and what follows that line is not read.
use Prim.Native.Nat.{ℕ, ◌*◌}
use mathlib.Core.Path.{◌≡◌, refl, ap, ◌∙◌}
use mathlib.Core.Logic.{◌≢◌, inl, inr}
use mathlib.Core.List.{List, [], ◌∷◌, ◌++◌}
use native.Mathlib.Omega.{arith}
use dockhand.Prelude.Tests.{ltb, ◌==◌, if◌then◌else◌, Bool-cases}
use dockhand.Prelude.Lists.{length, All}
use dockhand.Prelude.Texts.{Text, newline, push_front, split_lines, split_lines-ne-nil, join_lines}

-- A line loses one carriage return at its end.
unfoldable pub drop_cr : Text → Text
drop_cr [] = []
drop_cr (c ∷ []) = if c == 13 then [] else c ∷ []
drop_cr (c ∷ d ∷ s) = c ∷ drop_cr (d ∷ s)

-- No line starts at the end of the input.
unfoldable pub drop_final_empty : List Text → List Text
drop_final_empty [] = []
drop_final_empty ([] ∷ []) = []
drop_final_empty ((c ∷ l) ∷ []) = (c ∷ l) ∷ []
drop_final_empty (l ∷ m ∷ ls) = l ∷ drop_final_empty (m ∷ ls)

-- The lines in front of the first that is `limit` bytes long or longer.
unfoldable pub until_long : ℕ → List Text → List Text
until_long limit [] = []
until_long limit (l ∷ ls) =
    let rest = until_long limit ls in if ltb (length l) limit then drop_cr l ∷ rest else []

unfoldable pub scan_lines : ℕ → Text → List Text
unfolding drop_final_empty until_long drop_cr split_lines
scan_lines limit s = until_long limit (drop_final_empty (split_lines s))

-- bufio.MaxScanTokenSize
abbrev pub max_scan_token_size : ℕ
max_scan_token_size = 64 * 1024

-- A text in which every line has its line end.
unfoldable pub unlines : List Text → Text
unlines [] = []
unlines (l ∷ ls) = l ++ newline ∷ unlines ls

-- No line end stands inside the line.
abbrev pub IsLine : Text → Type 0
IsLine = All (λ c. c ≢ newline)

pub split_lines-append :
    (l s : Text) → IsLine l → split_lines (l ++ newline ∷ s) ≡ l ∷ split_lines s
unfolding split_lines
split_lines-append [] s h = refl
split_lines-append (c ∷ l) s (hc, hl) = ground (arith, split_lines-append l s hl)

drop_final_empty-cons :
    (l : Text) (ls : List Text) → ls ≢ [] → drop_final_empty (l ∷ ls) ≡ l ∷ drop_final_empty ls
unfolding drop_final_empty
drop_final_empty-cons l [] h = absurd (h refl)
drop_final_empty-cons [] (m ∷ ls) h = refl
drop_final_empty-cons (c ∷ l) (m ∷ ls) h = refl

-- The lines of a text in which every line is ended are those that it was made of.
pub lines-unlines :
    (ls : List Text) → All IsLine ls → drop_final_empty (split_lines (unlines ls)) ≡ ls
unfolding unlines
lines-unlines [] h = unfold split_lines drop_final_empty in refl
lines-unlines (l ∷ ls) (hl, hs) = ground (
  arith,
  split_lines-append l (unlines ls) hl,
  drop_final_empty-cons l (split_lines (unlines ls)) (split_lines-ne-nil (unlines ls)),
  lines-unlines ls hs,
)

push_front-IsLine :
    (c : ℕ) (ls : List Text) → c ≢ newline → All IsLine ls → All IsLine (push_front c ls)
push_front-IsLine c [] h a = ((h, tt), tt)
push_front-IsLine c (l ∷ ls) h a = ((h, a.0), a.1)

-- No line of a split holds a line end.
pub split_lines-IsLine : (s : Text) → All IsLine (split_lines s)
unfolding split_lines
split_lines-IsLine [] = (tt, tt)
split_lines-IsLine (c ∷ s) = elim (Bool-cases (c == newline)) [
  | inl e ↦ rw e (tt, split_lines-IsLine s)
  | inr e ↦ rw e (push_front-IsLine c (split_lines s) (ground arith) (split_lines-IsLine s))
]

-- A line is its own split.
pub split_lines-line : (l : Text) → IsLine l → split_lines l ≡ l ∷ []
unfolding split_lines
split_lines-line [] h = refl
split_lines-line (c ∷ l) (hc, hl) = ground (arith, split_lines-line l hl)

-- Splitting undoes joining.
pub split_lines-join_lines :
    (l : Text) (ls : List Text) → All IsLine (l ∷ ls) → split_lines (join_lines (l ∷ ls)) ≡ l ∷ ls
unfolding join_lines
split_lines-join_lines l [] h = split_lines-line l h.0
split_lines-join_lines l (m ∷ ls) (h, hs) =
    split_lines-append l (join_lines (m ∷ ls)) h
    ∙ ap (λ qs. l ∷ qs) (split_lines-join_lines m ls hs)
