-- ===== src/Sse/Apart.antt =====
-- The progress of an upgrade in which the log events of two goroutines do not run into each other:
-- internal/api/handlers/containers.go with internal/docker/upgrade.go.
use dockhand.Prelude.{◌≡◌, refl, ap, sym, ◌∙◌, Bool, List, [], ◌∷◌, ◌++◌, All, All-append, Text}
use dockhand.Sse.{line}
use dockhand.Sse.Progress.{log_lines, Piece, said, outputs, progress_text}
use dockhand.Sse.Framing.{IsClean, LacksReturns, IsClean-LacksReturns}
use dockhand.Sse.Sources.{log_lines-append}
use dockhand.Sse.Whole.{
  IsWhole, piece_text-IsWhole, interleave-All, All-IsClean-IsLine, All-IsClean-LacksReturns,
}
use dockhand.Operations.Output.{interleave}

-- Orders of lines, one for each command.
abbrev first_order : List (List Bool) → List Bool
first_order [] = []
first_order (o ∷ os) = o

abbrev later_orders : List (List Bool) → List (List Bool)
later_orders [] = []
later_orders (o ∷ os) = os

-- One of the outputs of each command has no lines, or its writes come in the command's order of lines.
abbrev pub AreApart : List (List Bool) → List Piece → Type 0
AreApart os [] = Unit
AreApart os (said l ∷ ps) = AreApart os ps
AreApart os (outputs order a b ∷ ps) =
    IsWhole (first_order os) order a b × AreApart (later_orders os) ps

-- The lines of the progress in these orders.
abbrev pub lines_of : List (List Bool) → List Piece → List Text
lines_of os [] = []
lines_of os (said l ∷ ps) = l ∷ lines_of os ps
lines_of os (outputs order a b ∷ ps) =
    interleave (first_order os) a b ++ lines_of (later_orders os) ps

-- No line end and no carriage return stands in a line.
abbrev pub AreClean : List Piece → Type 0
AreClean [] = Unit
AreClean (said l ∷ ps) = IsClean l × AreClean ps
AreClean (outputs order a b ∷ ps) = (All IsClean a × All IsClean b) × AreClean ps

pub progress_text-AreApart :
    (os : List (List Bool)) (ps : List Piece)
    → AreClean ps
    → AreApart os ps
    → progress_text ps ≡ log_lines (lines_of os ps)
progress_text-AreApart os [] c h = refl
progress_text-AreApart os (said l ∷ ps) c h =
    ap (λ s. line l ++ s) (progress_text-AreApart os ps c.1 h)
progress_text-AreApart os (outputs order a b ∷ ps) ((ca, cb), c) (h, hs) =
    let o = first_order os in
    let rest = lines_of (later_orders os) ps in
    ap (λ s. s ++ progress_text ps)
      (piece_text-IsWhole o order a b (All-IsClean-IsLine a ca) (All-IsClean-IsLine b cb) h)
    ∙ ap (λ s. log_lines (interleave o a b) ++ s) (progress_text-AreApart (later_orders os) ps c hs)
    ∙ sym (log_lines-append (interleave o a b) rest)

pub lines_of-LacksReturns :
    (os : List (List Bool)) (ps : List Piece) → AreClean ps → All LacksReturns (lines_of os ps)
lines_of-LacksReturns os [] c = tt
lines_of-LacksReturns os (said l ∷ ps) c =
    (IsClean-LacksReturns l c.0, lines_of-LacksReturns os ps c.1)
lines_of-LacksReturns os (outputs order a b ∷ ps) ((ca, cb), c) =
    let o = first_order os in
    All-append LacksReturns (interleave o a b) (lines_of (later_orders os) ps)
      (interleave-All LacksReturns o a b (All-IsClean-LacksReturns a ca)
        (All-IsClean-LacksReturns b cb))
      (lines_of-LacksReturns (later_orders os) ps c)
