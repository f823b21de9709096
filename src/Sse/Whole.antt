-- ===== src/Sse/Whole.antt =====
-- Log events of two goroutines whose writes do not run into each other: internal/operations/runner.go and
-- internal/docker/upgrade.go.
use dockhand.Prelude.{
  ◌≡◌, refl, ap, sym, ◌∙◌, ◌⊎◌, inl, inr, Bool, true, false, List, [], ◌∷◌, ◌++◌, append_assoc, All,
  All-append, Text, codes, newline, IsLine, split_lines-line,
}
use dockhand.Sse.{send_writes, written}
use dockhand.Sse.Progress.{log_lines, log_writes, outputs, piece_text}
use dockhand.Sse.Sources.{written-log_writes, interleave-nil, nil-interleave}
use dockhand.Sse.Framing.{IsClean, LacksReturns, IsClean-IsLine, IsClean-LacksReturns}
use dockhand.Operations.Output.{interleave}

-- An order of lines as an order of writes: the three writes of a line stand together.
abbrev pub whole : List Bool → List Bool
whole [] = []
whole (p ∷ o) = p ∷ p ∷ p ∷ whole o

log_writes-append : (a b : List Text) → log_writes (a ++ b) ≡ log_writes a ++ log_writes b
log_writes-append [] b = refl
log_writes-append (l ∷ a) b =
    ap (λ s. send_writes (codes "log") l ++ s) (log_writes-append a b)
    ∙ sym (append_assoc (send_writes (codes "log") l) (log_writes a) (log_writes b))

abbrev prepended : Text → List Text → List Text
prepended x s = codes "event: log\n" ∷ (codes "data: " ++ (x ++ newline ∷ [])) ∷ (newline ∷ []) ∷ s

interleave-log_writes :
    (o : List Bool) (a b : List Text)
    → All IsLine a
    → All IsLine b
    → interleave (whole o) (log_writes a) (log_writes b) ≡ log_writes (interleave o a b)
unfolding interleave send_writes
interleave-log_writes [] a b ha hb = sym (log_writes-append a b)
interleave-log_writes (p ∷ o) [] b ha hb = refl
interleave-log_writes (p ∷ o) (x ∷ a) [] ha hb = refl
interleave-log_writes (true ∷ o) (x ∷ a) (y ∷ b) ha hb =
    rw (split_lines-line x ha.0) (ap (prepended x) (interleave-log_writes o a (y ∷ b) ha.1 hb))
interleave-log_writes (false ∷ o) (x ∷ a) (y ∷ b) ha hb =
    rw (split_lines-line y hb.0) (ap (prepended y) (interleave-log_writes o (x ∷ a) b ha hb.1))

-- One of the outputs has no lines, or the writes come in the order `o` of the lines.
abbrev pub IsWhole : List Bool → List Bool → List Text → List Text → Type 0
IsWhole o order a b = ((a ≡ []) ⊎ (b ≡ [])) ⊎ (order ≡ whole o)

pub piece_text-IsWhole :
    (o order : List Bool) (a b : List Text)
    → All IsLine a
    → All IsLine b
    → IsWhole o order a b
    → piece_text (outputs order a b) ≡ log_lines (interleave o a b)
piece_text-IsWhole o order a b ha hb (inl (inl e)) =
    rw (e, nil-interleave o b)
      (ap written (nil-interleave order (log_writes b)) ∙ written-log_writes b)
piece_text-IsWhole o order a b ha hb (inl (inr e)) =
    rw (e, interleave-nil o a)
      (ap written (interleave-nil order (log_writes a)) ∙ written-log_writes a)
piece_text-IsWhole o order a b ha hb (inr e) =
    rw e (ap written (interleave-log_writes o a b ha hb) ∙ written-log_writes (interleave o a b))

-- Lines in any order have what the lines of both have.
pub interleave-All :
    (P : Text → Type 0) (o : List Bool) (a b : List Text)
    → All P a
    → All P b
    → All P (interleave o a b)
unfolding interleave
interleave-All P [] a b ha hb = All-append P a b ha hb
interleave-All P (p ∷ o) [] b ha hb = hb
interleave-All P (p ∷ o) (x ∷ a) [] ha hb = ha
interleave-All P (true ∷ o) (x ∷ a) (y ∷ b) ha hb = (ha.0, interleave-All P o a (y ∷ b) ha.1 hb)
interleave-All P (false ∷ o) (x ∷ a) (y ∷ b) ha hb = (hb.0, interleave-All P o (x ∷ a) b ha hb.1)

pub All-IsClean-IsLine : (ls : List Text) → All IsClean ls → All IsLine ls
All-IsClean-IsLine [] h = tt
All-IsClean-IsLine (l ∷ ls) (hl, hs) = (IsClean-IsLine l hl, All-IsClean-IsLine ls hs)

pub All-IsClean-LacksReturns : (ls : List Text) → All IsClean ls → All LacksReturns ls
All-IsClean-LacksReturns [] h = tt
All-IsClean-LacksReturns (l ∷ ls) (hl, hs) =
    (IsClean-LacksReturns l hl, All-IsClean-LacksReturns ls hs)
