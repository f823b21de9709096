-- ===== src/Sse/Sources.antt =====
-- The writes of log events that one goroutine sends: internal/sse/sse.go.
use dockhand.Prelude.{
  ◌≡◌, refl, ap, sym, ◌∙◌, Bool, List, [], ◌∷◌, ◌++◌, append_assoc, append-nil, Text, codes,
}
use dockhand.Sse.{send_writes, line, written, written-send_writes}
use dockhand.Sse.Progress.{log_lines, log_writes}
use dockhand.Operations.Output.{interleave}

pub interleave-nil : (order : List Bool) (ws : List Text) → interleave order ws [] ≡ ws
unfolding interleave
interleave-nil [] ws = append-nil ws
interleave-nil (p ∷ ps) [] = refl
interleave-nil (p ∷ ps) (w ∷ ws) = refl

pub nil-interleave : (order : List Bool) (ws : List Text) → interleave order [] ws ≡ ws
unfolding interleave
nil-interleave [] ws = refl
nil-interleave (p ∷ ps) ws = refl

written-append : (a b : List Text) → written (a ++ b) ≡ written a ++ written b
written-append [] b = refl
written-append (w ∷ a) b =
    ap (λ s. w ++ s) (written-append a b) ∙ sym (append_assoc w (written a) (written b))

pub written-log_writes : (ls : List Text) → written (log_writes ls) ≡ log_lines ls
unfolding line
written-log_writes [] = refl
written-log_writes (l ∷ ls) =
    written-append (send_writes (codes "log") l) (log_writes ls)
    ∙ rw (written-send_writes (codes "log") l, written-log_writes ls) refl

pub log_lines-append : (a b : List Text) → log_lines (a ++ b) ≡ log_lines a ++ log_lines b
log_lines-append [] b = refl
log_lines-append (l ∷ a) b =
    ap (λ s. line l ++ s) (log_lines-append a b)
    ∙ sym (append_assoc (line l) (log_lines a) (log_lines b))
