-- ===== src/Sse/Torn.antt =====
-- What becomes of two lines that the two goroutines of a command send at the same time, in
-- internal/operations/runner.go and internal/docker/upgrade.go.
use dockhand.Prelude.{
  ◌≡◌, ap, ◌∙◌, true, false, [], ◌∷◌, ◌++◌, append_assoc, Text, codes, newline, split_lines-line,
  arith,
}
use dockhand.Sse.{send_writes}
use dockhand.Sse.Progress.{outputs, piece_text}
use dockhand.Sse.Decoding.{Reader, read_line, decode_from, decode}
use dockhand.Sse.Framing.{
  IsClean, IsClean-IsLine, idle, decode_from-line, decode_from-empty_line, read_line-data,
  data_line-IsClean,
}
use dockhand.Operations.Output.{interleave}

decode_from-write :
    (r : Reader) (l rest : Text)
    → IsClean l
    → decode_from r ((l ++ newline ∷ []) ++ rest) ≡ decode_from (read_line r l) rest
decode_from-write r l rest h =
    ap (decode_from r) (append_assoc l (newline ∷ []) rest) ∙ decode_from-line r l rest h

abbrev reading : Text → Reader
reading l = record { events = []; event_type = codes "log"; payload = l ∷ [] }

-- If both outputs have a line and the writes of the two events alternate, the client reads one event with
-- both lines.
pub decode-torn :
    (l m : Text)
    → IsClean l
    → IsClean m
    → decode (piece_text (outputs (true ∷ false ∷ true ∷ false ∷ true ∷ []) (l ∷ []) (m ∷ [])))
      ≡ record { name = codes "log"; payload = l ++ newline ∷ m } ∷ []
unfolding decode send_writes interleave
decode-torn l m hl hm =
    let named : Reader = record { events = []; event_type = codes "log"; payload = [] } in
    let both : Reader = record { events = []; event_type = codes "log"; payload = l ∷ m ∷ [] } in
    let last = newline ∷ newline ∷ [] in
    let second = (codes "data: " ++ m ++ newline ∷ []) ++ last in
    rw (split_lines-line l (IsClean-IsLine l hl), split_lines-line m (IsClean-IsLine m hm))
      (ap (λ (r : Reader). r.events)
        (decode_from-line (idle []) (codes "event: log")
            (codes "event: log" ++ newline ∷ ((codes "data: " ++ l ++ newline ∷ []) ++ second))
            (ground arith)
          ∙ decode_from-line named (codes "event: log")
              ((codes "data: " ++ l ++ newline ∷ []) ++ second) (ground arith)
          ∙ decode_from-write named (codes "data: " ++ l) second (data_line-IsClean l hl)
          ∙ ap (λ r. decode_from r second) (read_line-data [] (codes "log") l [])
          ∙ decode_from-write (reading l) (codes "data: " ++ m) last (data_line-IsClean m hm)
          ∙ ap (λ r. decode_from r last) (read_line-data [] (codes "log") m (l ∷ []))
          ∙ decode_from-empty_line [] (codes "log") (l ∷ m ∷ []) (newline ∷ []) (λ e. cc)))
