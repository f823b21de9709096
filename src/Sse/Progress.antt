-- ===== src/Sse/Progress.antt =====
-- The log events of internal/sse/sse.go that the callbacks of internal/api/handlers send: by one goroutine,
-- or by the two that read the outputs of a command. Nothing orders the writes of these two, so that
-- they reach the response in any order that keeps those of each one.
use dockhand.Prelude.{Bool, List, [], ◌∷◌, ◌++◌, Text, codes}
use dockhand.Sse.{send_writes, line, written}
use dockhand.Operations.Output.{interleave}

-- The lines that one goroutine sends.
abbrev pub log_lines : List Text → Text
log_lines [] = []
log_lines (l ∷ ls) = line l ++ log_lines ls

-- Their writes.
abbrev pub log_writes : List Text → List Text
log_writes [] = []
log_writes (l ∷ ls) = send_writes (codes "log") l ++ log_writes ls

-- A line that is sent with no other goroutine running, or the lines of the two outputs of a command
-- with the order of their writes, in which `true` is a write for the first output.
pub data Piece : Type 0 where
  said : Text → Piece
  outputs : List Bool → List Text → List Text → Piece

abbrev pub said_all : List Text → List Piece
said_all [] = []
said_all (l ∷ ls) = said l ∷ said_all ls

abbrev pub piece_text : Piece → Text
piece_text (said l) = line l
piece_text (outputs order a b) = written (interleave order (log_writes a) (log_writes b))

abbrev pub progress_text : List Piece → Text
progress_text [] = []
progress_text (p ∷ ps) = piece_text p ++ progress_text ps
