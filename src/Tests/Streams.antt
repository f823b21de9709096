-- ===== src/Tests/Streams.antt =====
-- Event streams of internal/sse and internal/api at concrete inputs.

use dockhand.Prelude.{
  inl, inr, true, false, scan_lines, ◌≡◌, refl, [], ◌∷◌, ◌++◌, arith, some, Text, codes, lookup,
  text_eq, All,
}
use dockhand.Sse.{send, line}
use dockhand.Sse.Decoding.{decode_from, decode, carriage_return}
use dockhand.Sse.Framing.{idle, decode_from-send, IsClean}
use dockhand.Sse.Returns.{decode-line_cut}
use dockhand.Operations.Runner.{run}
use dockhand.Api.{streamed}
use dockhand.Api.Operations.{run_handler}
use dockhand.Api.Operations.Streams.{events_of, run_handler-events}
use dockhand.Tests.Database.{sorting}
use dockhand.Tests.Runs.{backup, op, runner, world}

decode_from-send_example :
    decode_from (idle []) (send (codes "log") (codes "a\nb") ++ codes "rest")
    ≡ decode_from (idle (record { name = codes "log"; payload = codes "a\nb" } ∷ [])) (codes "rest")
decode_from-send_example =
    decode_from-send [] (codes "log") (codes "a\nb") (codes "rest") (ground arith) (ground arith)

decode-line_cut_example :
    decode (line (codes "10%" ++ carriage_return ∷ codes "20%"))
    ≡ record { name = codes "log"; payload = codes "10%" } ∷ []
unfolding text_eq
decode-line_cut_example =
    decode-line_cut (codes "10%") (codes "20%") (ground arith) (ground arith) refl refl refl

known : lookup backup runner.ops ≡ some op
unfolding lookup text_eq
known = refl

one_output : (run sorting world backup runner).outputs.1 ≡ []
unfolding run lookup text_eq scan_lines
one_output = refl

out-IsClean : All IsClean (run sorting world backup runner).outputs.0
unfolding run lookup text_eq scan_lines
out-IsClean = ground arith

err-IsClean : All IsClean (run sorting world backup runner).outputs.1
unfolding run lookup text_eq scan_lines
err-IsClean = tt

run_handler-events_example :
    (body : Text) × (run_handler sorting world (true ∷ false ∷ []) backup runner
      ≡ ((run sorting world backup runner).state, streamed body))
    × (decode body ≡ events_of [] backup (run sorting world backup runner))
unfolding run lookup text_eq
run_handler-events_example =
    run_handler-events sorting world [] (true ∷ false ∷ []) backup runner known
      (inl (inr one_output)) (ground arith) out-IsClean err-IsClean tt
