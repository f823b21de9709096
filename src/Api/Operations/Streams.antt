-- ===== src/Api/Operations/Streams.antt =====
-- What a client of internal/api/handlers/operations.go reads of a run.
use dockhand.Prelude.{
  Bool, ◌≡◌, refl, ap, sym, ◌∙◌, some, List, [], ◌∷◌, ◌++◌, append_assoc, append-nil, All, arith,
  Text, codes, lookup, Result, ok, err, ℤ, pos,
}
use dockhand.Config.{Operation}
use dockhand.Sse.{send, line, done, exit_code_json}
use dockhand.Sse.Progress.{outputs, log_lines}
use dockhand.Sse.Whole.{
  IsWhole, piece_text-IsWhole, interleave-All, All-IsClean-IsLine, All-IsClean-LacksReturns,
}
use dockhand.Operations.Output.{interleave}
use dockhand.Sse.Decoding.{Event, Reader, decode_from, decode}
use dockhand.Sse.Framing.{
  IsClean, LacksReturns, idle, decode_from-send, decode_from-done, decode_from-line_event,
  decode_from-error,
}
use dockhand.Operations.History.{Sql}
use dockhand.Operations.Runner.{Runner, World, RunResult, Call, run}
use dockhand.Api.{streamed}
use dockhand.Api.Operations.{stream_end, stream_of, run_handler}

abbrev pub log_event : Text → Event
log_event l = record { name = codes "log"; payload = l }

abbrev pub log_events : List Text → List Event
log_events [] = []
log_events (l ∷ ls) = log_event l ∷ log_events ls

abbrev pub done_event : ℤ → Event
done_event code = record { name = codes "done"; payload = exit_code_json code }

abbrev pub start_event : Text → Event
start_event name = record { name = codes "start"; payload = name }

abbrev pub error_event : Text → Event
error_event message = record { name = codes "error"; payload = message }

abbrev pub end_events : Result RunResult → List Event
end_events (err e) = error_event e ∷ done_event (pos 1) ∷ []
end_events (ok x) = done_event x.exit_code ∷ []

abbrev pub stream_events : Text → List Text → Result RunResult → List Event
stream_events name lines result = start_event name ∷ (log_events lines ++ end_events result)

-- The message of an error has no carriage return.
abbrev pub IsPlain : Result RunResult → Type 0
IsPlain (err e) = LacksReturns e
IsPlain (ok x) = Unit

pub decode_from-log_lines :
    (es : List Event) (ls : List Text) (rest : Text)
    → All LacksReturns ls
    → decode_from (idle es) (log_lines ls ++ rest) ≡ decode_from (idle (es ++ log_events ls)) rest
decode_from-log_lines es [] rest h = rw (append-nil es) refl
decode_from-log_lines es (l ∷ ls) rest h =
    ap (decode_from (idle es)) (append_assoc (line l) (log_lines ls) rest)
    ∙ decode_from-line_event es l (log_lines ls ++ rest) h.0
    ∙ decode_from-log_lines (es ++ log_event l ∷ []) ls rest h.1
    ∙ ap (λ qs. decode_from (idle qs) rest) (append_assoc es (log_event l ∷ []) (log_events ls))

pub decode_from-nil : (es : List Event) → (decode_from (idle es) []).events ≡ es
decode_from-nil es = unfold decode_from in refl

decode_from-stream_end :
    (es : List Event) (result : Result RunResult)
    → IsPlain result
    → (decode_from (idle es) (stream_end result)).events ≡ es ++ end_events result
decode_from-stream_end es (err e) h =
    ap (λ (r : Reader). r.events)
      (decode_from-error es e (done (pos 1)) h
        ∙ ap (decode_from (idle (es ++ error_event e ∷ []))) (sym (append-nil (done (pos 1))))
        ∙ decode_from-done (es ++ error_event e ∷ []) (pos 1) [])
    ∙ decode_from-nil ((es ++ error_event e ∷ []) ++ done_event (pos 1) ∷ [])
    ∙ append_assoc es (error_event e ∷ []) (done_event (pos 1) ∷ [])
decode_from-stream_end es (ok x) h =
    ap (λ (r : Reader). r.events)
      (ap (decode_from (idle es)) (sym (append-nil (done x.exit_code)))
        ∙ decode_from-done es x.exit_code [])
    ∙ decode_from-nil (es ++ done_event x.exit_code ∷ [])

decode-lines :
    (name : Text) (lines : List Text) (result : Result RunResult)
    → LacksReturns name
    → All LacksReturns lines
    → IsPlain result
    → decode (send (codes "start") name ++ (log_lines lines ++ stream_end result))
      ≡ stream_events name lines result
unfolding decode
decode-lines name lines result hn hl hr =
    let started = start_event name ∷ [] in
    ap (λ (r : Reader). r.events)
      (decode_from-send [] (codes "start") name (log_lines lines ++ stream_end result)
          (ground arith) hn
        ∙ decode_from-log_lines started lines (stream_end result) hl)
    ∙ decode_from-stream_end (started ++ log_events lines) result hr

-- What a client reads of the call `c` if its lines come in the order `o`.
abbrev pub events_of : List Bool → Text → Call Runner → List Event
events_of o name c = stream_events name (interleave o c.outputs.0 c.outputs.1) c.result

-- Let the command of a known operation print lines to one of its outputs only, or to both, and then so
-- that the writes of two log events never run into each other, where they come in the order `o`. The
-- client of POST /operations/{name}/run reads exactly these events: the start with the operation's
-- name, a log event for every line, those of each output in order and the outputs in the order `o`,
-- an error event if the run failed, and as the last event the end with the exit code, which is 1
-- where the run failed; as long as no line holds a line end or a carriage return, and the name and
-- the error message no carriage return.
pub run_handler-events :
    (sql : Sql) (w : World) (o order : List Bool) (name : Text) (r : Runner) {op : Operation}
    → lookup name r.ops ≡ some op
    → IsWhole o order (run sql w name r).outputs.0 (run sql w name r).outputs.1
    → LacksReturns name
    → All IsClean (run sql w name r).outputs.0
    → All IsClean (run sql w name r).outputs.1
    → IsPlain (run sql w name r).result
    → (body : Text) × (run_handler sql w order name r ≡ ((run sql w name r).state, streamed body))
      × (decode body ≡ events_of o name (run sql w name r))
unfolding run_handler
run_handler-events sql w o order name r known apart hn ha hb hr =
    let c = run sql w name r in
    let a = c.outputs.0 in
    let b = c.outputs.1 in
    let plain =
      interleave-All LacksReturns o a b (All-IsClean-LacksReturns a ha)
        (All-IsClean-LacksReturns b hb) in
    (
      stream_of name (outputs order a b) c.result,
      rw (run_handler, known) refl,
      ap (λ s. decode (send (codes "start") name ++ (s ++ stream_end c.result)))
            (piece_text-IsWhole o order a b (All-IsClean-IsLine a ha) (All-IsClean-IsLine b hb)
              apart)
          ∙ decode-lines name (interleave o a b) c.result hn plain hr,
    )
