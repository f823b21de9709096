-- ===== src/Api/Containers/Streams.antt =====
-- What a client of internal/api/handlers/containers.go reads of an upgrade and of logs.
use dockhand.Prelude.{
  Bool, ◌≡◌, refl, ap, sym, ◌∙◌, some, List, [], ◌∷◌, ◌++◌, append_assoc, append-nil, arith, Text,
  codes, Result, ok, err, pos, ℤ,
}
use dockhand.Docker.Upgrade.{UpgradeResult}
use dockhand.Sse.{send, send_json, error, done}
use dockhand.Sse.Decoding.{Event, Reader, decode_from, decode}
use dockhand.Sse.Framing.{
  IsClean, IsClean-IsLine, IsClean-LacksReturns, LacksReturns, idle, decode_from-send,
  decode_from-done, decode_from-error, send_json-eq-send,
}
use dockhand.Api.{streamed}
use dockhand.Sse.Progress.{log_lines}
use dockhand.Sse.Apart.{AreApart, AreClean, lines_of, progress_text-AreApart, lines_of-LacksReturns}
use dockhand.Api.Operations.Streams.{
  log_events, done_event, start_event, error_event, decode_from-log_lines, decode_from-nil,
}
use dockhand.Api.Containers.{DockerClient, Progressed, upgrade_end, upgrade_stream, upgrade_handler}

module _ (result_json : UpgradeResult → Text) where
  abbrev pub result_event : UpgradeResult → Event
  result_event u = record { name = codes "result"; payload = result_json u }

  abbrev pub end_events : Result UpgradeResult → List Event
  end_events (err e) = error_event e ∷ done_event (pos 1) ∷ []
  end_events (ok u) = result_event u ∷ done_event (pos 0) ∷ []

  abbrev pub upgrade_events :
      List (List Bool) → Text → Progressed (Result UpgradeResult) → List Event
  upgrade_events os id x =
      start_event id ∷ (log_events (lines_of os x.progress) ++ end_events x.result)

  -- The message of an error has no carriage return, and the JSON of a result is one line.
  abbrev pub IsPlain : Result UpgradeResult → Type 0
  IsPlain (err e) = LacksReturns e
  IsPlain (ok u) = IsClean (result_json u)

  decode_from-last_done :
      (es : List Event) (first : Text) (e : Event) (n : ℤ)
      → decode_from (idle es) (first ++ done n) ≡ decode_from (idle (es ++ e ∷ [])) (done n)
      → (decode_from (idle es) (first ++ done n)).events ≡ es ++ e ∷ done_event n ∷ []
  decode_from-last_done es first e n h =
      ap (λ (r : Reader). r.events)
        (h
          ∙ ap (decode_from (idle (es ++ e ∷ []))) (sym (append-nil (done n)))
          ∙ decode_from-done (es ++ e ∷ []) n [])
      ∙ decode_from-nil ((es ++ e ∷ []) ++ done_event n ∷ [])
      ∙ append_assoc es (e ∷ []) (done_event n ∷ [])

  decode_from-result :
      (es : List Event) (u : UpgradeResult) (rest : Text)
      → IsClean (result_json u)
      → decode_from (idle es) (send_json (codes "result") (result_json u) ++ rest)
        ≡ decode_from (idle (es ++ result_event u ∷ [])) rest
  decode_from-result es u rest h =
      ap (λ s. decode_from (idle es) (s ++ rest))
        (send_json-eq-send (codes "result") (result_json u) (IsClean-IsLine (result_json u) h))
      ∙ decode_from-send es (codes "result") (result_json u) rest (ground arith)
          (IsClean-LacksReturns (result_json u) h)

  decode_from-upgrade_end :
      (es : List Event) (result : Result UpgradeResult)
      → IsPlain result
      → (decode_from (idle es) (upgrade_end result_json result)).events ≡ es ++ end_events result
  decode_from-upgrade_end es (err e) h =
      decode_from-last_done es (error e) (error_event e) (pos 1)
        (decode_from-error es e (done (pos 1)) h)
  decode_from-upgrade_end es (ok u) h =
      decode_from-last_done es (send_json (codes "result") (result_json u)) (result_event u) (pos 0)
        (decode_from-result es u (done (pos 0)) h)

  -- Where Docker is available, let each command of Compose print lines to one of its outputs only, or to
  -- both, and then so that the writes of two log events never run into each other, where they come in
  -- the order that `os` has for the command. The client of POST /containers/{id}/upgrade reads exactly
  -- these events: the start with the id, a log event for every line of progress, in order, and then
  -- either the error and the end with code 1, or the result and the end with code 0; as long as no
  -- line holds a line end or a carriage return, the id and the error no carriage return, and the JSON
  -- of the result is one line.
  pub upgrade_handler-events :
      (d : DockerClient) (id : Text) (os : List (List Bool))
      → LacksReturns id
      → AreClean (d.upgrade_container id).progress
      → AreApart os (d.upgrade_container id).progress
      → IsPlain (d.upgrade_container id).result
      → (body : Text) × (upgrade_handler result_json (some d) id ≡ streamed body)
        × (decode body ≡ upgrade_events os id (d.upgrade_container id))
  unfolding upgrade_handler decode
  upgrade_handler-events d id os hid clean apart hr =
      let x = d.upgrade_container id in
      let started = start_event id ∷ [] in
      let lines = lines_of os x.progress in
      let rest = log_lines lines ++ upgrade_end result_json x.result in
      (
        upgrade_stream result_json id x,
        refl,
        ap (λ s. decode (send (codes "start") id ++ (s ++ upgrade_end result_json x.result)))
              (progress_text-AreApart os x.progress clean apart)
            ∙ ap (λ (r : Reader). r.events)
                (decode_from-send [] (codes "start") id rest (ground arith) hid
                  ∙ decode_from-log_lines started lines (upgrade_end result_json x.result)
                      (lines_of-LacksReturns os x.progress clean))
            ∙ decode_from-upgrade_end (started ++ log_events lines) x.result hr,
      )
