-- ===== src/Docker/Pulling.antt =====
-- The two ways to pull an image: pullImage of internal/docker/upgrade.go, which reads the progress of the
-- engine, and PullImage of internal/docker/management.go, which discards it.
use dockhand.Prelude.{
  ◌≡◌, ◌≢◌, Bool, true, not, Option, none, some, List, [], ◌∷◌, ◌++◌, if◌then◌else◌, any_of, Text,
  codes, is_empty, Result, ok, err, arith,
}

-- An event of the progress
pub record PullEvent : Type 0 where
  pub status : Text
  pub progress : Text
  pub error : Text
  pub id : Text

-- The stream that the engine answers with: its events, the error that ends the decoding if it is not the
-- end of the stream, and the error of reading it to its end, if there is one.
pub record PullStream : Type 0 where
  pub events : List PullEvent
  pub decode_fault : Option Text
  pub read_fault : Option Text

-- The lines of progress, and the error.
pub record Pulled : Type 0 where
  pub lines : List Text
  pub error : Option Text

abbrev pub fails : Text → Pulled
fails e = record { lines = []; error = some e }

abbrev put_line : Text → Pulled → Pulled
put_line l p = record p { lines = l ∷ p.lines }

abbrev event_line : PullEvent → Text
event_line e =
    (if is_empty e.id then e.status else e.id ++ (codes ": " ++ e.status))
    ++ (if is_empty e.progress then [] else codes "  " ++ e.progress)

-- The loop of pullImage
unfoldable pull_events : List PullEvent → Option Text → Pulled
pull_events [] end = record { lines = []; error = end }
pull_events (e ∷ es) end =
    let rest = pull_events es end in
    if not (is_empty e.error)
    then fails (codes "pull: " ++ e.error)
    else if is_empty e.status
    then rest
    else put_line (event_line e) rest

-- pullImage
unfoldable pub pull_image : Result PullStream → Pulled
unfolding pull_events
pull_image (err e) = fails e
pull_image (ok s) = pull_events s.events s.decode_fault

-- PullImage
unfoldable pub pull_and_discard : Text → Result PullStream → Option Text
pull_and_discard ref (err e) = some (codes "pull " ++ (ref ++ (codes ": " ++ e)))
pull_and_discard ref (ok s) = s.read_fault

abbrev pub is_failure : PullEvent → Bool
is_failure e = not (is_empty e.error)

pull_events_failure :
    (es : List PullEvent) (end : Option Text)
    → any_of is_failure es ≡ true
    → (pull_events es end).error ≢ none
unfolding pull_events
pull_events_failure [] end h = absurd (cc)
pull_events_failure (e ∷ es) end h = ground (arith, pull_events_failure es end)

-- Where the engine reports in its progress that the pull failed, pullImage fails; PullImage succeeds all
-- the same, as long as the stream can be read to its end.
pub pull_and_discard_succeeds :
    (ref : Text) (s : PullStream)
    → any_of is_failure s.events ≡ true
    → s.read_fault ≡ none
    → ((pull_image (ok s)).error ≢ none) × (pull_and_discard ref (ok s) ≡ none)
unfolding pull_image pull_and_discard
pull_and_discard_succeeds ref s h k = (pull_events_failure s.events s.decode_fault h, k)
