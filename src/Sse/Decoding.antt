-- ===== src/Sse/Decoding.antt =====
-- What a client reads from a stream of internal/sse/sse.go, by the rules for event streams of the HTML
-- standard: lines end at LF, CR or CRLF, and an empty line dispatches the event that was collected.
use dockhand.Prelude.{
  ℕ, Bool, false, List, [], ◌∷◌, ◌++◌, ◌==◌, if◌then◌else◌, Text, codes, newline, text_eq,
  join_lines,
}

abbrev pub starts_with : ℕ → Text → Bool
starts_with b [] = false
starts_with b (c ∷ s) = c == b

abbrev pub carriage_return : ℕ
carriage_return = 13

-- A byte put in front of the first line, if there is one.
abbrev extend : ℕ → List Text → List Text
extend c [] = []
extend c (l ∷ ls) = (c ∷ l) ∷ ls

-- The lines that have their end; what follows the last end is discarded.
unfoldable pub stream_lines : Text → List Text
stream_lines [] = []
stream_lines (c ∷ s) =
    let rest = stream_lines s in
    if c == newline
    then [] ∷ rest
    else if c == carriage_return
    then (if starts_with newline s then rest else [] ∷ rest)
    else extend c rest

-- The type of an event as it was sent; for a client, one that is empty stands for `message`.
pub record Event : Type 0 where
  pub name : Text
  pub payload : Text

-- The events dispatched so far, and the buffers of the one that is read.
pub record Reader : Type 0 where
  pub events : List Event
  pub event_type : Text
  pub payload : List Text

-- The event is dropped if it has no data.
abbrev dispatch : Reader → Reader
dispatch r = elim r.payload [
  | [] ↦ record r { event_type = [] }
  | l ∷ ls ↦ record {
    events = r.events ++ record { name = r.event_type; payload = join_lines (l ∷ ls) } ∷ [];
    event_type = [];
    payload = [];
  }
]

-- A line has the name of a field up to its first colon, or is such a name, and behind the colon the
-- value, of which one space in front is left out.
abbrev pub field_name : Text → Text
field_name [] = []
field_name (c ∷ s) = let rest = field_name s in if c == b':' then [] else c ∷ rest

abbrev drop_space : Text → Text
drop_space [] = []
drop_space (c ∷ s) = if c == b' ' then s else c ∷ s

abbrev field_value : Text → Text
field_value [] = []
field_value (c ∷ s) = let rest = field_value s in if c == b':' then drop_space s else rest

-- The fields `id` and `retry`, comments and unknown fields do nothing to the events.
abbrev read_field : Reader → Text → Reader
read_field r l =
    if text_eq (field_name l) (codes "event")
    then record r { event_type = field_value l }
    else if text_eq (field_name l) (codes "data")
    then record r { payload = r.payload ++ field_value l ∷ [] }
    else r

unfoldable pub read_line : Reader → Text → Reader
unfolding text_eq join_lines
read_line r [] = dispatch r
read_line r (c ∷ l) = read_field r (c ∷ l)

unfoldable pub read_lines : Reader → List Text → Reader
unfolding read_line
read_lines r [] = r
read_lines r (l ∷ ls) = read_lines (read_line r l) ls

abbrev new_reader : Reader
new_reader = record { events = []; event_type = []; payload = [] }

-- The events of a text, from a reader on.
unfoldable pub decode_from : Reader → Text → Reader
unfolding read_lines stream_lines
decode_from r s = read_lines r (stream_lines s)

unfoldable pub decode : Text → List Event
unfolding decode_from
decode s = (decode_from new_reader s).events
