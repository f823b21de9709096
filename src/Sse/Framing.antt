-- ===== src/Sse/Framing.antt =====
-- The events of internal/sse/sse.go as a client reads them.
use dockhand.Prelude.{
  ℕ, ◌≡◌, ◌≢◌, refl, ap, sym, ◌∙◌, false, List, [], ◌∷◌, ◌++◌, append_assoc, append-nil, arith,
  ◌==◌, Bool-cases, inl, inr, All, All-append, Text, codes, newline, split_lines, join_lines,
  join_lines-split_lines, split_lines-ne-nil, push_front, ◌≤◌, IsLine, split_lines-line, ℤ, itoa,
  itoa-All,
}
use dockhand.Sse.{data_lines, send, send_json, line, error, done, exit_code_json}
use dockhand.Sse.Decoding.{
  starts_with, carriage_return, stream_lines, Event, Reader, read_line, read_lines, decode_from,
}

-- No line end of an event stream stands inside.
abbrev pub IsClean : Text → Type 0
IsClean = All (λ c. (c ≢ newline) × (c ≢ carriage_return))

abbrev pub LacksReturns : Text → Type 0
LacksReturns = All (λ c. c ≢ carriage_return)

abbrev pub idle : List Event → Reader
idle es = record { events = es; event_type = []; payload = [] }

stream_lines-append :
    (l s : Text) → IsClean l → stream_lines (l ++ newline ∷ s) ≡ l ∷ stream_lines s
unfolding stream_lines
stream_lines-append [] s h = refl
stream_lines-append (c ∷ l) s (hc, hl) = ground (arith, stream_lines-append l s hl)

pub decode_from-line :
    (r : Reader) (l s : Text)
    → IsClean l
    → decode_from r (l ++ newline ∷ s) ≡ decode_from (read_line r l) s
unfolding decode_from
decode_from-line r l s h = rw (stream_lines-append l s h) refl

push_front-IsClean :
    (c : ℕ) (ls : List Text)
    → c ≢ newline
    → c ≢ carriage_return
    → All IsClean ls
    → All IsClean (push_front c ls)
push_front-IsClean c [] h k a = (((h, k), tt), tt)
push_front-IsClean c (l ∷ ls) h k a = (((h, k), a.0), a.1)

split_lines-IsClean : (s : Text) → LacksReturns s → All IsClean (split_lines s)
unfolding split_lines
split_lines-IsClean [] h = (tt, tt)
split_lines-IsClean (c ∷ s) (hc, hs) = elim (Bool-cases (c == newline)) [
  | inl e ↦ rw e (tt, split_lines-IsClean s hs)
  | inr e ↦ rw e (push_front-IsClean c (split_lines s) (ground arith) hc (split_lines-IsClean s hs))
]

pub read_line-data :
    (es : List Event) (name l : Text) (before : List Text)
    → read_line (record { events = es; event_type = name; payload = before }) (codes "data: " ++ l)
      ≡ record { events = es; event_type = name; payload = before ++ l ∷ [] }
unfolding read_line
read_line-data es name l before = refl

read_line-event :
    (es : List Event) (name : Text)
    → read_line (idle es) (codes "event: " ++ name)
      ≡ record { events = es; event_type = name; payload = [] }
unfolding read_line
read_line-event es name = refl

pub data_line-IsClean : (l : Text) → IsClean l → IsClean (codes "data: " ++ l)
data_line-IsClean l h = ground (arith, h)

event_line-IsClean : (l : Text) → IsClean l → IsClean (codes "event: " ++ l)
event_line-IsClean l h = ground (arith, h)

decode_from-data_lines :
    (es : List Event) (name : Text) (before ls : List Text) (rest : Text)
    → All IsClean ls
    → decode_from
        (record { events = es; event_type = name; payload = before })
        (data_lines ls ++ rest)
      ≡ decode_from (record { events = es; event_type = name; payload = before ++ ls }) rest
decode_from-data_lines es name before [] rest h = rw (append-nil before) refl
decode_from-data_lines es name before (l ∷ ls) rest h =
    let r : Reader = record { events = es; event_type = name; payload = before } in
    ap (λ s. decode_from r (codes "data: " ++ s)) (append_assoc l (newline ∷ data_lines ls) rest)
    ∙ decode_from-line r (codes "data: " ++ l) (data_lines ls ++ rest) (data_line-IsClean l h.0)
    ∙ ap (λ q. decode_from q (data_lines ls ++ rest)) (read_line-data es name l before)
    ∙ decode_from-data_lines es name (before ++ l ∷ []) ls rest h.1
    ∙ ap (λ ps. decode_from (record { events = es; event_type = name; payload = ps }) rest)
        (append_assoc before (l ∷ []) ls)

-- The empty line dispatches an event that has data.
pub decode_from-empty_line :
    (es : List Event) (name : Text) (ls : List Text) (rest : Text)
    → ls ≢ []
    → decode_from (record { events = es; event_type = name; payload = ls }) (newline ∷ rest)
      ≡ decode_from (idle (es ++ record { name = name; payload = join_lines ls } ∷ [])) rest
decode_from-empty_line es name [] rest h = absurd (h refl)
decode_from-empty_line es name (l ∷ ls) rest h =
    unfold decode_from stream_lines read_lines read_line in refl

-- A client reads back an event that was sent, whatever follows it: its name and its payload, also if
-- that has several lines, as long as no carriage return stands in it and no line end in the name.
pub decode_from-send :
    (es : List Event) (event payload rest : Text)
    → IsClean event
    → LacksReturns payload
    → decode_from (idle es) (send event payload ++ rest)
      ≡ decode_from (idle (es ++ record { name = event; payload = payload } ∷ [])) rest
unfolding send
decode_from-send es event payload rest he hp =
    let ls = split_lines payload in
    let r : Reader = record { events = es; event_type = event; payload = [] } in
    ap (λ s. decode_from (idle es) (codes "event: " ++ s))
      (append_assoc event (newline ∷ (data_lines ls ++ newline ∷ [])) rest)
    ∙ decode_from-line (idle es) (codes "event: " ++ event)
        ((data_lines ls ++ newline ∷ []) ++ rest) (event_line-IsClean event he)
    ∙ ap (λ q. decode_from q ((data_lines ls ++ newline ∷ []) ++ rest)) (read_line-event es event)
    ∙ ap (decode_from r) (append_assoc (data_lines ls) (newline ∷ []) rest)
    ∙ decode_from-data_lines es event [] ls (newline ∷ rest) (split_lines-IsClean payload hp)
    ∙ decode_from-empty_line es event ls rest (split_lines-ne-nil payload)
    ∙ ap (λ p. decode_from (idle (es ++ record { name = event; payload = p } ∷ [])) rest)
        (join_lines-split_lines payload)

-- An event encoded as one line is an event with this payload.
pub send_json-eq-send : (event json : Text) → IsLine json → send_json event json ≡ send event json
unfolding send send_json
send_json-eq-send event json h = rw (split_lines-line json h) (
    ap (λ t. codes "event: " ++ (event ++ newline ∷ t))
      (ap (λ t. codes "data: " ++ t) (sym (append_assoc json (newline ∷ []) (newline ∷ [])))))

-- Bytes from the minus sign on, as in a number.
abbrev IsHigh : Text → Type 0
IsHigh = All (λ c. b'-' ≤ c)

IsHigh-IsClean : (s : Text) → IsHigh s → IsClean s
IsHigh-IsClean [] h = tt
IsHigh-IsClean (c ∷ s) (hc, hs) = ((omega arith, omega arith), IsHigh-IsClean s hs)

exit_code_json-IsClean : (code : ℤ) → IsClean (exit_code_json code)
exit_code_json-IsClean code =
    let close : IsHigh (codes "}") = omega arith in
    let rest = All-append (λ c. b'-' ≤ c) (itoa code) (codes "}") (itoa-All code) close in
    All-append (λ c. (c ≢ newline) × (c ≢ carriage_return)) (codes "{\"exitCode\":")
      (itoa code ++ codes "}") (ground arith) (IsHigh-IsClean (itoa code ++ codes "}") rest)

pub IsClean-IsLine : (s : Text) → IsClean s → IsLine s
IsClean-IsLine [] h = tt
IsClean-IsLine (c ∷ s) h = (h.0.0, IsClean-IsLine s h.1)

pub IsClean-LacksReturns : (s : Text) → IsClean s → LacksReturns s
IsClean-LacksReturns [] h = tt
IsClean-LacksReturns (c ∷ s) h = (h.0.1, IsClean-LacksReturns s h.1)

-- The event of `Done` is read back with its code.
pub decode_from-done :
    (es : List Event) (code : ℤ) (rest : Text)
    → decode_from (idle es) (done code ++ rest)
      ≡ decode_from
          (idle (es ++ record { name = codes "done"; payload = exit_code_json code } ∷ []))
          rest
unfolding done
decode_from-done es code rest =
    let json = exit_code_json code in
    let clean = exit_code_json-IsClean code in
    ap (λ s. decode_from (idle es) (s ++ rest))
      (send_json-eq-send (codes "done") json (IsClean-IsLine json clean))
    ∙ decode_from-send es (codes "done") json rest (ground arith) (IsClean-LacksReturns json clean)

-- A carriage return ends a line for the client.
stream_lines-return :
    (l s : Text)
    → IsClean l
    → starts_with newline s ≡ false
    → stream_lines (l ++ carriage_return ∷ s) ≡ l ∷ stream_lines s
unfolding stream_lines
stream_lines-return [] s h k = ground arith
stream_lines-return (c ∷ l) s (hc, hl) k = ground (arith, stream_lines-return l s hl k)

pub decode_from-return :
    (r : Reader) (l s : Text)
    → IsClean l
    → starts_with newline s ≡ false
    → decode_from r (l ++ carriage_return ∷ s) ≡ decode_from (read_line r l) s
unfolding decode_from
decode_from-return r l s h k = rw (stream_lines-return l s h k) refl

pub decode_from-line_event :
    (es : List Event) (text rest : Text)
    → LacksReturns text
    → decode_from (idle es) (line text ++ rest)
      ≡ decode_from (idle (es ++ record { name = codes "log"; payload = text } ∷ [])) rest
unfolding line
decode_from-line_event es text rest h = decode_from-send es (codes "log") text rest (ground arith) h

pub decode_from-error :
    (es : List Event) (message rest : Text)
    → LacksReturns message
    → decode_from (idle es) (error message ++ rest)
      ≡ decode_from (idle (es ++ record { name = codes "error"; payload = message } ∷ [])) rest
unfolding error
decode_from-error es message rest h =
    decode_from-send es (codes "error") message rest (ground arith) h
