-- ===== src/Sse/Returns.antt =====
-- What a carriage return inside of a line does to the events of internal/sse/sse.go.
use dockhand.Prelude.{
  ◌≡◌, refl, ap, ◌∙◌, false, [], ◌∷◌, ◌++◌, append_assoc, All-append, Text, codes, newline,
  is_empty, text_eq, IsLine, split_lines-line, arith, ◌≢◌,
}
use dockhand.Sse.{line, data_lines}
use dockhand.Sse.Decoding.{
  starts_with, carriage_return, field_name, Reader, read_line, decode_from, decode,
}
use dockhand.Sse.Framing.{
  IsClean, IsClean-IsLine, idle, decode_from-line, decode_from-return, read_line-data,
  data_line-IsClean, decode_from-empty_line,
}

return-IsLine : (a b : Text) → IsClean a → IsClean b → IsLine (a ++ carriage_return ∷ b)
return-IsLine a b ha hb =
    All-append (λ c. c ≢ newline) a (carriage_return ∷ b) (IsClean-IsLine a ha)
      (omega arith, IsClean-IsLine b hb)

starts_with-append :
    (b s : Text) → IsClean b → is_empty b ≡ false → starts_with newline (b ++ s) ≡ false
starts_with-append [] s h k = cc
starts_with-append (c ∷ b) s h k = ground (arith, h)

-- A line that is no field of these changes nothing.
read_line-other :
    (r : Reader) (b : Text)
    → is_empty b ≡ false
    → text_eq (field_name b) (codes "event") ≡ false
    → text_eq (field_name b) (codes "data") ≡ false
    → read_line r b ≡ r
unfolding read_line
read_line-other r [] e f g = cc
read_line-other r (c ∷ b) e f g = rw (f, g) refl

-- Of a line with one carriage return inside, such as a progress display, the client gets the part in
-- front of it only, unless what follows is a field `event` or `data` of an event by its name, which
-- goes up to the first colon or is all of it.
pub decode-line_cut :
    (a b : Text)
    → IsClean a
    → IsClean b
    → is_empty b ≡ false
    → text_eq (field_name b) (codes "event") ≡ false
    → text_eq (field_name b) (codes "data") ≡ false
    → decode (line (a ++ carriage_return ∷ b)) ≡ record { name = codes "log"; payload = a } ∷ []
unfolding line decode
decode-line_cut a b ha hb some_b not_event not_data =
    let text = a ++ carriage_return ∷ b in
    let named : Reader = record { events = []; event_type = codes "log"; payload = [] } in
    let read : Reader = record { events = []; event_type = codes "log"; payload = a ∷ [] } in
    let rest = newline ∷ newline ∷ [] in
    let path =
      ap
        (λ ls.
          decode_from (idle []) (codes "event: log" ++ newline ∷ (data_lines ls ++ newline ∷ [])))
        (split_lines-line text (return-IsLine a b ha hb))
      ∙ decode_from-line (idle []) (codes "event: log")
          (codes "data: " ++ (text ++ newline ∷ []) ++ newline ∷ []) (ground arith)
      ∙ ap (λ s. decode_from named (codes "data: " ++ s))
          (append_assoc text (newline ∷ []) (newline ∷ [])
            ∙ append_assoc a (carriage_return ∷ b) rest)
      ∙ decode_from-return named (codes "data: " ++ a) (b ++ rest) (data_line-IsClean a ha)
          (starts_with-append b rest hb some_b)
      ∙ ap (λ r. decode_from r (b ++ rest)) (read_line-data [] (codes "log") a [])
      ∙ decode_from-line read b (newline ∷ []) hb
      ∙ ap (λ r. decode_from r (newline ∷ [])) (read_line-other read b some_b not_event not_data)
      ∙ decode_from-empty_line [] (codes "log") (a ∷ []) [] (λ e. cc) in
    ap (λ (r : Reader). r.events) path
