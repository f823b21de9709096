-- ===== src/Sse.antt =====
-- internal/sse/sse.go: server-sent events as text. Each function yields what is written to the response;
-- the headers and flushes are left out.
pub mod Decoding
pub mod Framing
pub mod Returns
pub mod Progress
pub mod Sources
pub mod Torn
pub mod Whole
pub mod Apart
use dockhand.Prelude.{
  ℕ, ◌≡◌, refl, ap, sym, ◌∙◌, append_assoc, List, [], ◌∷◌, ◌++◌, Text, codes, newline, split_lines,
  itoa, ℤ,
}

-- The loop over the lines of the payload.
abbrev pub data_lines : List Text → Text
data_lines [] = []
data_lines (l ∷ ls) = codes "data: " ++ (l ++ newline ∷ data_lines ls)

-- Send
unfoldable pub send : Text → Text → Text
unfolding split_lines
send event payload =
    codes "event: " ++ (event ++ newline ∷ (data_lines (split_lines payload) ++ newline ∷ []))

-- The writes of Send to the response, one for each call of Fprintf or Fprint.
abbrev data_writes : List Text → List Text
data_writes [] = (newline ∷ []) ∷ []
data_writes (l ∷ ls) = (codes "data: " ++ (l ++ newline ∷ [])) ∷ data_writes ls

unfoldable pub send_writes : Text → Text → List Text
unfolding split_lines
send_writes event payload =
    (codes "event: " ++ (event ++ newline ∷ [])) ∷ data_writes (split_lines payload)

-- What a sequence of writes puts into the response.
abbrev pub written : List Text → Text
written [] = []
written (w ∷ ws) = w ++ written ws

written-data_writes : (ls : List Text) → written (data_writes ls) ≡ data_lines ls ++ newline ∷ []
written-data_writes [] = refl
written-data_writes (l ∷ ls) =
    ap (λ s. codes "data: " ++ s)
      (append_assoc l (newline ∷ []) (written (data_writes ls))
        ∙ ap (λ s. l ++ newline ∷ s) (written-data_writes ls)
        ∙ sym (append_assoc l (newline ∷ data_lines ls) (newline ∷ [])))

-- The writes of one event, one after the other, are the text of the event.
pub written-send_writes :
    (event payload : Text) → written (send_writes event payload) ≡ send event payload
unfolding send send_writes
written-send_writes event payload =
    ap (λ s. codes "event: " ++ s)
      (append_assoc event (newline ∷ []) (written (data_writes (split_lines payload)))
        ∙ ap (λ s. event ++ newline ∷ s) (written-data_writes (split_lines payload)))

-- SendJSON of a value that is encoded as `json`
unfoldable pub send_json : Text → Text → Text
send_json event json =
    codes "event: " ++ (event ++ newline ∷ (codes "data: " ++ (json ++ newline ∷ newline ∷ [])))

-- Line
unfoldable pub line : Text → Text
unfolding send
line text = send (codes "log") text

-- Error
unfoldable pub error : Text → Text
unfolding send
error message = send (codes "error") message

-- The encoding of map[string]int{"exitCode": code}
abbrev pub exit_code_json : ℤ → Text
exit_code_json code = codes "{\"exitCode\":" ++ itoa code ++ codes "}"

-- Done
unfoldable pub done : ℤ → Text
unfolding send_json itoa
done code = send_json (codes "done") (exit_code_json code)
