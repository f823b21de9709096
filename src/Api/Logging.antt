-- ===== src/Api/Logging.antt =====
-- internal/api/server.go: loggingMiddleware and its responseWriter, around what net/http does with the calls
-- of a handler.
use dockhand.Prelude.{
  ℕ, ◌≡◌, refl, Bool, true, false, Option, none, some, List, [], ◌∷◌, ◌++◌, or_zero, Text, ◌∙◌, sym,
}

-- What a handler does with its http.ResponseWriter
pub data Call : Type 0 where
  write_header : ℕ → Call
  write : Text → Call
  flush : Call

-- What the client gets: the first status that is written, or 200 with the first bytes or flush.
pub record Sent : Type 0 where
  pub status : Option ℕ
  pub bytes : Text

abbrev with_status : ℕ → Sent → Sent
with_status code s = record s { status = some (or_zero code s.status) }

-- responseWriter
pub record ResponseWriter : Type 0 where
  pub sent : Sent
  pub status : ℕ

-- WriteHeader keeps the status; Write and Flush go to the writer that is wrapped.
unfoldable pub on_call : Call → ResponseWriter → ResponseWriter
on_call (write_header code) w = record { sent = with_status code w.sent; status = code }
on_call (write text) w =
    let s = with_status 200 w.sent in record w { sent = record s { bytes = s.bytes ++ text } }
on_call flush w = record w { sent = with_status 200 w.sent }

unfoldable pub after_calls : List Call → ResponseWriter → ResponseWriter
unfolding on_call
after_calls [] w = w
after_calls (c ∷ cs) w = after_calls cs (on_call c w)

-- The writer that loggingMiddleware hands on.
abbrev pub fresh : ResponseWriter
fresh = record { sent = record { status = none; bytes = [] }; status = 200 }

-- The status in the log line of loggingMiddleware
unfoldable pub logged_status : List Call → ℕ
unfolding after_calls
logged_status cs = (after_calls cs fresh).status

unfoldable pub client_status : List Call → ℕ
unfolding after_calls
client_status cs = or_zero 200 (after_calls cs fresh).sent.status

abbrev pub writes_header : Call → Bool
writes_header (write_header code) = true
writes_header (write text) = false
writes_header flush = false

-- No call but perhaps the first writes the header.
abbrev pub LacksHeaders : List Call → Type 0
LacksHeaders [] = Unit
LacksHeaders (c ∷ cs) = (writes_header c ≡ false) × LacksHeaders cs

keeps_status :
    (cs : List Call) (w : ResponseWriter) (code : ℕ)
    → LacksHeaders cs
    → w.status ≡ code
    → or_zero 200 w.sent.status ≡ code
    → ((after_calls cs w).status ≡ code) × (or_zero 200 (after_calls cs w).sent.status ≡ code)
unfolding after_calls on_call
keeps_status [] w code l e f = (e, f)
keeps_status (write_header c ∷ cs) w code l e f = cc
keeps_status (write text ∷ cs) w code l e f = keeps_status cs (on_call (write text) w) code l.1 e f
keeps_status (flush ∷ cs) w code l e f = keeps_status cs (on_call flush w) code l.1 e f

same : {a b code : ℕ} → (a ≡ code) × (b ≡ code) → a ≡ b
same h = h.0 ∙ sym h.1

-- The log has the status that the client got, whatever the handler writes, if it writes a header at most
-- once and before anything else.
logged_status-client_status :
    (c : Call) (cs : List Call) → LacksHeaders cs → logged_status (c ∷ cs) ≡ client_status (c ∷ cs)
unfolding logged_status client_status after_calls on_call
logged_status-client_status (write_header code) cs l =
    same (keeps_status cs (on_call (write_header code) fresh) code l refl refl)
logged_status-client_status (write text) cs l =
    same (keeps_status cs (on_call (write text) fresh) 200 l refl refl)
logged_status-client_status flush cs l =
    same (keeps_status cs (on_call flush fresh) 200 l refl refl)
