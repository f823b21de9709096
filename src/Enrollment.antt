-- ===== src/Enrollment.antt =====
-- internal/enrollment/enrollment.go: the registration of a runner with its server. The network is the
-- argument `Net`: what parsing a URL, a UDP dial and a POST yield.
pub mod Retries
pub mod Answers
pub mod Restarts
pub mod ReEnrolling
use dockhand.Prelude.{
  ℕ, zero, suc, ◌+◌, ◌-◌, ◌*◌, Bool, true, false, not, ◌&&◌, ◌||◌, Option, none, some, List, [],
  ◌∷◌, ◌++◌, if◌then◌else◌, ltb, ◌==◌, Text, codes, quoted, text_eq, is_empty, contains_byte, itoa,
  Result, ok, err, on_result, ℤ, pos,
}
use dockhand.Config.{Config}

-- What the program reads of a parsed URL.
pub record Url : Type 0 where
  pub scheme : Text
  pub hostname : Text
  pub port : Text

-- A response: its status, and its body decoded, or the error of decoding it.
pub record Response (A : Type 0) : Type 0 where
  pub status : ℕ
  pub body : Result A

pub record Net : Type 0 where
  pub parse_url : Text → Result Url
  pub dial_udp : Text → Result Text

-- registerRequest
pub record RegisterRequest : Type 0 where
  pub token : Text
  pub name : Text
  pub url : Text
  pub api_key : Text

-- registerResponse
pub record RegisterResponse : Type 0 where
  pub success : Bool
  pub message : Text
  pub error : Text

-- An error of `register`: `rejected` is a rejectionError.
pub data Attempt : Type 0 where
  accepted : Attempt
  rejected : Text → Attempt
  failed : Text → Attempt

-- isRejection
abbrev pub is_rejection : Attempt → Bool
is_rejection accepted = false
is_rejection (rejected e) = true
is_rejection (failed e) = false

abbrev pub first_text : Text → Text → Text
first_text [] t = t
first_text (c ∷ s) t = c ∷ s

abbrev pub status_text : ℕ → Text
status_text n = itoa (pos n)

-- The tests of `register` on a decoded response.
abbrev judge : ℕ → RegisterResponse → Attempt
judge status a =
    if not (status == 201) || not a.success
    then (let message =
          codes "server returned "
          ++ status_text status
          ++ codes ": "
          ++ first_text a.error a.message in
        if status == 401 then rejected message else failed message)
    else accepted

abbrev pub judge_body : ℕ → Result RegisterResponse → Attempt
judge_body status (err e) =
    failed (codes "decoding response (status " ++ status_text status ++ codes "): " ++ e)
judge_body status (ok a) = judge status a

abbrev judge_response : Text → Result (Response RegisterResponse) → Attempt
judge_response endpoint (err e) = failed (codes "POST " ++ endpoint ++ codes ": " ++ e)
judge_response endpoint (ok r) = judge_body r.status r.body

-- register; `post` sends the request to the endpoint.
unfoldable pub register :
    (Text → RegisterRequest → Result (Response RegisterResponse)) → Text → RegisterRequest → Attempt
unfolding itoa
register post docked_url request =
    let endpoint = docked_url ++ codes "/api/runners/register" in
    judge_response endpoint (post endpoint request)

abbrev pub default_port : Url → Text
default_port u =
    if is_empty u.port
    then (if text_eq u.scheme (codes "https") then codes "443" else codes "80")
    else u.port

-- net.JoinHostPort
abbrev join_host_port : Text → Text → Text
join_host_port host port =
    if contains_byte host b':' then b'[' ∷ host ++ codes "]:" ++ port else host ++ b':' ∷ port

abbrev url_at : Config → Result Text → Result Text
url_at cfg (err e) = err (codes "detecting local IP: " ++ e)
url_at cfg (ok ip) = ok (
    (if cfg.server.tls then codes "https" else codes "http")
    ++ codes "://"
    ++ ip
    ++ b':' ∷ itoa cfg.server.port)

abbrev url_via : Net → Config → Result Url → Result Text
url_via net cfg (err e) = err (codes "parsing docked_url: " ++ e)
url_via net cfg (ok u) = url_at cfg (net.dial_udp (join_host_port u.hostname (default_port u)))

-- BuildRunnerURL
unfoldable pub build_runner_url : Net → Config → Result Text
unfolding itoa text_eq contains_byte
build_runner_url net cfg =
    if not (is_empty cfg.runner.url)
    then ok cfg.runner.url
    else url_via net cfg (net.parse_url cfg.runner.docked_url)

abbrev pub second : ℕ
second = 1000000000

-- initialRetryDelay, maxRetryDelay
abbrev pub initial_retry_delay : ℕ
initial_retry_delay = 5 * second

abbrev max_retry_delay : ℕ
max_retry_delay = 120 * second

-- What a call of the retry loop does: the pauses that it makes, and whether it was accepted.
pub record Tries : Type 0 where
  pub pauses : List ℕ
  pub registered : Bool

abbrev pub next_delay : ℕ → ℕ
next_delay d = if ltb max_retry_delay (d * 2) then max_retry_delay else d * 2

abbrev pause : ℕ → Tries → Tries
pause d t = record t { pauses = d ∷ t.pauses }

-- The retry loop of `Run` from the attempt `attempt` on, of which `left` are left.
unfoldable pub try_from : (ℕ → Attempt) → ℕ → ℕ → ℕ → Tries
try_from answer zero attempt delay = record { pauses = []; registered = false }
try_from answer (suc left) attempt delay = elim (answer attempt) [
  | accepted ↦ record { pauses = []; registered = true }
  | rejected e ↦ record { pauses = []; registered = false }
  | failed e ↦
      if left == 0
      then record { pauses = []; registered = false }
      else pause delay (try_from answer left (attempt + 1) (next_delay delay))
]

-- What `Run` does: the requests it makes, whether the marker file is written, and whether it has the token
-- cleared from the configuration file.
pub record Enrolled : Type 0 where
  pub tries : Tries
  pub marked : Bool
  pub token_cleared : Bool

abbrev pub skipped : Enrolled
skipped = record {
  tries = record { pauses = []; registered = false };
  marked = false;
  token_cleared = false;
}

-- What the marker file answers to Stat, and to being written.
pub record Marker : Type 0 where
  pub stat_fault : Option Text
  pub write_fault : Option Text

-- IsRegistered
abbrev pub is_registered : Marker → Bool
is_registered m = elim m.stat_fault [ none ↦ true | some e ↦ false ]

-- writeMarker: whether the file is written; an error is only logged.
abbrev pub write_marker : Marker → Bool
write_marker m = elim m.write_fault [ none ↦ true | some e ↦ false ]

abbrev pub concluded : Marker → Tries → Enrolled
concluded m t = record {
  tries = t;
  marked = t.registered && write_marker m;
  token_cleared = t.registered;
}

module _ (net : Net) (post : ℕ → Text → RegisterRequest → Result (Response RegisterResponse)) where
  -- Run, with maxEnrollRetries = 5; `post` takes the number of the attempt.
  unfoldable pub run : Marker → Config → Enrolled
  unfolding register build_runner_url try_from
  run m cfg =
      if is_registered m
      then skipped
      else if is_empty cfg.runner.enrollment_token
      then skipped
      else if is_empty cfg.runner.docked_url
      then skipped
      else elim (build_runner_url net cfg) [
        | err e ↦ skipped
        | ok url ↦ concluded m (
            try_from
              (λ attempt. register (post attempt) cfg.runner.docked_url (record {
                token = cfg.runner.enrollment_token;
                name = cfg.runner.name;
                url = url;
                api_key = cfg.server.api_key;
              }))
              5 1 initial_retry_delay)
      ]
