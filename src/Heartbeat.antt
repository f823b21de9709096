-- ===== src/Heartbeat.antt =====
-- internal/heartbeat/heartbeat.go: the periodic calls to the server. Durations are nanoseconds; what a
-- POST yields is an argument, and so is what one round of the loop meets.
pub mod Backoff
pub mod Rounds
pub mod Answers
pub mod Servers
use dockhand.Prelude.{
  ℕ, zero, suc, ◌+◌, ◌*◌, Bool, true, false, not, ◌||◌, Option, none, some, List, [], ◌∷◌, ◌++◌,
  if◌then◌else◌, ltb, ◌==◌, Text, codes, is_empty, Result, ok, err,
}
use dockhand.Config.{Config}
use dockhand.Enrollment.{Net, Response, build_runner_url, first_text, status_text, second}

-- heartbeatInterval, maxBackoff
abbrev pub heartbeat_interval : ℕ
heartbeat_interval = 5 * 60 * second

abbrev pub max_backoff : ℕ
max_backoff = 30 * 60 * second

-- heartbeatRequest
pub record HeartbeatRequest : Type 0 where
  pub api_key : Text
  pub url : Text
  pub version : Text
  pub name : Text
  pub docker_ok : Bool

-- heartbeatResponse
pub record HeartbeatResponse : Type 0 where
  pub success : Bool
  pub url_updated : Bool
  pub error : Text

-- The error of `sendHeartbeat`; `fatal` is a fatalError.
pub data Beat : Type 0 where
  alive : Beat
  fatal : Text → Beat
  failing : Text → Beat

-- isFatal
abbrev pub is_fatal : Beat → Bool
is_fatal alive = false
is_fatal (fatal e) = true
is_fatal (failing e) = false

abbrev error_of : Result HeartbeatResponse → Text
error_of (err e) = []
error_of (ok a) = a.error

abbrev judge_answer : ℕ → Result HeartbeatResponse → Beat
judge_answer status (err e) =
    failing (codes "decoding response (status " ++ status_text status ++ codes "): " ++ e)
judge_answer status (ok a) =
    if not (status == 200) || not a.success
    then failing (
        codes "server returned "
        ++ status_text status
        ++ codes ": "
        ++ first_text a.error (codes "unknown error"))
    else alive

-- The status is looked at before the body.
abbrev pub judge_beat : Text → Result (Response HeartbeatResponse) → Beat
judge_beat endpoint (err e) = failing (codes "POST " ++ endpoint ++ codes ": " ++ e)
judge_beat endpoint (ok r) =
    if r.status == 401
    then fatal (codes "server returned 401: " ++ error_of r.body)
    else judge_answer r.status r.body

module _ (post : Text → HeartbeatRequest → Result (Response HeartbeatResponse)) where
  abbrev send_to : Config → Text → Bool → Result Text → Beat
  send_to cfg version docker_ok (err e) = failing (codes "determining runner URL: " ++ e)
  send_to cfg version docker_ok (ok url) =
      let endpoint = cfg.runner.docked_url ++ codes "/api/runners/heartbeat" in
      judge_beat endpoint (
        post endpoint (record {
          api_key = cfg.server.api_key;
          url = url;
          version = version;
          name = cfg.runner.name;
          docker_ok = docker_ok;
        }))

  -- sendHeartbeat
  unfoldable pub send_heartbeat : Net → Config → Text → Bool → Beat
  send_heartbeat net cfg version docker_ok =
      send_to cfg version docker_ok (build_runner_url net cfg)

abbrev pub doubled : ℕ → ℕ
doubled d = if ltb max_backoff (d * 2) then max_backoff else d * 2

-- The loop of `calcBackoff`, for the failures left.
unfoldable pub back_off : ℕ → ℕ → ℕ
back_off zero d = d
back_off (suc n) d = let rest = back_off n (doubled d) in if ltb d max_backoff then rest else d

-- calcBackoff
unfoldable pub calc_backoff : ℕ → ℕ
unfolding back_off
calc_backoff failures = back_off failures heartbeat_interval

-- What one round of the loop meets: the outcome of the heartbeat, and the error of the re-enrollment
-- that follows a fatal one.
pub record Round : Type 0 where
  pub beat : Beat
  pub re_enrolled : Option Text

-- What the loop does after a round: the pause that it makes, if any, and the failures that it counts.
abbrev after_failure : ℕ → Option ℕ × ℕ
after_failure failures = (some (calc_backoff (suc failures)), suc failures)

abbrev after_fatal : Option Text → ℕ → Option ℕ × ℕ
after_fatal (some e) failures = after_failure failures
after_fatal none failures = (none, 0)

abbrev pub after_beat : Beat → Option Text → ℕ → Option ℕ × ℕ
after_beat alive re failures = (some heartbeat_interval, 0)
after_beat (fatal e) re failures = after_fatal re failures
after_beat (failing e) re failures = after_failure failures

-- One round of the loop in `run`.
unfoldable pub round : Round → ℕ → Option ℕ × ℕ
round t failures = after_beat t.beat t.re_enrolled failures

-- The pauses that `run` makes in a series of rounds, until its context is done.
unfoldable pub run : List Round → ℕ → List (Option ℕ)
unfolding round
run [] failures = []
run (t ∷ ts) failures = (round t failures).0 ∷ run ts (round t failures).1

-- What `Start` does; `registered` says whether the marker file is there.
pub data Started : Type 0 where
  no_url : Started
  not_registered : Started
  running : Started

-- Start
unfoldable pub start : Bool → Config → Started
start registered cfg =
    if is_empty cfg.runner.docked_url
    then no_url
    else if not registered
    then not_registered
    else running
