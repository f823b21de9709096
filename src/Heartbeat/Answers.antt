-- ===== src/Heartbeat/Answers.antt =====
-- How `sendHeartbeat` of internal/heartbeat/heartbeat.go reads the server's answers.
use dockhand.Prelude.{ℕ, ◌≡◌, ◌↔◌, Bool, true, false, arith, Text, ◌++◌, codes, Result, ok, err}
use dockhand.Config.{Config}
use dockhand.Enrollment.{Net, Response, build_runner_url}
use dockhand.Heartbeat.{
  HeartbeatRequest, HeartbeatResponse, alive, is_fatal, judge_beat, send_heartbeat,
}

-- The body decodes to an answer that says success.
abbrev pub says_success : Result HeartbeatResponse → Bool
says_success (err e) = false
says_success (ok a) = a.success

judge_beat_lem :
    (endpoint : Text) (status : ℕ) (body : Result HeartbeatResponse)
    → let b = judge_beat endpoint (ok (record { status = status; body = body })) in
      ((is_fatal b ≡ true) ↔ (status ≡ 401))
      × ((b ≡ alive) ↔ ((status ≡ 200) × (says_success body ≡ true)))
judge_beat_lem endpoint status (err e) =
    ((λ h. ground arith, λ h. ground arith), (λ h. ground arith, λ h. ground arith))
judge_beat_lem endpoint status (ok a) =
    ((λ h. ground arith, λ h. ground arith), (λ h. ground arith, λ h. ground arith))

-- Where the runner's URL is known and the POST goes through, a heartbeat is fatal exactly if the status
-- is 401, whatever the body is, and it succeeds exactly if the status is 200 and the body decodes to
-- an answer that says success.
send_heartbeat_answers :
    (post : Text → HeartbeatRequest → Result (Response HeartbeatResponse)) (net : Net)
    (cfg : Config) (version url : Text) (docker_ok : Bool) (r : Response HeartbeatResponse)
    → build_runner_url net cfg ≡ ok url
    → ((q : HeartbeatRequest)
        → post (cfg.runner.docked_url ++ codes "/api/runners/heartbeat") q ≡ ok r)
    → let b = send_heartbeat post net cfg version docker_ok in
      ((is_fatal b ≡ true) ↔ (r.status ≡ 401))
      × ((b ≡ alive) ↔ ((r.status ≡ 200) × (says_success r.body ≡ true)))
unfolding send_heartbeat
send_heartbeat_answers post net cfg version url docker_ok r e h =
    rw (e, h _)
      (judge_beat_lem (cfg.runner.docked_url ++ codes "/api/runners/heartbeat") r.status r.body)
