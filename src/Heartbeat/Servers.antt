-- ===== src/Heartbeat/Servers.antt =====
-- The loop of internal/heartbeat/heartbeat.go with the calls that it makes: the heartbeat, and ReEnroll of
-- internal/enrollment/enrollment.go.
use dockhand.Prelude.{
  ℕ, ◌≡◌, refl, Bool, true, false, none, some, List, [], ◌∷◌, All, Text, is_empty, Result, ok, ◌++◌,
  codes, if◌then◌else◌,
}
use dockhand.Config.{Config}
use dockhand.Enrollment.{Net, Response, build_runner_url}
use dockhand.Enrollment.ReEnrolling.{ReEnrollRequest, ReEnrollResponse, re_enroll}
use dockhand.Heartbeat.{HeartbeatRequest, HeartbeatResponse, send_heartbeat, Round, run}
use dockhand.Heartbeat.Rounds.{Recovers, run-Recovers}

-- What the server answers in one round, and whether Docker is there.
pub record Answers : Type 0 where
  pub docker_ok : Bool
  pub beats : Text → HeartbeatRequest → Result (Response HeartbeatResponse)
  pub re_enrolls : Text → ReEnrollRequest → Result (Response ReEnrollResponse)

module _ (net : Net) (cfg : Config) (version : Text) where
  -- The calls of one round in `run`
  unfoldable pub round_of : Answers → Round
  unfolding send_heartbeat re_enroll
  round_of a = record {
    beat = send_heartbeat a.beats net cfg version a.docker_ok;
    re_enrolled = re_enroll net a.re_enrolls cfg;
  }

  abbrev pub rounds_of : List Answers → List Round
  rounds_of [] = []
  rounds_of (a ∷ rounds) = round_of a ∷ rounds_of rounds

-- Every heartbeat is answered by 401, and every re-enrollment by 200 and a success.
pub record Denies (a : Answers) : Type 0 where
  pub denied :
      (endpoint : Text) (q : HeartbeatRequest)
      → (body : Result HeartbeatResponse) × (a.beats endpoint q
          ≡ ok (record { status = 401; body = body }))
  pub accepted :
      (endpoint : Text) (q : ReEnrollRequest)
      → (e : Text) × (a.re_enrolls endpoint q
          ≡ ok (record { status = 200; body = ok (record { success = true; error = e }) }))

module _ (net : Net) (cfg : Config) (version url : Text) (built : build_runner_url net cfg ≡ ok url)
    (named : is_empty cfg.runner.docked_url ≡ false) where
  round_of-Recovers : (a : Answers) → Denies a → Recovers (round_of net cfg version a)
  unfolding round_of send_heartbeat re_enroll
  round_of-Recovers a d =
      let (body, answered) =
        d.denied (cfg.runner.docked_url ++ codes "/api/runners/heartbeat") (record {
          api_key = cfg.server.api_key;
          url = url;
          version = version;
          name = cfg.runner.name;
          docker_ok = a.docker_ok;
        }) in
      let (e, enrolled) =
        d.accepted (cfg.runner.docked_url ++ codes "/api/runners/re-enroll") (record {
          name = cfg.runner.name;
          url = url;
          api_key = cfg.server.api_key;
          bearer = if is_empty cfg.server.api_key then none else some cfg.server.api_key;
        }) in
      (rw (send_heartbeat, built, answered) refl, rw (re_enroll, named, built, enrolled) refl)

  rounds_of-Recovers :
      (rounds : List Answers) → All Denies rounds → All Recovers (rounds_of net cfg version rounds)
  rounds_of-Recovers [] d = tt
  rounds_of-Recovers (a ∷ rounds) d = (round_of-Recovers a d.0, rounds_of-Recovers rounds d.1)

  -- As long rounds the server answers 401 to every heartbeat and accepts every re-enrollment, the loop makes no
  -- pause at all; the runner's address can be determined.
  pub run_denied :
      (rounds : List Answers) (n : ℕ)
      → All Denies rounds
      → All (λ p. p ≡ none) (run (rounds_of net cfg version rounds) n)
  run_denied rounds n d =
      run-Recovers (rounds_of net cfg version rounds) n (rounds_of-Recovers rounds d)
