-- ===== src/Tests/Network.antt =====
-- The calls to the server at concrete inputs: internal/enrollment and internal/heartbeat.
use dockhand.Prelude.{
  ℕ, suc, ◌≡◌, ◌↔◌, refl, true, false, [], ◌∷◌, none, codes, err, All, pos, ◌≤◌, inr, some, ok,
}
use dockhand.Config.{Config}
use dockhand.Enrollment.{
  Net, Response, RegisterRequest, Attempt, accepted, failed, try_from, initial_retry_delay,
  build_runner_url,
}
use dockhand.Heartbeat.Servers.{Answers, Denies, rounds_of, run_denied}
use dockhand.Enrollment.Restarts.{Start, registrations, registrations-le}
use dockhand.Enrollment.Retries.{Succeeds, try_from-Succeeds}
use dockhand.Heartbeat.{HeartbeatResponse, run}

-- The second attempt is accepted.
abbrev answer : ℕ → Attempt
answer n = elim n [ suc (suc m) ↦ accepted | _ ↦ failed (codes "timeout") ]

try_from-Succeeds_example :
    ((try_from answer 5 1 initial_retry_delay).registered ≡ true) ↔ Succeeds answer 5 1
try_from-Succeeds_example = try_from-Succeeds answer 5 1 initial_retry_delay

abbrev request : RegisterRequest
request = record {
  token = codes "t";
  name = codes "n";
  url = codes "http://h";
  api_key = codes "k";
}

abbrev pub cfg : Config
cfg = record {
  server = record { port = pos 7777; api_key = codes "k"; tls = false };
  runner = record {
    name = codes "n";
    url = codes "http://h";
    docked_url = codes "http://d";
    enrollment_token = [];
  };
  docker = record { enabled = true; socket = []; compose_binary = [] };
  operations = [];
  apps = [];
}

abbrev net : Net
net = record { parse_url = λ u. err (codes "bad"); dial_udp = λ a. err (codes "bad") }

abbrev denied : Response HeartbeatResponse
denied = record { status = 401; body = err (codes "invalid character") }

abbrev denying : Answers
denying = record {
  docker_ok = true;
  beats = λ endpoint q. ok (record { status = 401; body = err (codes "invalid character") });
  re_enrolls =
      λ endpoint q. ok (record { status = 200; body = ok (record { success = true; error = [] }) });
}

denying-Denies : Denies denying
denying-Denies = record { denied = λ endpoint q. (_, refl); accepted = λ endpoint q. (_, refl) }

run_denied_example :
    All (λ p. p ≡ none) (run (rounds_of net cfg (codes "1.0") (denying ∷ denying ∷ [])) 0)
unfolding build_runner_url
run_denied_example =
    run_denied net cfg (codes "1.0") (codes "http://h") refl refl (denying ∷ denying ∷ []) 0
      (denying-Denies, (denying-Denies, tt))

abbrev start : Start
start = record {
  config = cfg;
  net = net;
  post = λ attempt endpoint request.
      ok (record { status = 201; body = ok (record { success = true; message = []; error = [] }) });
  marker_fault = some (codes "read-only file system");
  clear_fault = none;
}

registrations-le_example :
    registrations (record { marked = false; token = codes "t" }) (start ∷ start ∷ []) ≤ 1
registrations-le_example =
    registrations-le (record { marked = false; token = codes "t" }) (start ∷ start ∷ [])
      (inr refl, (inr refl, tt))
