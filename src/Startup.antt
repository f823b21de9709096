-- ===== src/Startup.antt =====
-- cmd/runner/main.go: the connection to Docker, at the start and in the retry loop, and the reload that the
-- watcher of the configuration file calls for.
pub mod Lifecycle
use dockhand.Prelude.{
  ℕ, ◌+◌, ◌≡◌, refl, Bool, true, false, not, Option, List, [], ◌∷◌, ◌++◌, if◌then◌else◌, any_of,
  length, arith, Text, Result, ok, err,
}
use dockhand.Config.{Config}
use dockhand.Operations.Runner.{Runner}
use dockhand.Operations.Runner.Versions.{reload, reload_apps}
use dockhand.Api.System.{reload_handler}

-- An attempt to connect: docker.New fails, Ping fails, or both succeed.
pub data Attempt : Type 0 where
  init_failed : Attempt
  ping_failed : Attempt
  connected : Attempt

abbrev pub is_connected : Attempt → Bool
is_connected init_failed = false
is_connected ping_failed = false
is_connected connected = true

abbrev pub is_ping_failed : Attempt → Bool
is_ping_failed init_failed = false
is_ping_failed ping_failed = true
is_ping_failed connected = false

-- Whether there is a client, how many attempts the loop made, and how many clients were opened and closed.
pub record Connection : Type 0 where
  pub available : Bool
  pub attempts : ℕ
  pub opened : ℕ
  pub closed : ℕ

abbrev pub no_client : Connection
no_client = record { available = false; attempts = 0; opened = 0; closed = 0 }

abbrev failed_init : Connection → Connection
failed_init c = record c { attempts = c.attempts + 1 }

abbrev failed_ping : Connection → Connection
failed_ping c = record c { attempts = c.attempts + 1; opened = c.opened + 1; closed = c.closed + 1 }

-- dockerRetryLoop, with its attempts until the context is cancelled
unfoldable pub docker_retry_loop : List Attempt → Connection
docker_retry_loop [] = no_client
docker_retry_loop (init_failed ∷ rest) = failed_init (docker_retry_loop rest)
docker_retry_loop (ping_failed ∷ rest) = failed_ping (docker_retry_loop rest)
docker_retry_loop (connected ∷ rest) = record {
  available = true;
  attempts = 1;
  opened = 1;
  closed = 0;
}

-- The first attempt: a client whose ping fails is dropped, and not closed.
abbrev with_first : Attempt → Connection → Connection
with_first init_failed c = c
with_first ping_failed c = record c { opened = c.opened + 1 }
with_first connected c = record { available = true; attempts = 0; opened = 1; closed = 0 }

-- The client of main: the first attempt, and the loop where it is needed
unfoldable pub connect : Bool → Attempt → List Attempt → Connection
unfolding docker_retry_loop
connect enabled first later =
    if not enabled then no_client else with_first first (docker_retry_loop later)

abbrev pub reloaded : Config → Runner → Runner
reloaded cfg r = reload_apps cfg.apps (reload cfg.operations r)

-- The call back of config.Watch, with what config.Load returns
unfoldable pub on_change : Result (Config × Option Text) → Runner → Runner
unfolding reload reload_apps
on_change (err e) r = r
on_change (ok (cfg, key)) r = reloaded cfg r

-- A reload by the watcher leaves the runner as one by POST /reload does.
on_change_same :
    (loaded : Result (Config × Option Text)) (r : Runner)
    → on_change loaded r ≡ (reload_handler loaded r).0
unfolding on_change reload_handler
on_change_same (err e) r = refl
on_change_same (ok (cfg, key)) r = refl

-- The attempts that fail at first.
abbrev pub failing : List Attempt → Bool
failing before = not (any_of is_connected before)

docker_retry_loop_eventually :
    (before later : List Attempt)
    → failing before ≡ true
    → let c = docker_retry_loop (before ++ connected ∷ later) in
      (c.available ≡ true) × (c.attempts ≡ length before + 1) × (c.opened ≡ c.closed + 1)
unfolding docker_retry_loop
docker_retry_loop_eventually [] later h = (refl, refl, refl)
docker_retry_loop_eventually (init_failed ∷ before) later h =
    let (there, made, open_one) = docker_retry_loop_eventually before later h in
    (there, omega arith, open_one)
docker_retry_loop_eventually (ping_failed ∷ before) later h =
    let (there, made, open_one) = docker_retry_loop_eventually before later h in
    (there, omega arith, omega arith)
docker_retry_loop_eventually (connected ∷ before) later h = absurd (ground arith)

-- Where Docker is enabled, fails at first and then for some attempts of the loop, and the next attempt
-- succeeds, the client is available; the loop made this attempt as its last one, and all clients that
-- were opened are closed but the one in use and, if it was the ping that failed at first, the first one.
pub connect_eventually :
    (first : Attempt) (before later : List Attempt)
    → is_connected first ≡ false
    → failing before ≡ true
    → let c = connect true first (before ++ connected ∷ later) in
      (c.available ≡ true)
      × (c.attempts ≡ length before + 1)
      × (c.opened ≡ c.closed + 1 + (if is_ping_failed first then 1 else 0))
unfolding connect
connect_eventually init_failed before later f h =
    let (there, made, open_one) = docker_retry_loop_eventually before later h in
    (there, made, omega arith)
connect_eventually ping_failed before later f h =
    let (there, made, open_one) = docker_retry_loop_eventually before later h in
    (there, made, omega arith)
connect_eventually connected before later f h = cc
