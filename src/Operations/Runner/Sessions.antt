-- ===== src/Operations/Runner/Sessions.antt =====
-- Sessions of the runner of internal/operations/runner.go: runs of operations and of apps with what
-- follows them, the jobs of warm-ups, and reloads, one after the other in any order.
pub mod Kept
pub mod Made
pub mod Listed
pub mod Sound
pub mod Latest
use dockhand.Prelude.{ℕ, List, [], ◌∷◌, Text, Map, Result}
use dockhand.Config.{Operation, App}
use dockhand.Operations.History.{Sql}
use dockhand.Operations.Runner.{Runner, World}
use dockhand.Operations.Runner.Versions.{reload, reload_apps}
use dockhand.Operations.Runner.Updates.{Checks}
use dockhand.Operations.Runner.Followups.{operate, operate_app}
use dockhand.Operations.Runner.Warming.{Job, run_job}

-- What the outside does during an action, and what is called.
pub data Action : Type 0 where
  run_operation : World → ℕ → (Text → Text → Result Text) → Text → Action
  run_app_operation : World → ℕ → (Text → Text → Result Text) → Checks → Text → Text → Action
  job : ℕ → (Text → Text → Result Text) → Checks → Job → Action
  new_operations : Map Operation → Action
  new_apps : Map App → Action

unfoldable pub act : Sql → Action → Runner → Runner
unfolding operate operate_app run_job reload reload_apps
act sql (run_operation w now shell name) r = (operate sql w now shell name r).0
act sql (run_app_operation w now shell c app name) r = (operate_app sql w now shell c app name r).0
act sql (job now shell c j) r = (run_job now shell c j r).0
act sql (new_operations ops) r = reload ops r
act sql (new_apps apps) r = reload_apps apps r

unfoldable pub session : Sql → List Action → Runner → Runner
unfolding act
session sql [] r = r
session sql (a ∷ rest) r = session sql rest (act sql a r)
