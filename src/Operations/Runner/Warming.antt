-- ===== src/Operations/Runner/Warming.antt =====
-- internal/operations/runner.go: warmVersionCache, which looks all versions up. Its goroutines run in any
-- order: a warm-up is a list of jobs, each of them taken as one step. backgroundRefresh repeats it.
pub mod Changes
pub mod Sources
use dockhand.Prelude.{
  ℕ, Bool, true, false, not, ◌&&◌, ◌||◌, Option, none, some, List, [], ◌∷◌, ◌++◌, if◌then◌else◌,
  Text, codes, text_eq, is_empty, Map, Result,
}
use dockhand.Config.{Operation, App, VersionSource}
use dockhand.Config.Intervals.{enabled}
use dockhand.Operations.Runner.{Runner}
use dockhand.Operations.Runner.Versions.{
  Write, keep_version, detect_version, run_version_command_str, run_version_source_command,
  store_app_version, cache_latest,
}
use dockhand.Operations.Runner.Updates.{Checks, check_system_updates}

-- A goroutine of warmVersionCache
pub data Job : Type 0 where
  detect : Text → Operation → Job
  latest : Text → VersionSource → Text → Job
  detect_app : Text → App → Job
  check_app : Text → App → Job

-- The tests in front of a job
abbrev pub when : Bool → Job → List Job
when b j = if b then j ∷ [] else []

abbrev pub has_command : VersionSource → Bool
has_command s = text_eq s.type (codes "command") && not (is_empty s.command)

abbrev pub latest_job : Text → Option VersionSource → Text → List Job
latest_job name none dir = []
latest_job name (some s) dir = when (has_command s) (latest name s dir)

abbrev pub op_jobs : Map Operation → List Job
op_jobs [] = []
op_jobs ((name, op) ∷ ops) =
    when (not (is_empty op.version_command)) (detect name op) ++ op_jobs ops

abbrev pub op_source_jobs : Map Operation → List Job
op_source_jobs [] = []
op_source_jobs ((name, op) ∷ ops) =
    latest_job name op.version_source op.working_dir ++ op_source_jobs ops

abbrev pub app_jobs : Map App → List Job
app_jobs [] = []
app_jobs ((name, app) ∷ apps) =
    when (not (is_empty app.version_command)) (detect_app name app)
    ++ (latest_job name app.version_source []
        ++ (when (enabled app.system_updates || not (is_empty app.system_update_check))
              (check_app name app)
            ++ app_jobs apps))

-- The jobs of a warm-up, from the snapshots of the two maps
unfoldable pub jobs_of : Runner → List Job
unfolding text_eq enabled
jobs_of r = op_jobs r.ops ++ (op_source_jobs r.ops ++ app_jobs r.apps)

module _ (now : ℕ) (shell : Text → Text → Result Text) (c : Checks) where
  unfoldable pub run_job : Job → Runner → Runner × List Write
  unfolding detect_version run_version_command_str run_version_source_command store_app_version
      check_system_updates
  run_job (detect name op) r = detect_version now shell name op r
  run_job (latest name s dir) r =
      keep_version (run_version_source_command shell s.command dir) (cache_latest now name) r
  run_job (detect_app name app) r =
      keep_version (run_version_command_str shell app.version_command app.operations)
        (store_app_version now name) r
  run_job (check_app name app) r = (check_system_updates c name app false r, [])

  -- The jobs in the order in which they happen.
  unfoldable pub warm : List Job → Runner → Runner × List Write
  unfolding run_job
  warm [] r = (r, [])
  warm (j ∷ js) r =
      let first = run_job j r in let rest = warm js first.0 in (rest.0, first.1 ++ rest.1)
