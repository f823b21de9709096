-- ===== src/Operations/Runner/Versions.antt =====
-- internal/operations/runner.go: the versions of operations and apps, their cache, and reloads. What a
-- shell line prints when it runs in a directory is the argument `shell`; a call that rewrites the
-- configuration file comes back as a `Write`, whose error the runner only logs.
pub mod Stored
use dockhand.Prelude.{
  ℕ, Bool, true, false, not, ◌&&◌, Option, none, some, List, [], ◌∷◌, ◌++◌, if◌then◌else◌, or_zero,
  Text, codes, text_eq, is_empty, trim_space, Map, lookup, insert, Result, ok, err, pos,
}
use dockhand.Config.{Operation, App, AppOperation, VersionSource}
use dockhand.Operations.VersionCache.{set, get}
use dockhand.Operations.Output.{last_non_empty_line}
use dockhand.Operations.Runner.{Runner}

-- config.UpdateOperationVersion, config.UpdateAppVersion
pub data Write : Type 0 where
  operation_version : Text → Text → Write
  app_version : Text → Text → Write

abbrev pub zero_operation : Operation
zero_operation = record {
  command = [];
  description = [];
  timeout = pos 0;
  working_dir = [];
  persistent = false;
  current_version = [];
  version_command = [];
  version_source = none;
}

abbrev pub zero_app : App
zero_app = record {
  description = [];
  current_version = [];
  version_command = [];
  version_source = none;
  system_update_check = [];
  system_updates = none;
  package_manager = [];
  operations = [];
}

-- CurrentVersion
unfoldable pub current_version : ℕ → Text → Runner → Text
current_version now name r = elim (get now name r.version_cache) [
  | some v ↦ v
  | none ↦ (or_zero zero_operation (lookup name r.ops)).current_version
]

-- CurrentAppVersion
unfoldable pub current_app_version : ℕ → Text → Runner → Text
current_app_version now name r = elim (get now name r.version_cache) [
  | some v ↦ v
  | none ↦ (or_zero zero_app (lookup name r.apps)).current_version
]

abbrev latest_key : Text → Text
latest_key name = codes "__latest:" ++ name

-- LatestVersion
unfoldable pub latest_version : ℕ → Text → Runner → Text
latest_version now name r = or_zero [] (get now (latest_key name) r.version_cache)

-- LatestAppVersion
unfoldable pub latest_app_version : ℕ → Text → Runner → Text
latest_app_version now name r = or_zero [] (get now (latest_key name) r.version_cache)

-- The last line of what a command printed.
abbrev version_of : Result Text → Result Text
version_of (err e) = err e
version_of (ok out) = ok (last_non_empty_line (trim_space out))

module _ (shell : Text → Text → Result Text) where
  -- runVersionCommand; the directory "" is the runner's own.
  unfoldable pub run_version_command : Operation → Result Text
  run_version_command op = version_of (shell op.version_command op.working_dir)

  -- The first working directory that is neither empty nor the root.
  abbrev first_dir : Map AppOperation → Text
  first_dir [] = []
  first_dir ((name, op) ∷ ops) =
      let rest = first_dir ops in
      if not (is_empty op.working_dir) && not (text_eq op.working_dir (codes "/"))
      then op.working_dir
      else rest

  -- runVersionCommandStr
  unfoldable pub run_version_command_str : Text → Map AppOperation → Result Text
  run_version_command_str command ops = version_of (shell command (first_dir ops))

  -- runVersionSourceCommand
  unfoldable pub run_version_source_command : Text → Text → Result Text
  run_version_source_command command dir = version_of (shell command dir)

-- What `warmVersionCache` and the end of `Run` do with a version that was found: cache it, write it to
-- the configuration file, and set it in the map.
unfoldable pub store_version : ℕ → Text → Text → Runner → Runner × List Write
store_version now name v r = (
  record r {
    version_cache = set now name v r.version_cache;
    ops =
        insert name (record (or_zero zero_operation (lookup name r.ops)) { current_version = v })
          r.ops;
  },
  operation_version name v ∷ [],
)

unfoldable pub store_app_version : ℕ → Text → Text → Runner → Runner × List Write
store_app_version now name v r = (
  record r {
    version_cache = set now name v r.version_cache;
    apps =
        insert name (record (or_zero zero_app (lookup name r.apps)) { current_version = v }) r.apps;
  },
  app_version name v ∷ [],
)

-- A version that is an error or empty is dropped.
abbrev pub keep_version :
    Result Text → (Text → Runner → Runner × List Write) → Runner → Runner × List Write
keep_version (err e) store r = (r, [])
keep_version (ok v) store r = if is_empty v then (r, []) else store v r

abbrev pub cache_latest : ℕ → Text → Text → Runner → Runner × List Write
cache_latest now name v r =
    (record r { version_cache = set now (latest_key name) v r.version_cache }, [])

-- The goroutine at the end of `Run`, started where the exit code is 0 and a command is configured.
unfoldable pub detect_version :
    ℕ → (Text → Text → Result Text) → Text → Operation → Runner → Runner × List Write
unfolding store_version run_version_command
detect_version now shell name op r =
    keep_version (run_version_command shell op) (store_version now name) r

-- Reload
unfoldable pub reload : Map Operation → Runner → Runner
reload ops r = record r { ops = ops }

-- ReloadApps
unfoldable pub reload_apps : Map App → Runner → Runner
reload_apps apps r = record r { apps = apps }
