-- ===== src/Api/System.antt =====
-- internal/api/handlers/system.go: Restart, Uninstall and Reload. What is done after the response, half a
-- second later, is a list of actions; errors of the commands are only logged.
use dockhand.Prelude.{
  ℕ, Bool, Option, List, [], ◌∷◌, ◌++◌, if◌then◌else◌, length, Text, codes, Result, ok, err,
}
use dockhand.Config.{Config}
use dockhand.Operations.Runner.{Runner}
use dockhand.Operations.Runner.Versions.{reload, reload_apps}
use dockhand.Api.{Response, json, failed}

pub data Action : Type 0 where
  close_db : Action
  command : List Text → Action
  terminate : Action

-- Restart: the message, and what follows
unfoldable pub restart : Response Text × List Action
restart = (
  json (codes "Restarting dockhand..."),
  command (codes "systemctl" ∷ codes "restart" ∷ codes "dockhand" ∷ []) ∷ [],
)

abbrev cleanup : List Action
cleanup =
    command (codes "systemctl" ∷ codes "disable" ∷ codes "dockhand" ∷ [])
    ∷ command (codes "rm" ∷ codes "-f" ∷ codes "/usr/local/bin/dockhand" ∷ [])
    ∷ command (codes "rm" ∷ codes "-rf" ∷ codes "/etc/dockhand" ∷ [])
    ∷ command (codes "rm" ∷ codes "-rf" ∷ codes "/var/lib/dockhand" ∷ [])
    ∷ command (codes "rm" ∷ codes "-f" ∷ codes "/etc/systemd/system/dockhand.service" ∷ [])
    ∷ command (codes "systemctl" ∷ codes "daemon-reload" ∷ [])
    ∷ []

-- Uninstall; the argument tells whether there is a history database.
unfoldable pub uninstall : Bool → Response Text × List Action
uninstall has_db = (
  json (codes "Uninstalling dockhand..."),
  (if has_db then close_db ∷ [] else []) ++ (cleanup ++ terminate ∷ []),
)

-- Reload, with what config.Load returns; the answer has the numbers of operations and apps.
unfoldable pub reload_handler : Result (Config × Option Text) → Runner → Runner × Response (ℕ × ℕ)
unfolding reload reload_apps
reload_handler (err e) r = (r, failed 500 (codes "config reload failed: " ++ e))
reload_handler (ok (cfg, key)) r =
    (reload_apps cfg.apps (reload cfg.operations r), json (length cfg.operations, length cfg.apps))
