-- ===== src/Api/Operations/Apps.antt =====
-- internal/api/handlers/operations.go: the handlers of apps.
use dockhand.Prelude.{
  ℕ, Bool, Option, none, some, List, [], ◌∷◌, ◌++◌, ◌==◌, if◌then◌else◌, Text, codes, Map, lookup,
  ℤ, pos, sort_by,
}
use dockhand.Config.{App, AppOperation}
use dockhand.Sse.{send, line, error, done}
use dockhand.Operations.History.{HistoryRecord, Sql}
use dockhand.Operations.SysUpdate.{SystemUpdateInfo}
use dockhand.Operations.Slots.{app_key}
use dockhand.Operations.Runner.{Runner, World, run_app}
use dockhand.Operations.Runner.Versions.{current_app_version, latest_app_version}
use dockhand.Operations.Runner.Updates
use dockhand.Operations.Runner.Queries.{
  last_app_run, app_history, all_app_history, apps, is_app_active, system_update_info, cancel_app,
}
use dockhand.Api.{
  Response, json, failed, Reply, refused, limit_param, history_response, cancel_response,
}
use dockhand.Api.Operations.{VersionSourceInfo, source_info, answer_run, unknown_operation}

-- AppOperationSummary
pub record AppOperationSummary : Type 0 where
  pub name : Text
  pub label : Text
  pub command : Text
  pub persistent : Bool
  pub active : Bool
  pub last_run : Option HistoryRecord

-- AppSummary
pub record AppSummary : Type 0 where
  pub name : Text
  pub description : Text
  pub current_version : Text
  pub latest_version : Text
  pub version_source : Option VersionSourceInfo
  pub system_updates_available : Bool
  pub system_update_count : ℤ
  pub system_update_last_checked : Option ℕ
  pub system_update_error : Text
  pub operations : List AppOperationSummary

-- The zero time is left out.
abbrev last_checked : Option SystemUpdateInfo → Option ℕ
last_checked none = none
last_checked (some i) = if i.last_checked == 0 then none else some i.last_checked

abbrev check_error : Option SystemUpdateInfo → Text
check_error none = []
check_error (some i) = i.last_error

abbrev unknown_app : Text → Text
unknown_app name = codes "unknown app: " ++ name

-- The tests on the names of a request: the message of the 404, if one of them is not known.
abbrev unknown_name : Text → Text → Runner → Option Text
unknown_name app op r = elim (lookup app (apps r)) [
  | none ↦ some (unknown_app app)
  | some a ↦ elim (lookup op a.operations) [ none ↦ some (unknown_operation op) | some o ↦ none ]
]

module _ (sql : Sql) where
  -- `now` is the time, and `fault key` a database error when the last run of `key` is looked up.
  abbrev op_summary :
      (Text → Option Text) → Runner → Text → Text → AppOperation → AppOperationSummary
  op_summary fault r app name op = record {
    name = name;
    label = op.label;
    command = op.command;
    persistent = op.persistent;
    active = is_app_active app name r;
    last_run = last_app_run sql (fault (app_key app name)) app name r;
  }

  abbrev op_summaries :
      (Text → Option Text) → Runner → Text → Map AppOperation → List AppOperationSummary
  op_summaries fault r app [] = []
  op_summaries fault r app ((name, op) ∷ ops) =
      op_summary fault r app name op ∷ op_summaries fault r app ops

  abbrev app_summary : ℕ → (Text → Option Text) → Runner → Text → App → AppSummary
  app_summary now fault r name app = record {
    name = name;
    description = app.description;
    current_version = current_app_version now name r;
    latest_version = latest_app_version now name r;
    version_source = source_info app.version_source;
    system_updates_available = Updates.system_updates_available now name r;
    system_update_count = Updates.system_update_count now name r;
    system_update_last_checked = last_checked (system_update_info name r);
    system_update_error = check_error (system_update_info name r);
    operations =
        sort_by (λ (o : AppOperationSummary). o.name) (op_summaries fault r name app.operations);
  }

  abbrev pub app_summaries : ℕ → (Text → Option Text) → Runner → Map App → List AppSummary
  app_summaries now fault r [] = []
  app_summaries now fault r ((name, app) ∷ apps) =
      app_summary now fault r name app ∷ app_summaries now fault r apps

  -- List
  unfoldable pub list_apps : ℕ → (Text → Option Text) → Runner → Response (List AppSummary)
  unfolding sort_by is_app_active last_app_run
  list_apps now fault r =
      json (sort_by (λ (a : AppSummary). a.name) (app_summaries now fault r (apps r)))

  -- RunApp, with the state of the runner after it; `order` is that of the writes of log events.
  unfoldable run_app_handler : World → List Bool → Text → Text → Runner → Runner × Reply
  unfolding run_app send line error done app_key
  run_app_handler w order app op r = elim (unknown_name app op r) [
    | some message ↦ (r, refused 404 message)
    | none ↦ answer_run sql order (app_key app op) (run_app sql w app op r)
  ]

  -- AppHistory
  unfoldable app_history_handler :
      Option Text → Text → Text → Text → Runner → Response (List HistoryRecord)
  unfolding app_history limit_param
  app_history_handler fault app op limit r = elim (unknown_name app op r) [
    | some message ↦ failed 404 message
    | none ↦ history_response (app_history sql fault app op (pos (limit_param 20 limit)) r)
  ]

  -- AllAppHistory
  unfoldable all_app_history_handler : Option Text → Text → Runner → Response (List HistoryRecord)
  unfolding all_app_history limit_param
  all_app_history_handler fault limit r =
      history_response (all_app_history sql fault (pos (limit_param 100 limit)) r)

-- CancelApp, with the app and the operation that the response names
unfoldable cancel_app_handler : Text → Text → Runner → Response (Text × Text)
unfolding cancel_app
cancel_app_handler app op r = elim (unknown_name app op r) [
  | some message ↦ failed 404 message
  | none ↦ cancel_response (app, op) (cancel_app app op r)
]
