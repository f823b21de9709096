-- ===== src/Operations/Runner/Queries.antt =====
-- internal/operations/runner.go: what the API asks of the runner.
use dockhand.Prelude.{
  ℕ, Bool, Option, none, some, List, [], ◌∷◌, ◌++◌, Text, codes, quoted, Map, Result, ok, err, ℤ,
  pos,
}
use dockhand.Config.{Operation, App}
use dockhand.Operations.History.{
  HistoryRecord, Sql, list_history, list_all_history, list_all_app_history,
}
use dockhand.Operations.SysUpdate.{SystemUpdateInfo, info}
use dockhand.Operations.Slots.{is_active, cancel, app_key}
use dockhand.Operations.Runner.{Runner}

-- A nil pointer where the listing fails or is empty.
abbrev pub first_of : Result (List HistoryRecord) → Option HistoryRecord
first_of (err e) = none
first_of (ok []) = none
first_of (ok (h ∷ hs)) = some h

-- A database error is the argument `fault`.
module _ (sql : Sql) (fault : Option Text) where
  -- LastRun
  unfoldable pub last_run : Text → Runner → Option HistoryRecord
  unfolding list_history
  last_run name r = first_of (list_history sql fault name (pos 1) r.history)

  -- History
  unfoldable pub history : Text → ℤ → Runner → Result (List HistoryRecord)
  unfolding list_history
  history name limit r = list_history sql fault name limit r.history

  -- GlobalHistory
  unfoldable pub global_history : ℤ → Runner → Result (List HistoryRecord)
  unfolding list_all_history
  global_history limit r = list_all_history sql fault limit r.history

  -- LastAppRun
  unfoldable pub last_app_run : Text → Text → Runner → Option HistoryRecord
  unfolding list_history app_key
  last_app_run app op r = first_of (list_history sql fault (app_key app op) (pos 1) r.history)

  -- AppHistory
  unfoldable pub app_history : Text → Text → ℤ → Runner → Result (List HistoryRecord)
  unfolding list_history app_key
  app_history app op limit r = list_history sql fault (app_key app op) limit r.history

  -- AllAppHistory
  unfoldable pub all_app_history : ℤ → Runner → Result (List HistoryRecord)
  unfolding list_all_app_history
  all_app_history limit r = list_all_app_history sql fault limit r.history

-- Operations, Apps: a copy of the map
abbrev pub operations : Runner → Map Operation
operations r = r.ops

abbrev pub apps : Runner → Map App
apps r = r.apps

-- IsAppActive
unfoldable pub is_app_active : Text → Text → Runner → Bool
unfolding is_active app_key
is_app_active app op r = is_active (app_key app op) r.apps_slots

-- SystemUpdateInfo
abbrev pub system_update_info : Text → Runner → Option SystemUpdateInfo
system_update_info app r = info app r.sys_update

-- The context that a call cancels, or its error.
abbrev pub cancelled : Text → Option ℕ → Result ℕ
cancelled message none = err message
cancelled message (some context) = ok context

-- Cancel
unfoldable pub cancel_op : Text → Runner → Result ℕ
unfolding cancel
cancel_op name r =
    cancelled (codes "operation " ++ quoted name ++ codes " is not running") (cancel name r.slots)

-- CancelApp
unfoldable pub cancel_app : Text → Text → Runner → Result ℕ
unfolding cancel app_key
cancel_app app op r =
    cancelled
      (codes "operation " ++ quoted op ++ codes " on app " ++ quoted app ++ codes " is not running")
      (cancel (app_key app op) r.apps_slots)
