-- ===== src/Api/Operations.antt =====
-- internal/api/handlers/operations.go: the handlers of operations.
pub mod Streams
pub mod Apps
pub mod Listing
use dockhand.Prelude.{
  ℕ, Bool, Option, none, some, List, [], ◌∷◌, ◌++◌, Text, codes, Map, lookup, Result, ok, err, ℤ,
  pos,
}
use dockhand.Config.{Operation, VersionSource}
use dockhand.Sse.{send, line, error, done}
use dockhand.Sse.Progress.{Piece, outputs, piece_text}
use dockhand.Operations.History.{HistoryRecord, Sql}
use dockhand.Operations.Slots.{is_active}
use dockhand.Operations.Runner.{Runner, World, RunResult, Call, run}
use dockhand.Operations.Runner.Versions
use dockhand.Operations.Runner.Queries
use dockhand.Operations.Runner.Queries.{last_run, history, global_history, operations, cancel_op}
use dockhand.Api.{
  Response, json, failed, Reply, streamed, refused, limit_param, history_response, cancel_response,
}

-- VersionSourceInfo
pub record VersionSourceInfo : Type 0 where
  pub type : Text
  pub repo : Text

abbrev pub source_info : Option VersionSource → Option VersionSourceInfo
source_info none = none
source_info (some s) = some (record { type = s.type; repo = s.repo })

-- OperationSummary
pub record OperationSummary : Type 0 where
  pub name : Text
  pub description : Text
  pub command : Text
  pub persistent : Bool
  pub active : Bool
  pub last_run : Option HistoryRecord
  pub current_version : Text
  pub latest_version : Text
  pub version_source : Option VersionSourceInfo

-- The end of a stream.
abbrev pub stream_end : Result RunResult → Text
stream_end (err e) = error e ++ done (pos 1)
stream_end (ok x) = done x.exit_code

-- The start, the lines of the two outputs in the order of their writes, and the end
abbrev pub stream_of : Text → Piece → Result RunResult → Text
stream_of name lines result = send (codes "start") name ++ (piece_text lines ++ stream_end result)

abbrev pub unknown_operation : Text → Text
unknown_operation name = codes "unknown operation: " ++ name

module _ (sql : Sql) where
  -- `now` is the time, and `fault name` a database error when the last run of `name` is looked up.
  abbrev summary : ℕ → (Text → Option Text) → Runner → Text → Operation → OperationSummary
  summary now fault r name op = record {
    name = name;
    description = op.description;
    command = op.command;
    persistent = op.persistent;
    active = is_active name r.slots;
    last_run = Queries.last_run sql (fault name) name r;
    current_version = Versions.current_version now name r;
    latest_version = Versions.latest_version now name r;
    version_source = source_info op.version_source;
  }

  abbrev pub summaries : ℕ → (Text → Option Text) → Runner → Map Operation → List OperationSummary
  summaries now fault r [] = []
  summaries now fault r ((name, op) ∷ ops) = summary now fault r name op ∷ summaries now fault r ops

  -- List
  unfoldable pub list : ℕ → (Text → Option Text) → Runner → Response (List OperationSummary)
  unfolding is_active Queries.last_run Versions.current_version Versions.latest_version
  list now fault r = json (summaries now fault r (operations r))

  abbrev pub answer_run : List Bool → Text → Call Runner → Runner × Reply
  answer_run order key c =
      (c.state, streamed (stream_of key (outputs order c.outputs.0 c.outputs.1) c.result))

  -- Run, with the state of the runner after it; `order` is that of the writes of log events.
  unfoldable pub run_handler : World → List Bool → Text → Runner → Runner × Reply
  unfolding run send line error done
  run_handler w order name r = elim (lookup name (operations r)) [
    | none ↦ (r, refused 404 (unknown_operation name))
    | some op ↦ answer_run order name (run sql w name r)
  ]

  -- AllHistory; `limit` is the query parameter.
  unfoldable all_history_handler : Option Text → Text → Runner → Response (List HistoryRecord)
  unfolding global_history limit_param
  all_history_handler fault limit r =
      history_response (global_history sql fault (pos (limit_param 50 limit)) r)

  -- History
  unfoldable history_handler : Option Text → Text → Text → Runner → Response (List HistoryRecord)
  unfolding history limit_param
  history_handler fault name limit r = elim (lookup name (operations r)) [
    | none ↦ failed 404 (unknown_operation name)
    | some op ↦ history_response (history sql fault name (pos (limit_param 20 limit)) r)
  ]

-- Cancel, with the operation that the response names; `cancel_op` has the context that is cancelled.
unfoldable cancel_handler : Text → Runner → Response Text
unfolding cancel_op
cancel_handler name r = elim (lookup name (operations r)) [
  | none ↦ failed 404 (unknown_operation name)
  | some op ↦ cancel_response name (cancel_op name r)
]
