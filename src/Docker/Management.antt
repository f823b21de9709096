-- ===== src/Docker/Management.antt =====
-- internal/docker/management.go, internal/docker/logs.go and internal/docker/debug.go: the calls of the
-- engine that the API passes on. What the engine answers is the record `EngineApi`; answers that are
-- passed on as JSON are their text.
use dockhand.Prelude.{
  ℕ, Bool, false, Option, none, some, List, [], ◌∷◌, ◌++◌, if◌then◌else◌, Text, codes, is_empty,
  quoted, itoa, pos, Result, ok, err, scan_lines, max_scan_token_size,
}
use dockhand.Docker.Records.{Container, Image, Inspect, ImageInfo, CreateContainerResult}
use dockhand.Docker.Containers.{contains_text}
use dockhand.Docker.Pulling.{PullStream}

-- The text of a log, and the error that the scanner of its lines ends with, if there is one
pub record LogText : Type 0 where
  pub text : Text
  pub fault : Option Text

pub record EngineApi : Type 0 where
  pub containers : Result (List Container)
  pub images : Result (List Image)
  pub inspected : Text → Result Inspect
  pub inspect_json : Text → Result Text
  pub stop : Text → Option Text
  pub start : Text → Option Text
  pub remove : Text → Bool → Option Text
  pub parse_body : Text → Result Text
  pub create : Text → Text → Result CreateContainerResult
  pub pull : Text → Result PullStream
  pub remove_image : Text → Bool → Option Text
  pub logs : Text → Text → Bool → Result LogText
  pub info_json : Result Text
  pub usage_json : Result Text
  pub stats_json : Text → Result Text

-- fmt.Errorf with a prefix and %w
abbrev wrap {ℓ} : {A : Type ℓ} → Text → Result A → Result A
wrap message (ok x) = ok x
wrap message (err e) = err (message ++ e)

abbrev image_infos : List Image → List ImageInfo
image_infos [] = []
image_infos (i ∷ is) =
    record {
      id = i.id;
      repo_tags = i.repo_tags;
      repo_digests = i.repo_digests;
      size = i.size;
      created = i.created;
    }
    ∷ image_infos is

abbrev infos_of : Result (List Image) → Result (List ImageInfo)
infos_of (err e) = err e
infos_of (ok imgs) = ok (image_infos imgs)

-- The lines of a log, and the error
pub record LogLines : Type 0 where
  pub lines : List Text
  pub error : Option Text

abbrev streamed_lines : Result LogText → LogLines
streamed_lines (err e) = record { lines = []; error = some e }
streamed_lines (ok t) = record { lines = scan_lines max_scan_token_size t.text; error = t.fault }

-- The errors of a closed pipe are dropped.
abbrev reported : Option Text → Option Text
reported none = none
reported (some e) = if contains_text e (codes "closed pipe") then none else some e

abbrev collected : Text → Result LogText → LogLines
collected id (err e) = record {
  lines = [];
  error = some (codes "container logs " ++ (id ++ (codes ": " ++ e)));
}
collected id (ok t) = record {
  lines = scan_lines max_scan_token_size t.text;
  error = reported t.fault;
}

module _ (a : EngineApi) where
  -- FullInspect
  unfoldable pub full_inspect : Text → Result Text
  full_inspect id = wrap (codes "inspect " ++ (id ++ codes ": ")) (a.inspect_json id)

  abbrev created_from : Text → Result Text → Result CreateContainerResult
  created_from name (err e) = err (codes "parse container config: " ++ e)
  created_from name (ok config) =
      wrap (codes "create container " ++ (quoted name ++ codes ": ")) (a.create name config)

  -- CreateContainer
  unfoldable pub create_container : Text → Text → Result CreateContainerResult
  create_container name body = created_from name (a.parse_body body)

  -- ListImages
  unfoldable pub list_images : Result (List ImageInfo)
  list_images = infos_of a.images

  -- StreamLogs, until the log ends
  unfoldable pub stream_logs : Text → Text → Bool → LogLines
  unfolding scan_lines
  stream_logs id tail follow =
      streamed_lines (a.logs id (if is_empty tail then codes "100" else tail) follow)

  abbrev started_again : Option Text → Option Text
  started_again none = none
  started_again (some e) = some (codes "start: " ++ e)

  abbrev stopped_first : Text → Option Text → Option Text
  stopped_first id (some e) = some (codes "stop: " ++ e)
  stopped_first id none = started_again (a.start id)

  -- RestartContainer
  unfoldable pub restart_container : Text → Option Text
  restart_container id = stopped_first id (a.stop id)

  -- SystemInfo
  unfoldable pub system_info : Result Text
  system_info = wrap (codes "docker info: ") a.info_json

  -- DiskUsage
  unfoldable pub disk_usage : Result Text
  disk_usage = wrap (codes "docker df: ") a.usage_json

  -- ContainerStats
  unfoldable pub container_stats : Text → Result Text
  container_stats id = wrap (codes "container stats " ++ (id ++ codes ": ")) (a.stats_json id)

  -- ContainerLogLines
  unfoldable pub container_log_lines : Text → ℕ → LogLines
  unfolding scan_lines itoa contains_text
  container_log_lines id lines = collected id (a.logs id (itoa (pos lines)) false)
