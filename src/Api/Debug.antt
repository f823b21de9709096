-- ===== src/Api/Debug.antt =====
-- internal/api/handlers/debug.go: the handlers for debugging that ask the Docker engine. The report of the
-- process itself, Health, is left out.
use dockhand.Prelude.{
  ℕ, ◌≤◌, Bool, Option, none, some, List, ◌++◌, length, Text, codes, Result, arith,
}
use dockhand.Docker.Records.{ContainerInfo}
use dockhand.Docker.Management.{LogLines}
use dockhand.Api.{Response, json, failed, capped_param, capped_param_bounds}
use dockhand.Api.Containers.{with_docker, answered, succeeded, found}

-- debugDockerClient
pub record DebugClient : Type 0 where
  pub list_containers : Result (List ContainerInfo)
  pub inspect_container : Text → Result (Option ContainerInfo)
  pub restart_container : Text → Option Text
  pub system_info : Result Text
  pub disk_usage : Result Text
  pub container_stats : Text → Result Text
  pub container_log_lines : Text → ℕ → LogLines

-- Containers
unfoldable pub debug_containers : Option DebugClient → Response (List ContainerInfo)
debug_containers dc =
    with_docker dc (λ d. answered (codes "failed to list containers: ") d.list_containers)

-- Inspect
unfoldable pub debug_inspect : Option DebugClient → Text → Response ContainerInfo
debug_inspect dc id = with_docker dc (λ d. found (d.inspect_container id))

-- The number of lines, of the query parameter `lines`
unfoldable debug_lines : Text → ℕ
unfolding capped_param
debug_lines s = capped_param 100 5000 s

-- The lines and their number
abbrev log_answer : LogLines → Option Text → Response (List Text × ℕ)
log_answer l none = json (l.lines, length l.lines)
log_answer l (some e) = failed 500 (codes "logs error: " ++ e)

abbrev logged : LogLines → Response (List Text × ℕ)
logged l = log_answer l l.error

-- ContainerLogs
unfoldable pub debug_container_logs : Option DebugClient → Text → Text → Response (List Text × ℕ)
unfolding debug_lines
debug_container_logs dc id lines =
    with_docker dc (λ d. logged (d.container_log_lines id (debug_lines lines)))

-- Stats
unfoldable pub debug_stats : Option DebugClient → Text → Response Text
debug_stats dc id = with_docker dc (λ d. answered (codes "stats error: ") (d.container_stats id))

-- Restart
unfoldable pub debug_restart : Option DebugClient → Text → Response Bool
debug_restart dc id =
    with_docker dc (λ d. succeeded (codes "restart error: ") (d.restart_container id))

-- DockerInfo
unfoldable pub debug_docker_info : Option DebugClient → Response Text
debug_docker_info dc = with_docker dc (λ d. answered (codes "docker info error: ") d.system_info)

-- DockerDF
unfoldable pub debug_docker_df : Option DebugClient → Response Text
debug_docker_df dc = with_docker dc (λ d. answered (codes "docker df error: ") d.disk_usage)

-- However the parameter is written, the engine is asked for at least one line and at most 5000.
debug_lines_bounds : (s : Text) → (1 ≤ debug_lines s) × (debug_lines s ≤ 5000)
unfolding debug_lines
debug_lines_bounds s = capped_param_bounds 100 5000 s (omega arith) (omega arith)
