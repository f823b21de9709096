-- ===== src/Api/Health.antt =====
-- internal/api/handlers/health.go, and Health of internal/api/handlers/debug.go: what the process tells of
-- itself. What the Go runtime reports is a record, its memory in bytes.
use dockhand.Prelude.{ℕ, ◌-◌, ◌/◌, Bool, Text, codes, ℤ}
use dockhand.Config.{Config}
use dockhand.Api.{Response, json}

pub record Runtime : Type 0 where
  pub now : ℕ
  pub start_time : ℕ
  pub go_version : Text
  pub goroutines : ℕ
  pub alloc : ℕ
  pub sys : ℕ

-- HealthResponse
pub record HealthResponse : Type 0 where
  pub status : Text
  pub version : Text
  pub name : Text
  pub uptime_seconds : ℕ
  pub docker_ok : Bool
  pub go_version : Text

abbrev uptime : Runtime → ℕ
uptime t = (t.now - t.start_time) / 1000000000

-- Health; `docker_ok` is what the function of this name returns.
unfoldable pub health_handler : Text → Text → Bool → Runtime → Response HealthResponse
health_handler version name docker_ok t = json (record {
  status = codes "ok";
  version = version;
  name = name;
  uptime_seconds = uptime t;
  docker_ok = docker_ok;
  go_version = t.go_version;
})

-- The answer of GET /debug/health; the memory is in bytes, of which the code prints MiB.
pub record DebugHealth : Type 0 where
  pub status : Text
  pub version : Text
  pub uptime_seconds : ℕ
  pub go_version : Text
  pub goroutines : ℕ
  pub mem_alloc : ℕ
  pub mem_sys : ℕ
  pub runner_name : Text
  pub port : ℤ
  pub docker_enabled : Bool
  pub docker_socket : Text

-- Health of the debug handlers
unfoldable pub debug_health : Text → Config → Runtime → Response DebugHealth
debug_health version cfg t = json (record {
  status = codes "ok";
  version = version;
  uptime_seconds = uptime t;
  go_version = t.go_version;
  goroutines = t.goroutines;
  mem_alloc = t.alloc;
  mem_sys = t.sys;
  runner_name = cfg.runner.name;
  port = cfg.server.port;
  docker_enabled = cfg.docker.enabled;
  docker_socket = cfg.docker.socket;
})
