-- ===== src/Config.antt =====
-- internal/config/config.go: the configuration's types. A YAML integer is an `ℤ`, a missing pointer is
-- `none`, and a duration is a number of nanoseconds.
pub mod Intervals
pub mod Loading
pub mod Yaml
pub mod Writer
pub mod Watcher
use dockhand.Prelude.{ℕ, Bool, Option, Text, Map, ℤ}

-- VersionSource
pub record VersionSource : Type 0 where
  pub type : Text
  pub repo : Text
  pub command : Text

-- SystemUpdates
pub record SystemUpdates : Type 0 where
  pub type : Text
  pub refresh_interval : Text

-- AppOperation
pub record AppOperation : Type 0 where
  pub label : Text
  pub command : Text
  pub timeout : ℤ
  pub working_dir : Text
  pub persistent : Bool

-- App
pub record App : Type 0 where
  pub description : Text
  pub current_version : Text
  pub version_command : Text
  pub version_source : Option VersionSource
  pub system_update_check : Text
  pub system_updates : Option SystemUpdates
  pub package_manager : Text
  pub operations : Map AppOperation

-- Operation
pub record Operation : Type 0 where
  pub command : Text
  pub description : Text
  pub timeout : ℤ
  pub working_dir : Text
  pub persistent : Bool
  pub current_version : Text
  pub version_command : Text
  pub version_source : Option VersionSource

-- ServerConfig
pub record ServerConfig : Type 0 where
  pub port : ℤ
  pub api_key : Text
  pub tls : Bool

-- RunnerConfig
pub record RunnerConfig : Type 0 where
  pub name : Text
  pub url : Text
  pub docked_url : Text
  pub enrollment_token : Text

-- DockerConfig
pub record DockerConfig : Type 0 where
  pub enabled : Bool
  pub socket : Text
  pub compose_binary : Text

-- Config
pub record Config : Type 0 where
  pub server : ServerConfig
  pub runner : RunnerConfig
  pub docker : DockerConfig
  pub operations : Map Operation
  pub apps : Map App
