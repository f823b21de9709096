-- ===== src/Docker.antt =====
-- The client of the Docker engine, internal/docker.
pub mod Records
pub mod Upgrade
pub mod Containers
pub mod Pulling
pub mod Clients
pub mod Compose
pub mod Networks
pub mod Management
use dockhand.Prelude.{[], ◌∷◌, ◌==◌, if◌then◌else◌, Text}

-- strings.TrimPrefix(name, "/")
abbrev pub without_slash : Text → Text
without_slash [] = []
without_slash (c ∷ s) = if c == b'/' then s else c ∷ s
