-- ===== src/Docker/Records.antt =====
-- internal/docker/containers.go: the types of containers, and what is read of the types of the engine.
use dockhand.Prelude.{ℕ, Option, List, Text, Map, ℤ}

-- PortBinding
pub record PortBinding : Type 0 where
  pub host_ip : Text
  pub host_port : Text
  pub container_port : Text
  pub protocol : Text

-- ContainerInfo
pub record ContainerInfo : Type 0 where
  pub id : Text
  pub name : Text
  pub image : Text
  pub image_id : Text
  pub status : Text
  pub state : Text
  pub created : ℤ
  pub labels : Map Text
  pub ports : List PortBinding
  pub network_mode : Text
  pub compose_project : Text
  pub compose_service : Text
  pub compose_working_dir : Text
  pub compose_config_file : Text
  pub repo_digests : List Text
  pub image_created : ℤ

-- types.Port, types.Container, image.Summary, nat.PortBinding and types.ContainerJSON, as far as they
-- are read here
pub record Port : Type 0 where
  pub ip : Text
  pub private_port : ℕ
  pub public_port : ℕ
  pub type : Text

pub record Container : Type 0 where
  pub id : Text
  pub names : List Text
  pub image : Text
  pub image_id : Text
  pub status : Text
  pub state : Text
  pub created : ℤ
  pub labels : Map Text
  pub ports : List Port
  pub network_mode : Text

pub record Image : Type 0 where
  pub id : Text
  pub repo_tags : List Text
  pub size : ℤ
  pub repo_digests : List Text
  pub created : ℤ

pub record HostBinding : Type 0 where
  pub host_ip : Text
  pub host_port : Text

pub record Inspect : Type 0 where
  pub id : Text
  pub name : Text
  pub image : Text
  pub created : Text
  pub config_image : Text
  pub labels : Map Text
  pub status : Text
  pub ports : Option (Map (List HostBinding))
  pub network_mode : Option Text

-- ImageInfo of internal/docker/management.go
pub record ImageInfo : Type 0 where
  pub id : Text
  pub repo_tags : List Text
  pub repo_digests : List Text
  pub size : ℤ
  pub created : ℤ

-- CreateContainerResult
pub record CreateContainerResult : Type 0 where
  pub id : Text
  pub warnings : List Text
