-- ===== src/Docker/Containers.antt =====
-- internal/docker/containers.go: what the API tells of containers. The answers of the engine and
-- time.Parse, to Unix seconds, are arguments; Go maps are read in the order that they are listed in.
pub mod Images
use dockhand.Prelude.{
  ℕ, Bool, true, false, ◌||◌, Option, none, some, List, [], ◌∷◌, ◌++◌, if◌then◌else◌, ◌==◌, or_zero,
  Text, codes, push_front, Map, lookup, insert, Result, ok, err, ℤ, pos, itoa, has_prefix,
}
use dockhand.Docker.{without_slash}
use dockhand.Docker.Records.{
  PortBinding, ContainerInfo, Port, Container, Image, HostBinding, Inspect,
}

-- portStr
unfoldable port_str : ℕ → Text
unfolding itoa
port_str p = if p == 0 then [] else itoa (pos p)

-- strings.SplitN(s, "/", 2): the part in front of the first slash, and the part behind it
unfoldable cut_slash : Text → Text × Option Text
cut_slash [] = ([], none)
cut_slash (c ∷ s) =
    let rest = cut_slash s in if c == b'/' then ([], some s) else (c ∷ rest.0, rest.1)

-- The end of both conversions.
abbrev compose_label : Text → Map Text → Text
compose_label key labels = or_zero [] (lookup key labels)

abbrev with_project : Map Text → Option Text → ContainerInfo → ContainerInfo
with_project labels none i = i
with_project labels (some project) i = record i {
  compose_project = project;
  compose_service = compose_label (codes "com.docker.compose.service") labels;
  compose_working_dir = compose_label (codes "com.docker.compose.project.working_dir") labels;
  compose_config_file = compose_label (codes "com.docker.compose.project.config_files") labels;
}

abbrev with_compose : Map Text → ContainerInfo → ContainerInfo
with_compose labels i = with_project labels (lookup (codes "com.docker.compose.project") labels) i

abbrev first_name : List Text → Text
first_name [] = []
first_name (n ∷ ns) = without_slash n

abbrev container_ports : List Port → List PortBinding
container_ports [] = []
container_ports (p ∷ ps) =
    record {
      host_ip = p.ip;
      host_port = port_str p.public_port;
      container_port = port_str p.private_port;
      protocol = p.type;
    }
    ∷ container_ports ps

-- containerToInfo
unfoldable pub container_to_info : Container → ContainerInfo
unfolding port_str lookup
container_to_info c = with_compose c.labels (record {
  id = c.id;
  name = first_name c.names;
  image = c.image;
  image_id = c.image_id;
  status = c.status;
  state = c.state;
  created = c.created;
  labels = c.labels;
  ports = container_ports c.ports;
  network_mode = c.network_mode;
  compose_project = [];
  compose_service = [];
  compose_working_dir = [];
  compose_config_file = [];
  repo_digests = [];
  image_created = pos 0;
})

-- The ports of one protocol and port of the container.
abbrev bound_ports : Text → Text → List HostBinding → List PortBinding
bound_ports port proto [] = []
bound_ports port proto (b ∷ bs) =
    record { host_ip = b.host_ip; host_port = b.host_port; container_port = port; protocol = proto }
    ∷ bound_ports port proto bs

abbrev exposed_ports : Text → Text → List HostBinding → List PortBinding
exposed_ports port proto [] =
    record { host_ip = []; host_port = []; container_port = port; protocol = proto } ∷ []
exposed_ports port proto (b ∷ bs) = bound_ports port proto (b ∷ bs)

abbrev inspect_ports : Map (List HostBinding) → List PortBinding
inspect_ports [] = []
inspect_ports ((port, bindings) ∷ ps) =
    exposed_ports (cut_slash port).0 (or_zero (codes "tcp") (cut_slash port).1) bindings
    ++ inspect_ports ps

-- inspectToInfo
unfoldable inspect_to_info : (Text → Option ℤ) → Inspect → ContainerInfo
unfolding cut_slash lookup
inspect_to_info parse_time c = with_compose c.labels (record {
  id = c.id;
  name = without_slash c.name;
  image = c.config_image;
  image_id = c.image;
  status = c.status;
  state = c.status;
  created = or_zero (pos 0) (parse_time c.created);
  labels = c.labels;
  ports = inspect_ports (or_zero [] c.ports);
  network_mode = or_zero [] c.network_mode;
  compose_project = [];
  compose_service = [];
  compose_working_dir = [];
  compose_config_file = [];
  repo_digests = [];
  image_created = pos 0;
})

-- imageMetadata
pub record ImageMetadata : Type 0 where
  pub repo_digests : List Text
  pub created : ℤ

abbrev pub add_images : Map ImageMetadata → List Image → Map ImageMetadata
add_images m [] = m
add_images m (i ∷ is) =
    add_images (insert i.id (record { repo_digests = i.repo_digests; created = i.created }) m) is

-- buildImageMetadataMap
unfoldable pub build_image_metadata_map : Result (List Image) → Map ImageMetadata
unfolding insert
build_image_metadata_map (err e) = []
build_image_metadata_map (ok imgs) = add_images [] imgs

abbrev pub with_metadata : Option ImageMetadata → ContainerInfo → ContainerInfo
with_metadata none i = i
with_metadata (some m) i = record i { repo_digests = m.repo_digests; image_created = m.created }

abbrev pub list_infos : Map ImageMetadata → List Container → List ContainerInfo
list_infos m [] = []
list_infos m (c ∷ cs) = with_metadata (lookup c.image_id m) (container_to_info c) ∷ list_infos m cs

-- ListContainers
unfoldable pub list_containers :
    Result (List Container) → Result (List Image) → Result (List ContainerInfo)
unfolding container_to_info build_image_metadata_map lookup
list_containers (err e) imgs = err e
list_containers (ok raw) imgs = ok (list_infos (build_image_metadata_map imgs) raw)

-- strings.Contains
unfoldable pub contains_text : Text → Text → Bool
unfolding has_prefix
contains_text [] p = has_prefix [] p
contains_text (c ∷ s) p = has_prefix (c ∷ s) p || contains_text s p

abbrev is_not_found : Text → Bool
is_not_found e = contains_text e (codes "No such container") || contains_text e (codes "not found")

-- InspectContainer
unfoldable pub inspect_container :
    (Text → Option ℤ) → Result Inspect → Result (Option ContainerInfo)
unfolding inspect_to_info contains_text
inspect_container parse_time (err e) = if is_not_found e then ok none else err e
inspect_container parse_time (ok c) = ok (some (inspect_to_info parse_time c))
