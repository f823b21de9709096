-- ===== src/Tests/Containers.antt =====
-- An upgrade of a container at a concrete input: internal/docker/upgrade.go.
use dockhand.Docker.Records.{ContainerInfo}
use dockhand.Prelude.{◌≡◌, refl, none, some, codes, ok, pos, []}
use dockhand.Docker.Upgrade.{
  Engine, start, upgrade_standalone, last_call, upgrade_standalone_restarts,
}

-- The new container cannot be started.
abbrev broken_image : Engine
broken_image = record {
  image_ref = ok (codes "web:latest");
  inspected_name = codes "/web";
  inspected_image = codes "sha256:1";
  pulled = record { lines = []; error = none };
  new_image = ok (codes "sha256:2");
  stopped = none;
  unix_now = 5;
  renamed = none;
  created = ok (codes "new");
  started = some (codes "exec format error");
}

abbrev web : ContainerInfo
web = record {
  id = codes "old";
  name = codes "web";
  image = codes "web:latest";
  image_id = codes "sha256:1";
  status = [];
  state = [];
  created = pos 0;
  labels = [];
  ports = [];
  network_mode = [];
  compose_project = [];
  compose_service = [];
  compose_working_dir = [];
  compose_config_file = [];
  repo_digests = [];
  image_created = pos 0;
}

upgrade_standalone_restarts_example :
    last_call (upgrade_standalone broken_image web).calls ≡ some (start (codes "old"))
unfolding upgrade_standalone
upgrade_standalone_restarts_example =
    upgrade_standalone_restarts broken_image web (codes "start: exec format error (rolled back)")
      refl refl refl
