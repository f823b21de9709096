-- ===== src/Tests/Engine.antt =====
-- The Docker client and its handlers at concrete inputs.
use dockhand.Sse.Progress.{outputs}
use dockhand.Sse.Apart.{AreApart, AreClean}
use dockhand.Prelude.{
  true, ◌≡◌, refl, none, some, [], ◌∷◌, arith, Text, codes, text_eq, ok, err, pos,
}
use dockhand.Docker.Records.{Container, Image}
use dockhand.Docker.Containers.{container_to_info, inspect_container}
use dockhand.Docker.Upgrade.{UpgradeResult}
use dockhand.Docker.Pulling.{PullStream}
use dockhand.Docker.Management.{EngineApi}
use dockhand.Docker.Compose.{Host, upgrade_compose, upgrade_container}
use dockhand.Docker.Compose.Commands.{Recreated, upgrade_compose_commands}
use dockhand.Sse.Decoding.{decode}
use dockhand.Api.{streamed}
use dockhand.Api.Containers.{upgrade_handler, DockerClient}
use dockhand.Api.Containers.Streams.{upgrade_events, upgrade_handler-events, IsPlain}
use dockhand.Api.Containers.Client.{docker_client, Outside}

abbrev web : Container
web = record {
  id = codes "c1";
  names = codes "/web" ∷ [];
  image = codes "nginx";
  image_id = codes "i1";
  status = codes "Up";
  state = codes "running";
  created = pos 1;
  labels =
      (codes "com.docker.compose.project", codes "site")
      ∷ (codes "com.docker.compose.service", codes "web")
      ∷ (codes "com.docker.compose.project.working_dir", codes "/srv")
      ∷ [];
  ports = [];
  network_mode = codes "bridge";
}

abbrev nginx : Image
nginx = record {
  id = codes "i1";
  repo_tags = [];
  size = pos 9;
  repo_digests = codes "d" ∷ [];
  created = pos 3;
}

abbrev host : Host
host = record {
  exists = λ path. text_eq path (codes "/srv/compose.yml");
  pulled = record {
    progress = outputs (true ∷ []) (codes "one" ∷ codes "two" ∷ []) [] ∷ [];
    error = none;
  };
  started = record { progress = []; error = none };
  inspected = ok none;
}

abbrev replaced : UpgradeResult
replaced = record {
  strategy = codes "compose";
  old_image = codes "nginx";
  new_image = codes "nginx";
}

composed : (upgrade_compose host (codes "docker") (container_to_info web)).result ≡ ok replaced
unfolding upgrade_compose container_to_info text_eq
composed = refl

upgrade_compose_commands_example :
    Recreated host
      (codes "docker")
      (container_to_info web)
      replaced
      (upgrade_compose host (codes "docker") (container_to_info web))
upgrade_compose_commands_example =
    upgrade_compose_commands host (codes "docker") (container_to_info web) replaced composed

abbrev failed_pull : PullStream
failed_pull = record {
  events = record { status = []; progress = []; error = codes "manifest unknown"; id = [] } ∷ [];
  decode_fault = none;
  read_fault = none;
}

abbrev engine : EngineApi
engine = record {
  containers = ok (web ∷ []);
  images = ok (nginx ∷ []);
  inspected = λ id. ok (record {
    id = codes "c1";
    name = codes "/web";
    image = codes "i1";
    created = [];
    config_image = codes "nginx";
    labels = web.labels;
    status = codes "running";
    ports = none;
    network_mode = none;
  });
  inspect_json = λ id. ok (codes "{}");
  stop = λ id. none;
  start = λ id. none;
  remove = λ id force. none;
  parse_body = λ body. ok body;
  create = λ name body. ok (record { id = codes "c2"; warnings = [] });
  pull = λ ref. ok failed_pull;
  remove_image = λ id force. none;
  logs = λ id tail follow. ok (record { text = codes "a\n"; fault = none });
  info_json = ok (codes "{}");
  usage_json = ok (codes "{}");
  stats_json = λ id. ok (codes "{}");
}

abbrev outside : Outside
outside = record {
  api = engine;
  parse_time = λ s. none;
  compose_binary = codes "docker";
  host = λ id. host;
  engine = λ id. record {
    image_ref = err (codes "gone");
    inspected_name = [];
    inspected_image = [];
    pulled = record { lines = []; error = none };
    new_image = err (codes "gone");
    stopped = none;
    unix_now = 0;
    renamed = none;
    created = err (codes "gone");
    started = none;
  };
}

abbrev result_json : UpgradeResult → Text
result_json u = codes "{}"

abbrev client : DockerClient
client = docker_client outside

-- The container is one of a project, so that the two commands of Compose run.
client-AreApart : AreApart [] (client.upgrade_container (codes "c1")).progress
unfolding upgrade_container inspect_container text_eq
client-AreApart = ground arith

client-AreClean : AreClean (client.upgrade_container (codes "c1")).progress
unfolding upgrade_container inspect_container text_eq
client-AreClean = ground arith

client_result : IsPlain result_json (client.upgrade_container (codes "c1")).result
unfolding upgrade_container inspect_container text_eq
client_result = ground arith

upgrade_handler-events_example :
    (body : Text) × (upgrade_handler result_json (some client) (codes "c1") ≡ streamed body)
    × (decode body
        ≡ upgrade_events result_json [] (codes "c1") (client.upgrade_container (codes "c1")))
upgrade_handler-events_example =
    upgrade_handler-events result_json client (codes "c1") [] (ground arith) client-AreClean
      client-AreApart client_result
