-- ===== src/Api/Containers/Client.antt =====
-- The Docker client of internal/docker behind the handlers of internal/api/handlers/containers.go.
use dockhand.Docker.Compose.{Host, Upgraded, upgrade_container}
use dockhand.Docker.Records.{ContainerInfo}
use dockhand.Prelude.{
  ◌≡◌, refl, true, false, Option, none, some, [], any_of, Text, is_empty, Result, ok, ℤ,
}
use dockhand.Docker.Containers.{list_containers, inspect_container}
use dockhand.Docker.Upgrade.{UpgradeResult, Engine}
use dockhand.Docker.Pulling.{PullStream, is_failure, pull_and_discard, pull_and_discard_succeeds}
use dockhand.Docker.Management.{
  EngineApi, LogLines, full_inspect, create_container, list_images, stream_logs,
}
use dockhand.Api.{json}
use dockhand.Api.Containers.{DockerClient, Emitted, Progressed, pull_image_handler}

abbrev emitted_lines : LogLines → Emitted (Option Text)
emitted_lines l = record { lines = l.lines; result = l.error }

-- The engine, time.Parse, the binary of Compose, and what happens in an upgrade of a container
pub record Outside : Type 0 where
  pub api : EngineApi
  pub parse_time : Text → Option ℤ
  pub compose_binary : Text
  pub host : Text → Host
  pub engine : Text → Engine

abbrev inspected : Outside → Text → Result (Option ContainerInfo)
inspected o id = inspect_container o.parse_time (o.api.inspected id)

abbrev progressed_upgrade : Upgraded → Progressed (Result UpgradeResult)
progressed_upgrade u = record { progress = u.progress; result = u.result }

-- The client
abbrev pub docker_client : Outside → DockerClient
docker_client o = record {
  list_containers = list_containers o.api.containers o.api.images;
  inspect_container = λ id. inspected o id;
  upgrade_container = λ id.
      progressed_upgrade
        (upgrade_container (o.host id) (o.engine id) o.compose_binary id (inspected o id));
  stream_logs = λ id tail follow. emitted_lines (stream_logs o.api id tail follow);
  full_inspect = full_inspect o.api;
  stop_container = o.api.stop;
  start_container = o.api.start;
  remove_container = o.api.remove;
  create_container = create_container o.api;
  list_images = list_images o.api;
  pull_image = λ ref. pull_and_discard ref (o.api.pull ref);
  remove_image = o.api.remove_image;
}

-- POST /images/pull of an image without a tag answers with success also if the engine reports in its
-- progress that the pull failed, as long as the progress can be read to its end.
pull_image_handler_succeeds :
    (o : Outside) (image : Text) (s : PullStream)
    → is_empty image ≡ false
    → o.api.pull image ≡ ok s
    → any_of is_failure s.events ≡ true
    → s.read_fault ≡ none
    → pull_image_handler (some (docker_client o)) (ok (image, [])) ≡ json true
unfolding pull_image_handler
pull_image_handler_succeeds o image s named answer failure read =
    rw (named, answer, (pull_and_discard_succeeds image s failure read).1) refl
