-- ===== src/Docker/Compose.antt =====
-- internal/docker/upgrade.go: the upgrade of a container of a Compose project, and the choice between it
-- and the upgrade of a container by itself. What the commands print and answer is an argument.
pub mod Commands
pub mod Streaming
use dockhand.Prelude.{
  ℕ, Bool, true, false, not, Option, none, some, List, [], ◌∷◌, ◌++◌, if◌then◌else◌, Text, codes,
  is_empty, quoted, Result, ok, err,
}
use dockhand.Sse.Progress.{Piece, said_all}
use dockhand.Docker.Records.{ContainerInfo}
use dockhand.Docker.Upgrade.{Engine, Call, UpgradeResult, Upgrade, upgrade_standalone}

-- The lines of a command's two outputs, with the order of their writes, and its error
pub record Output : Type 0 where
  pub progress : List Piece
  pub error : Option Text

-- The files that are there, the two commands of Compose, and the container after them.
pub record Host : Type 0 where
  pub exists : Text → Bool
  pub pulled : Output
  pub started : Output
  pub inspected : Result (Option ContainerInfo)

-- The commands that were run, the progress, and the result.
pub record Composed : Type 0 where
  pub commands : List (List Text)
  pub progress : List Piece
  pub result : Result UpgradeResult

abbrev pub compose_names : List Text
compose_names =
    codes "compose.yaml"
    ∷ codes "compose.yml"
    ∷ codes "docker-compose.yaml"
    ∷ codes "docker-compose.yml"
    ∷ []

-- filepath.Join of a clean directory, other than the root, and a name
abbrev pub join_path : Text → Text → Text
join_path dir name = dir ++ (codes "/" ++ name)

unfoldable pub first_file : (Text → Bool) → Text → List Text → Option Text
first_file exists dir [] = none
first_file exists dir (n ∷ ns) =
    let rest = first_file exists dir ns in
    if exists (join_path dir n) then some (join_path dir n) else rest

abbrev found_or_missing : Text → Option Text → Result Text
found_or_missing dir none = err (codes "no compose file found in " ++ dir)
found_or_missing dir (some path) = ok path

-- findComposeFile
unfoldable pub find_compose_file : (Text → Bool) → Text → Result Text
unfolding first_file
find_compose_file exists dir = found_or_missing dir (first_file exists dir compose_names)

abbrev stops_with : Text → Composed
stops_with e = record { commands = []; progress = []; result = err e }

abbrev after_lines : List Text → Composed → Composed
after_lines ls c = record c { progress = said_all ls ++ c.progress }

abbrev after_command : List Text → Output → Composed → Composed
after_command args o c = record c {
  commands = args ∷ c.commands;
  progress = o.progress ++ c.progress;
}

-- The image of the container after the upgrade.
abbrev image_of : ContainerInfo → Text
image_of i = if is_empty i.image_id then i.image else i.image_id

abbrev new_image_of : Text → Result (Option ContainerInfo) → Text
new_image_of image (err e) = image
new_image_of image (ok none) = image
new_image_of image (ok (some i)) = image_of i

module _ (binary : Text) (info : ContainerInfo) where
  abbrev pub pull_args : Text → List Text
  pull_args file =
      binary ∷ codes "compose" ∷ codes "-f" ∷ file ∷ codes "pull" ∷ info.compose_service ∷ []

  abbrev pub up_args : Text → List Text
  up_args file =
      binary
      ∷ codes "compose"
      ∷ codes "-f"
      ∷ file
      ∷ codes "up"
      ∷ codes "-d"
      ∷ info.compose_service
      ∷ []

module _ (h : Host) (binary : Text) (info : ContainerInfo) where
  abbrev pub recreated : Option Text → Composed
  recreated (some e) = stops_with (codes "compose up: " ++ e)
  recreated none = record {
    commands = [];
    progress = [];
    result = ok (record {
      strategy = codes "compose";
      old_image = info.image;
      new_image = new_image_of info.image h.inspected;
    });
  }

  abbrev pub pulled_to : Text → Option Text → Composed
  pulled_to file (some e) = stops_with (codes "compose pull: " ++ e)
  pulled_to file none =
      after_lines ([] ∷ codes "Recreating container..." ∷ [])
        (after_command (up_args binary info file) h.started (recreated h.started.error))

  -- An arrow is one code here.
  abbrev progress : Text → List Text
  progress file =
      (codes "→ Compose project: "
        ++ (info.compose_project ++ (codes "  service: " ++ info.compose_service)))
      ∷ (codes "→ Compose file: " ++ file)
      ∷ []
      ∷ codes "Pulling latest image..."
      ∷ []

  abbrev pub composed_in : Result Text → Composed
  composed_in (err e) = stops_with e
  composed_in (ok file) =
      after_lines (progress file)
        (after_command (pull_args binary info file) h.pulled (pulled_to file h.pulled.error))

  -- upgradeCompose
  unfoldable pub upgrade_compose : Composed
  unfolding find_compose_file
  upgrade_compose =
      if is_empty info.compose_working_dir
      then stops_with (codes "compose working directory unknown for container " ++ quoted info.name)
      else composed_in (find_compose_file h.exists info.compose_working_dir)

-- What an upgrade did: the commands of Compose, the calls of the engine, the progress, and the
-- result.
pub record Upgraded : Type 0 where
  pub commands : List (List Text)
  pub calls : List Call
  pub progress : List Piece
  pub result : Result UpgradeResult

abbrev by_compose : Composed → Upgraded
by_compose c = record {
  commands = c.commands;
  calls = [];
  progress = c.progress;
  result = c.result;
}

abbrev by_itself : Upgrade → Upgraded
by_itself u = record {
  commands = [];
  calls = u.calls;
  progress = said_all u.lines;
  result = u.result;
}

abbrev unchanged : Text → Upgraded
unchanged e = record { commands = []; calls = []; progress = []; result = err e }

-- UpgradeContainer, with the answer of InspectContainer for the id; the duration is left out.
unfoldable pub upgrade_container :
    Host → Engine → Text → Text → Result (Option ContainerInfo) → Upgraded
unfolding upgrade_compose upgrade_standalone
upgrade_container h m binary id (err e) = unchanged (codes "inspect: " ++ e)
upgrade_container h m binary id (ok none) =
    unchanged (codes "container " ++ (quoted id ++ codes " not found"))
upgrade_container h m binary id (ok (some info)) =
    if is_empty info.compose_project
    then by_itself (upgrade_standalone m info)
    else by_compose (upgrade_compose h binary info)
