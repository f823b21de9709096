-- ===== src/Docker/Compose/Streaming.antt =====
-- internal/docker/upgrade.go: streamCommand, and the upgrade by Compose with the commands that it runs.
use dockhand.Prelude.{
  scan_lines, max_scan_token_size, ◌≡◌, refl, Bool, Option, some, List, [], ◌∷◌, ◌++◌, Text, codes,
  Result, ok, err, is_empty, false,
}
use dockhand.Docker.Records.{ContainerInfo}
use dockhand.Docker.Compose.{Output, Host, find_compose_file, pull_args, upgrade_compose}
use dockhand.Sse.Progress.{outputs}

-- What becomes of a command: a pipe or the start fails, or it ends, with the error of Wait, and has
-- written to its two outputs. The two goroutines that read these call `output` without a lock; the list
-- is the order of the writes that this leads to.
pub data Execution : Type 0 where
  pipe_failed : Text → Execution
  start_failed : Text → Execution
  ended : List Bool → Text → Text → Option Text → Execution

-- streamCommand
unfoldable pub stream_command : Execution → Output
unfolding scan_lines
stream_command (pipe_failed e) = record { progress = []; error = some e }
stream_command (start_failed e) = record { progress = []; error = some e }
stream_command (ended order stdout stderr waited) = record {
  progress =
      outputs order (scan_lines max_scan_token_size stdout) (scan_lines max_scan_token_size stderr)
      ∷ [];
  error = waited;
}

-- The host on which the two commands go like this.
abbrev pub host_with : (Text → Bool) → Execution → Execution → Result (Option ContainerInfo) → Host
host_with exists pull up inspected = record {
  exists = exists;
  pulled = stream_command pull;
  started = stream_command up;
  inspected = inspected;
}

-- Where the pull fails, whether it cannot be started or ends with an error, the service is not created
-- again: pull is the only command, and the upgrade fails with its error.
pub upgrade_compose_pull_failed :
    (exists : Text → Bool) (pull up : Execution) (inspected : Result (Option ContainerInfo))
    (binary file e : Text) (info : ContainerInfo)
    → is_empty info.compose_working_dir ≡ false
    → find_compose_file exists info.compose_working_dir ≡ ok file
    → (stream_command pull).error ≡ some e
    → let c = upgrade_compose (host_with exists pull up inspected) binary info in
      (c.commands ≡ pull_args binary info file ∷ [])
      × (c.result ≡ err (codes "compose pull: " ++ e))
unfolding upgrade_compose
upgrade_compose_pull_failed exists pull up inspected binary file e info w f h =
    (rw (upgrade_compose, w, f, h) refl, rw (upgrade_compose, w, f, h) refl)
