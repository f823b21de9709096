-- ===== src/Tests/Writers.antt =====
-- Concurrent writers of internal/config/writer.go at concrete inputs.
use dockhand.Prelude.{◌≡◌, refl, none, [], ◌∷◌, or_zero, Text, codes, text_eq, ok, err}
use dockhand.Config.Yaml.{get_pair, change_pair, mapping_get, edit_version, current_version_key}
use dockhand.Config.Yaml.Edits.{at_key, node_at, value_of}
use dockhand.Config.Writer.{Disk, update_version}
use dockhand.Config.Writer.Races.{
  Edit, operation_version, clear_token, System, quiet, Locked, ReachLocked, Reach, written, replay,
  ReachLocked-replay, clear_token_lost, write,
}
use dockhand.Tests.Settings.{file_with}

-- A file that is told by the version in it.
abbrev disk : Disk
disk = record {
  read = err [];
  unmarshal = λ text. ok (file_with text);
  marshal = λ doc.
      ok (
        or_zero [] (value_of (node_at (codes "operations") (codes "app") current_version_key doc)));
  write_fault = none;
  rename_fault = none;
  left = [];
}

abbrev to_2 : Edit
to_2 = operation_version disk (codes "app") (codes "2")

abbrev path : Text
path = codes "config.yaml"

abbrev first : Text
first = codes "1"

abbrev written_once : System
written_once = record (quiet (codes "2")) { done = to_2 ∷ [] }

reach_once : ReachLocked path (quiet first) written_once
unfolding written write update_version edit_version mapping_get get_pair change_pair text_eq at_key
reach_once =
    ReachLocked.next
      (ReachLocked.next (ReachLocked.next ReachLocked.here (Locked.lock to_2 refl refl refl))
        (Locked.read [] [] to_2 refl refl))
      (Locked.finish [] [] to_2 first refl refl)

ReachLocked-replay_example : codes "2" ≡ replay path (to_2 ∷ []) first
ReachLocked-replay_example = ReachLocked-replay reach_once

clear_token_lost_example :
    (s : System) × Reach path (quiet first) s
    × (s.done ≡ to_2 ∷ clear_token disk ∷ [])
    × (s.file ≡ codes "2")
unfolding written write update_version edit_version mapping_get get_pair change_pair text_eq at_key
clear_token_lost_example = clear_token_lost path first to_2 disk refl refl
