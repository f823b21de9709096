-- ===== src/Config/Writer.antt =====
-- The rewriting of the configuration file in internal/config/writer.go and internal/config/config.go.
-- Reading, parsing, printing and writing the file are arguments.
pub mod Races
use dockhand.Prelude.{Option, none, some, [], ◌∷◌, ◌++◌, Text, codes, Result, on_result}
use dockhand.Config.Yaml.{
  Node, Section, operations_section, apps_section, edit_version, clear_token,
}

-- What the files and the YAML library do during one call; `left` is what a failed write leaves in the
-- file that it writes.
pub record Disk : Type 0 where
  pub read : Result Text
  pub unmarshal : Text → Result Node
  pub marshal : Node → Result Text
  pub write_fault : Option Text
  pub rename_fault : Option Text
  pub left : Text

-- A call that ends with an error or nil, and the text that the file has got, if it was replaced.
pub record Written : Type 0 where
  pub error : Option Text
  pub replaced : Option Text

abbrev failed_with : Text → Written
failed_with e = record { error = some e; replaced = none }

abbrev unchanged : Written
unchanged = record { error = none; replaced = none }

-- The temporary file and the rename.
abbrev replace : Option Text → Option Text → Text → Written
replace (some e) rename out = failed_with (codes "writing temp config: " ++ e)
replace none (some e) out = failed_with (codes "renaming temp config: " ++ e)
replace none none out = record { error = none; replaced = some out }

abbrev print_back : Disk → Option Node → Written
print_back d none = unchanged
print_back d (some doc) =
    on_result (d.marshal doc) (replace d.write_fault d.rename_fault)
      (λ e. failed_with (codes "marshaling updated config: " ++ e))

-- What UpdateOperationVersion and UpdateAppVersion have in common.
unfoldable pub update_version : Section → Disk → Text → Text → Text → Written
unfolding edit_version
update_version s d [] name version = unchanged
update_version s d (c ∷ path) name version =
    on_result d.read
      (λ text.
        on_result (d.unmarshal text)
          (λ doc. on_result (edit_version s name version doc) (print_back d) failed_with)
          (λ e. failed_with (codes "parsing config for " ++ s.update ++ e)))
      (λ e. failed_with (codes "reading config for " ++ s.update ++ e))

-- UpdateOperationVersion
abbrev pub update_operation_version : Disk → Text → Text → Text → Written
update_operation_version = update_version operations_section

-- UpdateAppVersion
abbrev pub update_app_version : Disk → Text → Text → Text → Written
update_app_version = update_version apps_section

-- The write of ClearEnrollmentToken, not by a temporary file.
abbrev overwrite : Disk → Option Text → Text → Written
overwrite d (some e) out = record { error = some e; replaced = some d.left }
overwrite d none out = record { error = none; replaced = some out }

unfoldable pub clear_enrollment_token : Disk → Text → Written
unfolding clear_token
clear_enrollment_token d [] = unchanged
clear_enrollment_token d (c ∷ path) =
    on_result d.read
      (λ text.
        on_result (d.unmarshal text)
          (λ doc.
            on_result (clear_token doc)
              (λ cleared.
                on_result (d.marshal cleared) (overwrite d d.write_fault)
                  (λ e. failed_with (codes "marshaling config: " ++ e)))
              failed_with)
          (λ e. failed_with (codes "parsing config to clear token: " ++ e)))
      (λ e. failed_with (codes "reading config to clear token: " ++ e))
