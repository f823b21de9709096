-- ===== src/Api/Binaries.antt =====
-- internal/api/handlers/system.go: downloadBinary and verifyChecksum. Files are a map from their paths, an
-- error is `some` message, and SHA-256 is an argument, a function to the hexadecimal digits.
pub mod Checked
use dockhand.Prelude.{
  ℕ, Bool, not, Option, none, some, List, [], ◌∷◌, ◌++◌, if◌then◌else◌, ◌==◌, take, Text, codes,
  text_eq, is_empty, is_space, Map, lookup, insert, Result, ok, err, itoa, pos, scan_lines,
  max_scan_token_size,
}
use dockhand.Api.Downloads.{Link, Answer, Hop, get}

pub record File : Type 0 where
  pub content : Text
  pub mode : ℕ

-- The errors of the file system in one update: of opening the new file, of the copy with the number of
-- bytes copied until then, of Sync, of opening and reading it again, of Chmod and of Rename. `removable`
-- tells whether the new file can be removed.
pub record Disk : Type 0 where
  pub open_fault : Option Text
  pub copy_fault : Option (ℕ × Text)
  pub sync_fault : Option Text
  pub reopen_fault : Option Text
  pub hash_fault : Option Text
  pub chmod_fault : Option Text
  pub rename_fault : Option Text
  pub removable : Bool

abbrev pub max_binary_download_bytes : ℕ
max_binary_download_bytes = 524288000

abbrev max_checksum_download_bytes : ℕ
max_checksum_download_bytes = 1048576

-- The mode of a file that is opened with O_CREATE and 0700.
abbrev open_mode : Option File → ℕ
open_mode none = 448
open_mode (some f) = f.mode

abbrev pub write_file : Text → Text → Map File → Map File
write_file path content files =
    insert path (record { content = content; mode = open_mode (lookup path files) }) files

abbrev pub copied :
    Option Text → Option (ℕ × Text) → Text → Text → Map File → Map File × Option Text
copied sync none dest body files = (write_file dest body files, sync)
copied sync (some (n, e)) dest body files = (write_file dest (take n body) files, some e)

abbrev pub opened : Disk → Option Text → Text → Text → Map File → Map File × Option Text
opened d none dest body files = copied d.sync_fault d.copy_fault dest body files
opened d (some e) dest body files = (files, some e)

abbrev pub saved : Disk → Text → Map File → Result Answer → Map File × Option Text
saved d dest files (err e) = (files, some e)
saved d dest files (ok a) =
    if a.status == 200
    then opened d d.open_fault dest (take max_binary_download_bytes a.body) files
    else (files, some (codes "HTTP " ++ (itoa (pos a.status) ++ codes " downloading binary")))

-- downloadBinary
unfoldable pub download_binary :
    (Link → Hop) → Disk → Text → Text → Map File → Map File × Option Text
unfolding get insert lookup itoa
download_binary net d url dest files = saved d dest files (get net url)

-- strings.Fields
abbrev fields_from : List Text → Text → Text → List Text
fields_from fs word [] = if is_empty word then fs else fs ++ word ∷ []
fields_from fs word (c ∷ s) =
    let spaced = fields_from (if is_empty word then fs else fs ++ word ∷ []) [] s in
    let longer = fields_from fs (word ++ c ∷ []) s in if is_space c then spaced else longer

unfoldable pub fields : Text → List Text
fields s = fields_from [] [] s

-- The hash of a line that has a hash and this name.
abbrev hash_of : Text → List Text → Option Text
hash_of name [] = none
hash_of name (h ∷ []) = none
hash_of name (h ∷ n ∷ []) = if text_eq n name then some h else none
hash_of name (h ∷ n ∷ m ∷ ps) = none

unfoldable find_hash : Text → List Text → Option Text
unfolding fields text_eq
find_hash name [] = none
find_hash name (l ∷ ls) =
    let rest = find_hash name ls in elim (hash_of name (fields l)) [ some h ↦ some h | none ↦ rest ]

-- The sums of the release up to 1 MiB
unfoldable pub listed_hash : Text → Text → Option Text
unfolding find_hash scan_lines
listed_hash name body =
    find_hash name (scan_lines max_scan_token_size (take max_checksum_download_bytes body))

module _ (sha256 : Text → Text) where
  abbrev pub compare_hash : Text → Text → Option Text
  compare_hash actual expected =
      if not (text_eq actual expected)
      then some (codes "checksum mismatch: got " ++ (actual ++ (codes ", want " ++ expected)))
      else none

  abbrev pub hash_file : Disk → Text → Text → Option File → Option Text
  hash_file d path expected none =
      some (codes "open file for hashing: open " ++ (path ++ codes ": no such file or directory"))
  hash_file d path expected (some f) = elim d.hash_fault [
    | some e ↦ some (codes "hashing file: " ++ e)
    | none ↦ compare_hash (sha256 f.content) expected
  ]

  abbrev pub open_hashed : Disk → Text → Map File → Text → Option Text
  open_hashed d path files expected = elim d.reopen_fault [
    | some e ↦ some (codes "open file for hashing: " ++ e)
    | none ↦ hash_file d path expected (lookup path files)
  ]

  abbrev pub check_listed : Disk → Text → Text → Map File → Option Text → Option Text
  check_listed d path name files none =
      some (codes "no checksum found for " ++ (name ++ codes " in release"))
  check_listed d path name files (some expected) =
      if is_empty expected
      then some (codes "no checksum found for " ++ (name ++ codes " in release"))
      else open_hashed d path files expected

  abbrev pub check_sums : Disk → Text → Text → Map File → Result Answer → Option Text
  check_sums d path name files (err e) = some (codes "fetch checksums: " ++ e)
  check_sums d path name files (ok a) =
      if not (a.status == 200)
      then some (codes "checksums HTTP " ++ itoa (pos a.status))
      else check_listed d path name files (listed_hash name a.body)

  -- verifyChecksum
  unfoldable pub verify_checksum : (Link → Hop) → Disk → Text → Text → Text → Map File → Option Text
  unfolding get listed_hash lookup text_eq itoa
  verify_checksum net d path name url files = check_sums d path name files (get net url)
