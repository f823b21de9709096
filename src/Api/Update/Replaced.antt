-- ===== src/Api/Update/Replaced.antt =====
-- What Update of internal/api/handlers/system.go leaves in the file system.
use dockhand.Prelude.{
  ℕ, ◌≡◌, refl, ◌∙◌, true, Option, none, some, [], ◌∷◌, Text, text_eq_refl, Map, lookup, delete,
  lookup-insert, Result, ok, err,
}
use dockhand.Api.Downloads.{Answer, get}
use dockhand.Api.Binaries.{File, listed_hash, verify_checksum, download_binary}
use dockhand.Api.Binaries.Checked.{verify_checksum_listed}
use dockhand.Api.Update.{
  Outside, Updated, architecture, tmp_path, binary_name, checksums_url, set_mode, move, renamed,
  made_executable, verified, downloaded, update_as, update_version, update, download_url,
}

-- The file that an update put in place of the program, and the sums that list it.
abbrev pub Verified : Outside → Text → Text → Text → Updated → Type 0
Verified o version exe arch u =
    (f : File) × (lookup exe u.files ≡ some (record f { mode = 493 }))
    × ((a : Answer) × (get o.net (checksums_url version) ≡ ok a)
        × (a.status ≡ 200)
        × (listed_hash (binary_name arch) a.body ≡ some (o.sha256 f.content)))

lookup-move :
    (f : File) (src dst : Text) (files : Map File)
    → lookup dst (move (some f) src dst files) ≡ some f
lookup-move f src dst files =
    lookup-insert dst dst f (delete src files) ∙ rw (text_eq_refl dst) refl

lookup-set_mode :
    (mode : ℕ) (f : File) (path : Text) (files : Map File)
    → lookup path (set_mode mode (some f) path files) ≡ some (record f { mode = mode })
lookup-set_mode mode f path files =
    lookup-insert path path (record f { mode = mode }) files ∙ rw (text_eq_refl path) refl

module _ (o : Outside) (version exe : Text) where
  renamed-lookup :
      (fault : Option Text) (files : Map File) (f : File)
      → lookup (tmp_path exe) files ≡ some f
      → (renamed o version exe fault files).restarts ≡ true
      → lookup exe (renamed o version exe fault files).files ≡ some f
  renamed-lookup (some e) files f found h = absurd (cc)
  renamed-lookup none files f found h = rw found (lookup-move f (tmp_path exe) exe files)

  made_executable-lookup :
      (fault : Option Text) (files : Map File) (f : File)
      → lookup (tmp_path exe) files ≡ some f
      → (made_executable o version exe fault files).restarts ≡ true
      → lookup exe (made_executable o version exe fault files).files
        ≡ some (record f { mode = 493 })
  made_executable-lookup (some e) files f found h = absurd (cc)
  made_executable-lookup none files f found h =
      let changed = set_mode 493 (lookup (tmp_path exe) files) (tmp_path exe) files in
      renamed-lookup o.disk.rename_fault changed (record f { mode = 493 })
        (rw found (lookup-set_mode 493 f (tmp_path exe) files)) h

  verified-Verified :
      (arch : Text) (fault : Option Text) (files : Map File)
      → verify_checksum o.sha256 o.net o.disk
          (tmp_path exe)
          (binary_name arch)
          (checksums_url version)
          files
        ≡ fault
      → (verified o version exe fault files).restarts ≡ true
      → Verified o version exe arch (verified o version exe fault files)
  verified-Verified arch (some e) files checked h = absurd (cc)
  verified-Verified arch none files checked h =
      let (a, sums, status, (f, found, listed)) =
        verify_checksum_listed o.sha256 o.net o.disk (tmp_path exe) (binary_name arch)
          (checksums_url version) files checked in
      (f, made_executable-lookup o.disk.chmod_fault files f found h, (a, sums, status, listed))

  downloaded-Verified :
      (arch : Text) (d : Map File × Option Text)
      → (downloaded o version exe arch d).restarts ≡ true
      → Verified o version exe arch (downloaded o version exe arch d)
  downloaded-Verified arch (files, some e) h = absurd (cc)
  downloaded-Verified arch (files, none) h =
      verified-Verified arch
        (verify_checksum o.sha256 o.net o.disk (tmp_path exe) (binary_name arch)
          (checksums_url version) files)
        files refl h

-- Where the program stands, and the architecture.
abbrev pub Replaced : Outside → Text → Updated → Type 0
Replaced o version u =
    (exe : Text) × (arch : Text) × (o.executable ≡ ok exe)
    × (architecture o.goarch ≡ some arch)
    × Verified o version exe arch u

update_as-Replaced :
    (o : Outside) (version : Text) (files : Map File) (arch : Text) (r : Result Text)
    → o.executable ≡ r
    → architecture o.goarch ≡ some arch
    → (update_as o version files arch r).restarts ≡ true
    → Replaced o version (update_as o version files arch r)
update_as-Replaced o version files arch (err e) x g h = absurd (cc)
update_as-Replaced o version files arch (ok exe) x g h = (
  exe,
  arch,
  x,
  g,
  downloaded-Verified o version exe arch
      (download_binary o.net o.disk (download_url version arch) (tmp_path exe) files) h,
)

update_version-Replaced :
    (o : Outside) (version : Text) (files : Map File) (arch : Option Text)
    → architecture o.goarch ≡ arch
    → (update_version o version files arch).restarts ≡ true
    → Replaced o version (update_version o version files arch)
update_version-Replaced o version files none g h = absurd (cc)
update_version-Replaced o version files (some arch) g h =
    update_as-Replaced o version files arch o.executable refl g h

-- If an update asks for the restart, then a version was given, and at the place of the program there is
-- an executable file whose SHA-256 is the one that the release's SHA256SUMS, answered with status 200,
-- lists for the binary of this architecture.
pub update_restarts :
    (o : Outside) (version : Text) (files : Map File)
    → (update o (some version) files).restarts ≡ true
    → Replaced o version (update o (some version) files)
unfolding update
update_restarts o [] files h = absurd (cc)
update_restarts o (c ∷ s) files h =
    update_version-Replaced o (c ∷ s) files (architecture o.goarch) refl h
