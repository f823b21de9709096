-- ===== src/Api/Update.antt =====
-- internal/api/handlers/system.go: Update, which replaces the program by a release. A fault of the file
-- system is a part of `Disk`; the restart by systemd comes back as a Boolean.
pub mod Replaced
pub mod Kept
use dockhand.Prelude.{
  ℕ, Bool, true, false, Option, none, some, [], ◌∷◌, ◌++◌, if◌then◌else◌, ◌==◌, Text, codes,
  text_eq, is_empty, Map, lookup, insert, delete, Result, ok, err,
}
use dockhand.Api.{Response, json, failed}
use dockhand.Api.Downloads.{Link, Hop}
use dockhand.Api.Binaries.{File, Disk, download_binary, verify_checksum}

pub record Outside : Type 0 where
  pub net : Link → Hop
  pub sha256 : Text → Text
  pub disk : Disk
  pub goarch : Text
  pub executable : Result Text

-- The files after it, the response with the version, and whether a restart was asked for.
pub record Updated : Type 0 where
  pub files : Map File
  pub response : Response Text
  pub restarts : Bool

abbrev pub refuse : ℕ → Text → Map File → Updated
refuse status message files = record {
  files = files;
  response = failed status message;
  restarts = false;
}

abbrev pub architecture : Text → Option Text
architecture goarch =
    if text_eq goarch (codes "amd64")
    then some goarch
    else if text_eq goarch (codes "arm64")
    then some goarch
    else if text_eq goarch (codes "arm")
    then some (codes "armv7")
    else none

abbrev without_v : Text → Text
without_v [] = []
without_v (c ∷ s) = if c == b'v' then s else c ∷ s

abbrev pub tmp_path : Text → Text
tmp_path exe = exe ++ codes ".update"

abbrev release : Text → Text
release version =
    codes "https://github.com/dockedapp/dockhand/releases/download/v" ++ without_v version

abbrev pub binary_name : Text → Text
binary_name arch = codes "dockhand-linux-" ++ arch

abbrev pub download_url : Text → Text → Text
download_url version arch = release version ++ (codes "/" ++ binary_name arch)

abbrev pub checksums_url : Text → Text
checksums_url version = release version ++ codes "/SHA256SUMS"

-- os.Chmod and os.Rename of a file that is there
abbrev pub set_mode : ℕ → Option File → Text → Map File → Map File
set_mode mode none path files = files
set_mode mode (some f) path files = insert path (record f { mode = mode }) files

abbrev pub move : Option File → Text → Text → Map File → Map File
move none src dst files = files
move (some f) src dst files = insert dst f (delete src files)

module _ (o : Outside) (version exe : Text) where
  -- The new file is removed, and the request fails.
  abbrev pub discard : Text → Map File → Updated
  discard message files =
      refuse 500 message (if o.disk.removable then delete (tmp_path exe) files else files)

  abbrev pub renamed : Option Text → Map File → Updated
  renamed (some e) files = discard (codes "binary replace failed: " ++ e) files
  renamed none files = record {
    files = move (lookup (tmp_path exe) files) (tmp_path exe) exe files;
    response = json version;
    restarts = true;
  }

  abbrev pub made_executable : Option Text → Map File → Updated
  made_executable (some e) files = discard (codes "chmod failed: " ++ e) files
  made_executable none files =
      renamed o.disk.rename_fault (set_mode 493 (lookup (tmp_path exe) files) (tmp_path exe) files)

  abbrev pub verified : Option Text → Map File → Updated
  verified (some e) files = discard (codes "checksum verification failed: " ++ e) files
  verified none files = made_executable o.disk.chmod_fault files

  abbrev pub downloaded : Text → Map File × Option Text → Updated
  downloaded arch (files, some e) = discard (codes "download failed: " ++ e) files
  downloaded arch (files, none) =
      verified
        (verify_checksum o.sha256 o.net o.disk (tmp_path exe) (binary_name arch)
          (checksums_url version) files)
        files

abbrev pub update_as : Outside → Text → Map File → Text → Result Text → Updated
update_as o version files arch (err e) =
    refuse 500 (codes "cannot determine binary path: " ++ e) files
update_as o version files arch (ok exe) =
    downloaded o version exe arch
      (download_binary o.net o.disk (download_url version arch) (tmp_path exe) files)

abbrev pub update_version : Outside → Text → Map File → Option Text → Updated
update_version o version files none =
    refuse 400 (codes "unsupported architecture: " ++ o.goarch) files
update_version o version files (some arch) = update_as o version files arch o.executable

-- Update; the version of the request, if its body could be decoded
unfoldable pub update : Outside → Option Text → Map File → Updated
unfolding download_binary verify_checksum lookup insert delete text_eq
update o none files = refuse 400 (codes "version is required") files
update o (some version) files =
    if is_empty version
    then refuse 400 (codes "version is required") files
    else update_version o version files (architecture o.goarch)
