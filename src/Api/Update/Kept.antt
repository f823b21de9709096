-- ===== src/Api/Update/Kept.antt =====
-- What an update of internal/api/handlers/system.go that fails leaves in the file system.
use dockhand.Prelude.{
  ℕ, suc, ◌+◌, ◌≡◌, ◌≢◌, ◌⊎◌, refl, ap, sym, ◌∙◌, true, false, Option, none, some, ◌++◌, [], ◌∷◌,
  ◌==◌, arith, Text, codes, text_eq, eq_of-text_eq, text_eq_refl, Map, lookup, delete,
  lookup-delete, map_laws, Result, ok, err, length, length-append, Bool-cases, inl, inr, take,
  subst,
}
use dockhand.Api.Downloads.{Answer, get}
use dockhand.Api.Binaries.{
  File, Disk, verify_checksum, download_binary, write_file, copied, saved, opened,
  max_binary_download_bytes,
}
use dockhand.Api.Update.{
  Outside, Updated, architecture, tmp_path, binary_name, checksums_url, download_url, set_mode,
  discard, renamed, made_executable, verified, downloaded, update_as, update_version, update,
}

-- The file at k is as it was, if k is not the path that is written.
module _ (k path : Text) (other : text_eq path k ≡ false) where
  lookup-write_file :
      (content : Text) (files : Map File)
      → lookup k (write_file path content files) ≡ lookup k files
  lookup-write_file content files = grind (arith, map_laws, other)

  lookup-copied :
      (sync : Option Text) (copy : Option (ℕ × Text)) (body : Text) (files : Map File)
      → lookup k (copied sync copy path body files).0 ≡ lookup k files
  lookup-copied sync none body files = lookup-write_file body files
  lookup-copied sync (some (n, e)) body files = lookup-write_file (take n body) files

  lookup-opened :
      (d : Disk) (e : Option Text) (body : Text) (files : Map File)
      → lookup k (opened d e path body files).0 ≡ lookup k files
  lookup-opened d none body files = lookup-copied d.sync_fault d.copy_fault body files
  lookup-opened d (some e) body files = refl

  lookup-saved :
      (d : Disk) (files : Map File) (r : Result Answer)
      → lookup k (saved d path files r).0 ≡ lookup k files
  lookup-saved d files (err e) = refl
  lookup-saved d files (ok a) = elim (Bool-cases (a.status == 200)) [
    | inl e ↦ rw e (lookup-opened d d.open_fault (take max_binary_download_bytes a.body) files)
    | inr e ↦ rw e refl
  ]

  lookup-set_mode :
      (mode : ℕ) (f : Option File) (files : Map File)
      → lookup k (set_mode mode f path files) ≡ lookup k files
  lookup-set_mode mode none files = refl
  lookup-set_mode mode (some f) files = grind (arith, map_laws, other)

  lookup-delete_other : (files : Map File) → lookup k (delete path files) ≡ lookup k files
  lookup-delete_other files = grind (arith, map_laws, other)

-- Every other file is as it was, and the new one is gone if it can be removed.
abbrev pub Cleaned : Outside → Text → Map File → Updated → Type 0
Cleaned o exe before u =
    ((k : Text) → text_eq (tmp_path exe) k ≡ false → lookup k u.files ≡ lookup k before)
    × (o.disk.removable ≡ true → lookup (tmp_path exe) u.files ≡ none)

abbrev Same : Text → Map File → Map File → Type 0
Same exe before files =
    (k : Text) → text_eq (tmp_path exe) k ≡ false → lookup k files ≡ lookup k before

module _ (o : Outside) (version exe : Text) (before : Map File) where
  discard-Cleaned :
      (message : Text) (files : Map File)
      → Same exe before files
      → Cleaned o exe before (discard o version exe message files)
  discard-Cleaned message files same = elim (Bool-cases o.disk.removable) [
    | inl e ↦ (
      λ k other. rw e (lookup-delete_other k (tmp_path exe) other files ∙ same k other),
      λ r. rw e (
          lookup-delete (tmp_path exe) (tmp_path exe) files
          ∙ rw (text_eq_refl (tmp_path exe)) refl),
    )
    | inr e ↦ (λ k other. rw e (same k other), λ r. absurd (ground arith))
  ]

  renamed-Cleaned :
      (fault : Option Text) (files : Map File)
      → Same exe before files
      → (renamed o version exe fault files).restarts ≡ false
      → Cleaned o exe before (renamed o version exe fault files)
  renamed-Cleaned (some e) files same h =
      discard-Cleaned (codes "binary replace failed: " ++ e) files same
  renamed-Cleaned none files same h = absurd (cc)

  made_executable-Cleaned :
      (fault : Option Text) (files : Map File)
      → Same exe before files
      → (made_executable o version exe fault files).restarts ≡ false
      → Cleaned o exe before (made_executable o version exe fault files)
  made_executable-Cleaned (some e) files same h =
      discard-Cleaned (codes "chmod failed: " ++ e) files same
  made_executable-Cleaned none files same h =
      renamed-Cleaned o.disk.rename_fault
        (set_mode 493 (lookup (tmp_path exe) files) (tmp_path exe) files)
        (λ k other.
          lookup-set_mode k (tmp_path exe) other 493 (lookup (tmp_path exe) files) files
          ∙ same k other)
        h

  verified-Cleaned :
      (fault : Option Text) (files : Map File)
      → Same exe before files
      → (verified o version exe fault files).restarts ≡ false
      → Cleaned o exe before (verified o version exe fault files)
  verified-Cleaned (some e) files same h =
      discard-Cleaned (codes "checksum verification failed: " ++ e) files same
  verified-Cleaned none files same h = made_executable-Cleaned o.disk.chmod_fault files same h

  downloaded-Cleaned :
      (arch : Text) (d : Map File × Option Text)
      → Same exe before d.0
      → (downloaded o version exe arch d).restarts ≡ false
      → Cleaned o exe before (downloaded o version exe arch d)
  downloaded-Cleaned arch (files, some e) same h =
      discard-Cleaned (codes "download failed: " ++ e) files same
  downloaded-Cleaned arch (files, none) same h =
      verified-Cleaned
        (verify_checksum o.sha256 o.net o.disk (tmp_path exe) (binary_name arch)
          (checksums_url version) files)
        files same h

append-ne : (c : ℕ) (s t : Text) → s ++ c ∷ t ≢ s
append-ne c s t e =
    let longer : length s + suc (length t) ≡ length s =
      sym (length-append s (c ∷ t)) ∙ ap length e in
    omega arith

-- The program does not stand where its update is written.
tmp_path-other : (exe : Text) → text_eq (tmp_path exe) exe ≡ false
tmp_path-other exe = elim (Bool-cases (text_eq (tmp_path exe) exe)) [
  | inl e ↦ absurd (append-ne b'.' exe (codes "update") (eq_of-text_eq (tmp_path exe) exe e))
  | inr e ↦ e
]

abbrev pub Kept : Outside → Text → Map File → Updated → Type 0
Kept o exe before u =
    (lookup exe u.files ≡ lookup exe before) × ((u.files ≡ before) ⊎ Cleaned o exe before u)

update_as-Kept :
    (o : Outside) (version exe : Text) (files : Map File) (arch : Text)
    → (update_as o version files arch (ok exe)).restarts ≡ false
    → Kept o exe files (update_as o version files arch (ok exe))
unfolding download_binary
update_as-Kept o version exe files arch h =
    let cleaned =
      downloaded-Cleaned o version exe files arch
        (download_binary o.net o.disk (download_url version arch) (tmp_path exe) files)
        (λ k other.
          lookup-saved k (tmp_path exe) other o.disk files (get o.net (download_url version arch)))
        h in
    (cleaned.0 exe (tmp_path-other exe), inr cleaned)

update_version-Kept :
    (o : Outside) (version exe : Text) (files : Map File) (arch : Option Text)
    → o.executable ≡ ok exe
    → (update_version o version files arch).restarts ≡ false
    → Kept o exe files (update_version o version files arch)
update_version-Kept o version exe files none x h = (refl, inl refl)
update_version-Kept o version exe files (some arch) x h =
    let same : update_version o version files (some arch)
        ≡ update_as o version files arch (ok exe) =
      ap (update_as o version files arch) x in
    subst (Kept o exe files) (sym same)
      (update_as-Kept o version exe files arch (ap (λ (u : Updated). u.restarts) (sym same) ∙ h))

-- If an update does not ask for the restart, then the program is the file that it was; and either no
-- file at all was touched, or no other file than the download was, and the download is gone if it could
-- be removed.
pub update_fails :
    (o : Outside) (exe : Text) (version : Option Text) (files : Map File)
    → o.executable ≡ ok exe
    → (update o version files).restarts ≡ false
    → Kept o exe files (update o version files)
unfolding update
update_fails o exe none files x h = (refl, inl refl)
update_fails o exe (some []) files x h = (refl, inl refl)
update_fails o exe (some (c ∷ s)) files x h =
    update_version-Kept o (c ∷ s) exe files (architecture o.goarch) x h
