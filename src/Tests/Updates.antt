-- ===== src/Tests/Updates.antt =====
-- The self-update of internal/api/handlers/system.go at concrete inputs.
use dockhand.Prelude.{
  ◌≡◌, ◌≢◌, refl, true, false, none, some, [], ◌∷◌, All, Text, codes, text_eq, if◌then◌else◌, Map,
  ok,
}
use dockhand.Api.Downloads.{Link, Hop, answered, redirected, allowed, github, follow}
use dockhand.Api.Downloads.Redirects.{follow_trusted}
use dockhand.Api.Binaries.{File, Disk}
use dockhand.Api.Update.{Outside, checksums_url, update}
use dockhand.Api.Update.Replaced.{Replaced, update_restarts}
use dockhand.Api.Update.Kept.{Kept, update_fails}

abbrev circle : Link → Hop
circle l = redirected (record { host = github; url = codes "https://github.com/again" })

follow_trusted_example :
    ((follow circle github 11 0 (record { host = github; url = codes "https://github.com/x" })).end
      ≢ none)
    × All
        (λ host. allowed host ≡ true)
        (follow circle github 11 0
          (record { host = github; url = codes "https://github.com/x" })).asked
follow_trusted_example = follow_trusted circle (codes "https://github.com/x")

abbrev version : Text
version = codes "v1.2"

abbrev good_disk : Disk
good_disk = record {
  open_fault = none;
  copy_fault = none;
  sync_fault = none;
  reopen_fault = none;
  hash_fault = none;
  chmod_fault = none;
  rename_fault = none;
  removable = true;
}

abbrev answers : Text → Link → Hop
answers sums l = answered (record {
  status = 200;
  body = if text_eq l.url (checksums_url version) then sums else codes "program";
})

-- SHA-256 of the only file there is.
abbrev outside : Text → Outside
outside sums = record {
  net = answers sums;
  sha256 = λ s. codes "ab12";
  disk = good_disk;
  goarch = codes "amd64";
  executable = ok (codes "/d");
}

abbrev listed : Text
listed = codes "ff  dockhand-linux-arm64\nab12  dockhand-linux-amd64\n"

abbrev installed : Map File
installed = (codes "/d", record { content = codes "old"; mode = 493 }) ∷ []

listed_restarts : (update (outside listed) (some version) installed).restarts ≡ true
unfolding update
listed_restarts = refl

update_restarts_example :
    Replaced (outside listed) version (update (outside listed) (some version) installed)
update_restarts_example = update_restarts (outside listed) version installed listed_restarts

unlisted_fails : (update (outside (codes "")) (some version) installed).restarts ≡ false
unfolding update
unlisted_fails = refl

update_fails_example :
    Kept
      (outside (codes ""))
      (codes "/d")
      installed
      (update (outside (codes "")) (some version) installed)
update_fails_example =
    update_fails (outside (codes "")) (codes "/d") (some version) installed refl unlisted_fails
