-- ===== src/Api/Binaries/Checked.antt =====
-- What a checksum that internal/api/handlers/system.go accepted says of the file.
use dockhand.Prelude.{
  ◌≡◌, refl, ap, sym, Option, none, some, arith, Text, text_eq, eq_of-text_eq, Map, lookup, Result,
  ok, err, Bool-cases, inl, inr,
}
use dockhand.Api.Downloads.{Link, Answer, Hop, get}
use dockhand.Api.Binaries.{
  File, Disk, listed_hash, compare_hash, hash_file, open_hashed, check_listed, check_sums,
  verify_checksum,
}

module _ (sha256 : Text → Text) where
  compare_hash_eq :
      (actual expected : Text) → compare_hash sha256 actual expected ≡ none → actual ≡ expected
  compare_hash_eq actual expected h = elim (Bool-cases (text_eq actual expected)) [
    | inl e ↦ eq_of-text_eq actual expected e
    | inr e ↦ absurd (ground arith)
  ]

  hash_file_eq :
      (d : Disk) (path expected : Text) (found : Option File)
      → hash_file sha256 d path expected found ≡ none
      → (f : File) × (found ≡ some f) × (sha256 f.content ≡ expected)
  hash_file_eq d path expected none h = absurd (cc)
  hash_file_eq d path expected (some f) h =
      (f, refl, compare_hash_eq (sha256 f.content) expected (ground arith))

  open_hashed_eq :
      (d : Disk) (path : Text) (files : Map File) (expected : Text)
      → open_hashed sha256 d path files expected ≡ none
      → (f : File) × (lookup path files ≡ some f) × (sha256 f.content ≡ expected)
  open_hashed_eq d path files expected h =
      hash_file_eq d path expected (lookup path files) (ground arith)

  check_listed_eq :
      (d : Disk) (path name : Text) (files : Map File) (listed : Option Text)
      → check_listed sha256 d path name files listed ≡ none
      → (f : File) × (lookup path files ≡ some f) × (listed ≡ some (sha256 f.content))
  check_listed_eq d path name files none h = absurd (cc)
  check_listed_eq d path name files (some expected) h =
      let (f, found, same) = open_hashed_eq d path files expected (ground arith) in
      (f, found, ap some (sym same))

  check_sums_eq :
      (d : Disk) (path name : Text) (files : Map File) (r : Result Answer)
      → check_sums sha256 d path name files r ≡ none
      → (a : Answer) × (r ≡ ok a)
        × (a.status ≡ 200)
        × ((f : File) × (lookup path files ≡ some f)
            × (listed_hash name a.body ≡ some (sha256 f.content)))
  check_sums_eq d path name files (err e) h = absurd (cc)
  check_sums_eq d path name files (ok a) h = (
    a,
    refl,
    ground arith,
    check_listed_eq d path name files (listed_hash name a.body) (ground arith),
  )

  -- A file passes only if the sums of the release were answered with status 200 and list its hash under
  -- the name.
  pub verify_checksum_listed :
      (net : Link → Hop) (d : Disk) (path name url : Text) (files : Map File)
      → verify_checksum sha256 net d path name url files ≡ none
      → (a : Answer) × (get net url ≡ ok a)
        × (a.status ≡ 200)
        × ((f : File) × (lookup path files ≡ some f)
            × (listed_hash name a.body ≡ some (sha256 f.content)))
  unfolding verify_checksum
  verify_checksum_listed net d path name url files h =
      check_sums_eq d path name files (get net url) h
