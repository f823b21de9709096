-- ===== src/Docker/Compose/Commands.antt =====
-- The commands that an upgrade by Compose in internal/docker/upgrade.go runs.
use dockhand.Prelude.{
  ◌≡◌, refl, ap, sym, ◌∙◌, Bool, true, false, Option, none, some, List, [], ◌∷◌, ◌++◌, Text,
  is_empty, Result, ok, err, Bool-cases, inl, inr, arith, All, subst,
}
use dockhand.Docker.Records.{ContainerInfo}
use dockhand.Docker.Upgrade.{UpgradeResult}
use dockhand.Docker.Compose.{
  Host, Composed, compose_names, join_path, first_file, find_compose_file, found_or_missing,
  pull_args, up_args, recreated, pulled_to, composed_in, upgrade_compose,
}

-- The file is the first of these names in the directory that is there.
abbrev pub IsFirst : (Text → Bool) → Text → List Text → Text → Type 0
IsFirst exists dir names file =
    (before : List Text) × (name : Text) × (after : List Text) × (names ≡ before ++ name ∷ after)
    × (file ≡ join_path dir name)
    × (exists file ≡ true)
    × All (λ n. exists (join_path dir n) ≡ false) before

first_file-IsFirst :
    (exists : Text → Bool) (dir : Text) (names : List Text) (file : Text)
    → first_file exists dir names ≡ some file
    → IsFirst exists dir names file
unfolding first_file
first_file-IsFirst exists dir [] file h = absurd (cc)
first_file-IsFirst exists dir (n ∷ ns) file h = elim (Bool-cases (exists (join_path dir n))) [
  | inl e ↦
      let same : join_path dir n ≡ file = ground arith in
      ([], n, ns, refl, sym same, ap exists (sym same) ∙ e, tt)
  | inr e ↦
      let (before, name, after, split, path, there, missing) =
        first_file-IsFirst exists dir ns file (ground arith) in
      (n ∷ before, name, after, ap (λ xs. n ∷ xs) split, path, there, (e, missing))
]

found_ok :
    (dir : Text) (found : Option Text) (file : Text)
    → found_or_missing dir found ≡ ok file
    → found ≡ some file
found_ok dir none file h = absurd (cc)
found_ok dir (some path) file h = ground arith

find_compose_file-IsFirst :
    (exists : Text → Bool) (dir : Text) (file : Text)
    → find_compose_file exists dir ≡ ok file
    → IsFirst exists dir compose_names file
unfolding find_compose_file
find_compose_file-IsFirst exists dir file h =
    first_file-IsFirst exists dir compose_names file
      (found_ok dir (first_file exists dir compose_names) file h)

-- What an upgrade that succeeded did: pull with the first compose file of the directory, and then up.
abbrev pub Recreated : Host → Text → ContainerInfo → UpgradeResult → Composed → Type 0
Recreated h binary info u c =
    (file : Text) × IsFirst h.exists info.compose_working_dir compose_names file
    × (c.commands ≡ pull_args binary info file ∷ up_args binary info file ∷ [])
    × (h.pulled.error ≡ none)
    × (h.started.error ≡ none)
    × (u.old_image ≡ info.image)

module _ (h : Host) (binary : Text) (info : ContainerInfo) (u : UpgradeResult) where
  recreated_ok :
      (e : Option Text)
      → (recreated h binary info e).result ≡ ok u
      → (e ≡ none) × (u.old_image ≡ info.image) × ((recreated h binary info e).commands ≡ [])
  recreated_ok none r = (refl, ground arith, refl)
  recreated_ok (some e) r = absurd (cc)

  pulled_to_ok :
      (file : Text) (e : Option Text)
      → (pulled_to h binary info file e).result ≡ ok u
      → (e ≡ none)
        × (h.started.error ≡ none)
        × (u.old_image ≡ info.image)
        × ((pulled_to h binary info file e).commands ≡ up_args binary info file ∷ [])
  pulled_to_ok file none r =
      let (started, image, rest) = recreated_ok h.started.error r in
      (refl, started, image, ap (λ cs. up_args binary info file ∷ cs) rest)
  pulled_to_ok file (some e) r = absurd (cc)

  composed_in_ok :
      (file : Result Text)
      → find_compose_file h.exists info.compose_working_dir ≡ file
      → (composed_in h binary info file).result ≡ ok u
      → Recreated h binary info u (composed_in h binary info file)
  composed_in_ok (err e) found r = absurd (cc)
  composed_in_ok (ok file) found r =
      let (pulled, started, image, rest) = pulled_to_ok file h.pulled.error r in
      (
        file,
        find_compose_file-IsFirst h.exists info.compose_working_dir file found,
        ap (λ cs. pull_args binary info file ∷ cs) rest,
        pulled,
        started,
        image,
      )

  -- An upgrade by Compose that succeeds ran two commands and no other, for the service of the container and
  -- with the first of the four compose files that is in the project's directory: the pull, which
  -- succeeded, and then the creation, which succeeded.
  pub upgrade_compose_commands :
      (upgrade_compose h binary info).result ≡ ok u
      → Recreated h binary info u (upgrade_compose h binary info)
  unfolding upgrade_compose
  upgrade_compose_commands r = elim (Bool-cases (is_empty info.compose_working_dir)) [
    | inl e ↦ absurd (ground arith)
    | inr e ↦
        let found = find_compose_file h.exists info.compose_working_dir in
        let same : upgrade_compose h binary info ≡ composed_in h binary info found =
          rw (upgrade_compose, e) refl in
        subst (Recreated h binary info u) (sym same)
          (composed_in_ok found refl (ap (λ (c : Composed). c.result) (sym same) ∙ r))
  ]
