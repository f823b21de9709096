-- ===== src/Docker/Upgrade.antt =====
-- internal/docker/upgrade.go: the upgrade of a container. What the engine answers is the argument `Engine`;
-- the calls that change something there are listed in their order, and so are the lines of progress, in
-- which an arrow and a check mark are one code each.
use dockhand.Prelude.{
  ◌≡◌, any_of, arith, ℕ, Bool, true, false, Option, none, some, List, [], ◌∷◌, ◌++◌, Text, codes,
  itoa, pos, Result, ok, err,
}
use dockhand.Docker.{without_slash}
use dockhand.Docker.Records.{ContainerInfo}
use dockhand.Docker.Pulling.{Pulled}
use dockhand.Docker.Networks.{short_id}

-- A call that changes something in the engine; a container is given by its id or its name,
-- and a new one has the configuration that was inspected.
pub data Call : Type 0 where
  pull_image : Text → Call
  stop : Text → Call
  rename : Text → Text → Call
  create : Text → Text → Call
  start : Text → Call
  remove : Text → Call

-- What the engine answers in one upgrade: errors, or what was asked for. The errors of the calls that
-- roll back and of the removal at the end are ignored by the code.
pub record Engine : Type 0 where
  pub image_ref : Result Text
  pub inspected_name : Text
  pub inspected_image : Text
  pub pulled : Pulled
  pub new_image : Result Text
  pub stopped : Option Text
  pub unix_now : ℕ
  pub renamed : Option Text
  pub created : Result Text
  pub started : Option Text

pub record UpgradeResult : Type 0 where
  pub strategy : Text
  pub old_image : Text
  pub new_image : Text

pub record Upgrade : Type 0 where
  pub calls : List Call
  pub lines : List Text
  pub result : Result UpgradeResult

abbrev backup_name : Engine → Text
backup_name m = without_slash m.inspected_name ++ codes "_old_" ++ itoa (pos m.unix_now)

abbrev original_name : Engine → Text
original_name m = without_slash m.inspected_name

-- The calls made so far, and the end of the upgrade.
abbrev fails_with : List Call → Text → Upgrade
fails_with calls e = record { calls = calls; lines = []; result = err e }

abbrev pub before : Call → Upgrade → Upgrade
before c u = record u { calls = c ∷ u.calls }

-- A line of progress, and lines in front of the others
abbrev says : Text → Upgrade → Upgrade
says l u = record u { lines = l ∷ u.lines }

abbrev prints : List Text → Upgrade → Upgrade
prints ls u = record u { lines = ls ++ u.lines }

abbrev complete_line : Engine → Text → Text
complete_line m image =
    codes "✓ Upgrade complete  old="
    ++ (short_id m.inspected_image ++ (codes "  new=" ++ short_id image))

module _ (m : Engine) (id ref : Text) where
  abbrev started_new : Text → Text → Option Text → Upgrade
  started_new image new (some e) =
      fails_with (start new ∷ remove new ∷ rename (backup_name m) (original_name m) ∷ start id ∷ [])
        (codes "start: " ++ e ++ codes " (rolled back)")
  started_new image new none = record {
    calls = start new ∷ remove (backup_name m) ∷ [];
    lines = codes "Removing old container..." ∷ [] ∷ complete_line m image ∷ [];
    result = ok (record { strategy = codes "standalone"; old_image = ref; new_image = image });
  }

  abbrev created_new : Text → Result Text → Upgrade
  created_new image (err e) =
      fails_with
        (create (original_name m) ref ∷ rename (backup_name m) (original_name m) ∷ start id ∷ [])
        (codes "create: " ++ e ++ codes " (rolled back)")
  created_new image (ok new) =
      before (create (original_name m) ref)
        (says (codes "Starting new container...") (started_new image new m.started))

  abbrev renamed_old : Text → Option Text → Upgrade
  renamed_old image (some e) =
      fails_with (rename id (backup_name m) ∷ start id ∷ []) (codes "rename backup: " ++ e)
  renamed_old image none =
      before (rename id (backup_name m))
        (says (codes "Creating new container...") (created_new image m.created))

  abbrev stopped_old : Text → Option Text → Upgrade
  stopped_old image (some e) = fails_with (stop id ∷ []) (codes "stop: " ++ e)
  stopped_old image none = before (stop id) (renamed_old image m.renamed)

  abbrev inspected_new : Result Text → Upgrade
  inspected_new (err e) = fails_with [] (codes "inspect new image: " ++ e)
  inspected_new (ok image) =
      prints ([] ∷ codes "Stopping container..." ∷ []) (stopped_old image m.stopped)

  abbrev pulled_new : Option Text → Upgrade
  pulled_new (some e) = fails_with [] (codes "pull: " ++ e)
  pulled_new none = inspected_new m.new_image

abbrev inspected_old : Engine → Text → Result Text → Upgrade
inspected_old m id (err e) = fails_with [] (codes "full inspect: " ++ e)
inspected_old m id (ok ref) =
    says (codes "Pulling latest image...")
      (before (pull_image ref) (prints m.pulled.lines (pulled_new m id ref m.pulled.error)))

abbrev standalone_line : ContainerInfo → Text
standalone_line info =
    codes "→ Standalone container: " ++ (info.name ++ (codes "  image: " ++ info.image))

-- upgradeStandalone
unfoldable pub upgrade_standalone : Engine → ContainerInfo → Upgrade
unfolding itoa short_id
upgrade_standalone m info =
    prints (standalone_line info ∷ [] ∷ []) (inspected_old m info.id m.image_ref)

abbrev pub last_call : List Call → Option Call
last_call [] = none
last_call (c ∷ []) = some c
last_call (c ∷ d ∷ cs) = last_call (d ∷ cs)

abbrev is_stop : Call → Bool
is_stop (pull_image r) = false
is_stop (stop c) = true
is_stop (rename c n) = false
is_stop (create n r) = false
is_stop (start c) = false
is_stop (remove c) = false

-- In an upgrade of a container by itself that stopped it and then fails, whether the renaming, the
-- creation or the start of the new container fails, the last call starts the old container again.
pub upgrade_standalone_restarts :
    (m : Engine) (info : ContainerInfo) (e : Text)
    → m.stopped ≡ none
    → any_of is_stop (upgrade_standalone m info).calls ≡ true
    → (upgrade_standalone m info).result ≡ err e
    → last_call (upgrade_standalone m info).calls ≡ some (start info.id)
unfolding upgrade_standalone
upgrade_standalone_restarts m info e h s r = ground arith
