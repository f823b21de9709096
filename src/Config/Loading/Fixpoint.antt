-- ===== src/Config/Loading/Fixpoint.antt =====
-- Applying the defaults of internal/config/config.go a second time.
use dockhand.Prelude.{
  zero, suc, inl, inr, ◌≡◌, refl, Bool, true, false, [], ◌∷◌, Option-cases, Text, codes, to_lower,
  Map, lookup, Result, ℤ, pos, negsuc,
}
use dockhand.Config.{AppOperation, App, Operation, Config}
use dockhand.Config.Loading.{
  or_text, or_timeout, or_port, map_entries, default_socket, default_compose_binary, fill_operation,
  fill_app_operation, managed_check, fill_app, migrate_operation, migrated, name_of, apply_defaults,
  package_manager_commands,
}

or_text_twice : (s d : Text) → or_text (or_text s d) d ≡ or_text s d
or_text_twice [] [] = refl
or_text_twice [] (c ∷ d) = refl
or_text_twice (c ∷ s) d = refl

or_timeout_twice : (n : ℤ) (b : Bool) → or_timeout (or_timeout n b) b ≡ or_timeout n b
or_timeout_twice (pos zero) true = refl
or_timeout_twice (pos zero) false = refl
or_timeout_twice (pos (suc n)) b = refl
or_timeout_twice (negsuc n) b = refl

or_port_twice : (n : ℤ) → or_port (or_port n) ≡ or_port n
or_port_twice (pos zero) = refl
or_port_twice (pos (suc n)) = refl
or_port_twice (negsuc n) = refl

fill_operation_twice :
    (name : Text) (op : Operation)
    → fill_operation name (fill_operation name op) ≡ fill_operation name op
fill_operation_twice name op =
    rw (or_timeout_twice op.timeout op.persistent, or_text_twice op.working_dir (codes "/"))

fill_app_operation_twice :
    (name : Text) (op : AppOperation)
    → fill_app_operation name (fill_app_operation name op) ≡ fill_app_operation name op
fill_app_operation_twice name op = rw (
  or_timeout_twice op.timeout op.persistent,
  or_text_twice op.working_dir (codes "/"),
  or_text_twice op.label name,
)

map_entries_twice :
    {V : Type 0} (f : Text → V → V)
    → ((k : Text) (v : V) → f k (f k v) ≡ f k v)
    → (m : Map V) → map_entries f (map_entries f m) ≡ map_entries f m
map_entries_twice f h [] = refl
map_entries_twice f h ((k, v) ∷ m) = rw (h k v, map_entries_twice f h m)

managed_check_twice :
    (manager check : Text)
    → managed_check manager (managed_check manager check) ≡ managed_check manager check
unfolding managed_check
managed_check_twice [] check = refl
managed_check_twice (c ∷ manager) check =
    elim (Option-cases (lookup (to_lower (c ∷ manager)) package_manager_commands)) [
      | inl e ↦ rw e refl
      | inr (x, e) ↦ rw e refl
    ]

fill_app_twice : (name : Text) (app : App) → fill_app name (fill_app name app) ≡ fill_app name app
fill_app_twice name app = rw (
  map_entries_twice fill_app_operation fill_app_operation_twice app.operations,
  managed_check_twice app.package_manager app.system_update_check,
)

-- An app made of a filled operation is filled.
fill_app-migrate_operation :
    (name : Text) (op : Operation)
    → fill_app name (migrate_operation name (fill_operation name op))
      ≡ migrate_operation name (fill_operation name op)
unfolding managed_check
fill_app-migrate_operation name op =
    rw (or_timeout_twice op.timeout op.persistent, or_text_twice op.working_dir (codes "/"))

fill_migrated :
    (ops : Map Operation)
    → map_entries fill_app (map_entries migrate_operation (map_entries fill_operation ops))
      ≡ map_entries migrate_operation (map_entries fill_operation ops)
fill_migrated [] = refl
fill_migrated ((k, op) ∷ ops) = rw (fill_app-migrate_operation k op, fill_migrated ops)

migrated_twice :
    (ops : Map Operation) (apps : Map App) → migrated ops (migrated ops apps) ≡ migrated ops apps
migrated_twice [] [] = refl
migrated_twice (op ∷ ops) [] = refl
migrated_twice ops (a ∷ apps) = refl

fill_migrated_apps :
    (ops : Map Operation) (apps : Map App)
    → map_entries fill_app (migrated (map_entries fill_operation ops) (map_entries fill_app apps))
      ≡ migrated (map_entries fill_operation ops) (map_entries fill_app apps)
fill_migrated_apps ops [] = fill_migrated ops
fill_migrated_apps ops ((k, a) ∷ apps) =
    rw (fill_app_twice k a, map_entries_twice fill_app fill_app_twice apps)

-- A configuration with its defaults, those of the apps that the old operations were turned into among
-- them, stays as it is when the defaults are applied to it again.
apply_defaults_twice :
    (hostname : Result Text) (cfg : Config)
    → apply_defaults hostname (apply_defaults hostname cfg) ≡ apply_defaults hostname cfg
unfolding apply_defaults
apply_defaults_twice hostname cfg =
    let ops = map_entries fill_operation cfg.operations in
    rw (
      or_port_twice cfg.server.port,
      or_text_twice cfg.runner.name (name_of hostname),
      or_text_twice cfg.docker.socket default_socket,
      or_text_twice cfg.docker.compose_binary default_compose_binary,
      map_entries_twice fill_operation fill_operation_twice cfg.operations,
      fill_migrated_apps cfg.operations cfg.apps,
      migrated_twice ops (map_entries fill_app cfg.apps),
    )
