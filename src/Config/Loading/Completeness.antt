-- ===== src/Config/Loading/Completeness.antt =====
-- What a configuration that internal/config/config.go has loaded never lacks.
use dockhand.Prelude.{
  ℕ, arith, List, zero, suc, ◌≡◌, ◌≢◌, refl, Bool, true, false, Option, none, some, [], ◌∷◌,
  Bool-cases, inl, inr, leb, length, All, Text, codes, is_empty, trim_space, Map, Result, ok, err,
  ℤ, pos, negsuc, subst,
}
use dockhand.Config.{AppOperation, App, Operation, Config}
use dockhand.Config.Loading.Keys.{Fills}
use dockhand.Config.Loading.{
  or_text, or_timeout, or_port, map_entries, default_socket, default_compose_binary, fill_operation,
  fill_app_operation, fill_app, migrate_operation, migrated, apply_defaults, apply_env_overrides,
  resolve_api_key, stored_key, fresh_key, generate_key, hex_encode, KeyStore, Outside, load,
  read_config, settle,
}

-- A timeout and a working directory are set.
abbrev IsSettled : ℤ → Text → Type 0
IsSettled timeout dir = (timeout ≢ pos 0) × (is_empty dir ≡ false)

abbrev OpIsSettled : Text × Operation → Type 0
OpIsSettled (name, op) = IsSettled op.timeout op.working_dir

abbrev AppOpIsSettled : Text × AppOperation → Type 0
AppOpIsSettled (name, op) = IsSettled op.timeout op.working_dir

abbrev AppIsSettled : Text × App → Type 0
AppIsSettled (name, app) = All AppOpIsSettled app.operations

pub record IsComplete (c : Config) : Type 0 where
  pub port : c.server.port ≢ pos 0
  pub socket : is_empty c.docker.socket ≡ false
  pub compose_binary : is_empty c.docker.compose_binary ≡ false
  pub operations : All OpIsSettled c.operations
  pub apps : All AppIsSettled c.apps

or_text_set : (s d : Text) → is_empty d ≡ false → is_empty (or_text s d) ≡ false
or_text_set [] d h = h
or_text_set (c ∷ s) d h = refl

or_timeout_set : (n : ℤ) (b : Bool) → or_timeout n b ≢ pos 0
or_timeout_set (pos zero) true = λ e. cc
or_timeout_set (pos zero) false = λ e. cc
or_timeout_set (pos (suc n)) b = λ e. cc
or_timeout_set (negsuc n) b = λ e. cc

or_port_set : (n : ℤ) → or_port n ≢ pos 0
or_port_set (pos zero) = λ e. cc
or_port_set (pos (suc n)) = λ e. cc
or_port_set (negsuc n) = λ e. cc

or_dir-IsSettled :
    (n : ℤ) (b : Bool) (dir : Text) → IsSettled (or_timeout n b) (or_text dir (codes "/"))
or_dir-IsSettled n b dir = (or_timeout_set n b, or_text_set dir (codes "/") refl)

operations-IsSettled : (ops : Map Operation) → All OpIsSettled (map_entries fill_operation ops)
operations-IsSettled [] = tt
operations-IsSettled ((k, op) ∷ ops) =
    (or_dir-IsSettled op.timeout op.persistent op.working_dir, operations-IsSettled ops)

app_operations-IsSettled :
    (ops : Map AppOperation) → All AppOpIsSettled (map_entries fill_app_operation ops)
app_operations-IsSettled [] = tt
app_operations-IsSettled ((k, op) ∷ ops) =
    (or_dir-IsSettled op.timeout op.persistent op.working_dir, app_operations-IsSettled ops)

apps-IsSettled : (apps : Map App) → All AppIsSettled (map_entries fill_app apps)
apps-IsSettled [] = tt
apps-IsSettled ((k, a) ∷ apps) = (app_operations-IsSettled a.operations, apps-IsSettled apps)

migrated_operations-IsSettled :
    (ops : Map Operation)
    → All AppIsSettled (map_entries migrate_operation (map_entries fill_operation ops))
migrated_operations-IsSettled [] = tt
migrated_operations-IsSettled ((k, op) ∷ ops) = (
  (or_dir-IsSettled op.timeout op.persistent op.working_dir, tt),
  migrated_operations-IsSettled ops,
)

migrated-IsSettled :
    (ops : Map Operation) (apps : Map App)
    → All AppIsSettled (migrated (map_entries fill_operation ops) (map_entries fill_app apps))
migrated-IsSettled ops [] = migrated_operations-IsSettled ops
migrated-IsSettled ops (a ∷ apps) = apps-IsSettled (a ∷ apps)

apply_defaults-IsComplete :
    (hostname : Result Text) (cfg : Config) → IsComplete (apply_defaults hostname cfg)
unfolding apply_defaults
apply_defaults-IsComplete hostname cfg = record {
  port = or_port_set cfg.server.port;
  socket = or_text_set cfg.docker.socket default_socket refl;
  compose_binary = or_text_set cfg.docker.compose_binary default_compose_binary refl;
  operations = operations-IsSettled cfg.operations;
  apps = migrated-IsSettled cfg.operations cfg.apps;
}

with_key-IsComplete :
    (c : Config) (key : Text)
    → IsComplete c
    → IsComplete (record c { server = record c.server { api_key = key } })
with_key-IsComplete c key v = record {
  port = v.port;
  socket = v.socket;
  compose_binary = v.compose_binary;
  operations = v.operations;
  apps = v.apps;
}

-- What the key chain returns: the configuration with some key that is set.
abbrev Keyed : Config → Result (Config × Option Text) → Type 0
Keyed cfg (err e) = Unit
Keyed cfg (ok (c, w)) =
    (key : Text) × (c ≡ record cfg { server = record cfg.server { api_key = key } })
    × (is_empty key ≡ false)

long_text_set : (s : Text) → leb 32 (length s) ≡ true → is_empty s ≡ false
long_text_set [] h = cc
long_text_set (c ∷ s) h = refl

hex_encode_set : (b : List ℕ) → length b ≡ 32 → is_empty (hex_encode b) ≡ false
hex_encode_set [] h = absurd (omega (arith, h))
hex_encode_set (x ∷ b) h = refl

fresh_key-Keyed :
    (store : KeyStore) (cfg : Config) (r : Result (List ℕ))
    → Fills r
    → Keyed cfg (fresh_key store cfg (generate_key r))
fresh_key-Keyed store cfg (err e) h = tt
fresh_key-Keyed store cfg (ok b) h = (hex_encode b, refl, hex_encode_set b h)

stored_key-Keyed :
    (store : KeyStore) (cfg : Config) (p : Option Text)
    → Fills store.random
    → Keyed cfg (stored_key store cfg p)
stored_key-Keyed store cfg none h = fresh_key-Keyed store cfg store.random h
stored_key-Keyed store cfg (some kept) h = elim (Bool-cases (leb 32 (length (trim_space kept)))) [
  | inl e ↦ rw e (trim_space kept, refl, long_text_set (trim_space kept) e)
  | inr e ↦ rw e (fresh_key-Keyed store cfg store.random h)
]

resolve_api_key-Keyed :
    (store : KeyStore) (cfg : Config) → Fills store.random → Keyed cfg (resolve_api_key store cfg)
unfolding resolve_api_key
resolve_api_key-Keyed store cfg h = elim (Bool-cases (is_empty cfg.server.api_key)) [
  | inl e ↦ rw e (stored_key-Keyed store cfg store.persisted h)
  | inr e ↦ rw e (cfg.server.api_key, refl, e)
]

settle-IsComplete :
    (o : Outside) (r : Result Config) (c : Config) (written : Option Text)
    → Fills o.key_store.random
    → settle o r ≡ ok (c, written)
    → IsComplete c × (is_empty c.server.api_key ≡ false)
settle-IsComplete o (err m) c written h e = cc
settle-IsComplete o (ok cfg) c written h e =
    let filled = apply_defaults o.hostname (apply_env_overrides o.getenv cfg) in
    let (key, same, set) = subst (Keyed filled) e (resolve_api_key-Keyed o.key_store filled h) in
    rw same (
      with_key-IsComplete filled key
          (apply_defaults-IsComplete o.hostname (apply_env_overrides o.getenv cfg)),
      set,
    )

-- If `Load` succeeds, whatever is in the file and the environment, the port, the socket and the compose
-- binary are set, every operation and every operation of every app, those of apps that operations
-- were turned into included, has a timeout and a working directory, and there is a key, provided that
-- the source of random bytes fills all the 32 bytes it is asked for or fails.
pub load-IsComplete :
    (o : Outside) (path : Text) (c : Config) (written : Option Text)
    → Fills o.key_store.random
    → load o path ≡ ok (c, written)
    → IsComplete c × (is_empty c.server.api_key ≡ false)
unfolding load
load-IsComplete o path c written h e =
    settle-IsComplete o (read_config o.unmarshal path o.file) c written h e
