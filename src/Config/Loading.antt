-- ===== src/Config/Loading.antt =====
-- internal/config/config.go: loading. The environment, the host name, the files that are read and the
-- random bytes of a key are arguments.
pub mod Fixpoint
pub mod Keys
pub mod Completeness
use dockhand.Prelude.{
  zero, suc, ◌&&◌, Bool, true, false, Option, none, some, [], ◌∷◌, ◌++◌, leb, length, if◌then◌else◌,
  or_zero, Text, ℕ, ◌+◌, ◌/◌, ◌%◌, List, ltb, codes, is_empty, trim_space, to_lower, Map, lookup,
  Result, ok, err, ℤ, pos, negsuc, atoi,
}
use dockhand.Config.{AppOperation, App, Operation, Config}

-- s, or d where s is ""
abbrev pub or_text : Text → Text → Text
or_text [] d = d
or_text (c ∷ s) d = c ∷ s

-- The loops over the entries of a map that store each entry again.
abbrev pub map_entries : {V W : Type 0} → (Text → V → W) → Map V → Map W
map_entries f [] = []
map_entries f ((k, v) ∷ m) = (k, f k v) ∷ map_entries f m

abbrev pub default_port : ℤ
default_port = pos 7777

abbrev pub default_socket : Text
default_socket = codes "/var/run/docker.sock"

abbrev pub default_compose_binary : Text
default_compose_binary = codes "docker"

-- defaults
abbrev pub defaults : Config
defaults = record {
  server = record { port = default_port; api_key = []; tls = false };
  runner = record { name = []; url = []; docked_url = []; enrollment_token = [] };
  docker = record {
    enabled = true;
    socket = default_socket;
    compose_binary = default_compose_binary;
  };
  operations = [];
  apps = [];
}

-- A timeout of 0 is replaced: defaultOpTimeout, defaultPersistentOpTimeout.
abbrev pub or_timeout : ℤ → Bool → ℤ
or_timeout (pos zero) persistent = if persistent then pos 3600 else pos 300
or_timeout (pos (suc n)) persistent = pos (suc n)
or_timeout (negsuc n) persistent = negsuc n

abbrev pub or_port : ℤ → ℤ
or_port (pos zero) = default_port
or_port (pos (suc n)) = pos (suc n)
or_port (negsuc n) = negsuc n

-- The bodies of the loops of `applyDefaults`.
abbrev pub fill_operation : Text → Operation → Operation
fill_operation name op = record op {
  timeout = or_timeout op.timeout op.persistent;
  working_dir = or_text op.working_dir (codes "/");
}

abbrev pub fill_app_operation : Text → AppOperation → AppOperation
fill_app_operation name op = record op {
  timeout = or_timeout op.timeout op.persistent;
  working_dir = or_text op.working_dir (codes "/");
  label = or_text op.label name;
}

abbrev apt_command : Text
apt_command = codes "apt list --upgradable 2>/dev/null | grep -cF '[upgradable' || true"

-- packageManagerCommands
abbrev pub package_manager_commands : Map Text
package_manager_commands =
    (codes "apt", apt_command)
    ∷ (codes "apt-get", apt_command)
    ∷ (codes "yum", codes "yum check-update -q 2>/dev/null | grep -c '^[A-Za-z0-9]' || true")
    ∷ (codes "dnf", codes "dnf check-update -q 2>/dev/null | grep -c '^[A-Za-z0-9]' || true")
    ∷ (codes "apk", codes "apk list --upgradable 2>/dev/null | grep -c '.' || true")
    ∷ (codes "zypper", codes "zypper list-updates 2>/dev/null | grep -c '^v' || true")
    ∷ (codes "pacman", codes "checkupdates 2>/dev/null | wc -l | tr -d ' '")
    ∷ (codes "pkg", codes "pkg upgrade -n 2>/dev/null | grep -c '^\\[' || true")
    ∷ (codes "brew", codes "brew outdated --quiet 2>/dev/null | wc -l | tr -d ' '")
    ∷ []

-- The command that is taken in place of the configured one.
unfoldable pub managed_check : Text → Text → Text
managed_check manager configured =
    if is_empty manager
    then configured
    else or_zero configured (lookup (to_lower manager) package_manager_commands)

abbrev pub fill_app : Text → App → App
fill_app name app = record app {
  operations = map_entries fill_app_operation app.operations;
  system_update_check = managed_check app.package_manager app.system_update_check;
}

abbrev pub migrate_operation : Text → Operation → App
migrate_operation name op = record {
  description = op.description;
  current_version = op.current_version;
  version_command = op.version_command;
  version_source = op.version_source;
  system_update_check = [];
  system_updates = none;
  package_manager = [];
  operations =
      (
        codes "run",
        record {
          label = codes "Run";
          command = op.command;
          timeout = op.timeout;
          working_dir = op.working_dir;
          persistent = op.persistent;
        },
      )
      ∷ [];
}

-- migrateOperationsToApps
abbrev pub migrated : Map Operation → Map App → Map App
migrated operations [] = map_entries migrate_operation operations
migrated operations (a ∷ apps) = a ∷ apps

abbrev migrate_operations_to_apps : Config → Config
migrate_operations_to_apps cfg = record cfg { apps = migrated cfg.operations cfg.apps }

-- The name of a runner without one; `hostname` is what os.Hostname yields.
abbrev pub name_of : Result Text → Text
name_of (ok hostname) = hostname
name_of (err e) = codes "dockhand"

-- applyDefaults
unfoldable pub apply_defaults : Result Text → Config → Config
unfolding managed_check
apply_defaults hostname cfg = migrate_operations_to_apps (record {
  server = record cfg.server { port = or_port cfg.server.port };
  runner = record cfg.runner { name = or_text cfg.runner.name (name_of hostname) };
  docker = record cfg.docker {
    socket = or_text cfg.docker.socket default_socket;
    compose_binary = or_text cfg.docker.compose_binary default_compose_binary;
  };
  operations = map_entries fill_operation cfg.operations;
  apps = map_entries fill_app cfg.apps;
})

-- strconv.Atoi of DOCKHAND_PORT, where it is set and parses
abbrev port_of : Text → ℤ → ℤ
port_of [] port = port
port_of (c ∷ s) port = or_zero port (atoi (c ∷ s))

-- applyEnvOverrides; an unset variable reads as "".
unfoldable pub apply_env_overrides : (Text → Text) → Config → Config
unfolding atoi
apply_env_overrides getenv cfg = record cfg {
  server = record cfg.server {
    api_key = or_text (getenv (codes "DOCKHAND_API_KEY")) cfg.server.api_key;
    port = port_of (getenv (codes "DOCKHAND_PORT")) cfg.server.port;
  };
  runner = record {
    name = or_text (getenv (codes "DOCKHAND_NAME")) cfg.runner.name;
    url = or_text (getenv (codes "DOCKHAND_RUNNER_URL")) cfg.runner.url;
    docked_url = or_text (getenv (codes "DOCKHAND_DOCKED_URL")) cfg.runner.docked_url;
    enrollment_token =
        or_text (getenv (codes "DOCKHAND_ENROLLMENT_TOKEN")) cfg.runner.enrollment_token;
  };
  docker = record cfg.docker { socket = or_text (getenv (codes "DOCKER_HOST")) cfg.docker.socket };
}

-- hex.EncodeToString: two digits in lower case for each byte.
abbrev pub hex_digit : ℕ → ℕ
hex_digit n = if ltb n 10 then 48 + n else 87 + n

abbrev pub hex_encode : List ℕ → Text
hex_encode [] = []
hex_encode (b ∷ bs) = hex_digit (b / 16) ∷ hex_digit (b % 16) ∷ hex_encode bs

-- generateKey, on the 32 bytes that rand.Read fills or its error.
abbrev pub generate_key : Result (List ℕ) → Result Text
generate_key (err e) = err e
generate_key (ok b) = ok (hex_encode b)

-- What the key chain meets: the file of the key, if it can be read, the bytes of rand.Read, whether the
-- directory of the file can be made, and whether WriteFile writes the file.
pub record KeyStore : Type 0 where
  pub persisted : Option Text
  pub random : Result (List ℕ)
  pub dir_made : Bool
  pub file_written : Bool

-- A configuration with its key, and the key that was written to its file, if one was. What a failing
-- WriteFile leaves there does not count.
abbrev with_key : Config → Text → Option Text → Config × Option Text
with_key cfg key written = (record cfg { server = record cfg.server { api_key = key } }, written)

abbrev pub fresh_key : KeyStore → Config → Result Text → Result (Config × Option Text)
fresh_key store cfg (err e) = err (codes "generating api key: " ++ e)
fresh_key store cfg (ok key) =
    ok (with_key cfg key (if store.dir_made && store.file_written then some key else none))

abbrev pub stored_key : KeyStore → Config → Option Text → Result (Config × Option Text)
stored_key store cfg none = fresh_key store cfg (generate_key store.random)
stored_key store cfg (some kept) =
    if leb 32 (length (trim_space kept))
    then ok (with_key cfg (trim_space kept) none)
    else fresh_key store cfg (generate_key store.random)

-- resolveAPIKey
unfoldable pub resolve_api_key : KeyStore → Config → Result (Config × Option Text)
unfolding trim_space
resolve_api_key store cfg =
    if is_empty cfg.server.api_key then stored_key store cfg store.persisted else ok (cfg, none)

-- Reading the configuration file: its content, its absence, or another error.
pub data ConfigFile : Type 0 where
  content : Text → ConfigFile
  missing : ConfigFile
  unreadable : Text → ConfigFile

abbrev parsed : Result Config → Result Config
parsed (ok cfg) = ok cfg
parsed (err e) = err (codes "parsing config: " ++ e)

-- `unmarshal` overwrites what the YAML text sets.
abbrev pub read_config : (Text → Config → Result Config) → Text → ConfigFile → Result Config
read_config unmarshal [] file = ok defaults
read_config unmarshal (c ∷ s) (content text) = parsed (unmarshal text defaults)
read_config unmarshal (c ∷ s) missing = ok defaults
read_config unmarshal (c ∷ s) (unreadable e) = err (codes "reading config: " ++ e)

pub record Outside : Type 0 where
  pub unmarshal : Text → Config → Result Config
  pub file : ConfigFile
  pub getenv : Text → Text
  pub hostname : Result Text
  pub key_store : KeyStore

abbrev pub settle : Outside → Result Config → Result (Config × Option Text)
settle o (err e) = err e
settle o (ok cfg) =
    resolve_api_key o.key_store (apply_defaults o.hostname (apply_env_overrides o.getenv cfg))

-- Load, with what it writes to the file of the key.
unfoldable pub load : Outside → Text → Result (Config × Option Text)
unfolding resolve_api_key apply_defaults apply_env_overrides
load o path = settle o (read_config o.unmarshal path o.file)
