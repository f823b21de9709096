-- ===== src/Operations/VersionCache.antt =====
-- internal/operations/versioncache.go. Times are nanoseconds; `time.Now()` is an argument.
use dockhand.Prelude.{
  ℕ, ◌+◌, ◌*◌, ◌≡◌, Option, none, some, arith, ltb, if◌then◌else◌, [], Text, text_eq, Map, lookup,
  insert, lookup-insert,
}

-- versionCacheTTL, 20 minutes
abbrev pub version_cache_ttl : ℕ
version_cache_ttl = 20 * 60 * 1000000000

pub record VersionEntry : Type 0 where
  pub version : Text
  pub fetched_at : ℕ

pub record VersionCache : Type 0 where
  pub entries : Map VersionEntry

-- NewVersionCache
abbrev pub new_version_cache : VersionCache
new_version_cache = record { entries = [] }

-- Set
unfoldable pub set : ℕ → Text → Text → VersionCache → VersionCache
set now name version c = record {
  entries = insert name (record { version = version; fetched_at = now }) c.entries;
}

abbrev fresh : ℕ → Option VersionEntry → Option Text
fresh now none = none
fresh now (some e) = if ltb (e.fetched_at + version_cache_ttl) now then none else some e.version

-- Get; `("", false)` is `none`.
unfoldable pub get : ℕ → Text → VersionCache → Option Text
get now name c = fresh now (lookup name c.entries)

-- What `get` reads at time `now` after a `set` at time `then`: under the name that was set, the new
-- version until 20 minutes have passed since, and nothing later; under any other name what it
-- read before.
pub get-set :
    (now at : ℕ) (name other version : Text) (c : VersionCache)
    → get now other (set at name version c) ≡ (
        if text_eq name other
        then if ltb (at + version_cache_ttl) now then none else some version
        else get now other c)
unfolding get set
get-set now at name other version c =
    ground
      (arith, lookup-insert name other (record { version = version; fetched_at = at }) c.entries)
