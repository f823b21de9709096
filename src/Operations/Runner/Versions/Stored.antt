-- ===== src/Operations/Runner/Versions/Stored.antt =====
-- What the runner of internal/operations/runner.go says of versions that it found.
use dockhand.Prelude.{
  ℕ, ◌≡◌, none, some, arith, if◌then◌else◌, or_zero, Text, text_eq, text_eq_refl, lookup,
  lookup-insert, Map,
}
use dockhand.Config.{Operation}
use dockhand.Operations.VersionCache.{get-set}
use dockhand.Operations.Runner.{Runner}
use dockhand.Operations.Runner.Versions.{zero_operation, current_version, store_version, reload}

-- A version that was found for an operation is its current version from then on: at any time, within
-- the life of the cache entry and after it, and the current versions of the other operations stay.
pub current_version-store :
    (now at : ℕ) (name other v : Text) (r : Runner)
    → current_version now other (store_version at name v r).0
      ≡ (if text_eq name other then v else current_version now other r)
unfolding current_version store_version
current_version-store now at name other v r =
    let op = record (or_zero zero_operation (lookup name r.ops)) { current_version = v } in
    ground (arith, get-set now at name other v r.version_cache, lookup-insert name other op r.ops)

-- A version that is found for an operation which a reload has removed meanwhile puts the operation
-- back, with an empty command and no field but the version.
store_version-reload :
    (at : ℕ) (name v : Text) (ops : Map Operation) (r : Runner)
    → lookup name ops ≡ none
    → lookup name (store_version at name v (reload ops r)).0.ops
      ≡ some (record zero_operation { current_version = v })
unfolding store_version reload
store_version-reload at name v ops r gone =
    let op = record (or_zero zero_operation (lookup name ops)) { current_version = v } in
    ground (arith, text_eq_refl name, lookup-insert name name op ops)
