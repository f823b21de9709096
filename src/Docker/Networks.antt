-- ===== src/Docker/Networks.antt =====
-- internal/docker/upgrade.go: buildNetworkConfig and shortID.
use dockhand.Prelude.{
  ◌≡◌, ◌≤◌, refl, Option, none, some, List, [], ◌∷◌, if◌then◌else◌, ◌==◌, ltb, length, length-take,
  take, arith, Text, Map, lookup, text_eq, Bool-cases, inl, inr,
}

-- network.EndpointSettings: what the user sets, and what the engine assigns
pub record Assigned : Type 0 where
  pub network_id : Text
  pub endpoint_id : Text
  pub gateway : Text
  pub ip_address : Text

pub record EndpointSettings : Type 0 where
  pub ipam_config : Option Text
  pub links : List Text
  pub aliases : List Text
  pub assigned : Assigned

abbrev pub unassigned : Assigned
unassigned = record { network_id = []; endpoint_id = []; gateway = []; ip_address = [] }

-- buildNetworkConfig, of the networks of the inspected container
unfoldable pub build_network_config : Map EndpointSettings → Map EndpointSettings
build_network_config [] = []
build_network_config ((name, e) ∷ es) =
    (name, record e { assigned = unassigned }) ∷ build_network_config es

-- The part behind the first colon, if there is one.
abbrev behind_colon : Text → Option Text
behind_colon [] = none
behind_colon (c ∷ s) = let rest = behind_colon s in if c == b':' then some s else rest

abbrev without_algorithm : Text → Option Text → Text
without_algorithm id none = id
without_algorithm id (some s) = s

-- shortID
unfoldable pub short_id : Text → Text
short_id id =
    let rest = without_algorithm id (behind_colon id) in
    if ltb 12 (length rest) then take 12 rest else rest

abbrev cleared : Option EndpointSettings → Option EndpointSettings
cleared none = none
cleared (some e) = some (record e { assigned = unassigned })

-- The new container is in the same networks, with what the user has set there and nothing that the engine
-- assigned to the old one.
lookup-build_network_config :
    (name : Text) (es : Map EndpointSettings)
    → lookup name (build_network_config es) ≡ cleared (lookup name es)
unfolding lookup build_network_config
lookup-build_network_config name [] = refl
lookup-build_network_config name ((n, e) ∷ es) = elim (Bool-cases (text_eq n name)) [
  | inl h ↦ rw h refl
  | inr h ↦ rw h (lookup-build_network_config name es)
]

-- A short id has at most twelve bytes.
short_id_bound : (id : Text) → length (short_id id) ≤ 12
unfolding short_id
short_id_bound id =
    let rest = without_algorithm id (behind_colon id) in ground (arith, length-take 12 rest)
