-- ===== src/Tests/Settings.antt =====
-- Loading and rewriting the configuration at concrete inputs: internal/config.
use dockhand.Prelude.{
  ◌≡◌, refl, true, false, none, some, List, ℕ, ◌++◌, [], ◌∷◌, Text, codes, text_eq, is_empty, ok,
  atoi,
}
use dockhand.Config.{Config}
use dockhand.Config.Loading.{
  defaults, managed_check, apply_defaults, apply_env_overrides, KeyStore, resolve_api_key, content,
  Outside, load,
}
use dockhand.Config.Loading.Keys.{next_start, load_again}
use dockhand.Config.Loading.Completeness.{IsComplete, load-IsComplete}
use dockhand.Config.Yaml.{
  document, mapping, Node, node, Nodes, no_nodes, more, str_node, get_pair, change_pair,
  mapping_get, edit_version, operations_section, current_version_key,
}
use dockhand.Config.Yaml.Edits.{
  node_along, root_of, at_key, node_at, value_of, edit_version-current, edit_version-other,
}
use dockhand.Operations.Runner.Versions.{zero_operation}

abbrev one_operation : Config
one_operation = record defaults {
  operations =
      (codes "update", record zero_operation { command = codes "apt-get -y upgrade" }) ∷ [];
}

abbrev half : List ℕ
half = 0 ∷ 1 ∷ 2 ∷ 3 ∷ 4 ∷ 5 ∷ 6 ∷ 7 ∷ 248 ∷ 249 ∷ 250 ∷ 251 ∷ 252 ∷ 253 ∷ 254 ∷ 255 ∷ []

abbrev seed : List ℕ
seed = half ++ half

abbrev long_key : Text
long_key = codes "0001020304050607f8f9fafbfcfdfeff0001020304050607f8f9fafbfcfdfeff"

abbrev key_store : KeyStore
key_store = record { persisted = none; random = ok seed; dir_made = true; file_written = true }

-- A host whose file has one operation, with the environment given.
abbrev outside : (Text → Text) → Outside
outside getenv = record {
  unmarshal = λ text cfg. ok one_operation;
  file = content (codes "operations: ...");
  getenv = getenv;
  hostname = ok (codes "box");
  key_store = key_store;
}

abbrev loaded : Config
loaded =
    let c = apply_defaults (ok (codes "box")) (apply_env_overrides (λ name. []) one_operation) in
    record c { server = record c.server { api_key = long_key } }

load-IsComplete_example : IsComplete loaded × (is_empty loaded.server.api_key ≡ false)
unfolding load resolve_api_key apply_defaults apply_env_overrides managed_check atoi
load-IsComplete_example =
    load-IsComplete (outside (λ name. [])) (codes "dockhand.yml") loaded (some long_key) refl refl

load_again_example :
    load (next_start long_key (outside (λ name. []))) (codes "dockhand.yml") ≡ ok (loaded, none)
unfolding load resolve_api_key apply_defaults apply_env_overrides managed_check atoi
load_again_example =
    load_again (outside (λ name. [])) (codes "dockhand.yml") loaded long_key refl refl

abbrev pairs : List (Text × Node) → Nodes
pairs [] = no_nodes
pairs ((k, v) ∷ m) = more (str_node k) (more v (pairs m))

abbrev mapping_of : List (Text × Node) → Node
mapping_of m = node mapping (codes "!!map") [] (pairs m)

abbrev pub file_with : Text → Node
file_with v = node document [] [] (
    more
      (mapping_of (
        (
          codes "runner",
          mapping_of (
              (codes "name", str_node (codes "box"))
              ∷ (codes "enrollment_token", str_node (codes "t"))
              ∷ []),
        )
        ∷ (
          codes "operations",
          mapping_of ((codes "app", mapping_of ((current_version_key, str_node v) ∷ [])) ∷ []),
        )
        ∷ []))
      no_nodes)

edit_version-current_example :
    value_of
      (node_at (codes "operations") (codes "app") current_version_key (file_with (codes "2")))
    ≡ some (codes "2")
unfolding edit_version mapping_get get_pair change_pair text_eq at_key
edit_version-current_example =
    edit_version-current operations_section (codes "app") (codes "2") (file_with (codes "1"))
      (file_with (codes "2")) refl (refl, refl)

edit_version-other_example :
    node_along (codes "runner" ∷ codes "name" ∷ []) (root_of (file_with (codes "2")))
    ≡ some (str_node (codes "box"))
unfolding edit_version mapping_get get_pair change_pair text_eq at_key
edit_version-other_example =
    edit_version-other operations_section (codes "app") (codes "2") (file_with (codes "1"))
      (file_with (codes "2")) refl (refl, refl) (codes "runner" ∷ codes "name" ∷ []) refl
