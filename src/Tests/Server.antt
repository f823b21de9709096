-- ===== src/Tests/Server.antt =====
-- The routes, the key, the journal and the watcher at concrete inputs.
use dockhand.Prelude.{ℕ, ◌≡◌, ◌≢◌, ◌⊎◌, refl, none, [], ◌∷◌, ◌++◌, Text, codes, ok, Result}
use dockhand.Config.Watcher.{Watch}
use dockhand.Api.Routes.{health, operations_list, Request, reached, serve}
use dockhand.Api.Routes.Guarded.{serve_bearer}

abbrev listing : Request
listing = record {
  method = codes "GET";
  path = codes "operations" ∷ [];
  authorization = codes "Bearer k";
}

listing_served : serve (codes "k") listing ≡ reached operations_list none
unfolding serve
listing_served = refl

serve_bearer_example :
    (operations_list ≡ health)
    ⊎ ((codes "k" ≢ []) × (codes "Bearer k" ≡ codes "Bearer " ++ codes "k"))
serve_bearer_example = serve_bearer (codes "k") listing operations_list none listing_served

abbrev watched : Watch
watched = record { file = 5; last_write = 3; last_mod = 5; changes = 0 }

abbrev journal : ℕ → Result Text
journal n = ok (codes "a\nb\n")
