-- ===== src/Api/Routes.antt =====
-- internal/api/server.go: New, the routes of the API with the middleware around their handlers, and the
-- choice of a route by http.ServeMux. A request has its method, the segments of its cleaned path and its
-- Authorization header.
pub mod Guarded
pub mod Distinct
use dockhand.Prelude.{
  ℕ, ◌*◌, Bool, true, false, not, ◌&&◌, ◌||◌, Option, none, some, List, [], ◌∷◌, if◌then◌else◌,
  ◌==◌, any_of, Text, codes, text_eq, has_prefix, is_empty, drop, push_front,
}
use dockhand.Api.Auth.{is_authorized}

-- The functions that handle requests.
pub data Endpoint : Type 0 where
  health : Endpoint
  containers_list : Endpoint
  containers_get : Endpoint
  containers_full_inspect : Endpoint
  containers_stop : Endpoint
  containers_start : Endpoint
  containers_remove : Endpoint
  containers_create : Endpoint
  containers_upgrade : Endpoint
  containers_logs : Endpoint
  images_list : Endpoint
  images_pull : Endpoint
  images_remove : Endpoint
  debug_health : Endpoint
  debug_containers : Endpoint
  debug_inspect : Endpoint
  debug_container_logs : Endpoint
  debug_stats : Endpoint
  debug_restart : Endpoint
  debug_docker_info : Endpoint
  debug_docker_df : Endpoint
  logs : Endpoint
  update : Endpoint
  uninstall : Endpoint
  restart : Endpoint
  reload : Endpoint
  operations_list : Endpoint
  operations_all_history : Endpoint
  operations_run : Endpoint
  operations_cancel : Endpoint
  operations_history : Endpoint
  apps_list : Endpoint
  apps_all_history : Endpoint
  apps_run : Endpoint
  apps_cancel : Endpoint
  apps_history : Endpoint

-- http.Handler as New builds it
pub data Handler : Type 0 where
  func : Endpoint → Handler
  auth : Handler → Handler
  limit_body : ℕ → Handler → Handler

pub record Route : Type 0 where
  pub pattern : Text
  pub handler : Handler

abbrev max_body_bytes : ℕ
max_body_bytes = 1048576

abbrev max_create_body_bytes : ℕ
max_create_body_bytes = 4194304

abbrev handle : Text → Handler → Route
handle p h = record { pattern = p; handler = h }

-- The calls of `mux.Handle` in New
abbrev pub routes : List Route
routes =
    handle (codes "GET /health") (func health)
    ∷ handle (codes "GET /containers") (auth (func containers_list))
    ∷ handle (codes "GET /containers/{id}") (auth (func containers_get))
    ∷ handle (codes "GET /containers/{id}/json") (auth (func containers_full_inspect))
    ∷ handle (codes "POST /containers/{id}/stop") (auth (func containers_stop))
    ∷ handle (codes "POST /containers/{id}/start") (auth (func containers_start))
    ∷ handle (codes "DELETE /containers/{id}") (auth (func containers_remove))
    ∷ handle (codes "POST /containers/create")
        (auth (limit_body max_create_body_bytes (func containers_create)))
    ∷ handle (codes "POST /containers/{id}/upgrade") (auth (func containers_upgrade))
    ∷ handle (codes "GET /containers/{id}/logs") (auth (func containers_logs))
    ∷ handle (codes "GET /images") (auth (func images_list))
    ∷ handle (codes "POST /images/pull") (auth (limit_body max_body_bytes (func images_pull)))
    ∷ handle (codes "DELETE /images/{id}") (auth (func images_remove))
    ∷ handle (codes "GET /debug/health") (auth (func debug_health))
    ∷ handle (codes "GET /debug/logs") (auth (func logs))
    ∷ handle (codes "GET /debug/containers") (auth (func debug_containers))
    ∷ handle (codes "GET /debug/container/{id}/inspect") (auth (func debug_inspect))
    ∷ handle (codes "GET /debug/container/{id}/logs") (auth (func debug_container_logs))
    ∷ handle (codes "GET /debug/container/{id}/stats") (auth (func debug_stats))
    ∷ handle (codes "POST /debug/container/{id}/restart") (auth (func debug_restart))
    ∷ handle (codes "GET /debug/docker/info") (auth (func debug_docker_info))
    ∷ handle (codes "GET /debug/docker/df") (auth (func debug_docker_df))
    ∷ handle (codes "POST /update") (auth (limit_body max_body_bytes (func update)))
    ∷ handle (codes "POST /uninstall") (auth (limit_body max_body_bytes (func uninstall)))
    ∷ handle (codes "POST /restart") (auth (limit_body max_body_bytes (func restart)))
    ∷ handle (codes "POST /reload") (auth (limit_body max_body_bytes (func reload)))
    ∷ handle (codes "GET /logs") (auth (func logs))
    ∷ handle (codes "GET /operations") (auth (func operations_list))
    ∷ handle (codes "GET /operations/history") (auth (func operations_all_history))
    ∷ handle (codes "POST /operations/{name}/run")
        (auth (limit_body max_body_bytes (func operations_run)))
    ∷ handle (codes "DELETE /operations/{name}/run") (auth (func operations_cancel))
    ∷ handle (codes "GET /operations/{name}/history") (auth (func operations_history))
    ∷ handle (codes "GET /apps") (auth (func apps_list))
    ∷ handle (codes "GET /apps/history") (auth (func apps_all_history))
    ∷ handle (codes "POST /apps/{appName}/operations/{opName}/run")
        (auth (limit_body max_body_bytes (func apps_run)))
    ∷ handle (codes "DELETE /apps/{appName}/operations/{opName}/run") (auth (func apps_cancel))
    ∷ handle (codes "GET /apps/{appName}/operations/{opName}/history") (auth (func apps_history))
    ∷ []

-- The parts of a text between the bytes b.
unfoldable pub split_byte : ℕ → Text → List Text
split_byte b [] = [] ∷ []
split_byte b (c ∷ s) = let rest = split_byte b s in if c == b then [] ∷ rest else push_front c rest

abbrev first_part : List Text → Text
first_part [] = []
first_part (p ∷ ps) = p

abbrev pub method_of : Text → Text
method_of pattern = first_part (split_byte b' ' pattern)

-- The parts of the pattern's path.
abbrev pub segments_of : Text → List Text
segments_of pattern = drop 1 (split_byte b'/' pattern)

-- A segment {name}
abbrev pub is_wildcard : Text → Bool
is_wildcard segment = has_prefix segment (codes "{")

unfoldable pub matches_path : List Text → List Text → Bool
unfolding text_eq has_prefix
matches_path [] [] = true
matches_path [] (s ∷ ss) = false
matches_path (p ∷ ps) [] = false
matches_path (p ∷ ps) (s ∷ ss) =
    (if is_wildcard p then not (is_empty s) else text_eq p s) && matches_path ps ss

-- A pattern for GET serves HEAD too.
abbrev pub matches_method : Text → Text → Bool
matches_method p m = text_eq p m || (text_eq p (codes "GET") && text_eq m (codes "HEAD"))

pub record Request : Type 0 where
  pub method : Text
  pub path : List Text
  pub authorization : Text

unfoldable pub matches : Request → Route → Bool
unfolding matches_path split_byte
matches q t =
    matches_method (method_of t.pattern) q.method && matches_path (segments_of t.pattern) q.path

pub data Outcome : Type 0 where
  reached : Endpoint → Option ℕ → Outcome
  unauthorized : Outcome
  not_found : Outcome
  method_not_allowed : Outcome

-- A handler with the limit of the body that is set so far.
unfoldable pub serve_handler : Text → Text → Option ℕ → Handler → Outcome
unfolding is_authorized
serve_handler key header limit (func e) = reached e limit
serve_handler key header limit (auth h) =
    let next = serve_handler key header limit h in
    if is_authorized key header then next else unauthorized
serve_handler key header limit (limit_body n h) = serve_handler key header (some n) h

unfoldable pub find_route : Request → List Route → Option Route
unfolding matches
find_route q [] = none
find_route q (t ∷ ts) = let rest = find_route q ts in if matches q t then some t else rest

abbrev no_route : Request → Outcome
no_route q =
    if any_of (λ (t : Route). matches_path (segments_of t.pattern) q.path) routes
    then method_not_allowed
    else not_found

abbrev pub served : Text → Request → Option Route → Outcome
served key q none = no_route q
served key q (some t) = serve_handler key q.authorization none t.handler

-- The server with its key.
unfoldable pub serve : Text → Request → Outcome
unfolding find_route serve_handler
serve key q = served key q (find_route q routes)
