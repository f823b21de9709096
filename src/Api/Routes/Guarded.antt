-- ===== src/Api/Routes/Guarded.antt =====
-- Which handlers of internal/api/server.go a request reaches without the key.
use dockhand.Prelude.{
  ℕ, ◌≡◌, ◌≢◌, refl, Bool, true, false, Option, none, some, List, [], ◌∷◌, ◌++◌, ◌⊎◌, inl, inr,
  arith, if◌then◌else◌, Bool-cases, Text, codes, All, subst, any_of,
}
use dockhand.Api.Auth.{is_authorized, is_authorized_iff}
use dockhand.Api.Routes.{
  Endpoint, health, Handler, func, auth, limit_body, Route, routes, Request, matches, reached,
  serve_handler, find_route, serve, served, matches_path, segments_of, not_found,
  method_not_allowed,
}

-- A handler that is open is Health.
abbrev IsGuarded : Handler → Type 0
IsGuarded (func e) = e ≡ health
IsGuarded (auth h) = Unit
IsGuarded (limit_body n h) = IsGuarded h

routes-IsGuarded : All (λ (t : Route). IsGuarded t.handler) routes
routes-IsGuarded = ground arith

serve_handler_authorized :
    (key header : Text) (limit : Option ℕ) (h : Handler) (e : Endpoint) (l : Option ℕ)
    → IsGuarded h
    → serve_handler key header limit h ≡ reached e l
    → (e ≡ health) ⊎ (is_authorized key header ≡ true)
unfolding serve_handler
serve_handler_authorized key header limit (func f) e l g k = ground arith
serve_handler_authorized key header limit (auth h) e l g k =
    elim (Bool-cases (is_authorized key header)) [ inl a ↦ inr a | inr a ↦ ground arith ]
serve_handler_authorized key header limit (limit_body n h) e l g k =
    serve_handler_authorized key header (some n) h e l g k

find_route-IsGuarded :
    (q : Request) (ts : List Route) (t : Route)
    → All (λ (u : Route). IsGuarded u.handler) ts
    → find_route q ts ≡ some t
    → IsGuarded t.handler
unfolding find_route
find_route-IsGuarded q [] t a h = absurd (cc)
find_route-IsGuarded q (u ∷ ts) t a h = elim (Bool-cases (matches q u)) [
  | inl e ↦ let same : u ≡ t = ground arith in subst (λ (v : Route). IsGuarded v.handler) same a.0
  | inr e ↦ find_route-IsGuarded q ts t a.1 (ground arith)
]

unreached :
    (b : Bool) (e : Endpoint) (l : Option ℕ)
    → (if b then method_not_allowed else not_found) ≢ reached e l
unreached true e l h = cc
unreached false e l h = cc

served_authorized :
    (key : Text) (q : Request) (found : Option Route) (e : Endpoint) (l : Option ℕ)
    → ((t : Route) → found ≡ some t → IsGuarded t.handler)
    → served key q found ≡ reached e l
    → (e ≡ health) ⊎ (is_authorized key q.authorization ≡ true)
served_authorized key q none e l g h =
    absurd
      (unreached (any_of (λ (t : Route). matches_path (segments_of t.pattern) q.path) routes) e l h)
served_authorized key q (some t) e l g h =
    serve_handler_authorized key q.authorization none t.handler e l (g t refl) h

serve_authorized :
    (key : Text) (q : Request) (e : Endpoint) (l : Option ℕ)
    → serve key q ≡ reached e l
    → (e ≡ health) ⊎ (is_authorized key q.authorization ≡ true)
unfolding serve
serve_authorized key q e l h =
    served_authorized key q (find_route q routes) e l
      (λ t found. find_route-IsGuarded q routes t routes-IsGuarded found) h

-- Whatever a request is, a handler other than that of GET /health is called for it only if the server has
-- a key and the request's Authorization header is the word Bearer, a space and this key.
pub serve_bearer :
    (key : Text) (q : Request) (e : Endpoint) (l : Option ℕ)
    → serve key q ≡ reached e l
    → (e ≡ health) ⊎ ((key ≢ []) × (q.authorization ≡ codes "Bearer " ++ key))
serve_bearer key q e l h = elim (serve_authorized key q e l h) [
  | inl is_health ↦ inl is_health
  | inr a ↦ inr ((is_authorized_iff key q.authorization).0 a)
]
