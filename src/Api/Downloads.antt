-- ===== src/Api/Downloads.antt =====
-- internal/api/handlers/system.go: safeHTTPClient and a request with it. The network is an argument that
-- answers a request or redirects it; what net/http puts around the error of a redirect is left out.
pub mod Redirects
use dockhand.Prelude.{
  ℕ, suc, zero, ◌+◌, ◌*◌, Bool, true, false, not, ◌&&◌, ◌||◌, Option, none, some, List, [], ◌∷◌,
  ◌++◌, if◌then◌else◌, ◌==◌, ltb, or_zero, any_of, take, Text, codes, text_eq, is_empty, is_space,
  quoted, Map, lookup, insert, delete, Result, ok, err, itoa, pos, scan_lines, max_scan_token_size,
  push_front,
}

pub record Link : Type 0 where
  pub host : Text
  pub url : Text

pub record Answer : Type 0 where
  pub status : ℕ
  pub body : Text

pub data Hop : Type 0 where
  answered : Answer → Hop
  redirected : Link → Hop
  unreachable : Text → Hop

-- The redirects that safeHTTPClient follows
abbrev pub allowed : Text → Bool
allowed host =
    text_eq host (codes "github.com")
    || text_eq host (codes "objects.githubusercontent.com")
    || text_eq host (codes "github-releases.githubusercontent.com")
    || text_eq host (codes "release-assets.githubusercontent.com")

-- CheckRedirect, with the number of the requests so far and the host that the next one would go to.
unfoldable pub check_redirect : Text → ℕ → Text → Option Text
unfolding text_eq
check_redirect original via host =
    if ltb 10 via
    then some (codes "too many redirects")
    else if text_eq host original || allowed host
    then none
    else some (codes "redirect to untrusted host " ++ (quoted host ++ codes " blocked"))

-- The hosts that were asked, and the end, which is missing where the fuel is used up.
pub record Fetch : Type 0 where
  pub asked : List Text
  pub end : Option (Result Answer)

abbrev pub asking : Text → Fetch → Fetch
asking host f = record f { asked = host ∷ f.asked }

abbrev pub ends : Result Answer → Fetch
ends r = record { asked = []; end = some r }

-- The client goes on, or ends with the error of CheckRedirect.
abbrev pub next : (Link → Fetch) → Link → Option Text → Fetch
next rest l none = rest l
next rest l (some e) = ends (err e)

module _ (net : Link → Hop) (original : Text) where
  -- One request, `via` of them gone before; `rest` goes on with the next.
  abbrev pub hop : ℕ → (Link → Fetch) → Hop → Fetch
  hop via rest (answered a) = ends (ok a)
  hop via rest (unreachable e) = ends (err e)
  hop via rest (redirected l) = next rest l (check_redirect original (suc via) l.host)

  -- The redirects that the client follows.
  unfoldable pub follow : ℕ → ℕ → Link → Fetch
  unfolding check_redirect
  follow zero via l = record { asked = []; end = none }
  follow (suc n) via l = asking l.host (hop via (follow n (suc via)) (net l))

abbrev pub github : Text
github = codes "github.com"

abbrev pub ended : Option (Result Answer) → Result Answer
ended none = err (codes "redirects without end")
ended (some r) = r

-- Get of the client for github.com; eleven requests are enough.
unfoldable pub get : (Link → Hop) → Text → Result Answer
unfolding follow
get net url = ended (follow net github 11 0 (record { host = github; url = url })).end
