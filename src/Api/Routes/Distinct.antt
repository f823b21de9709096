-- ===== src/Api/Routes/Distinct.antt =====
-- The patterns of internal/api/server.go against each other.
use dockhand.Prelude.{
  ◌≡◌, ◌≤◌, refl, sym, ◌∙◌, Bool, true, false, not, ◌&&◌, ◌||◌, List, [], ◌∷◌, arith, Text, codes,
  has_prefix, text_eq, eq_of-text_eq, any_of, count_of, text_eq_iff,
}
use dockhand.Api.Routes.{
  Route, routes, Request, matches, matches_path, matches_method, is_wildcard, method_of,
  segments_of, split_byte,
}

-- Two patterns of paths that some path could match both.
unfoldable overlap_path : List Text → List Text → Bool
unfolding text_eq has_prefix
overlap_path [] [] = true
overlap_path [] (s ∷ ss) = false
overlap_path (p ∷ ps) [] = false
overlap_path (p ∷ ps) (s ∷ ss) =
    (is_wildcard p || is_wildcard s || text_eq p s) && overlap_path ps ss

overlap_path_lem :
    (ps qs ss : List Text)
    → matches_path ps ss ≡ true
    → matches_path qs ss ≡ true
    → overlap_path ps qs ≡ true
unfolding matches_path overlap_path
overlap_path_lem [] [] ss h k = refl
overlap_path_lem [] (q ∷ qs) [] h k = cc
overlap_path_lem [] (q ∷ qs) (s ∷ ss) h k = cc
overlap_path_lem (p ∷ ps) [] [] h k = cc
overlap_path_lem (p ∷ ps) [] (s ∷ ss) h k = cc
overlap_path_lem (p ∷ ps) (q ∷ qs) [] h k = cc
overlap_path_lem (p ∷ ps) (q ∷ qs) (s ∷ ss) h k =
    let rest = overlap_path_lem ps qs ss in
    let same = λ (e : text_eq p s ≡ true) (f : text_eq q s ≡ true).
      (text_eq_iff p q).1 (eq_of-text_eq p s e ∙ sym (eq_of-text_eq q s f)) in
    ground (arith, rest, same)

-- Methods that some method could match both.
abbrev overlap_method : Text → Text → Bool
overlap_method m n =
    text_eq m n
    || (text_eq m (codes "GET") && text_eq n (codes "HEAD"))
    || (text_eq n (codes "GET") && text_eq m (codes "HEAD"))

unfoldable overlap : Route → Route → Bool
unfolding overlap_path split_byte
overlap t u =
    overlap_method (method_of t.pattern) (method_of u.pattern)
    && overlap_path (segments_of t.pattern) (segments_of u.pattern)

unfoldable distinct : List Route → Bool
unfolding overlap
distinct [] = true
distinct (t ∷ ts) = not (any_of (overlap t) ts) && distinct ts

routes-distinct : distinct routes ≡ true
unfolding distinct
routes-distinct = refl

text_eq_via : (s t u : Text) → text_eq s u ≡ true → text_eq t u ≡ true → text_eq s t ≡ true
text_eq_via s t u e f = (text_eq_iff s t).1 (eq_of-text_eq s u e ∙ sym (eq_of-text_eq t u f))

-- A method that is HEAD for the pattern's GET.
via_get :
    (m n k : Text)
    → text_eq m k ≡ true
    → text_eq k (codes "HEAD") ≡ true
    → text_eq m (codes "HEAD") ≡ true
via_get m n k e f = rw (eq_of-text_eq m k e) f

overlap_method_lem :
    (m n k : Text)
    → matches_method m k ≡ true
    → matches_method n k ≡ true
    → overlap_method m n ≡ true
overlap_method_lem m n k h j =
    ground (arith, text_eq_via m n k, text_eq_via m n (codes "GET"), via_get m n k, via_get n m k)

overlap_lem :
    (q : Request) (t u : Route) → matches q t ≡ true → matches q u ≡ true → overlap t u ≡ true
unfolding matches overlap
overlap_lem q t u h j = ground (
  arith,
  overlap_method_lem (method_of t.pattern) (method_of u.pattern) q.method,
  overlap_path_lem (segments_of t.pattern) (segments_of u.pattern) q.path,
)

count_of-matches_zero :
    (q : Request) (t : Route) (ts : List Route)
    → matches q t ≡ true
    → any_of (overlap t) ts ≡ false
    → count_of (matches q) ts ≡ 0
count_of-matches_zero q t [] h k = refl
count_of-matches_zero q t (u ∷ ts) h k =
    ground (arith, overlap_lem q t u h, count_of-matches_zero q t ts h)

count_of-matches_bound :
    (q : Request) (ts : List Route) → distinct ts ≡ true → count_of (matches q) ts ≤ 1
unfolding distinct
count_of-matches_bound q [] h = omega arith
count_of-matches_bound q (t ∷ ts) h =
    ground (arith, count_of-matches_zero q t ts, count_of-matches_bound q ts)

-- At most one pattern of the table matches a request, whatever its method and path are, so that the order
-- of the patterns does not matter.
routes_unambiguous : (q : Request) → count_of (matches q) routes ≤ 1
routes_unambiguous q = count_of-matches_bound q routes routes-distinct
