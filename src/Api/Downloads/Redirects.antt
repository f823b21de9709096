-- ===== src/Api/Downloads/Redirects.antt =====
-- Where the redirects of internal/api/handlers/system.go lead, and that they end.
use dockhand.Prelude.{
  ℕ, suc, zero, ◌+◌, ◌≡◌, ◌≢◌, ◌≤◌, refl, true, Option, none, some, arith, All, Text, text_eq,
}
use dockhand.Api.Downloads.{
  Link, Hop, answered, redirected, unreachable, allowed, check_redirect, Fetch, hop, follow, github,
  next,
}

module _ (net : Link → Hop) where
  abbrev IsTrusted : Text → Type 0
  IsTrusted host = allowed host ≡ true

  check_redirect-IsTrusted :
      (via : ℕ) (host : Text) → check_redirect github via host ≡ none → IsTrusted host
  unfolding check_redirect
  check_redirect-IsTrusted via host h = ground arith

  next-IsTrusted :
      (rest : Link → Fetch) (l : Link) (e : Option Text)
      → (e ≡ none → All IsTrusted (rest l).asked)
      → All IsTrusted (next rest l e).asked
  next-IsTrusted rest l none k = k refl
  next-IsTrusted rest l (some e) k = tt

  hop-IsTrusted :
      (via : ℕ) (rest : Link → Fetch) (h : Hop)
      → ((l : Link) → IsTrusted l.host → All IsTrusted (rest l).asked)
      → All IsTrusted (hop net github via rest h).asked
  hop-IsTrusted via rest (answered a) k = tt
  hop-IsTrusted via rest (unreachable e) k = tt
  hop-IsTrusted via rest (redirected l) k =
      next-IsTrusted rest l (check_redirect github (suc via) l.host)
        (λ e. k l (check_redirect-IsTrusted (suc via) l.host e))

  follow-IsTrusted :
      (n via : ℕ) (l : Link) → IsTrusted l.host → All IsTrusted (follow net github n via l).asked
  unfolding follow
  follow-IsTrusted zero via l t = tt
  follow-IsTrusted (suc n) via l t =
      (t, hop-IsTrusted via (follow net github n (suc via)) (net l) (follow-IsTrusted n (suc via)))

  next_ends :
      (rest : Link → Fetch) (l : Link) (e : Option Text)
      → (e ≡ none → (rest l).end ≢ none)
      → (next rest l e).end ≢ none
  next_ends rest l none k = k refl
  next_ends rest l (some e) k = λ f. cc

  check_redirect_early : (via : ℕ) (host : Text) → check_redirect github via host ≡ none → via ≤ 10
  unfolding check_redirect
  check_redirect_early via host h = ground arith

  -- A redirect is refused after eleven requests, so that no more fuel than this is used.
  hop_ends :
      (via : ℕ) (rest : Link → Fetch) (h : Hop)
      → (via ≤ 9 → (l : Link) → (rest l).end ≢ none)
      → (hop net github via rest h).end ≢ none
  hop_ends via rest (answered a) k = λ e. cc
  hop_ends via rest (unreachable u) k = λ e. cc
  hop_ends via rest (redirected l) k =
      next_ends rest l (check_redirect github (suc via) l.host)
        (λ e. k (let early = check_redirect_early (suc via) l.host e in omega arith) l)

  follow_ends : (n via : ℕ) (l : Link) → 10 ≤ n + via → (follow net github (suc n) via l).end ≢ none
  unfolding follow
  follow_ends zero via l h =
      hop_ends via (follow net github zero (suc via)) (net l) (λ early m. absurd (omega arith))
  follow_ends (suc n) via l h =
      hop_ends via (follow net github (suc n) (suc via)) (net l)
        (λ early m. follow_ends n (suc via) m (omega arith))

  -- However the network redirects, also in a circle, a request of the update ends after at most eleven
  -- requests, with an answer or an error, and every host that it was sent to is github.com or one of the
  -- three that GitHub serves its releases from.
  pub follow_trusted :
      (url : Text)
      → ((follow net github 11 0 (record { host = github; url = url })).end ≢ none)
        × All
            (λ host. allowed host ≡ true)
            (follow net github 11 0 (record { host = github; url = url })).asked
  unfolding text_eq
  follow_trusted url =
      let l : Link = record { host = github; url = url } in
      (follow_ends 10 0 l (omega arith), follow-IsTrusted 11 0 l refl)
