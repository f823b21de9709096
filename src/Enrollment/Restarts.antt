-- ===== src/Enrollment/Restarts.antt =====
-- The enrollment of internal/enrollment/enrollment.go over restarts of the program: what is left of one start
-- for the next are the marker file and the token in the configuration file.
use dockhand.Prelude.{
  ℕ, ◌+◌, ◌≤◌, ◌≡◌, refl, ◌⊎◌, inl, inr, Bool, true, false, ◌||◌, Option, none, some, List, [], ◌∷◌,
  arith, if◌then◌else◌, Bool-cases, All, Text, is_empty, Result, ok, err, ap,
}
use dockhand.Config.{Config}
use dockhand.Enrollment.{
  Net, Response, RegisterRequest, RegisterResponse, Marker, Enrolled, build_runner_url, skipped,
  concluded, run, Tries, register, try_from, initial_retry_delay, is_registered,
}

pub record Left : Type 0 where
  pub marked : Bool
  pub token : Text

-- One start: its configuration but for the token, the network, the answers of the server to its attempts,
-- and whether the marker and the configuration file can be written.
pub record Start : Type 0 where
  pub config : Config
  pub net : Net
  pub post : ℕ → Text → RegisterRequest → Result (Response RegisterResponse)
  pub marker_fault : Option Text
  pub clear_fault : Option Text

abbrev pub with_token : Text → Config → Config
with_token token cfg = record cfg { runner = record cfg.runner { enrollment_token = token } }

abbrev pub marker_of : Left → Start → Marker
marker_of l s = record {
  stat_fault = if l.marked then none else some [];
  write_fault = s.marker_fault;
}

abbrev pub enroll : Left → Start → Enrolled
enroll l s = run s.net s.post (marker_of l s) (with_token l.token s.config)

abbrev cleared : Option Text → Bool → Text → Text
cleared none true token = []
cleared none false token = token
cleared (some e) b token = token

abbrev pub left_after : Left → Start → Left
left_after l s =
    let e = enroll l s in
    record { marked = e.marked || l.marked; token = cleared s.clear_fault e.token_cleared l.token }

-- How often a series of starts registers the runner.
unfoldable pub registrations : Left → List Start → ℕ
unfolding run
registrations l [] = 0
registrations l (s ∷ ss) =
    (if (enroll l s).tries.registered then 1 else 0) + registrations (left_after l s) ss

-- There is the marker, or there is no token any more.
abbrev IsSettled : Left → Type 0
IsSettled l = (l.marked ≡ true) ⊎ (l.token ≡ [])

enroll-skipped : (l : Left) (s : Start) → IsSettled l → enroll l s ≡ skipped
unfolding run
enroll-skipped l s (inl h) = rw (h, run) refl
enroll-skipped l s (inr h) = elim (Bool-cases l.marked) [
  | inl e ↦ rw (e, run) refl
  | inr e ↦ rw (e, h, run) refl
]

guarded :
    (m : Marker) (a b c : Bool) (url : Result Text) (tries : Text → Tries)
    → let e =
        if a
        then skipped
        else if b
        then skipped
        else if c
        then skipped
        else elim url [ err e ↦ skipped | ok u ↦ concluded m (tries u) ] in
      (e ≡ skipped) ⊎ ((t : Tries) × (e ≡ concluded m t))
guarded m true b c url tries = inl refl
guarded m false true c url tries = inl refl
guarded m false false true url tries = inl refl
guarded m false false false (err e) tries = inl refl
guarded m false false false (ok u) tries = inr (tries u, refl)

-- A start leaves the enrollment alone, or it ends its attempts.
enroll-cases :
    (l : Left) (s : Start)
    → (enroll l s ≡ skipped) ⊎ ((t : Tries) × (enroll l s ≡ concluded (marker_of l s) t))
unfolding run
enroll-cases l s =
    let cfg = with_token l.token s.config in
    guarded (marker_of l s) (is_registered (marker_of l s)) (is_empty l.token)
      (is_empty cfg.runner.docked_url) (build_runner_url s.net cfg)
      (λ url.
        try_from
          (λ attempt. register (s.post attempt) cfg.runner.docked_url (record {
            token = cfg.runner.enrollment_token;
            name = cfg.runner.name;
            url = url;
            api_key = cfg.server.api_key;
          }))
          5 1 initial_retry_delay)

Left-settled : (l : Left) (s : Start) → IsSettled l → left_after l s ≡ l
Left-settled l s h =
    rw (enroll-skipped l s h)
      (ap (λ (t : Text). record { marked = l.marked; token = t }) (kept s.clear_fault))
  where
    kept : (e : Option Text) → cleared e false l.token ≡ l.token
    kept none = refl
    kept (some e) = refl

registrations-settled : (l : Left) (ss : List Start) → IsSettled l → registrations l ss ≡ 0
unfolding registrations
registrations-settled l [] h = refl
registrations-settled l (s ∷ ss) h =
    rw (Left-settled l s h, enroll-skipped l s h) (omega (arith, registrations-settled l ss h))

-- Where a start registers the runner, the marker or the cleared token is there for the next one.
registered-IsSettled :
    (l : Left) (s : Start)
    → (s.marker_fault ≡ none) ⊎ (s.clear_fault ≡ none)
    → (enroll l s).tries.registered ≡ true
    → IsSettled (left_after l s)
registered-IsSettled l s h r = ground (arith, enroll-cases l s)

-- Over any number of restarts, whatever the server answers, the runner is registered at most once, as long
-- as each start can write the marker file or clear the token in the configuration file; the token is that
-- of the file.
pub registrations-le :
    (l : Left) (ss : List Start)
    → All (λ s. (s.marker_fault ≡ none) ⊎ (s.clear_fault ≡ none)) ss
    → registrations l ss ≤ 1
unfolding registrations
registrations-le l [] h = omega arith
registrations-le l (s ∷ ss) h = elim (Bool-cases (enroll l s).tries.registered) [
  | inl e ↦
      rw e
        (omega (arith, registrations-settled (left_after l s) ss (registered-IsSettled l s h.0 e)))
  | inr e ↦ rw e (omega (arith, registrations-le (left_after l s) ss h.1))
]
