-- ===== src/Enrollment/Retries.antt =====
-- The retry loop of `Run` in internal/enrollment/enrollment.go.
use dockhand.Prelude.{
  ℕ, zero, suc, ◌+◌, ◌*◌, ◌≤◌, ◌≡◌, refl, true, List, [], ◌∷◌, arith, length, take, Text, ◌↔◌, ◌⊎◌,
  inl, inr,
}
use dockhand.Enrollment.{
  Attempt, accepted, rejected, failed, try_from, next_delay, second, second, initial_retry_delay,
}

-- The first of `left` attempts, from `attempt` on, that does not fail is accepted.
abbrev pub Succeeds : (ℕ → Attempt) → ℕ → ℕ → Type 0
Succeeds answer zero attempt = ⊥
Succeeds answer (suc left) attempt =
    (answer attempt ≡ accepted)
    ⊎ (((e : Text) × (answer attempt ≡ failed e)) × Succeeds answer left (attempt + 1))

Attempt-cases :
    (a : Attempt)
    → (a ≡ accepted) ⊎ (((e : Text) × (a ≡ rejected e)) ⊎ ((e : Text) × (a ≡ failed e)))
Attempt-cases accepted = inl refl
Attempt-cases (rejected e) = inr (inl (e, refl))
Attempt-cases (failed e) = inr (inr (e, refl))

module _ (answer : ℕ → Attempt) where
  Succeeds-try_from :
      (left attempt delay : ℕ)
      → (try_from answer left attempt delay).registered ≡ true
      → Succeeds answer left attempt
  unfolding try_from
  Succeeds-try_from zero attempt delay h = cc
  Succeeds-try_from (suc left) attempt delay h = elim (Attempt-cases (answer attempt)) [
    | inl e ↦ inl e
    | inr (inl (m, e)) ↦ ground arith
    | inr (inr (m, e)) ↦
        inr ((m, e), ground (arith, Succeeds-try_from left (attempt + 1) (next_delay delay)))
  ]

  try_from_registered :
      (left attempt delay : ℕ)
      → Succeeds answer left attempt
      → (try_from answer left attempt delay).registered ≡ true
  unfolding try_from
  try_from_registered zero attempt delay h = absurd h
  try_from_registered (suc left) attempt delay (inl e) = ground arith
  try_from_registered (suc zero) attempt delay (inr (f, h)) = absurd h
  try_from_registered (suc (suc left)) attempt delay (inr ((m, e), h)) =
      ground (arith, try_from_registered (suc left) (attempt + 1) (next_delay delay) h)

  -- The retry loop ends registered exactly if one of its attempts is accepted and all before it have
  -- failed without being rejected.
  pub try_from-Succeeds :
      (left attempt delay : ℕ)
      → ((try_from answer left attempt delay).registered ≡ true) ↔ Succeeds answer left attempt
  try_from-Succeeds left attempt delay =
      (Succeeds-try_from left attempt delay, try_from_registered left attempt delay)

-- The delays from `d` on.
abbrev delays : ℕ → ℕ → List ℕ
delays zero d = []
delays (suc n) d = d ∷ delays n (next_delay d)

pauses-take :
    (answer : ℕ → Attempt) (left attempt delay : ℕ)
    → (length (try_from answer (suc left) attempt delay).pauses ≤ left)
      × ((try_from answer (suc left) attempt delay).pauses
          ≡ take (length (try_from answer (suc left) attempt delay).pauses) (delays left delay))
unfolding try_from
pauses-take answer zero attempt delay = ground arith
pauses-take answer (suc left) attempt delay =
    ground (arith, pauses-take answer left (attempt + 1) (next_delay delay))

-- Registration makes at most four pauses between its attempts, the first ones of 5, 10, 20 and 40
-- seconds.
try_from_pauses :
    (answer : ℕ → Attempt)
    → let pauses = (try_from answer 5 1 initial_retry_delay).pauses in
      (length pauses ≤ 4)
      × (pauses ≡ take (length pauses) (5 * second ∷ 10 * second ∷ 20 * second ∷ 40 * second ∷ []))
try_from_pauses answer = pauses-take answer 4 1 initial_retry_delay
