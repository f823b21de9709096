-- ===== src/Heartbeat/Rounds.antt =====
-- The loop of `run` in internal/heartbeat/heartbeat.go over any rounds.
use dockhand.Prelude.{
  ℕ, suc, ◌*◌, ◌^◌, ◌≤◌, ◌≡◌, refl, ap, min, Option, none, some, List, [], ◌∷◌, arith, All, Bool,
  true, false, Text,
}
use dockhand.Heartbeat.{
  is_fatal, after_beat, Beat, alive, fatal, failing, Round, heartbeat_interval, max_backoff,
  calc_backoff, round, run,
}
use dockhand.Heartbeat.Backoff.{calc_backoff-min, le_mul, pow_pos}

abbrev fails : Beat → Option Text → Bool
fails alive re = false
fails (fatal e) none = false
fails (fatal e) (some re) = true
fails (failing e) re = true

-- The heartbeat fails, and so does the re-enrollment if it is tried.
abbrev Fails : Round → Type 0
Fails t = fails t.beat t.re_enrolled ≡ true

-- The server answers 401, and the re-enrollment that follows succeeds.
abbrev pub Recovers : Round → Type 0
Recovers t = (is_fatal t.beat ≡ true) × (t.re_enrolled ≡ none)

-- The pauses after the failures number `n + 1`, `n + 2` and so on, one for each round.
abbrev pub backoffs : ℕ → List Round → List (Option ℕ)
backoffs n [] = []
backoffs n (t ∷ ts) = some (min (heartbeat_interval * 2 ^ suc n) max_backoff) ∷ backoffs (suc n) ts

round-Fails : (t : Round) (n : ℕ) → Fails t → round t n ≡ (some (calc_backoff (suc n)), suc n)
unfolding round
round-Fails t n h = ground arith

run-Fails : (n : ℕ) (ts : List Round) → All Fails ts → run ts n ≡ backoffs n ts
unfolding run
run-Fails n [] h = refl
run-Fails n (t ∷ ts) h =
    ground (arith, round-Fails t n h.0, calc_backoff-min (suc n), run-Fails (suc n) ts h.1)

-- After a heartbeat that succeeds, a series of failing rounds makes pauses that double from ten
-- minutes on and stay at half an hour; the failures counted before do not matter.
run_backoffs :
    (t : Round) (n : ℕ) (ts : List Round)
    → t.beat ≡ alive
    → All Fails ts
    → run (t ∷ ts) n ≡ some heartbeat_interval ∷ backoffs 0 ts
unfolding run round
run_backoffs t n ts h f = ground (arith, run-Fails 0 ts f)

abbrev IsPause : Option ℕ → Type 0
IsPause none = Unit
IsPause (some d) = (heartbeat_interval ≤ d) × (d ≤ max_backoff)

after_failure-IsPause : (n : ℕ) → IsPause (some (calc_backoff (suc n)))
after_failure-IsPause n =
    let low : heartbeat_interval ≤ heartbeat_interval * 2 ^ suc n =
      le_mul (2 ^ suc n) heartbeat_interval (pow_pos (suc n)) in
    omega (arith, calc_backoff-min (suc n))

after_beat-IsPause : (b : Beat) (re : Option Text) (n : ℕ) → IsPause (after_beat b re n).0
after_beat-IsPause alive re n = omega arith
after_beat-IsPause (fatal e) none n = tt
after_beat-IsPause (fatal e) (some re) n = after_failure-IsPause n
after_beat-IsPause (failing e) re n = after_failure-IsPause n

round-IsPause : (t : Round) (n : ℕ) → IsPause (round t n).0
unfolding round
round-IsPause t n = after_beat-IsPause t.beat t.re_enrolled n

-- In any rounds, a pause is never shorter than five minutes nor longer than half an hour.
run_pauses : (ts : List Round) (n : ℕ) → All IsPause (run ts n)
unfolding run
run_pauses [] n = tt
run_pauses (t ∷ ts) n = (round-IsPause t n, run_pauses ts (round t n).1)

round-Recovers : (t : Round) (n : ℕ) → Recovers t → round t n ≡ (none, 0)
unfolding round
round-Recovers t n h = ground arith

-- As long as the server answers 401 and accepts every re-enrollment, the loop makes no pause at all.
pub run-Recovers : (ts : List Round) (n : ℕ) → All Recovers ts → All (λ p. p ≡ none) (run ts n)
unfolding run
run-Recovers [] n h = tt
run-Recovers (t ∷ ts) n h =
    (ap (λ (p : Option ℕ × ℕ). p.0) (round-Recovers t n h.0), run-Recovers ts (round t n).1 h.1)
