-- ===== src/Heartbeat/Backoff.antt =====
-- `calcBackoff` of internal/heartbeat/heartbeat.go in closed form.
use native.Mathlib.Nat.{pow-suc}
use dockhand.Prelude.{
  ℕ, zero, suc, ◌*◌, ◌^◌, ◌≤◌, ◌<◌, ◌≡◌, min, arith, ltb, if◌then◌else◌, ap, ◌⊎◌, inl, inr,
  Bool-cases,
}
use dockhand.Heartbeat.{heartbeat_interval, max_backoff, doubled, back_off, calc_backoff}

pub pow_pos : (n : ℕ) → 1 ≤ 2 ^ n
pow_pos zero = omega arith
pow_pos (suc n) = rw (pow-suc 2 n) (omega (arith, pow_pos n))

doubled-le : (d : ℕ) → doubled d ≤ max_backoff
doubled-le d = ground arith

doubled_cases :
    (d : ℕ)
    → ((doubled d ≡ max_backoff) × (max_backoff < d * 2))
      ⊎ ((doubled d ≡ d * 2) × (d * 2 ≤ max_backoff))
doubled_cases d = elim (Bool-cases (ltb max_backoff (d * 2))) [
  | inl e ↦ inl (ground arith, ground arith)
  | inr e ↦ inr (ground arith, ground arith)
]

pub le_mul : (p d : ℕ) → 1 ≤ p → d ≤ d * p
le_mul p d h = grind arith

step :
    (p d rest : ℕ)
    → 1 ≤ p
    → d ≤ max_backoff
    → rest ≡ min (doubled d * p) max_backoff
    → (if ltb d max_backoff then rest else d) ≡ min (d * (p * 2)) max_backoff
step p d rest hp h e = elim (doubled_cases d) [
  | inl (capped, big) ↦ let e' = ap (λ (t : ℕ). t * p) capped in ground (arith, le_mul p d hp, e')
  | inr (exact, small) ↦ let e' = ap (λ (t : ℕ). t * p) exact in ground (arith, le_mul p d hp, e')
]

back_off-min : (n d : ℕ) → d ≤ max_backoff → back_off n d ≡ min (d * 2 ^ n) max_backoff
unfolding back_off
back_off-min zero d h = omega arith
back_off-min (suc n) d h =
    let rest = back_off n (doubled d) in
    let ih = back_off-min n (doubled d) (doubled-le d) in
    rw (pow-suc 2 n) (step (2 ^ n) d rest (pow_pos n) h ih)

-- After `n` failures the pause is the interval of five minutes doubled `n` times, or half an hour if
-- that is less.
pub calc_backoff-min : (n : ℕ) → calc_backoff n ≡ min (heartbeat_interval * 2 ^ n) max_backoff
unfolding calc_backoff
calc_backoff-min n = back_off-min n heartbeat_interval (omega arith)
