-- ===== src/Prelude/Decimal.antt =====
-- `int` values and their decimal texts: strconv.Itoa and strconv.Atoi.
use Prim.Native.Nat.{ℕ, zero, suc, ◌+◌, ◌-◌, ◌*◌, ◌/◌, ◌%◌, ◌^◌, ◌≤◌}
use mathlib.Core.Bool.{Bool, true, false, ◌||◌}
use mathlib.Core.List.{[], ◌∷◌}
use mathlib.Core.Option.{Option, none, some}
use dockhand.Prelude.Tests.{Bool-cases, ltb, leb, ◌==◌, if◌then◌else◌}
use mathlib.Core.Logic.{inl, inr}
use native.Mathlib.Omega.{arith}
use dockhand.Prelude.Lists.{All}
use dockhand.Prelude.Texts.{Text}

-- `negsuc n` is -(n + 1).
pub data ℤ : Type 0 where
  pos : ℕ → ℤ
  negsuc : ℕ → ℤ

-- n > 0
abbrev pub is_positive : ℤ → Bool
is_positive (pos n) = ltb 0 n
is_positive (negsuc n) = false

-- The digits of `n` in front of `out`; fuel above `n` is enough.
emit : ℕ → ℕ → Text → Text
emit zero n out = out
emit (suc f) n out = elim (ltb n 10) [
  | true ↦ (b'0' + n) ∷ out
  | false ↦ emit f (n / 10) ((b'0' + n % 10) ∷ out)
]

unfoldable pub itoa : ℤ → Text
unfolding emit
itoa (pos n) = emit (suc n) n []
itoa (negsuc n) = b'-' ∷ emit (suc (suc n)) (suc n) []

emit-All : (f n : ℕ) (out : Text) → All (λ c. b'-' ≤ c) out → All (λ c. b'-' ≤ c) (emit f n out)
unfolding emit
emit-All zero n out h = h
emit-All (suc f) n out h = elim (Bool-cases (ltb n 10)) [
  | inl e ↦ rw (emit, e) (omega arith, h)
  | inr e ↦ rw (emit, e) (emit-All f (n / 10) ((b'0' + n % 10) ∷ out) (omega arith, h))
]

-- A decimal text has bytes from the minus sign on only.
pub itoa-All : (n : ℤ) → All (λ c. b'-' ≤ c) (itoa n)
unfolding itoa
itoa-All (pos n) = emit-All (suc n) n [] tt
itoa-All (negsuc n) = (omega arith, emit-All (suc (suc n)) (suc n) [] tt)

scan : Text → ℕ → Option ℕ
scan [] n = some n
scan (c ∷ s) n =
    let rest = scan s (n * 10 + (c - b'0')) in if ltb c b'0' || ltb b'9' c then none else rest

-- One digit at least.
digits : Text → Option ℕ
unfolding scan
digits [] = none
digits (c ∷ s) = scan (c ∷ s) 0

-- The values of a 64-bit int.
abbrev non_negative : Option ℕ → Option ℤ
non_negative none = none
non_negative (some n) = if ltb n (2 ^ 63) then some (pos n) else none

abbrev negative : Option ℕ → Option ℤ
negative none = none
negative (some n) =
    if n == 0 then some (pos 0) else if leb n (2 ^ 63) then some (negsuc (n - 1)) else none

unfoldable pub atoi : Text → Option ℤ
unfolding digits
atoi [] = none
atoi (c ∷ s) =
    if c == b'-'
    then negative (digits s)
    else if c == b'+'
    then non_negative (digits s)
    else non_negative (digits (c ∷ s))
