-- ===== src/Operations/History/Order.antt =====
-- The order of the queries of internal/operations/history.go: for rows that started in different
-- seconds, `ORDER BY started_at DESC` leaves no choice.
use mathlib.Core.List.{reverse-cons}
use native.Mathlib.Decide.{ℕ_discrete}
use mathlib.Core.Logic.{ite}
use dockhand.Prelude.{
  ℕ, suc, ◌≤◌, ◌<◌, ◌≡◌, refl, sym, ap, ◌∙◌, Bool, true, false, List, [], ◌∷◌, arith, ◌==◌, leb,
  count_of, reverse, All, ℤ,
}
use dockhand.Operations.History.{Row, Sql, IsNewestFirst}
use dockhand.Operations.History.Keys.{count_of-append}

-- Each row is followed by rows that are older by a second at least.
abbrev pub IsDescending : List Row → Type 0
IsDescending [] = Unit
IsDescending (r ∷ rs) = All (λ x. x.started_at < r.started_at) rs × IsDescending rs

pub count_of-reverse : (p : Row → Bool) (rs : List Row) → count_of p (reverse rs) ≡ count_of p rs
count_of-reverse p [] = refl
count_of-reverse p (r ∷ rs) =
    rw (reverse-cons r rs)
      (ground (arith, count_of-append p (reverse rs) (r ∷ []), count_of-reverse p rs))

ℤ-discrete : Discrete ℤ
ℤ-discrete = hlevel ℕ_discrete

Row-discrete : Discrete Row
Row-discrete = hlevel (ℕ_discrete, ℤ-discrete)

is_row : Row → Row → Bool
is_row r x = ite (Row-discrete x r) true false

is_row_eq : (r x : Row) → is_row r x ≡ true → x ≡ r
unfolding is_row
is_row_eq r x h = ground arith

is_row_self : (r : Row) → is_row r r ≡ true
unfolding is_row
is_row_self r = ground arith

from_second : ℕ → Row → Bool
from_second s r = leb s r.started_at

in_second : ℕ → Row → Bool
in_second s r = r.started_at == s

count_of-from_second :
    (s n : ℕ) (rs : List Row)
    → n < s
    → All (λ x. x.started_at < n) rs
    → count_of (from_second s) rs ≡ 0
unfolding from_second
count_of-from_second s n [] h b = refl
count_of-from_second s n (r ∷ rs) h b = ground (arith, count_of-from_second s n rs h b.1)

count_of-in_second :
    (n : ℕ) (rs : List Row) → All (λ x. x.started_at < n) rs → count_of (in_second n) rs ≡ 0
unfolding in_second
count_of-in_second n [] b = refl
count_of-in_second n (r ∷ rs) b = ground (arith, count_of-in_second n rs b.1)

count_of-is_row :
    (r : Row) (rs : List Row) → count_of (is_row r) rs ≤ count_of (in_second r.started_at) rs
unfolding in_second
count_of-is_row r [] = omega arith
count_of-is_row r (x ∷ rs) = ground (arith, is_row_eq r x, count_of-is_row r rs)

-- In descending order the first row is the latest.
head_latest :
    (r y : Row) (ys : List Row)
    → All (λ x. x.started_at ≤ y.started_at) ys
    → 1 ≤ count_of (is_row r) (y ∷ ys)
    → r.started_at ≤ y.started_at
head_latest r y [] b c = ground (arith, is_row_eq r y)
head_latest r y (x ∷ ys) b c = ground (arith, is_row_eq r y, is_row_eq r x, head_latest r y ys b.1)

module _ (r y : Row) (rs ys : List Row) (strict : IsDescending (r ∷ rs))
    (sorted : IsNewestFirst (y ∷ ys))
    (same : (p : Row → Bool) → count_of p (y ∷ ys) ≡ count_of p (r ∷ rs)) where
  same_second : y.started_at ≡ r.started_at
  unfolding from_second
  same_second = ground (
    arith,
    same (is_row r),
    is_row_self r,
    head_latest r y ys sorted.0,
    same (from_second (suc r.started_at)),
    count_of-from_second (suc r.started_at) r.started_at rs (omega arith) strict.0,
  )

  same_head : y ≡ r
  unfolding in_second
  same_head = ground (
    arith,
    same_second,
    same (is_row r),
    is_row_self r,
    is_row_eq r y,
    same (in_second r.started_at),
    count_of-in_second r.started_at rs strict.0,
    count_of-is_row r ys,
  )

  same_tail : (p : Row → Bool) → count_of p ys ≡ count_of p rs
  same_tail p = ground (arith, same p, ap p same_head)

-- There is one order of rows that started in different seconds.
unique_order :
    (rs ys : List Row)
    → IsDescending rs
    → IsNewestFirst ys
    → ((p : Row → Bool) → count_of p ys ≡ count_of p rs)
    → ys ≡ rs
unique_order [] [] strict sorted same = refl
unique_order [] (y ∷ ys) strict sorted same = absurd (omega (arith, same (λ x. true)))
unique_order (r ∷ rs) [] strict sorted same = absurd (omega (arith, same (λ x. true)))
unique_order (r ∷ rs) (y ∷ ys) strict sorted same = ground (
  arith,
  same_head r y rs ys strict sorted same,
  unique_order rs ys strict.1 sorted.1 (same_tail r y rs ys strict sorted same),
)

-- `ORDER BY` of rows that stand in the order of their starts turns them round.
pub newest_first-reverse :
    (sql : Sql) (rs : List Row) → IsDescending (reverse rs) → sql.newest_first rs ≡ reverse rs
newest_first-reverse sql rs strict =
    unique_order (reverse rs) (sql.newest_first rs) strict (sql.descending rs)
      (λ p. sql.same_rows p rs ∙ sym (count_of-reverse p rs))
