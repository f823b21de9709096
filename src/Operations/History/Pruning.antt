-- ===== src/Operations/History/Pruning.antt =====
-- What `Prune` of internal/operations/history.go removes.

use dockhand.Prelude.{
  ℕ, ◌+◌, ◌≤◌, ◌≡◌, refl, ap, Bool, true, false, Option, none, some, List, [], ◌∷◌, arith, ◌==◌,
  min, count_of, select, any_of, take, drop, length, length-take, take-append-drop, Text, text_eq,
  text_eq_iff,
}
use dockhand.Operations.History.{Row, Table, Sql, has_id, is_named, prune, survives, newest_of}
use dockhand.Operations.History.Keys.{IsKeyed, count_of-append, count_of-select}

-- The row's id is one of those kept.
abbrev pub is_kept : List Row → Row → Bool
is_kept kept r = any_of (has_id r.id) kept

count_of-survives :
    (name : Text) (kept rs : List Row)
    → count_of (is_named name) (select (survives name kept) rs)
      ≡ count_of (is_kept kept) (select (is_named name) rs)
count_of-survives name kept [] = refl
count_of-survives name kept (r ∷ rs) = ground (arith, count_of-survives name kept rs)

any_of-none : (i : ℕ) (rs : List Row) → count_of (has_id i) rs ≡ 0 → any_of (has_id i) rs ≡ false
any_of-none i [] h = refl
any_of-none i (r ∷ rs) h = ground (arith, any_of-none i rs)

any_of-same :
    (i j : ℕ) (rs : List Row) → (i == j) ≡ true → any_of (has_id i) rs ≡ any_of (has_id j) rs
any_of-same i j rs h = ap (λ (n : ℕ). any_of (has_id n) rs) (ground arith)

count_of-is_kept :
    (k : Row) (ks rs : List Row)
    → any_of (has_id k.id) ks ≡ false
    → count_of (is_kept (k ∷ ks)) rs ≡ count_of (has_id k.id) rs + count_of (is_kept ks) rs
count_of-is_kept k ks [] h = refl
count_of-is_kept k ks (r ∷ rs) h =
    ground (arith, any_of-same r.id k.id ks, count_of-is_kept k ks rs h)

count_of-is_kept_nil : (rs : List Row) → count_of (is_kept []) rs ≡ 0
count_of-is_kept_nil [] = refl
count_of-is_kept_nil (r ∷ rs) = omega (arith, count_of-is_kept_nil rs)

-- If the ids of `ks` are distinct and occur once in `rs`, as many rows of `rs` have one of them.
pub count_of-is_kept_all :
    (ks rs : List Row)
    → ((i : ℕ) → (count_of (has_id i) ks ≤ count_of (has_id i) rs) × (count_of (has_id i) rs ≤ 1))
    → count_of (is_kept ks) rs ≡ length ks
count_of-is_kept_all [] rs h = count_of-is_kept_nil rs
count_of-is_kept_all (k ∷ ks) rs h = ground (
  arith,
  h k.id,
  any_of-none k.id ks,
  count_of-is_kept k ks rs,
  count_of-is_kept_all ks rs (λ i. ground (arith, h i)),
)

pub count_of-take :
    (p : Row → Bool) (n : ℕ) (rs : List Row)
    → count_of p rs ≡ count_of p (take n rs) + count_of p (drop n rs)
count_of-take p n rs = rw (← count_of-append p (take n rs) (drop n rs), take-append-drop n rs)

pub count_of-true : (rs : List Row) → count_of (λ r. true) rs ≡ length rs
count_of-true [] = refl
count_of-true (r ∷ rs) = omega (arith, count_of-true rs)

count_of-named :
    (name : Text) (rs : List Row)
    → count_of (λ r. true) (select (is_named name) rs) ≡ count_of (is_named name) rs
count_of-named name [] = refl
count_of-named name (r ∷ rs) = ground (arith, count_of-named name rs)

module _ (sql : Sql) (name : Text) (t : Table) (k : IsKeyed t) where
  open sql use {newest_first, same_rows, descending}

  pub kept_unique :
      (i : ℕ)
      → (count_of (has_id i) (newest_of sql name t.rows)
          ≤ count_of (has_id i) (select (is_named name) t.rows))
        × (count_of (has_id i) (select (is_named name) t.rows) ≤ 1)
  kept_unique i =
      let named = select (is_named name) t.rows in
      omega (
        arith,
        count_of-take (has_id i) 50 (newest_first named),
        same_rows (has_id i) named,
        count_of-select (has_id i) (is_named name) t.rows,
        k.unique i,
      )

  -- On a table with distinct ids, `Prune` leaves all the rows of the operation if there are 50 or
  -- fewer, and exactly 50 of them otherwise.
  pub count_of-prune :
      count_of (is_named name) (prune sql none name t).rows
      ≡ min 50 (count_of (is_named name) t.rows)
  unfolding prune
  count_of-prune =
      let named = select (is_named name) t.rows in
      omega (
        arith,
        count_of-survives name (newest_of sql name t.rows) t.rows,
        count_of-is_kept_all (newest_of sql name t.rows) named kept_unique,
        length-take 50 (newest_first named),
        count_of-true (newest_first named),
        same_rows (λ r. true) named,
        count_of-named name t.rows,
      )

pub select-survives_other :
    (name other : Text) (kept rs : List Row)
    → text_eq other name ≡ false
    → select (is_named other) (select (survives name kept) rs) ≡ select (is_named other) rs
select-survives_other name other kept [] h = refl
select-survives_other name other kept (r ∷ rs) h = ground (
  arith,
  text_eq_iff r.operation_name other,
  text_eq_iff r.operation_name name,
  text_eq_iff other name,
  select-survives_other name other kept rs h,
)

-- `Prune` of one operation leaves the rows of every other operation, in their order.
prune-other :
    (sql : Sql) (name other : Text) (t : Table) (fault : Option Text)
    → text_eq other name ≡ false
    → select (is_named other) (prune sql fault name t).rows ≡ select (is_named other) t.rows
unfolding prune
prune-other sql name other t (some e) h = refl
prune-other sql name other t none h =
    select-survives_other name other (newest_of sql name t.rows) t.rows h
