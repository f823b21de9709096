-- ===== src/Operations/History/Retained.antt =====
-- Which rows `Prune` of internal/operations/history.go retains.
use dockhand.Prelude.{
  ℕ, ◌≤◌, ◌≡◌, refl, ap, subst, sym, Bool, true, false, ◌&&◌, none, List, [], ◌∷◌, ◌++◌, arith,
  ◌==◌, count_of, select, any_of, take, drop, take-append-drop, All, Member, Text, inl, inr,
}
use dockhand.Operations.History.{
  Row, Table, Sql, IsNewestFirst, has_id, is_named, prune, survives, newest_of,
}
use dockhand.Operations.History.Keys.{IsKeyed}
use dockhand.Operations.History.Pruning.{count_of-take, kept_unique}

-- The row has this id and this start.
abbrev is_at : Row → Row → Bool
is_at r x = x.id == r.id && x.started_at == r.started_at

count_of-Member :
    (name : Text) (r : Row) (rs : List Row)
    → Member r rs
    → is_named name r ≡ true
    → 1 ≤ count_of (is_at r) (select (is_named name) rs)
count_of-Member name r [] m h = absurd m
count_of-Member name r (x ∷ rs) (inl e) h = ground arith
count_of-Member name r (x ∷ rs) (inr m) h = ground (arith, count_of-Member name r rs m h)

count_of-is_at : (r : Row) (rs : List Row) → count_of (is_at r) rs ≤ count_of (has_id r.id) rs
count_of-is_at r [] = omega arith
count_of-is_at r (x ∷ rs) = ground (arith, count_of-is_at r rs)

any_of-count : (i : ℕ) (rs : List Row) → any_of (has_id i) rs ≡ false → count_of (has_id i) rs ≡ 0
any_of-count i [] h = refl
any_of-count i (r ∷ rs) h = ground (arith, any_of-count i rs)

any_of-count_pos :
    (i : ℕ) (rs : List Row) → any_of (has_id i) rs ≡ true → 1 ≤ count_of (has_id i) rs
any_of-count_pos i [] h = cc
any_of-count_pos i (r ∷ rs) h = ground (arith, any_of-count_pos i rs)

start_bounded :
    (r : Row) (n : ℕ) (rs : List Row)
    → All (λ x. x.started_at ≤ n) rs
    → 1 ≤ count_of (is_at r) rs
    → r.started_at ≤ n
start_bounded r n [] h c = absurd (omega arith)
start_bounded r n (x ∷ rs) h c = ground (arith, start_bounded r n rs h.1)

All-append_left :
    (n : ℕ) (rs qs : List Row)
    → All (λ x. x.started_at ≤ n) (rs ++ qs)
    → All (λ x. x.started_at ≤ n) qs
All-append_left n [] qs h = h
All-append_left n (r ∷ rs) qs h = All-append_left n rs qs h.1

-- In descending order, what stands in the first part is no older than what stands in the second.
across :
    (k r : Row) (rs qs : List Row)
    → IsNewestFirst (rs ++ qs)
    → 1 ≤ count_of (is_at k) rs
    → 1 ≤ count_of (is_at r) qs
    → r.started_at ≤ k.started_at
across k r [] qs s hk hr = absurd (omega arith)
across k r (x ∷ rs) qs s hk hr =
    let below = start_bounded r x.started_at qs (All-append_left x.started_at rs qs s.0) hr in
    ground (arith, across k r rs qs s.1)

pub Member-select :
    (p : Row → Bool) (rs : List Row) (k : Row) → Member k (select p rs) → Member k rs × (p k ≡ true)
Member-select p [] k m = absurd m
Member-select p (r ∷ rs) k m = ground (arith, Member-select p rs k)

count_of-select_self :
    (p : Row → Bool) (rs : List Row) (r : Row)
    → Member r rs
    → p r ≡ true
    → 1 ≤ count_of (has_id r.id) (select p rs)
count_of-select_self p [] r m h = absurd m
count_of-select_self p (x ∷ rs) r (inl e) h = let e' = ap p e in ground arith
count_of-select_self p (x ∷ rs) r (inr m) h = ground (arith, count_of-select_self p rs r m h)

removed :
    (p : Row → Bool) (rs : List Row) (r : Row)
    → Member r rs
    → count_of (has_id r.id) (select p rs) ≡ 0
    → p r ≡ false
removed p rs r m z = ground (arith, count_of-select_self p rs r m)

module _ (sql : Sql) (name : Text) (t : Table) (w : IsKeyed t) where
  open sql use {newest_first, same_rows, descending}

  kept_apart :
      (r k : Row)
      → Member r t.rows
      → Member k t.rows
      → is_named name r ≡ true
      → is_named name k ≡ true
      → any_of (has_id r.id) (newest_of sql name t.rows) ≡ false
      → any_of (has_id k.id) (newest_of sql name t.rows) ≡ true
      → r.started_at ≤ k.started_at
  kept_apart r k mr mk hr hk gone kept =
      let named = select (is_named name) t.rows in
      let order = newest_first named in
      let sorted = subst IsNewestFirst (sym (take-append-drop 50 order)) (descending named) in
      across k r (take 50 order) (drop 50 order) sorted
        (omega (
          arith,
          count_of-Member name k t.rows mk hk,
          same_rows (is_at k) named,
          same_rows (has_id k.id) named,
          count_of-take (is_at k) 50 order,
          count_of-take (has_id k.id) 50 order,
          kept_unique sql name t w k.id,
          any_of-count_pos k.id (take 50 order) kept,
          count_of-is_at k (drop 50 order),
        ))
        (omega (
          arith,
          count_of-Member name r t.rows mr hr,
          same_rows (is_at r) named,
          count_of-take (is_at r) 50 order,
          any_of-count r.id (take 50 order) gone,
          count_of-is_at r (take 50 order),
        ))

  -- On a table with distinct ids, a row of the operation that `Prune` removes started no later than
  -- any row of the operation that stays.
  pub prune_newest :
      (r k : Row)
      → Member r t.rows
      → is_named name r ≡ true
      → count_of (has_id r.id) (prune sql none name t).rows ≡ 0
      → Member k (prune sql none name t).rows
      → is_named name k ≡ true
      → r.started_at ≤ k.started_at
  unfolding prune
  prune_newest r k mr hr gone mk hk =
      let gone' = removed (survives name (newest_of sql name t.rows)) t.rows r mr gone in
      let (mk', stays) = Member-select (survives name (newest_of sql name t.rows)) t.rows k mk in
      kept_apart r k mr mk' hr hk (ground arith) (ground arith)
