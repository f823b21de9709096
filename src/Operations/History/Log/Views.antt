-- ===== src/Operations/History/Log/Views.antt =====
-- Each statement of internal/operations/history.go changes the log that its table holds.
use mathlib.Core.List.{reverse-cons, reverse-append}
use dockhand.Prelude.{
  ℕ, suc, ◌≤◌, ◌≡◌, refl, sym, ap, ◌∙◌, Bool, true, false, none, List, [], ◌∷◌, ◌++◌, append-nil,
  arith, if◌then◌else◌, count_of, select, take, drop, take-append-drop, length, reverse, Text,
  text_eq, eq_of-text_eq, text_eq_iff, ℤ,
}
use dockhand.Operations.History.{
  Row, Table, Sql, new_row, insert_run, finish_row, map_rows, update_run, has_id, is_named,
  survives, newest_of, prune,
}
use dockhand.Operations.History.Keys.{
  count_of-select, IsKeyed, insert, update, prune_old, count_of-select, select-append,
}
use dockhand.Operations.History.Pruning.{
  is_kept, count_of-is_kept_all, count_of-take, select-survives_other,
}
use dockhand.Operations.History.Listing.{count_of-le}
use dockhand.Operations.History.Order.{IsDescending, count_of-reverse, newest_first-reverse}
use dockhand.Operations.History.Log.{log_change, view}

select-map_rows :
    (p : Row → Bool) (f : Row → Row)
    → ((r : Row) → p (f r) ≡ p r)
    → (rs : List Row) → select p (map_rows f rs) ≡ map_rows f (select p rs)
select-map_rows p f h [] = refl
select-map_rows p f h (r ∷ rs) = ground (arith, h r, select-map_rows p f h rs)

map_rows-append :
    (f : Row → Row) (rs qs : List Row) → map_rows f (rs ++ qs) ≡ map_rows f rs ++ map_rows f qs
map_rows-append f [] qs = refl
map_rows-append f (r ∷ rs) qs = ap (λ l. f r ∷ l) (map_rows-append f rs qs)

reverse-map_rows :
    (f : Row → Row) (rs : List Row) → reverse (map_rows f rs) ≡ map_rows f (reverse rs)
reverse-map_rows f [] = refl
reverse-map_rows f (r ∷ rs) = simp (reverse-cons, reverse-map_rows f rs, map_rows-append)

select-survives_self :
    (name : Text) (kept rs : List Row)
    → select (is_named name) (select (survives name kept) rs)
      ≡ select (is_kept kept) (select (is_named name) rs)
select-survives_self name kept [] = refl
select-survives_self name kept (r ∷ rs) = ground (arith, select-survives_self name kept rs)

select_none : (p : Row → Bool) (rs : List Row) → count_of p rs ≡ 0 → select p rs ≡ []
select_none p [] h = refl
select_none p (r ∷ rs) h = ground (arith, select_none p rs)

select_all : (p : Row → Bool) (rs : List Row) → count_of p rs ≡ length rs → select p rs ≡ rs
select_all p [] h = refl
select_all p (r ∷ rs) h = ground (arith, count_of-le p rs, select_all p rs)

-- Of rows with distinct ids, those with the ids of the first fifty are the first fifty.
module _ (rs : List Row) (unique : (i : ℕ) → count_of (has_id i) rs ≤ 1) where
  kept_first : count_of (is_kept (take 50 rs)) (take 50 rs) ≡ length (take 50 rs)
  kept_first =
      count_of-is_kept_all (take 50 rs) (take 50 rs)
        (λ i. omega (arith, count_of-take (has_id i) 50 rs, unique i))

  kept_all : count_of (is_kept (take 50 rs)) rs ≡ length (take 50 rs)
  kept_all =
      count_of-is_kept_all (take 50 rs) rs
        (λ i. omega (arith, count_of-take (has_id i) 50 rs, unique i))

  select-is_kept : select (is_kept (take 50 rs)) rs ≡ take 50 rs
  select-is_kept =
      let p = is_kept (take 50 rs) in
      ap (select p) (sym (take-append-drop 50 rs))
      ∙ select-append p (take 50 rs) (drop 50 rs)
      ∙ rw
          (
            select_all p (take 50 rs) kept_first,
            select_none p (drop 50 rs) (omega (arith, kept_first, kept_all, count_of-take p 50 rs)),
          )
          (append-nil (take 50 rs))

reverse-select : (p : Row → Bool) (rs : List Row) → reverse (select p rs) ≡ select p (reverse rs)
reverse-select p [] = refl
reverse-select p (r ∷ rs) =
    rw (reverse-cons r rs, select-append p (reverse rs) (r ∷ []), ← reverse-select p rs)
      (reverse-select_cons (p r) refl)
  where
    reverse-select_cons :
        (b : Bool)
        → p r ≡ b
        → reverse (select p (r ∷ rs)) ≡ reverse (select p rs) ++ select p (r ∷ [])
    reverse-select_cons true e = rw e (reverse-cons r (select p rs))
    reverse-select_cons false e = rw e (sym (append-nil (reverse (select p rs))))

count_of-view :
    (name : Text) (t : Table) → IsKeyed t → (i : ℕ) → count_of (has_id i) (view name t).entries ≤ 1
unfolding view
count_of-view name t k i = omega (
  arith,
  count_of-reverse (has_id i) (select (is_named name) t.rows),
  count_of-select (has_id i) (is_named name) t.rows,
  k.unique i,
)

-- What `Prune` leaves of its own operation, if the runs started in different seconds.
view-prune :
    (sql : Sql) (name : Text) (t : Table)
    → IsKeyed t
    → IsDescending (view name t).entries
    → (view name (prune sql none name t)).entries ≡ take 50 (view name t).entries
unfolding view prune
view-prune sql name t k d =
    let v = select (is_named name) t.rows in
    rw (newest_first-reverse sql v d) (
      ap reverse (select-survives_self name (take 50 (reverse v)) t.rows)
      ∙ reverse-select (is_kept (take 50 (reverse v))) v
      ∙ select-is_kept (reverse v) (count_of-view name t k))

reverse_snoc :
    (b : Bool) (r : Row) (rs : List Row)
    → reverse (rs ++ (if b then r ∷ [] else [])) ≡ (if b then r ∷ reverse rs else reverse rs)
reverse_snoc true r rs = reverse-append rs (r ∷ [])
reverse_snoc false r rs = ap reverse (append-nil rs)

view-prune_other :
    (sql : Sql) (name other : Text) (t : Table)
    → text_eq other name ≡ false
    → (view name (prune sql none other t)).entries ≡ (view name t).entries
unfolding view prune
view-prune_other sql name other t h = ap reverse (
    select-survives_other other name (newest_of sql other t.rows) t.rows
      (ground (arith, text_eq_iff other name, text_eq_iff name other)))

-- One change: the log of the table afterwards is the log before, changed.
module _ (sql : Sql) (name : Text) (t : Table) where
  pub view-insert :
      (other : Text) (at : ℕ)
      → view name (insert_run none other at t).1 ≡ log_change name (view name t) (insert other at)
  unfolding view insert_run log_change
  view-insert other at =
      let row = new_row (suc t.sequence) other at in
      rw (select-append (is_named name) t.rows (row ∷ [])) (
        ap (λ es. record { entries = es; sequence = suc t.sequence })
          (reverse_snoc (text_eq other name) row (select (is_named name) t.rows)))

  pub view-update :
      (id at : ℕ) (code : ℤ) (out : Text)
      → view name (update_run none id at code out t)
        ≡ log_change name (view name t) (update id at code out)
  unfolding view update_run log_change
  view-update id at code out =
      let f = finish_row id at code out in
      rw
        (
          select-map_rows (is_named name) f (λ r. ground arith) t.rows,
          reverse-map_rows f (select (is_named name) t.rows),
        )
        refl

  pub view-prune_old :
      (other : Text)
      → IsKeyed t
      → IsDescending (view name t).entries
      → view name (prune sql none other t) ≡ log_change name (view name t) (prune_old other)
  unfolding log_change view prune
  view-prune_old other k d =
      ap (λ es. record { entries = es; sequence = t.sequence })
        (entries_after (text_eq other name) refl)
    where
      entries_after :
          (b : Bool)
          → text_eq other name ≡ b
          → (view name (prune sql none other t)).entries
            ≡ (if b then take 50 (view name t).entries else (view name t).entries)
      entries_after true e = rw (eq_of-text_eq other name e) (view-prune sql name t k d)
      entries_after false e = view-prune_other sql name other t e
