-- ===== src/Operations/History/Keys.antt =====
-- The ids of the table of internal/operations/history.go.
use dockhand.Prelude.{
  ℕ, suc, ◌+◌, ◌≤◌, ◌<◌, ◌≡◌, refl, ap, Bool, Option, none, some, List, [], ◌∷◌, ◌++◌, arith, ◌==◌,
  count_of, select, All, All-append, Text, ok, ℤ,
}
use dockhand.Operations.History.{
  Row, Table, Sql, new_row, insert_run, finish_row, map_rows, update_run, has_id, prune, survives,
  newest_of,
}

-- No id stands twice, and none is beyond the sequence.
pub record IsKeyed (t : Table) : Type 0 where
  pub unique : (i : ℕ) → count_of (has_id i) t.rows ≤ 1
  pub bounded : All (λ r. r.id ≤ t.sequence) t.rows

pub select-append :
    (p : Row → Bool) (rs qs : List Row) → select p (rs ++ qs) ≡ select p rs ++ select p qs
select-append p [] qs = refl
select-append p (r ∷ rs) qs = ground (arith, select-append p rs qs)

module _ (p : Row → Bool) where
  pub count_of-append : (rs qs : List Row) → count_of p (rs ++ qs) ≡ count_of p rs + count_of p qs
  count_of-append [] qs = omega arith
  count_of-append (r ∷ rs) qs = omega (arith, count_of-append rs qs)

  pub count_of-select : (q : Row → Bool) (rs : List Row) → count_of p (select q rs) ≤ count_of p rs
  count_of-select q [] = omega arith
  count_of-select q (r ∷ rs) = ground (arith, count_of-select q rs)

  pub count_of-map_rows :
      (f : Row → Row)
      → ((r : Row) → p (f r) ≡ p r)
      → (rs : List Row) → count_of p (map_rows f rs) ≡ count_of p rs
  count_of-map_rows f h [] = refl
  count_of-map_rows f h (r ∷ rs) = ground (arith, h r, count_of-map_rows f h rs)

count_of-beyond :
    (rs : List Row) (i n : ℕ) → n < i → All (λ r. r.id ≤ n) rs → count_of (has_id i) rs ≡ 0
count_of-beyond [] i n h b = refl
count_of-beyond (r ∷ rs) i n h b = ground (arith, count_of-beyond rs i n h b.1)

All-id_mono : (rs : List Row) (n m : ℕ) → n ≤ m → All (λ r. r.id ≤ n) rs → All (λ r. r.id ≤ m) rs
All-id_mono [] n m h b = tt
All-id_mono (r ∷ rs) n m h b = (omega arith, All-id_mono rs n m h b.1)

All-id-select :
    (q : Row → Bool) (rs : List Row) (n : ℕ)
    → All (λ r. r.id ≤ n) rs
    → All (λ r. r.id ≤ n) (select q rs)
All-id-select q [] n b = tt
All-id-select q (r ∷ rs) n b = ground (arith, All-id-select q rs n b.1)

All-id-map_rows :
    (f : Row → Row)
    → ((r : Row) → (f r).id ≡ r.id)
    → (rs : List Row) (n : ℕ) → All (λ r. r.id ≤ n) rs
    → All (λ r. r.id ≤ n) (map_rows f rs)
All-id-map_rows f h [] n b = tt
All-id-map_rows f h (r ∷ rs) n b = (rw (h r) b.0, All-id-map_rows f h rs n b.1)

pub insert_run-IsKeyed :
    (fault : Option Text) (name : Text) (at : ℕ) (t : Table)
    → IsKeyed t
    → IsKeyed (insert_run fault name at t).1
unfolding insert_run
insert_run-IsKeyed (some e) name at t k = k
insert_run-IsKeyed none name at t k =
    let r = new_row (suc t.sequence) name at in
    record {
      unique = λ i. ground (
        arith,
        count_of-append (has_id i) t.rows (r ∷ []),
        k.unique i,
        count_of-beyond t.rows i t.sequence,
      );
      bounded =
          All-append _ t.rows (r ∷ [])
            (All-id_mono t.rows t.sequence (suc t.sequence) (omega arith) k.bounded) (omega arith);
    }

finish_row-id :
    (id at : ℕ) (code : ℤ) (out : Text) (r : Row) → (finish_row id at code out r).id ≡ r.id
finish_row-id id at code out r = ground arith

pub update_run-IsKeyed :
    (fault : Option Text) (id at : ℕ) (code : ℤ) (out : Text) (t : Table)
    → IsKeyed t
    → IsKeyed (update_run fault id at code out t)
unfolding update_run
update_run-IsKeyed (some e) id at code out t k = k
update_run-IsKeyed none id at code out t k =
    let f = finish_row id at code out in
    let same = finish_row-id id at code out in
    record {
      unique = λ i.
          rw (count_of-map_rows (has_id i) f (λ r. ap (λ (j : ℕ). j == i) (same r)) t.rows)
            (k.unique i);
      bounded = All-id-map_rows f same t.rows t.sequence k.bounded;
    }

pub prune-IsKeyed :
    (sql : Sql) (fault : Option Text) (name : Text) (t : Table)
    → IsKeyed t
    → IsKeyed (prune sql fault name t)
unfolding prune
prune-IsKeyed sql (some e) name t k = k
prune-IsKeyed sql none name t k =
    let q = survives name (newest_of sql name t.rows) in
    record {
      unique = λ i. omega (arith, count_of-select (has_id i) q t.rows, k.unique i);
      bounded = All-id-select q t.rows t.sequence k.bounded;
    }

-- The statements that change the table.
pub data Change : Type 0 where
  insert : Text → ℕ → Change
  update : ℕ → ℕ → ℤ → Text → Change
  prune_old : Text → Change

unfoldable pub apply : Sql → Table → Option Text × Change → Table
apply sql t (fault, insert name at) = (insert_run fault name at t).1
apply sql t (fault, update id at code out) = update_run fault id at code out t
apply sql t (fault, prune_old name) = prune sql fault name t

unfoldable pub apply_all : Sql → Table → List (Option Text × Change) → Table
apply_all sql t [] = t
apply_all sql t (c ∷ cs) = apply_all sql (apply sql t c) cs

pub apply-IsKeyed :
    (sql : Sql) (t : Table) (c : Option Text × Change) → IsKeyed t → IsKeyed (apply sql t c)
unfolding apply
apply-IsKeyed sql t (fault, insert name at) k = insert_run-IsKeyed fault name at t k
apply-IsKeyed sql t (fault, update id at code out) k = update_run-IsKeyed fault id at code out t k
apply-IsKeyed sql t (fault, prune_old name) k = prune-IsKeyed sql fault name t k

-- From a table with distinct ids that the sequence bounds, every sequence of inserts, updates and
-- prunes, with or without database errors, leads to such a table, and the id that a further
-- successful insert returns is that of no row there.
apply_all-IsKeyed :
    (sql : Sql) (t : Table) (cs : List (Option Text × Change)) (name : Text) (at : ℕ) {id : ℕ}
    → IsKeyed t
    → (insert_run none name at (apply_all sql t cs)).0 ≡ ok id
    → IsKeyed (apply_all sql t cs) × (count_of (has_id id) (apply_all sql t cs).rows ≡ 0)
unfolding apply_all insert_run
apply_all-IsKeyed sql t [] name at k h =
    (k, ground (arith, count_of-beyond t.rows (suc t.sequence) t.sequence (omega arith) k.bounded))
apply_all-IsKeyed sql t (c ∷ cs) name at k h =
    apply_all-IsKeyed sql (apply sql t c) cs name at (apply-IsKeyed sql t c k) h
