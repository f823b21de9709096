-- ===== src/Tests/Database.antt =====
-- A database whose `ORDER BY` is an insertion sort.
use dockhand.Prelude.{
  ℕ, ◌≤◌, ◌≡◌, refl, Bool, List, [], ◌∷◌, arith, leb, if◌then◌else◌, count_of, All, inl, inr,
  Bool-cases,
}
use dockhand.Operations.History.{Row, Sql, IsNewestFirst}

unfoldable insert_row : Row → List Row → List Row
insert_row r [] = r ∷ []
insert_row r (x ∷ xs) =
    let rest = insert_row r xs in if leb x.started_at r.started_at then r ∷ x ∷ xs else x ∷ rest

unfoldable pub sort_rows : List Row → List Row
unfolding insert_row
sort_rows [] = []
sort_rows (r ∷ rs) = insert_row r (sort_rows rs)

count_of-insert_row :
    (p : Row → Bool) (r : Row) (rs : List Row) → count_of p (insert_row r rs) ≡ count_of p (r ∷ rs)
unfolding insert_row
count_of-insert_row p r [] = refl
count_of-insert_row p r (x ∷ xs) = ground (arith, count_of-insert_row p r xs)

pub count_of-sort_rows :
    (p : Row → Bool) (rs : List Row) → count_of p (sort_rows rs) ≡ count_of p rs
unfolding sort_rows
count_of-sort_rows p [] = refl
count_of-sort_rows p (r ∷ rs) =
    omega (arith, count_of-insert_row p r (sort_rows rs), count_of-sort_rows p rs)

insert_row_bounded :
    (r : Row) (n : ℕ) (rs : List Row)
    → r.started_at ≤ n
    → All (λ x. x.started_at ≤ n) rs
    → All (λ x. x.started_at ≤ n) (insert_row r rs)
unfolding insert_row
insert_row_bounded r n [] h b = (h, tt)
insert_row_bounded r n (x ∷ xs) h b = ground (arith, insert_row_bounded r n xs h b.1)

bounded_mono :
    (n m : ℕ) (rs : List Row)
    → n ≤ m
    → All (λ x. x.started_at ≤ n) rs
    → All (λ x. x.started_at ≤ m) rs
bounded_mono n m [] h b = tt
bounded_mono n m (r ∷ rs) h b = (omega arith, bounded_mono n m rs h b.1)

insert_row-IsNewestFirst :
    (r : Row) (rs : List Row) → IsNewestFirst rs → IsNewestFirst (insert_row r rs)
unfolding insert_row
insert_row-IsNewestFirst r [] s = (tt, tt)
insert_row-IsNewestFirst r (x ∷ xs) s = elim (Bool-cases (leb x.started_at r.started_at)) [
  | inl e ↦
      let h : x.started_at ≤ r.started_at = ground arith in
      rw e ((h, bounded_mono x.started_at r.started_at xs h s.0), s)
  | inr e ↦
      let h : r.started_at ≤ x.started_at = ground arith in
      rw e (insert_row_bounded r x.started_at xs h s.0, insert_row-IsNewestFirst r xs s.1)
]

pub sort_rows-IsNewestFirst : (rs : List Row) → IsNewestFirst (sort_rows rs)
unfolding sort_rows
sort_rows-IsNewestFirst [] = tt
sort_rows-IsNewestFirst (r ∷ rs) =
    insert_row-IsNewestFirst r (sort_rows rs) (sort_rows-IsNewestFirst rs)

abbrev pub sorting : Sql
sorting = record {
  newest_first = sort_rows;
  same_rows = count_of-sort_rows;
  descending = sort_rows-IsNewestFirst;
}
