-- ===== src/Operations/History/Log/Refinement.antt =====
-- The table of internal/operations/history.go implements the logs of the operations.
use dockhand.Prelude.{
  ℕ, zero, suc, ◌≤◌, ◌<◌, ◌≡◌, refl, sym, subst, ap, ◌∙◌, Option, none, some, List, [], ◌∷◌, arith,
  Bool-cases, inl, inr, take, select, All, Text, text_eq, ℤ,
}
use dockhand.Operations.History.{
  Row, Table, Sql, empty_table, unix, new_row, insert_run, finish_row, map_rows, update_run,
  is_named, prune, scan_rows, or_default, list_history,
}
use dockhand.Operations.History.Keys.{
  IsKeyed, Change, insert, update, prune_old, apply, apply_all, apply-IsKeyed,
}
use dockhand.Operations.History.Order.{IsDescending, newest_first-reverse}
use dockhand.Operations.History.Log.Views.{view-insert, view-update, view-prune_old}
use dockhand.Operations.History.Log.{Log, empty_log, log_change, log_all, StartsFrom, view}

-- The entries started before the second `n`, in different seconds, and stand newest first.
pub record IsTimed (n : ℕ) (rs : List Row) : Type 0 where
  pub before : All (λ x. x.started_at < n) rs
  pub descending : IsDescending rs

All-weaken :
    (n m : ℕ) (rs : List Row)
    → n ≤ m
    → All (λ x. x.started_at < n) rs
    → All (λ x. x.started_at < m) rs
All-weaken n m [] h b = tt
All-weaken n m (r ∷ rs) h b = (omega arith, All-weaken n m rs h b.1)

All-before-take :
    (n m : ℕ) (rs : List Row)
    → All (λ x. x.started_at < n) rs
    → All (λ x. x.started_at < n) (take m rs)
All-before-take n zero rs b = tt
All-before-take n (suc m) [] b = tt
All-before-take n (suc m) (r ∷ rs) b = (b.0, All-before-take n m rs b.1)

IsDescending-take : (m : ℕ) (rs : List Row) → IsDescending rs → IsDescending (take m rs)
IsDescending-take zero rs d = tt
IsDescending-take (suc m) [] d = tt
IsDescending-take (suc m) (r ∷ rs) d =
    (All-before-take r.started_at m rs d.0, IsDescending-take m rs d.1)

module _ (f : Row → Row) (same : (r : Row) → (f r).started_at ≡ r.started_at) where
  All-before-map_rows :
      (n : ℕ) (rs : List Row)
      → All (λ x. x.started_at < n) rs
      → All (λ x. x.started_at < n) (map_rows f rs)
  All-before-map_rows n [] b = tt
  All-before-map_rows n (r ∷ rs) b = (omega (arith, same r), All-before-map_rows n rs b.1)

  IsDescending-map_rows : (rs : List Row) → IsDescending rs → IsDescending (map_rows f rs)
  IsDescending-map_rows [] d = tt
  IsDescending-map_rows (r ∷ rs) d =
      (rw (same r) (All-before-map_rows r.started_at rs d.0), IsDescending-map_rows rs d.1)

IsTimed-take : (n m : ℕ) (rs : List Row) → IsTimed n rs → IsTimed n (take m rs)
IsTimed-take n m rs w = record {
  before = All-before-take n m rs w.before;
  descending = IsDescending-take m rs w.descending;
}

finish_row-started_at :
    (id at : ℕ) (code : ℤ) (out : Text) (r : Row)
    → (finish_row id at code out r).started_at ≡ r.started_at
finish_row-started_at id at code out r = ground arith

IsTimed-update :
    (id at : ℕ) (code : ℤ) (out : Text) (n : ℕ) (rs : List Row)
    → IsTimed n rs
    → IsTimed n (map_rows (finish_row id at code out) rs)
IsTimed-update id at code out n rs w =
    let f = finish_row id at code out in
    let same = finish_row-started_at id at code out in
    record {
      before = All-before-map_rows f same n rs w.before;
      descending = IsDescending-map_rows f same rs w.descending;
    }

IsTimed-insert :
    (r : Row) (n : ℕ) (rs : List Row)
    → n ≤ r.started_at
    → IsTimed n rs
    → IsTimed (suc r.started_at) (r ∷ rs)
IsTimed-insert r n rs h w = record {
  before = (omega arith, All-weaken n (suc r.started_at) rs (omega arith) w.before);
  descending = (All-weaken n r.started_at rs h w.before, w.descending);
}

apply_failed : (sql : Sql) (t : Table) (e : Text) (c : Change) → apply sql t (some e, c) ≡ t
unfolding apply insert_run update_run prune
apply_failed sql t e (insert name at) = refl
apply_failed sql t e (update id at code out) = refl
apply_failed sql t e (prune_old name) = refl

module _ (sql : Sql) (name : Text) where
  -- After the changes the table holds this log, in the order of the starts.
  abbrev pub Refines : Table → Log → List (Option Text × Change) → Type 0
  Refines t l cs =
      (view name (apply_all sql t cs) ≡ log_all name l cs)
      × IsDescending (view name (apply_all sql t cs)).entries

  -- What the change of one insert means for the second from which further runs start.
  insert-IsTimed :
      (other : Text) (at : ℕ) (cs : List (Option Text × Change)) (l : Log) (n : ℕ)
      → IsTimed n l.entries
      → StartsFrom name n ((none, insert other at) ∷ cs)
      → (m : ℕ) × IsTimed m (log_change name l (insert other at)).entries × StartsFrom name m cs
  unfolding log_change
  insert-IsTimed other at cs l n w s = elim (Bool-cases (text_eq other name)) [
    | inl e ↦
        let s' = rw e at s in
        (
          suc (unix at),
          rw e (IsTimed-insert (new_row (suc l.sequence) other at) n l.entries s'.0 w),
          s'.1,
        )
    | inr e ↦ (n, rw e w, rw e at s)
  ]

  prune-IsTimed :
      (other : Text) (l : Log) (n : ℕ)
      → IsTimed n l.entries
      → IsTimed n (log_change name l (prune_old other)).entries
  unfolding log_change
  prune-IsTimed other l n w = elim (Bool-cases (text_eq other name)) [
    | inl e ↦ rw e (IsTimed-take n 50 l.entries w)
    | inr e ↦ rw e w
  ]

  pub refines :
      (cs : List (Option Text × Change)) (t : Table) (n : ℕ) {l : Log}
      → view name t ≡ l
      → IsKeyed t
      → IsTimed n l.entries
      → StartsFrom name n cs
      → Refines t l cs
  unfolding apply_all log_all apply log_change
  refines [] t n v k w s = (v, subst (λ l. IsDescending l.entries) (sym v) w.descending)
  refines ((some e, c) ∷ cs) t n v k w s = rw (apply_failed sql t e c) (refines cs t n v k w s)
  refines ((none, insert other at) ∷ cs) t n {l} v k w s =
      let (m, w', s') = insert-IsTimed other at cs l n w s in
      refines cs (insert_run none other at t).1 m
        (view-insert sql name t other at ∙ ap (λ l. log_change name l (insert other at)) v)
        (apply-IsKeyed sql t (none, insert other at) k) w' s'
  refines ((none, update id at code out) ∷ cs) t n {l} v k w s =
      refines cs (update_run none id at code out t) n
        (view-update sql name t id at code out
          ∙ ap (λ l. log_change name l (update id at code out)) v)
        (apply-IsKeyed sql t (none, update id at code out) k)
        (IsTimed-update id at code out n l.entries w) s
  refines ((none, prune_old other) ∷ cs) t n {l} v k w s =
      refines cs (prune sql none other t) n
        (view-prune_old sql name t other k
            (subst (λ l. IsDescending l.entries) (sym v) w.descending)
          ∙ ap (λ l. log_change name l (prune_old other)) v)
        (apply-IsKeyed sql t (none, prune_old other) k) (prune-IsTimed other l n w) s

  -- In a history that begins empty, whatever the operations enter, close and prune, in any order, and
  -- whichever of these statements fail: if the runs of an operation that are entered start in different
  -- seconds, in their order, the listing of the operation is that of its log, the newest entries up to
  -- the limit. An insert that does not fail puts an entry in front of the log, and a prune that does
  -- not fail leaves its newest fifty.
  pub list_history-log_all :
      (cs : List (Option Text × Change)) (limit : ℤ)
      → StartsFrom name 0 cs
      → list_history sql none name limit (apply_all sql empty_table cs)
        ≡ scan_rows (take (or_default 20 limit) (log_all name empty_log cs).entries)
  unfolding list_history view
  list_history-log_all cs limit s =
      let (v, d) =
        refines cs empty_table 0 refl (record { unique = λ i. omega arith; bounded = tt })
          (record { before = tt; descending = tt }) s in
      let t = apply_all sql empty_table cs in
      rw (newest_first-reverse sql (select (is_named name) t.rows) d)
        (ap (λ (l : Log). scan_rows (take (or_default 20 limit) l.entries)) v)
