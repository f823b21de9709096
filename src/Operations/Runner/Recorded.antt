-- ===== src/Operations/Runner/Recorded.antt =====
-- What a run leaves in the history, in internal/operations/runner.go and history.go.
use dockhand.Prelude.{
  ℕ, suc, ◌+◌, ◌<◌, ◌≤◌, ◌≡◌, refl, ap, subst, sym, ◌∙◌, Bool, true, false, Option, none, some,
  List, [], ◌∷◌, ◌++◌, arith, count_of, select, Member, inl, inr, Text, text_eq_refl, lookup,
  insert, err, ℤ,
}
use dockhand.Config.{Operation}
use dockhand.Operations.History.{
  Row, Table, Sql, new_row, unix, insert_run, finish_row, map_rows, update_run, prune, has_id,
  is_named, survives, newest_of, null_error, list_history,
}
use dockhand.Operations.History.Keys.{
  IsKeyed, count_of-append, count_of-map_rows, select-append, insert_run-IsKeyed,
  update_run-IsKeyed,
}
use dockhand.Operations.History.Retained.{Member-select}
use dockhand.Operations.History.Pruning.{count_of-prune}
use dockhand.Operations.History.Listing.{is_since, is_done_since, list_history_unfinished}
use dockhand.Operations.Slots.{is_active, admit, register}
use dockhand.Operations.Output.{emitted, capture}
use dockhand.Operations.Runner.{
  Runner, Waited, start_failed, ended, World, exit_code_of, op_command, finish, run_admitted,
  run_known, run,
}

Member-map_rows :
    (f : Row → Row) (rs : List Row) (x : Row)
    → Member x (map_rows f rs)
    → (y : Row) × Member y rs × (x ≡ f y)
Member-map_rows f [] x m = absurd m
Member-map_rows f (r ∷ rs) x (inl e) = (r, inl refl, e)
Member-map_rows f (r ∷ rs) x (inr m) = let (y, my, e) = Member-map_rows f rs x m in (y, inr my, e)

-- The row is that of a run that ended like this.
pub record Closed (finished_at : ℕ) (code : ℤ) (output : Text) (r : Row) : Type 0 where
  pub time : r.finished_at ≡ some (unix finished_at)
  pub exit_code : r.exit_code ≡ some code
  pub captured : r.output ≡ some output

finish_row-Closed :
    (id at : ℕ) (code : ℤ) (out : Text) (y : Row)
    → (finish_row id at code out y).id ≡ id
    → Closed at code out (finish_row id at code out y)
finish_row-Closed id at code out y h = ground arith

update_run-Closed :
    (id at : ℕ) (code : ℤ) (out : Text) (t : Table) (x : Row)
    → Member x (update_run none id at code out t).rows
    → x.id ≡ id
    → Closed at code out x
unfolding update_run
update_run-Closed id at code out t x m h =
    let (y, my, e) = Member-map_rows (finish_row id at code out) t.rows x m in
    subst (Closed at code out) (sym e)
      (finish_row-Closed id at code out y (sym (ap (λ (r : Row). r.id) e) ∙ h))

Member-prune :
    (sql : Sql) (fault : Option Text) (name : Text) (t : Table) (x : Row)
    → Member x (prune sql fault name t).rows
    → Member x t.rows
unfolding prune
Member-prune sql (some e) name t x m = m
Member-prune sql none name t x m =
    (Member-select (survives name (newest_of sql name t.rows)) t.rows x m).0

count_of-none :
    (p q : Row → Bool) (rs : List Row)
    → ((r : Row) → q r ≡ true → p r ≡ true)
    → count_of p rs ≡ 0
    → count_of q rs ≡ 0
count_of-none p q [] h z = refl
count_of-none p q (r ∷ rs) h z = ground (arith, h r, count_of-none p q rs h)

-- If as many rows pass `p` after a selection that drops only such rows, nothing was dropped.
count_of-kept :
    (p q s : Row → Bool) (rs : List Row)
    → ((r : Row) → q r ≡ false → p r ≡ true)
    → count_of s rs + count_of p (select q rs) ≤ count_of s (select q rs) + count_of p rs
count_of-kept p q s [] h = omega arith
count_of-kept p q s (r ∷ rs) h = ground (arith, h r, count_of-kept p q s rs h)

count_of-id-prune :
    (sql : Sql) (fault : Option Text) (name : Text) (t : Table) (i : ℕ)
    → IsKeyed t
    → count_of (is_named name) t.rows ≤ 50
    → count_of (has_id i) t.rows ≤ count_of (has_id i) (prune sql fault name t).rows
unfolding prune
count_of-id-prune sql (some e) name t i k few = omega arith
count_of-id-prune sql none name t i k few = omega (
  arith,
  count_of-prune sql name t k,
  count_of-kept (is_named name) (survives name (newest_of sql name t.rows)) (has_id i) t.rows
      (λ r h. ground arith),
)

-- The row of a run counts once for its operation, and has its id.
module _ (name : Text) (start at : ℕ) (code : ℤ) (out : Text) (t : Table) where
  entered_counts :
      let id = suc t.sequence in
      let closed = update_run none id at code out (insert_run none name start t).1 in
      (count_of (is_named name) closed.rows ≡ count_of (is_named name) t.rows + 1)
      × (1 ≤ count_of (has_id id) closed.rows)
  unfolding insert_run update_run
  entered_counts =
      let id = suc t.sequence in
      let f = finish_row id at code out in
      let row = new_row id name start in
      (
        omega (
          arith,
          count_of-map_rows (is_named name) f (λ x. ground arith) (t.rows ++ row ∷ []),
          count_of-append (is_named name) t.rows (row ∷ []),
          named_row id,
        ),
        ground (
          arith,
          count_of-map_rows (has_id id) f (λ x. ground arith) (t.rows ++ row ∷ []),
          count_of-append (has_id id) t.rows (row ∷ []),
        ),
      )
    where
      named_row : (i : ℕ) → count_of (is_named name) (new_row i name start ∷ []) ≡ 1
      named_row i = ground (arith, text_eq_refl name)

module _ (sql : Sql) (w : World) (name : Text) (r : Runner) (op : Operation) where
  -- A run of a known operation that is free is entered first, and then closed.
  run_history :
      lookup name r.ops ≡ some op
      → is_active name r.slots ≡ false
      → w.insert_fault ≡ none
      → (run sql w name r).state.history
        ≡ (finish sql w name
            (suc r.history.sequence)
            (record {
              table = (insert_run none name w.started_at r.history).1;
              busy =
                  register name r.next_context
                    (record r.slots { active = insert name true r.slots.active });
            })
            (w.execute (op_command sql w op))).state.table
  unfolding run run_known run_admitted admit insert_run
  run_history known free entered = ground arith

  -- Where the database reports no error on the insert and the update, a run that ended has its exit
  -- code, its captured output and its end in the history: every row there under the id that the run
  -- was entered with is closed with these, whatever is pruned.
  pub run-Closed :
      (order : List Bool) (stdout stderr : Text) (w' : Waited) (x : Row)
      → lookup name r.ops ≡ some op
      → is_active name r.slots ≡ false
      → w.insert_fault ≡ none
      → w.update_fault ≡ none
      → w.execute (op_command sql w op) ≡ ended order stdout stderr w'
      → Member x (run sql w name r).state.history.rows
      → x.id ≡ suc r.history.sequence
      → Closed w.finished_at (exit_code_of w') (capture (emitted order stdout stderr)) x
  unfolding finish insert_run
  run-Closed order stdout stderr w' x known free entered updated e m h =
      let entry = (insert_run none name w.started_at r.history).1 in
      let code = exit_code_of w' in
      let out = capture (emitted order stdout stderr) in
      let m' = rw (run_history known free entered, e) at m in
      let closed =
        Member-prune sql w.prune_fault name
          (update_run w.update_fault (suc r.history.sequence) w.finished_at code out entry) x m' in
      update_run-Closed (suc r.history.sequence) w.finished_at code out entry x
        (rw updated at closed) h

  -- As long as the table holds fewer than 50 rows of the operation, the row of a run that ended is
  -- there afterwards.
  run_kept :
      (order : List Bool) (stdout stderr : Text) (w' : Waited)
      → lookup name r.ops ≡ some op
      → is_active name r.slots ≡ false
      → w.insert_fault ≡ none
      → w.update_fault ≡ none
      → w.execute (op_command sql w op) ≡ ended order stdout stderr w'
      → IsKeyed r.history
      → count_of (is_named name) r.history.rows < 50
      → 1 ≤ count_of (has_id (suc r.history.sequence)) (run sql w name r).state.history.rows
  unfolding finish
  run_kept order stdout stderr w' known free entered updated e k few =
      let id = suc r.history.sequence in
      let entry = (insert_run none name w.started_at r.history).1 in
      let code = exit_code_of w' in
      let out = capture (emitted order stdout stderr) in
      let closed = update_run none id w.finished_at code out entry in
      let counts = entered_counts name w.started_at w.finished_at code out r.history in
      rw (run_history known free entered, e, updated)
        (omega (
          arith,
          count_of-id-prune sql w.prune_fault name closed id
              (update_run-IsKeyed none id w.finished_at code out entry
                (insert_run-IsKeyed none name w.started_at r.history k))
              (omega arith),
        ))

  -- Right after a run whose command cannot be started, which was entered in the history later than every
  -- row of its operation, the listing of the operation fails, whatever its limit is, since the row of
  -- the run is left open.
  pub run_start_failed :
      (message : Text) (limit : ℤ)
      → lookup name r.ops ≡ some op
      → is_active name r.slots ≡ false
      → w.insert_fault ≡ none
      → w.execute (op_command sql w op) ≡ start_failed message
      → count_of (is_since (unix w.started_at)) (select (is_named name) r.history.rows) ≡ 0
      → list_history sql none name limit (run sql w name r).state.history ≡ err null_error
  unfolding finish insert_run
  run_start_failed message limit known free entered e last =
      let s = unix w.started_at in
      let row = new_row (suc r.history.sequence) name w.started_at in
      let split = select-append (is_named name) r.history.rows (row ∷ []) in
      let old = select (is_named name) r.history.rows in
      let done = count_of-none (is_since s) (is_done_since s) old (λ x h. ground arith) last in
      rw (run_history known free entered, e)
        (list_history_unfinished sql name limit (insert_run none name w.started_at r.history).1 s
          (rw split
            (ground (arith, text_eq_refl name, count_of-append (is_since s) old (row ∷ []))))
          (rw split (
            ground
              (arith, text_eq_refl name, done, count_of-append (is_done_since s) old (row ∷ [])))))
