-- ===== src/Operations/Slots/Protocol/Exclusion.antt =====
-- Mutual exclusion of runs, and what a cancellation reaches, in internal/operations/runner.go.
use dockhand.Prelude.{
  ℕ, ◌+◌, ◌≤◌, ◌≡◌, ◌↔◌, refl, subst, sym, Bool, true, false, none, some, List, [], ◌∷◌, ◌++◌,
  arith, if◌then◌else◌, is_some, count_of, Text, text_eq, text_eq_iff, lookup, lookup-insert,
  lookup-delete,
}
use dockhand.Operations.Slots.{Slots, is_active, admit, register, release, cancel}
use dockhand.Operations.Slots.Protocol.{
  Thread, System, Step, enter, refuse, store, leave, stop, stop_refused, Reach, here, next, idle,
  runs, cancellable, owns, as_number, Inv,
}

count_of-split :
    (p : Thread → Bool) (xs ys : List Thread) (t : Thread)
    → count_of p (xs ++ t ∷ ys) ≡ count_of p xs + as_number (p t) + count_of p ys
count_of-split p [] ys t = omega arith
count_of-split p (x ∷ xs) ys t = omega (arith, count_of-split p xs ys t)

count_of-join :
    (p : Thread → Bool) (xs ys : List Thread)
    → count_of p (xs ++ ys) ≡ count_of p xs + count_of p ys
count_of-join p [] ys = omega arith
count_of-join p (x ∷ xs) ys = omega (arith, count_of-join p xs ys)

count_of-cancellable :
    (n : Text) (ts : List Thread) → count_of (cancellable n) ts ≤ count_of (runs n) ts
count_of-cancellable n [] = omega arith
count_of-cancellable n (t ∷ ts) = ground (arith, count_of-cancellable n ts)

count_of-owns :
    (n : Text) (c : ℕ) (ts : List Thread) → count_of (owns n c) ts ≤ count_of (cancellable n) ts
count_of-owns n c [] = omega arith
count_of-owns n c (t ∷ ts) = ground (arith, count_of-owns n c ts)

pub is_active-release :
    (k n : Text) (s : Slots)
    → is_active n (release k s) ≡ (if text_eq k n then false else is_active n s)
unfolding is_active release
is_active-release k n s = ground (arith, lookup-delete k n s.active)

pub is_active-register :
    (k n : Text) (c : ℕ) (s : Slots) → is_active n (register k c s) ≡ is_active n s
unfolding is_active register
is_active-register k n c s = refl

pub cancel-release :
    (k n : Text) (s : Slots) → cancel n (release k s) ≡ (if text_eq k n then none else cancel n s)
unfolding cancel release
cancel-release k n s = lookup-delete k n s.cancels

pub cancel-register :
    (k n : Text) (c : ℕ) (s : Slots)
    → cancel n (register k c s) ≡ (if text_eq k n then some c else cancel n s)
unfolding cancel register
cancel-register k n c s = lookup-insert k n c s.cancels

pub admit-some :
    (k n : Text) (s s' : Slots)
    → admit k s ≡ some s'
    → (is_active k s ≡ false)
      × (is_active n s' ≡ (if text_eq k n then true else is_active n s))
      × (cancel n s' ≡ cancel n s)
unfolding admit is_active cancel
admit-some k n s s' h = ground (arith, lookup-insert k n true s.active)

-- At most one run of an operation goes on, and it can be told from the others.
module _ (n : Text) where
  enter_marked :
      (s : System) (k : Text) (c : ℕ) (slots : Slots)
      → Inv s
      → admit k s.slots ≡ some slots
      → count_of (runs n) (record { name = k; context = c; registered = false } ∷ s.threads)
        ≡ as_number (is_active n slots)
  enter_marked s k c slots v h =
      ground (arith, text_eq_iff k n, admit-some k n s.slots slots h, v.marked n)

enter-Inv :
    (s : System) (k : Text) (c : ℕ) (slots : Slots)
    → Inv s
    → admit k s.slots ≡ some slots
    → Inv (record s {
      slots = slots;
      threads = record { name = k; context = c; registered = false } ∷ s.threads;
    })
enter-Inv s k c slots v h = record {
  marked = λ n. enter_marked n s k c slots v h;
  stored = λ n. ground (arith, admit-some k n s.slots slots h, v.stored n);
  owned = λ n d e. ground (arith, admit-some k n s.slots slots h, v.owned n d);
}

module _ (s : System) (xs ys : List Thread) (t : Thread) (v : Inv s)
    (e : s.threads ≡ xs ++ t ∷ ys) where
  before_step :
      (p : Thread → Bool) → count_of p s.threads ≡ count_of p xs + as_number (p t) + count_of p ys
  before_step p = rw e (count_of-split p xs ys t)

  store-Inv :
      t.registered ≡ false
      → Inv (record s {
        slots = register t.name t.context s.slots;
        threads = xs ++ record t { registered = true } ∷ ys;
      })
  store-Inv f =
      let t' = record t { registered = true } in
      record {
        marked = λ n. ground (
          arith,
          is_active-register t.name n t.context s.slots,
          v.marked n,
          before_step (runs n),
          count_of-split (runs n) xs ys t',
        );
        stored = λ n. ground (
          arith,
          text_eq_iff t.name n,
          cancel-register t.name n t.context s.slots,
          v.marked n,
          v.stored n,
          before_step (runs n),
          before_step (cancellable n),
          count_of-cancellable n xs,
          count_of-cancellable n ys,
          count_of-split (cancellable n) xs ys t',
        );
        owned = λ n d h. ground (
          arith,
          cancel-register t.name n t.context s.slots,
          v.owned n d,
          before_step (owns n d),
          count_of-split (owns n d) xs ys t',
        );
      }

  leave-Inv :
      t.registered ≡ true
      → Inv (record {
        slots = release t.name s.slots;
        threads = xs ++ ys;
        cancelled = t.context ∷ s.cancelled;
      })
  leave-Inv f = record {
    marked = λ n. ground (
      arith,
      is_active-release t.name n s.slots,
      v.marked n,
      before_step (runs n),
      count_of-join (runs n) xs ys,
    );
    stored = λ n. ground (
      arith,
      cancel-release t.name n s.slots,
      v.marked n,
      v.stored n,
      before_step (runs n),
      before_step (cancellable n),
      count_of-cancellable n xs,
      count_of-cancellable n ys,
      count_of-join (cancellable n) xs ys,
    );
    owned = λ n d h. ground (
      arith,
      cancel-release t.name n s.slots,
      v.owned n d,
      before_step (owns n d),
      count_of-join (owns n d) xs ys,
    );
  }

-- Every critical section keeps the invariant.
Step-Inv : {s u : System} → Step s u → Inv s → Inv u
Step-Inv {s} (enter k c slots h e) v = subst Inv (sym e) (enter-Inv s k c slots v h)
Step-Inv (refuse k h e) v = subst Inv (sym e) v
Step-Inv {s} (store xs ys t p f e) v = subst Inv (sym e) (store-Inv s xs ys t v p f)
Step-Inv {s} (leave xs ys t p f e) v = subst Inv (sym e) (leave-Inv s xs ys t v p f)
Step-Inv {s} (stop k c h e) v =
    subst Inv (sym e) (record { marked = v.marked; stored = v.stored; owned = v.owned })
Step-Inv (stop_refused k h e) v = subst Inv (sym e) v

idle-Inv : Inv idle
unfolding is_active cancel lookup
idle-Inv = record { marked = λ n. refl; stored = λ n. refl; owned = λ n c h. cc }

Reach-Inv : {u : System} → Reach idle u → Inv u
Reach-Inv here = idle-Inv
Reach-Inv (next r st) = Step-Inv st (Reach-Inv r)

-- In every interleaving of runs and cancellations, at most one run of an operation goes on at a time,
-- and `IsActive` says exactly whether there is one.
pub Reach-runs :
    {u : System} (n : Text)
    → Reach idle u
    → (count_of (runs n) u.threads ≤ 1)
      × ((is_active n u.slots ≡ true) ↔ (1 ≤ count_of (runs n) u.threads))
Reach-runs n r = let v = Reach-Inv r in ground (arith, v.marked n)

-- In every interleaving, `Cancel` succeeds exactly when a run of the operation has stored its cancel
-- function and not yet left.
pub Reach-cancel :
    {u : System} (n : Text)
    → Reach idle u
    → (is_some (cancel n u.slots) ≡ true) ↔ (count_of (cancellable n) u.threads ≡ 1)
Reach-cancel n r = let v = Reach-Inv r in ground (arith, v.stored n)

-- In every interleaving, a context that `Cancel` finds under a name is that of the one run of the
-- operation.
Reach-owned :
    {u : System} (n : Text) (c : ℕ)
    → Reach idle u
    → cancel n u.slots ≡ some c
    → (count_of (owns n c) u.threads ≡ 1) × (count_of (runs n) u.threads ≡ 1)
Reach-owned {u} n c r h =
    let v = Reach-Inv r in
    ground (
      arith,
      v.marked n,
      v.owned n c,
      count_of-owns n c u.threads,
      count_of-cancellable n u.threads,
    )
