-- ===== src/Operations/Slots/Protocol.antt =====
-- Concurrent runs and cancellations of internal/operations/runner.go, as sequences of the critical
-- sections of `r.mu`.
pub mod Exclusion
use dockhand.Prelude.{
  ℕ, zero, suc, ◌+◌, ◌≤◌, ◌<◌, ◌≡◌, ◌≢◌, refl, Bool, true, false, not, ◌&&◌, Option, none, some,
  List, [], ◌∷◌, ◌++◌, arith, ◌==◌, if◌then◌else◌, or_zero, is_some, count_of, Text, text_eq,
  text_eq_iff, text_eq_refl, Map, lookup, insert, delete, lookup-insert, lookup-delete,
}
use dockhand.Operations.Slots.{Slots, new_slots, is_active, admit, register, release, cancel}

-- A call of `Run` that was admitted and has not run its deferred cleanup; `registered` once it has
-- stored its cancel function, that of `context`.
pub record Thread : Type 0 where
  pub name : Text
  pub context : ℕ
  pub registered : Bool

pub record System : Type 0 where
  pub slots : Slots
  pub threads : List Thread
  pub cancelled : List ℕ

-- One critical section of one of the threads, or of a call of `Cancel`.
pub data Step (s u : System) : Type 0 where
  enter :
      (name : Text) (context : ℕ) (slots : Slots)
      → admit name s.slots ≡ some slots
      → u ≡ record s {
        slots = slots;
        threads = record { name = name; context = context; registered = false } ∷ s.threads;
      }
      → Step s u
  refuse : (name : Text) → admit name s.slots ≡ none → u ≡ s → Step s u
  store :
      (before after : List Thread) (t : Thread)
      → s.threads ≡ before ++ t ∷ after
      → t.registered ≡ false
      → u ≡ record s {
        slots = register t.name t.context s.slots;
        threads = before ++ record t { registered = true } ∷ after;
      }
      → Step s u
  leave :
      (before after : List Thread) (t : Thread)
      → s.threads ≡ before ++ t ∷ after
      → t.registered ≡ true
      → u ≡ record {
        slots = release t.name s.slots;
        threads = before ++ after;
        cancelled = t.context ∷ s.cancelled;
      }
      → Step s u
  stop :
      (name : Text) (context : ℕ)
      → cancel name s.slots ≡ some context
      → u ≡ record s { cancelled = context ∷ s.cancelled }
      → Step s u
  stop_refused : (name : Text) → cancel name s.slots ≡ none → u ≡ s → Step s u

pub data Reach (s : System) : System → Type 0 where
  here : Reach s s
  next : {t u : System} → Reach s t → Step t u → Reach s u

abbrev pub idle : System
idle = record { slots = new_slots; threads = []; cancelled = [] }

abbrev pub runs : Text → Thread → Bool
runs name t = text_eq t.name name

abbrev pub cancellable : Text → Thread → Bool
cancellable name t = runs name t && t.registered

-- The run that the context belongs to.
abbrev pub owns : Text → ℕ → Thread → Bool
owns name context t = cancellable name t && t.context == context

abbrev pub as_number : Bool → ℕ
as_number b = if b then 1 else 0

-- The maps say which runs are going on.
pub record Inv (s : System) : Type 0 where
  pub marked : (n : Text) → count_of (runs n) s.threads ≡ as_number (is_active n s.slots)
  pub stored :
      (n : Text) → count_of (cancellable n) s.threads ≡ as_number (is_some (cancel n s.slots))
  pub owned : (n : Text) (c : ℕ) → cancel n s.slots ≡ some c → 1 ≤ count_of (owns n c) s.threads
