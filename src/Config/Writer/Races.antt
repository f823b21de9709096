-- ===== src/Config/Writer/Races.antt =====
-- Concurrent writers of the configuration file. UpdateOperationVersion and UpdateAppVersion of
-- internal/config/writer.go read and replace the file under `writeMu`; ClearEnrollmentToken of
-- internal/config/config.go reads and writes it without the lock. A step is a lock, a read or a write;
-- a thread that waits for the lock has done nothing yet, and an early return is a write that leaves the
-- file.
use dockhand.Prelude.{
  ◌≡◌, refl, sym, Option, none, some, List, [], ◌∷◌, ◌++◌, arith, or_zero, subst, Bool, true, false,
  Text, ok, length, length-append, if◌then◌else◌, ap, ◌∙◌,
}
use dockhand.Config.Writer.{
  Disk, Written, update_operation_version, update_app_version, clear_enrollment_token,
}

-- A call that edits the file, with what it meets on the disk.
pub data Edit : Type 0 where
  operation_version : Disk → Text → Text → Edit
  app_version : Disk → Text → Text → Edit
  clear_token : Disk → Edit

-- writeMu.Lock() is called.
abbrev takes_lock : Edit → Bool
takes_lock (operation_version d name v) = true
takes_lock (app_version d name v) = true
takes_lock (clear_token d) = false

-- The disk on which the call has read this text.
abbrev having_read : Text → Disk → Disk
having_read text d = record d { read = ok text }

module _ (path : Text) where
  -- What a call does that has read this text.
  unfoldable pub written : Edit → Text → Written
  unfolding clear_enrollment_token
  written (operation_version d name v) text =
      update_operation_version (having_read text d) path name v
  written (app_version d name v) text = update_app_version (having_read text d) path name v
  written (clear_token d) text = clear_enrollment_token (having_read text d) path

  -- The file after the write of a call that has read `text`.
  unfoldable pub write : Edit → Text → Text → Text
  write e text file = or_zero file (written e text).replaced

  -- The calls one after the other, the last of the list first.
  pub replay : List Edit → Text → Text
  replay [] file = file
  replay (e ∷ es) file = let before = replay es file in write e before before

-- A call that has passed the lock and has not ended, and the text that it has read.
pub record Inside : Type 0 where
  pub edit : Edit
  pub text : Option Text

-- A call of ClearEnrollmentToken that has read the file.
pub record Clearing : Type 0 where
  pub disk : Disk
  pub text : Text

-- `locked` is the state of `writeMu`.
pub record System : Type 0 where
  pub file : Text
  pub locked : Bool
  pub inside : List Inside
  pub clearing : List Clearing
  pub done : List Edit

abbrev pub quiet : Text → System
quiet file = record { file = file; locked = false; inside = []; clearing = []; done = [] }

-- A step of a call that edits under the lock.
pub data Locked (path : Text) (s u : System) : Type 0 where
  lock :
      (e : Edit)
      → takes_lock e ≡ true
      → s.locked ≡ false
      → u ≡ record s { locked = true; inside = record { edit = e; text = none } ∷ s.inside }
      → Locked path s u
  read :
      (before after : List Inside) (e : Edit)
      → s.inside ≡ before ++ record { edit = e; text = none } ∷ after
      → u ≡ record s { inside = before ++ record { edit = e; text = some s.file } ∷ after }
      → Locked path s u
  finish :
      (before after : List Inside) (e : Edit) (text : Text)
      → s.inside ≡ before ++ record { edit = e; text = some text } ∷ after
      → u ≡ record s {
        file = write path e text s.file;
        locked = false;
        inside = before ++ after;
        done = e ∷ s.done;
      }
      → Locked path s u

-- A step of any call.
pub data Step (path : Text) (s u : System) : Type 0 where
  locked : Locked path s u → Step path s u
  read_unlocked :
      (d : Disk)
      → u ≡ record s { clearing = record { disk = d; text = s.file } ∷ s.clearing }
      → Step path s u
  write_unlocked :
      (before after : List Clearing) (c : Clearing)
      → s.clearing ≡ before ++ c ∷ after
      → u ≡ record s {
        file = write path (clear_token c.disk) c.text s.file;
        clearing = before ++ after;
        done = clear_token c.disk ∷ s.done;
      }
      → Step path s u

pub data Reach (path : Text) (s : System) : System → Type 0 where
  here : Reach path s s
  next : {t u : System} → Reach path s t → Step path t u → Reach path s u

pub data ReachLocked (path : Text) (s : System) : System → Type 0 where
  here : ReachLocked path s s
  next : {t u : System} → ReachLocked path s t → Locked path t u → ReachLocked path s u

-- What a call inside has read stands in the file.
abbrev IsCurrent : Text → List Inside → Type 0
IsCurrent file [] = Unit
IsCurrent file (i ∷ is) = ((text : Text) → i.text ≡ some text → text ≡ file) × IsCurrent file is

-- The file is what the finished calls make of the first text, one after the other, and at most one call
-- is inside.
record IsSerial (path first : Text) (s : System) : Type 0 where
  replayed : s.file ≡ replay path s.done first
  alone : length s.inside ≡ (if s.locked then 1 else 0)
  current : IsCurrent s.file s.inside

only :
    (b : Bool) (before after : List Inside) (i : Inside)
    → length (before ++ i ∷ after) ≡ (if b then 1 else 0)
    → (before ≡ []) × (after ≡ []) × (b ≡ true)
only true [] [] i h = (refl, refl, refl)
only true [] (a ∷ after) i h = absurd (omega arith)
only true (x ∷ before) after i h = absurd (omega (arith, length-append before (i ∷ after)))
only false [] after i h = absurd (omega arith)
only false (x ∷ before) after i h = absurd (omega arith)

IsCurrent-member :
    (file : Text) (before after : List Inside) (i : Inside)
    → IsCurrent file (before ++ i ∷ after)
    → (text : Text) → i.text ≡ some text
    → text ≡ file
IsCurrent-member file [] after i c text h = c.0 text h
IsCurrent-member file (x ∷ before) after i c text h =
    IsCurrent-member file before after i c.1 text h

module _ (path first : Text) (s : System) (w : IsSerial path first s) where
  only_inside :
      (before after : List Inside) (i : Inside)
      → s.inside ≡ before ++ i ∷ after
      → (before ≡ []) × (after ≡ []) × (s.locked ≡ true)
  only_inside before after i h =
      only s.locked before after i (ap (λ (is : List Inside). length is) (sym h) ∙ w.alone)

Locked-IsSerial :
    (path first : Text) {s u : System}
    → Locked path s u
    → IsSerial path first s
    → IsSerial path first u
unfolding replay
Locked-IsSerial path first {s} (lock e l h q) w = subst (IsSerial path first) (sym q) (record {
  replayed = w.replayed;
  alone = omega (arith, rw h at w.alone);
  current = (λ text' h'. cc, w.current);
})
Locked-IsSerial path first {s} (read before after e h q) w =
    let (b, a, l) = only_inside path first s w before after (record { edit = e; text = none }) h in
    subst (IsSerial path first) (sym q) (record {
      replayed = w.replayed;
      alone = rw (b, a, l) refl;
      current = rw (b, a) (λ text' h'. ground arith, tt);
    })
Locked-IsSerial path first {s} (finish before after e text h q) w =
    let (b, a, l) =
      only_inside path first s w before after (record { edit = e; text = some text }) h in
    subst (IsSerial path first) (sym q) (record {
      replayed =
          rw
            (
              IsCurrent-member s.file before after (record { edit = e; text = some text })
                  (rw h at w.current) text refl,
              ← w.replayed,
            )
            refl;
      alone = rw (b, a) refl;
      current = rw (b, a) tt;
    })

-- While only calls that take the lock are made, no edit is lost: in every interleaving of any number of
-- calls the file is what the finished calls make of the first text, one after the other.
pub ReachLocked-replay :
    {path first : Text} {s : System}
    → ReachLocked path (quiet first) s
    → s.file ≡ replay path s.done first
unfolding replay
ReachLocked-replay r = (serial r).replayed
  where
    serial :
        {path first : Text} {s : System} → ReachLocked path (quiet first) s → IsSerial path first s
    serial here = record { replayed = refl; alone = refl; current = tt }
    serial {path} {first} (next r st) = Locked-IsSerial path first st (serial r)

-- Without the lock ClearEnrollmentToken can be lost: for each call that edits a version there is an
-- interleaving in which ClearEnrollmentToken ends, that call ends after it, and the file is what that
-- call makes of the first text, as if nothing had been cleared, as long as it replaces the file at all.
pub clear_token_lost :
    (path first : Text) (e : Edit) (d : Disk) {out : Text}
    → takes_lock e ≡ true
    → (written path e first).replaced ≡ some out
    → (s : System) × Reach path (quiet first) s × (s.done ≡ e ∷ clear_token d ∷ []) × (s.file ≡ out)
unfolding write
clear_token_lost path first e d l h = (
  _,
  next
      (next
        (next (next (next here (locked (lock e l refl refl))) (locked (read [] [] e refl refl)))
          (read_unlocked d refl))
        (write_unlocked [] [] (record { disk = d; text = first }) refl refl))
      (locked (finish [] [] e first refl refl)),
  refl,
  rw h refl,
)
