-- ===== src/Tests/Programs.antt =====
-- The program's start and end, cmd/runner/main.go, and long lines of commands at concrete inputs.

use dockhand.Prelude.{
  ℕ, zero, suc, ◌≡◌, refl, ap, true, false, none, [], ◌∷◌, arith, length, Text, codes, IsLine,
  unlines, any_of, max_scan_token_size, ok, ◌<◌,
}
use dockhand.Enrollment.{Enrolled}
use dockhand.Operations.Runner.LongLines.{finish_long}
use dockhand.Operations.History.{empty_table}
use dockhand.Operations.Slots.{new_slots}
use dockhand.Operations.Runner.{World, Books, Call, exited, start_failed, ended, finish}
use dockhand.Tests.Database.{sorting}
use dockhand.Startup.{connected}
use dockhand.Startup.Lifecycle.{Boot, main, is_beat, first_start_silent}
use dockhand.Tests.Network.{cfg}

abbrev enrolled : Enrolled
enrolled = record {
  tries = record { pauses = []; registered = true };
  marked = true;
  token_cleared = true;
}

abbrev first_boot : Boot
first_boot = record {
  loaded = ok cfg;
  marked = false;
  enrolled = λ c. enrolled;
  enrolled_early = false;
  first = connected;
  later = [];
  open_fault = none;
  uninstalled = false;
  server_error = none;
  shutdown_error = none;
}

first_start_silent_example :
    (any_of is_beat (main first_boot) ≡ false)
    × (any_of is_beat (main (record first_boot { marked = true })) ≡ true)
first_start_silent_example = first_start_silent first_boot cfg refl refl refl refl refl

dots : ℕ → Text
dots zero = []
dots (suc n) = b'.' ∷ dots n

length-dots : (n : ℕ) → length (dots n) ≡ n
unfolding dots
length-dots zero = refl
length-dots (suc n) = ap (λ k. suc k) (length-dots n)

dots-IsLine : (n : ℕ) → IsLine (dots n)
unfolding dots
dots-IsLine zero = tt
dots-IsLine (suc n) = (λ e. omega arith, dots-IsLine n)

word : {x y z : ℕ} → (32 < x) × (32 < y) × (32 < z) → IsLine (x ∷ y ∷ z ∷ [])
word h = (λ e. omega arith, (λ e. omega arith, (λ e. omega arith, tt)))

abbrev quiet_world : World
quiet_world = record {
  started_at = 0;
  finished_at = 0;
  insert_fault = none;
  update_fault = none;
  prune_fault = none;
  execute = λ c. start_failed [];
}

abbrev no_books : Books
no_books = record { table = empty_table; busy = new_slots }

abbrev finished : Text → Text → Call Books
finished stdout stderr =
    finish sorting quiet_world (codes "up") 1 no_books (ended (true ∷ []) stdout stderr exited)

finish_long_example :
    (finished (unlines (codes "one" ∷ dots max_scan_token_size ∷ codes "two" ∷ [])) (codes "e")
      ≡ finished (unlines (codes "one" ∷ [])) (codes "e"))
    × (finished (codes "e") (unlines (codes "one" ∷ dots max_scan_token_size ∷ codes "two" ∷ []))
        ≡ finished (codes "e") (unlines (codes "one" ∷ [])))
finish_long_example =
    finish_long (true ∷ []) (codes "one" ∷ []) (codes "two" ∷ []) (dots max_scan_token_size)
      (codes "e") (word (omega arith), (dots-IsLine max_scan_token_size, (word (omega arith), tt)))
      (omega arith, tt) (omega (arith, length-dots max_scan_token_size)) sorting quiet_world
      (codes "up") 1 no_books exited
