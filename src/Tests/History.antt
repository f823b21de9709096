-- ===== src/Tests/History.antt =====
-- The table of internal/operations/history.go at concrete inputs.
use dockhand.Prelude.{
  ℕ, zero, suc, ◌+◌, ◌<◌, ◌≤◌, ◌≡◌, refl, List, [], ◌∷◌, arith, count_of, min, All, inl, inr, none,
  some, codes, text_eq, err, pos, Member,
}
use dockhand.Operations.History.{Row, Table, has_id, is_named, prune, list_history, null_error}
use dockhand.Operations.History.Keys.{IsKeyed}
use dockhand.Operations.History.Pruning.{count_of-prune}
use dockhand.Operations.History.Retained.{prune_newest}
use dockhand.Operations.History.Listing.{list_history_unfinished}
use dockhand.Tests.Database.{sorting, sort_rows}

abbrev done : ℕ → ℕ → Row
done i at = record {
  id = i;
  operation_name = codes "up";
  started_at = at;
  finished_at = some (at + 5);
  exit_code = some (pos 0);
  output = some (codes "fine");
}

abbrev going : Row
going = record {
  id = 3;
  operation_name = codes "up";
  started_at = 300;
  finished_at = none;
  exit_code = none;
  output = none;
}

abbrev one_going : Table
one_going = record { rows = done 1 100 ∷ done 2 200 ∷ going ∷ []; sequence = 3 }

-- `n` runs, one a second.
abbrev many : ℕ → List Row
many zero = []
many (suc n) = done (suc n) (suc n) ∷ many n

abbrev full : Table
full = record { rows = many 51; sequence = 51 }

many_unique :
    (n i : ℕ) → (count_of (has_id i) (many n) ≤ 1) × (n < i → count_of (has_id i) (many n) ≡ 0)
many_unique zero i = (omega arith, λ h. refl)
many_unique (suc n) i = (ground (arith, many_unique n i), λ h. ground (arith, many_unique n i))

many_bounded : (n m : ℕ) → n ≤ m → All (λ r. r.id ≤ m) (many n)
many_bounded zero m h = tt
many_bounded (suc n) m h = (h, many_bounded n m (omega arith))

full-IsKeyed : IsKeyed full
full-IsKeyed = record {
  unique = λ i. (many_unique 51 i).0;
  bounded = many_bounded 51 51 (omega arith);
}

count_of-prune_example :
    count_of (is_named (codes "up")) (prune sorting none (codes "up") full).rows
    ≡ min 50 (count_of (is_named (codes "up")) full.rows)
count_of-prune_example = count_of-prune sorting (codes "up") full full-IsKeyed

first_many : (n : ℕ) → Member (done 1 1) (many (suc n))
first_many zero = inl refl
first_many (suc n) = inr (first_many n)

prune_newest_example : (done 1 1).started_at ≤ (done 51 51).started_at
unfolding prune text_eq sort_rows
prune_newest_example =
    prune_newest sorting (codes "up") full full-IsKeyed (done 1 1) (done 51 51) (first_many 50) refl
      refl (inl refl) refl

list_history_unfinished_example :
    list_history sorting none (codes "up") (pos 5) one_going ≡ err null_error
unfolding text_eq
list_history_unfinished_example =
    list_history_unfinished sorting (codes "up") (pos 5) one_going 300 (omega arith) refl
