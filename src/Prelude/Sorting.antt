-- ===== src/Prelude/Sorting.antt =====
-- Go's order on strings, and sort.Slice by a string: an insertion sort, which is as good as any where
-- the names are distinct.
use Prim.Native.Nat.{◌+◌}
use mathlib.Core.Path.{◌≡◌, refl}
use mathlib.Core.Logic.{inl, inr}
use mathlib.Core.Bool.{Bool, true, false}
use mathlib.Core.List.{List, [], ◌∷◌}
use native.Mathlib.Omega.{arith}
use dockhand.Prelude.Tests.{ltb, ◌==◌, if◌then◌else◌, Bool-cases}
use dockhand.Prelude.Lists.{count_of}
use dockhand.Prelude.Texts.{Text}

-- s < t
unfoldable pub text_lt : Text → Text → Bool
text_lt s [] = false
text_lt [] (d ∷ t) = true
text_lt (c ∷ s) (d ∷ t) = let rest = text_lt s t in if c == d then rest else ltb c d

text_lt_asymm : (s t : Text) → text_lt s t ≡ true → text_lt t s ≡ false
unfolding text_lt
text_lt_asymm s [] h = cc
text_lt_asymm [] (d ∷ t) h = refl
text_lt_asymm (c ∷ s) (d ∷ t) h = ground (arith, text_lt_asymm s t)

module _ {A : Type 0} (name : A → Text) where
  unfoldable insert_by : A → List A → List A
  unfolding text_lt
  insert_by x [] = x ∷ []
  insert_by x (y ∷ ys) =
      let rest = insert_by x ys in if text_lt (name x) (name y) then x ∷ y ∷ ys else y ∷ rest

  unfoldable pub sort_by : List A → List A
  unfolding insert_by
  sort_by [] = []
  sort_by (x ∷ xs) = insert_by x (sort_by xs)

  -- No name is smaller than the one in front of it.
  abbrev pub IsRising : List A → Type 0
  IsRising [] = Unit
  IsRising (x ∷ []) = Unit
  IsRising (x ∷ y ∷ ys) = (text_lt (name y) (name x) ≡ false) × IsRising (y ∷ ys)

  insert_by-IsRising_behind :
      (x y : A) (ys : List A)
      → text_lt (name x) (name y) ≡ false
      → IsRising (y ∷ ys)
      → IsRising (y ∷ insert_by x ys)
  unfolding insert_by
  insert_by-IsRising_behind x y [] h s = (h, tt)
  insert_by-IsRising_behind x y (z ∷ zs) h s = elim (Bool-cases (text_lt (name x) (name z))) [
    | inl e ↦ rw e (h, (text_lt_asymm (name x) (name z) e, s.1))
    | inr e ↦ rw e (s.0, insert_by-IsRising_behind x z zs e s.1)
  ]

  insert_by-IsRising : (x : A) (ys : List A) → IsRising ys → IsRising (insert_by x ys)
  unfolding insert_by
  insert_by-IsRising x [] s = tt
  insert_by-IsRising x (y ∷ ys) s = elim (Bool-cases (text_lt (name x) (name y))) [
    | inl e ↦ rw e (text_lt_asymm (name x) (name y) e, s)
    | inr e ↦ rw e (insert_by-IsRising_behind x y ys e s)
  ]

  pub sort_by-IsRising : (xs : List A) → IsRising (sort_by xs)
  unfolding sort_by
  sort_by-IsRising [] = tt
  sort_by-IsRising (x ∷ xs) = insert_by-IsRising x (sort_by xs) (sort_by-IsRising xs)

  count_of-insert_by :
      (p : A → Bool) (x : A) (ys : List A)
      → count_of p (insert_by x ys) ≡ (if p x then 1 else 0) + count_of p ys
  unfolding insert_by
  count_of-insert_by p x [] = refl
  count_of-insert_by p x (y ∷ ys) = ground (arith, count_of-insert_by p x ys)

  -- A sort keeps every element, as often as it was there.
  pub count_of-sort_by : (p : A → Bool) (xs : List A) → count_of p (sort_by xs) ≡ count_of p xs
  unfolding sort_by
  count_of-sort_by p [] = refl
  count_of-sort_by p (x ∷ xs) =
      ground (arith, count_of-insert_by p x (sort_by xs), count_of-sort_by p xs)
