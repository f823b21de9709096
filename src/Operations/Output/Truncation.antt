-- ===== src/Operations/Output/Truncation.antt =====
-- What `truncate` of internal/operations/runner.go keeps.
use dockhand.Prelude.{
  split_lines-ne-nil, split_lines-IsLine, ℕ, ◌+◌, ◌-◌, ◌≤◌, ◌<◌, ◌≡◌, refl, sym, ap, ◌∙◌, ◌⊎◌, inl,
  inr, List, [], ◌∷◌, ◌++◌, append_assoc, arith, leb, length, take, drop, length-append,
  length-drop, take-append-drop, Text, newline, split_lines, join_lines, join_lines-split_lines,
  IsLine, Bool-cases,
}
use dockhand.Operations.Output.{truncation_mark, drop_partial, truncate}

-- How `t` stands behind `p`: at the start of a line, or as part of a line that has no end.
abbrev pub IsTail : Text → Text → Type 0
IsTail p t = IsLine t ⊎ ((q : Text) × (p ≡ q ++ newline ∷ []))

module _ (s : Text) where
  -- The lines but for a partial first are a last part of the text.
  last_lines :
      (ls : List Text)
      → split_lines s ≡ ls
      → (p : Text) × (s ≡ p ++ join_lines (drop_partial ls))
        × IsTail p (join_lines (drop_partial ls))
  unfolding join_lines
  last_lines [] h = absurd (split_lines-ne-nil s h)
  last_lines (l ∷ []) h =
      ([], sym (join_lines-split_lines s) ∙ ap join_lines h, inl (rw h at (split_lines-IsLine s)).0)
  last_lines (l ∷ m ∷ ls) h = (
    l ++ newline ∷ [],
    sym (join_lines-split_lines s)
        ∙ ap join_lines h
        ∙ sym (append_assoc l (newline ∷ []) (join_lines (m ∷ ls))),
    inr (l, refl),
  )

append-IsTail : (a p t : Text) → IsTail p t → IsTail (a ++ p) t
append-IsTail a p t (inl h) = inl h
append-IsTail a p t (inr (q, e)) = inr (a ++ q, rw e (sym (append_assoc a q (newline ∷ []))))

-- Of an output longer than the cap, `truncate` keeps a last part, at most as long as the cap, behind
-- a mark; the part starts behind a line end, unless it holds none.
truncate_long :
    (s : Text) (n : ℕ)
    → n < length s
    → (p : Text) × (t : Text) × (s ≡ p ++ t)
      × (truncate s n ≡ truncation_mark ++ t)
      × (length t ≤ n)
      × IsTail p t
unfolding truncate
truncate_long s n h =
    let cut = length s - n in
    let kept = join_lines (drop_partial (split_lines (drop cut s))) in
    let (p, e, w) = last_lines (drop cut s) (split_lines (drop cut s)) refl in
    let whole : s ≡ (take cut s ++ p) ++ kept =
      sym (take-append-drop cut s)
      ∙ ap (λ q. take cut s ++ q) e
      ∙ sym (append_assoc (take cut s) p kept) in
    (
      take cut s ++ p,
      kept,
      whole,
      ground arith,
      omega (arith, ap length e, length-append p kept, length-drop cut s),
      append-IsTail (take cut s) p kept w,
    )

-- What is stored is never longer than the cap and the 15 bytes of the mark.
truncate_bound : (s : Text) (n : ℕ) → length (truncate s n) ≤ n + 15
truncate_bound s n = elim (Bool-cases (leb (length s) n)) [
  | inl short ↦ unfold truncate in rw short (ground arith)
  | inr long ↦
      let (p, t, e, f, b, w) = truncate_long s n (ground arith) in
      omega (arith, ap length f, length-append truncation_mark t)
]
