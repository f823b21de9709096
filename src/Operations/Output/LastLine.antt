-- ===== src/Operations/Output/LastLine.antt =====
-- What `lastNonEmptyLine` of internal/operations/runner.go finds.
use mathlib.Core.List.{reverse-append, reverse-cons}
use dockhand.Prelude.{
  ◌≡◌, refl, ap, ◌∙◌, false, true, List, [], ◌∷◌, ◌++◌, append_assoc, reverse, All, All-append,
  Text, is_empty, trim_space, join_lines, split_lines-join_lines, IsLine,
}
use dockhand.Operations.Output.{pick_line, last_non_empty_line}

-- Nothing but white space.
abbrev IsBlank : Text → Type 0
IsBlank l = is_empty (trim_space l) ≡ true

pick_line-blank :
    (bs ls : List Text) (s : Text) → All IsBlank bs → pick_line (bs ++ ls) s ≡ pick_line ls s
unfolding pick_line
pick_line-blank [] ls s h = refl
pick_line-blank (b ∷ bs) ls s h = rw h.0 (pick_line-blank bs ls s h.1)

reverse-IsBlank : (bs : List Text) → All IsBlank bs → All IsBlank (reverse bs)
reverse-IsBlank [] h = tt
reverse-IsBlank (b ∷ bs) h =
    rw (reverse-cons b bs)
      (All-append IsBlank (reverse bs) (b ∷ []) (reverse-IsBlank bs h.1) (h.0, tt))

-- In an output made of a first line, further lines, a line that is not blank, and only blank lines
-- after it, `lastNonEmptyLine` finds that line, trimmed, whatever the banner in front of it says.
last_non_empty_line_lem :
    (first : Text) (banner : List Text) (line : Text) (blanks : List Text)
    → All IsLine ((first ∷ banner) ++ line ∷ blanks)
    → is_empty (trim_space line) ≡ false
    → All IsBlank blanks
    → last_non_empty_line (join_lines ((first ∷ banner) ++ line ∷ blanks)) ≡ trim_space line
unfolding last_non_empty_line
last_non_empty_line_lem first banner line blanks w h b =
    let text = join_lines ((first ∷ banner) ++ line ∷ blanks) in
    let order : reverse ((first ∷ banner) ++ line ∷ blanks)
        ≡ reverse blanks ++ line ∷ reverse (first ∷ banner) =
      reverse-append (first ∷ banner) (line ∷ blanks)
      ∙ ap (λ ls. ls ++ reverse (first ∷ banner)) (reverse-cons line blanks)
      ∙ append_assoc (reverse blanks) (line ∷ []) (reverse (first ∷ banner)) in
    ap (λ ls. pick_line (reverse ls) text)
      (split_lines-join_lines first (banner ++ line ∷ blanks) w)
    ∙ ap (λ ls. pick_line ls text) order
    ∙ pick_line-blank (reverse blanks) (line ∷ reverse (first ∷ banner)) text
        (reverse-IsBlank blanks b)
    ∙ (rw h)
