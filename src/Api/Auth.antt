-- ===== src/Api/Auth.antt =====
-- internal/api/middleware/auth.go: the test of the key that a request brings.
use dockhand.Prelude.{
  ◌≡◌, ◌≢◌, refl, ap, ◌∙◌, ◌↔◌, Bool, true, false, not, ◌||◌, [], ◌∷◌, ◌++◌, drop, length, arith,
  if◌then◌else◌, Text, codes, text_eq, text_eq_refl, eq_of-text_eq, has_prefix, is_empty,
  Bool-cases, inl, inr,
}

-- extractBearer
unfoldable extract_bearer : Text → Text
unfolding has_prefix
extract_bearer header = if not (has_prefix header (codes "Bearer ")) then [] else drop 7 header

-- The condition of Auth under which the next handler is called; `header` is the Authorization header, ""
-- if there is none.
unfoldable pub is_authorized : Text → Text → Bool
unfolding extract_bearer text_eq
is_authorized key header =
    let token = extract_bearer header in not (is_empty token || not (text_eq token key))

eq-append-drop : (s p : Text) → has_prefix s p ≡ true → s ≡ p ++ drop (length p) s
unfolding has_prefix
eq-append-drop s [] h = refl
eq-append-drop [] (d ∷ p) h = cc
eq-append-drop (c ∷ s) (d ∷ p) h = ground (arith, eq-append-drop s p)

extract_bearer-append : (token : Text) → extract_bearer (codes "Bearer " ++ token) ≡ token
unfolding extract_bearer has_prefix
extract_bearer-append token = refl

eq-extract_bearer :
    (header : Text)
    → is_empty (extract_bearer header) ≡ false
    → header ≡ codes "Bearer " ++ extract_bearer header
unfolding extract_bearer
eq-extract_bearer header h = elim (Bool-cases (has_prefix header (codes "Bearer "))) [
  | inl e ↦
      eq-append-drop header (codes "Bearer ") e
      ∙ ap (λ t. codes "Bearer " ++ t) (rw (extract_bearer, e) refl)
  | inr e ↦ absurd (cc)
]

is_authorized-token :
    (key header : Text)
    → is_authorized key header ≡ true
    → (is_empty (extract_bearer header) ≡ false) × (extract_bearer header ≡ key)
unfolding is_authorized
is_authorized-token key header h =
    let equal = eq_of-text_eq (extract_bearer header) key (ground arith) in (ground arith, equal)

is_authorized-bearer :
    (key : Text) → is_empty key ≡ false → is_authorized key (codes "Bearer " ++ key) ≡ true
unfolding is_authorized
is_authorized-bearer key h = rw (extract_bearer-append key, h, text_eq_refl key) refl

is_empty-ne-nil : (s : Text) → s ≢ [] → is_empty s ≡ false
is_empty-ne-nil [] h = absurd (h refl)
is_empty-ne-nil (c ∷ s) h = refl

-- A request passes exactly if a key is set and the request has the word Bearer, a space and this key in
-- its Authorization header, and nothing else; with an empty key no request passes.
pub is_authorized_iff :
    (key header : Text)
    → (is_authorized key header ≡ true) ↔ ((key ≢ []) × (header ≡ codes "Bearer " ++ key))
is_authorized_iff key header = (
  λ h.
      let token = is_authorized-token key header h in
      (
        λ e. let empty = token.1 ∙ e in ground arith,
        eq-extract_bearer header token.0 ∙ ap (λ t. codes "Bearer " ++ t) token.1,
      ),
  λ (some_key, e). rw e (is_authorized-bearer key (is_empty-ne-nil key some_key)),
)
