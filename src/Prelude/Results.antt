-- ===== src/Prelude/Results.antt =====
-- A Go result `(v, err)`: a value, or an error with its message.
use dockhand.Prelude.Texts.{Text}

pub data Result {ℓ} (A : Type ℓ) : Type ℓ where
  ok : A → Result A
  err : Text → Result A

abbrev pub on_result {ℓ κ} : {A : Type ℓ} {B : Type κ} → Result A → (A → B) → (Text → B) → B
on_result (ok a) f g = f a
on_result (err e) f g = g e
