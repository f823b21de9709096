-- ===== src/Operations/Slots/AppKeys.antt =====
-- The keys of app operations in internal/operations/runner.go.
use dockhand.Prelude.{◌≡◌, ◌≢◌, [], ◌∷◌, arith, Text, All, append_assoc}
use dockhand.Operations.Slots.{app_key}

abbrev LacksColon : Text → Type 0
LacksColon = All (λ c. c ≢ b':')

-- Different operations have different keys, as long as no app name holds a colon.
app_key_injective :
    (app app' op op' : Text)
    → LacksColon app
    → LacksColon app'
    → app_key app op ≡ app_key app' op'
    → (app ≡ app') × (op ≡ op')
unfolding app_key
app_key_injective [] [] op op' h h' e = ground arith
app_key_injective [] (d ∷ app') op op' h h' e = ground arith
app_key_injective (c ∷ app) [] op op' h h' e = ground arith
app_key_injective (c ∷ app) (d ∷ app') op op' h h' e =
    ground (arith, app_key_injective app app' op op' h.1 h'.1)

-- An app whose name holds a colon shares keys with the app named by what stands before it: the
-- operation `op` of the app `app:mid` and the operation `mid:op` of the app `app` have one key.
app_key_collision :
    (app mid op : Text) → app_key (app_key app mid) op ≡ app_key app (app_key mid op)
unfolding app_key
app_key_collision app mid op = append_assoc app (b':' ∷ mid) (b':' ∷ op)
