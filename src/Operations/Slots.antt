-- ===== src/Operations/Slots.antt =====
-- The maps of internal/operations/runner.go that say which operations run and how to cancel them:
-- `active` and `cancels` for operations, `appsActive` and `appsCancels`, under the key of `app_key`,
-- for app operations. Each function is one critical section of `r.mu`.
pub mod Protocol
pub mod AppKeys
use dockhand.Prelude.{
  ℕ, Bool, true, false, Option, none, some, [], ◌++◌, ◌∷◌, if◌then◌else◌, or_zero, Text, Map,
  lookup, insert, delete,
}

-- A cancel function is named by the number of its context.
pub record Slots : Type 0 where
  pub active : Map Bool
  pub cancels : Map ℕ

abbrev pub new_slots : Slots
new_slots = record { active = []; cancels = [] }

-- IsActive, IsAppActive
unfoldable pub is_active : Text → Slots → Bool
is_active name s = or_zero false (lookup name s.active)

-- Run, RunApp: the test and the mark under the first lock; `none` if the operation is running.
unfoldable pub admit : Text → Slots → Option Slots
unfolding is_active
admit name s =
    if is_active name s then none else some (record s { active = insert name true s.active })

-- Run, RunApp: the cancel function is stored under the second lock.
unfoldable pub register : Text → ℕ → Slots → Slots
register name context s = record s { cancels = insert name context s.cancels }

-- Run, RunApp: the deferred cleanup under the third lock.
unfoldable pub release : Text → Slots → Slots
release name s = record { active = delete name s.active; cancels = delete name s.cancels }

-- Cancel, CancelApp: the context that is cancelled; `none` if there is none under the name.
unfoldable pub cancel : Text → Slots → Option ℕ
cancel name s = lookup name s.cancels

-- appName + ":" + opName
unfoldable pub app_key : Text → Text → Text
app_key app op = app ++ b':' ∷ op
