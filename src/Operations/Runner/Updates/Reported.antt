-- ===== src/Operations/Runner/Updates/Reported.antt =====
-- What internal/operations/runner.go reports of system updates.
use dockhand.Prelude.{
  ℕ, ◌≡◌, refl, ap, ◌∙◌, Bool, true, false, some, arith, inl, inr, ◌⊎◌, if◌then◌else◌, is_empty,
  Text, text_eq, text_eq_iff, Result, ok, err, ℤ, Bool-cases,
}
use dockhand.Config.{App}
use dockhand.Config.Intervals.{enabled, refresh_duration}
use dockhand.Operations.SysUpdate.{
  SysUpdateTracker, check, try_acquire, mark_attempt, record_success, record_error,
}
use dockhand.Operations.SysUpdate.Tracking.{
  acquire, force, success, failure, apply, known, known-apply,
}
use dockhand.Operations.Runner.{Runner}
use dockhand.Operations.Runner.Updates.{
  Checks, republish_system_update_count, run_system_update_check, reject, accept_count,
  settle_builtin, settle_command, ask, check_builtin, check_system_updates, system_update_count,
}

-- A known count is what is reported, at any time: it outlives the version cache.
system_update_count-known :
    (now : ℕ) (app : Text) (n : ℤ) (at : ℕ) (r : Runner)
    → known app r.sys_update ≡ some (n, at)
    → system_update_count now app r ≡ n
unfolding system_update_count known
system_update_count-known now app n at r h = ground arith

module _ (a name : Text) (t : SysUpdateTracker) (now : ℕ) where
  known-try_acquire : (i : ℕ) → known a (try_acquire now name i t).1 ≡ known a t
  known-try_acquire i = unfold apply in known-apply a t (now, acquire name i)

  known-mark_attempt : known a (mark_attempt now name t) ≡ known a t
  known-mark_attempt = unfold apply in known-apply a t (now, force name)

  known-record_error : (e : Text) → known a (record_error now name e t) ≡ known a t
  known-record_error e = unfold apply in known-apply a t (now, failure name e)

  known-record_success :
      (n : ℤ)
      → known a (record_success now name n t)
        ≡ (if text_eq name a then some (n, now) else known a t)
  known-record_success n = unfold apply in known-apply a t (now, success name n)

sys_update-republish :
    (now : ℕ) (name : Text) (r : Runner)
    → (republish_system_update_count now name r).sys_update ≡ r.sys_update
unfolding republish_system_update_count
sys_update-republish now name r = ground arith

-- After a check of the app `name`, what is known of the app `a`: what was known before, or the count
-- that a successful check of that very app has found.
abbrev Outcome : Checks → Text → Text → App → SysUpdateTracker → SysUpdateTracker → Type 0
Outcome c a name app t t' =
    (known a t' ≡ known a t)
    ⊎ ((n : ℤ) × (name ≡ a)
        × (known a t' ≡ some (n, c.checked_at))
        × ((check c.checker ≡ ok n)
            ⊎ (run_system_update_check c.shell app.system_update_check ≡ ok n)))

known-ask :
    (c : Checks) (a name : Text) (app : App) (forced : Bool) (t : SysUpdateTracker)
    → known a (ask c name app forced t).1 ≡ known a t
known-ask c a name app true t = known-mark_attempt a name t c.asked_at
known-ask c a name app false t =
    known-try_acquire a name t c.asked_at (refresh_duration c.parse_duration app.system_updates)

accepted :
    (c : Checks) (a name : Text) (app : App) (n : ℤ) (t : SysUpdateTracker) (r : Runner)
    → ((check c.checker ≡ ok n) ⊎ (run_system_update_check c.shell app.system_update_check ≡ ok n))
    → known a r.sys_update ≡ known a t
    → Outcome c a name app t (accept_count c name n r).sys_update
accepted c a name app n t r from k =
    let e = known-record_success a name r.sys_update c.checked_at n in
    elim (Bool-cases (text_eq name a)) [
      | inl same ↦ inr (n, (text_eq_iff name a).0 same, ground (arith, e), from)
      | inr other ↦ inl (ground (arith, e))
    ]

rejected :
    (c : Checks) (a name e : Text) (app : App) (t : SysUpdateTracker) (r : Runner)
    → known a r.sys_update ≡ known a t
    → Outcome c a name app t (reject c name e r).sys_update
rejected c a name e app t r k = inl (known-record_error a name r.sys_update c.checked_at e ∙ k)

known-settle_builtin :
    (c : Checks) (a name : Text) (app : App) (res : Result ℤ) (t : SysUpdateTracker) (r : Runner)
    → check c.checker ≡ res
    → known a r.sys_update ≡ known a t
    → Outcome c a name app t (settle_builtin c name res r).sys_update
known-settle_builtin c a name app (ok n) t r h k = accepted c a name app n t r (inl h) k
known-settle_builtin c a name app (err e) t r h k =
    rw (sys_update-republish c.checked_at name (reject c name e r)) (rejected c a name e app t r k)

known-settle_command :
    (c : Checks) (a name : Text) (app : App) (res : Result ℤ) (t : SysUpdateTracker) (r : Runner)
    → run_system_update_check c.shell app.system_update_check ≡ res
    → known a r.sys_update ≡ known a t
    → Outcome c a name app t (settle_command c name res r).sys_update
known-settle_command c a name app (ok n) t r h k = accepted c a name app n t r (inr h) k
known-settle_command c a name app (err e) t r h k = rejected c a name e app t r k

known-check_builtin :
    (c : Checks) (a name : Text) (app : App) (asked : Bool × SysUpdateTracker)
    (t : SysUpdateTracker) (r : Runner)
    → known a asked.1 ≡ known a t
    → Outcome c a name app t (check_builtin c name asked r).sys_update
known-check_builtin c a name app (true, t') t r k =
    known-settle_builtin c a name app (check c.checker) t (record r { sys_update = t' }) refl k
known-check_builtin c a name app (false, t') t r k =
    inl (ap (known a) (sys_update-republish c.asked_at name (record r { sys_update = t' })) ∙ k)

-- A check of the app `name`, forced or not, built-in or by a command, changes what is known of an app
-- only if it is that app and the check succeeds: then the count is the one that the check found.
-- In all other cases, a failed check among them, the last good count of every app stays.
pub check_system_updates-known :
    (c : Checks) (a name : Text) (app : App) (forced : Bool) (r : Runner)
    → let after = (check_system_updates c name app forced r).sys_update in
      (known a after ≡ known a r.sys_update)
      ⊎ ((n : ℤ) × (name ≡ a)
          × (known a after ≡ some (n, c.checked_at))
          × ((check c.checker ≡ ok n)
              ⊎ (run_system_update_check c.shell app.system_update_check ≡ ok n)))
unfolding check_system_updates
check_system_updates-known c a name app forced r =
    let t = r.sys_update in
    let line = app.system_update_check in
    elim (Bool-cases (enabled app.system_updates)) [
      | inl on ↦ rw on (
          known-check_builtin c a name app (ask c name app forced t) t r
            (known-ask c a name app forced t))
      | inr off ↦ elim (Bool-cases (is_empty line)) [
        | inl unset ↦ rw (off, unset) (inl refl)
        | inr set' ↦
            rw (off, set')
              (known-settle_command c a name app (run_system_update_check c.shell line) t r refl
                refl)
      ]
    ]
