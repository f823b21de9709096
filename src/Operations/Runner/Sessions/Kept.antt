-- ===== src/Operations/Runner/Sessions/Kept.antt =====
-- What versions, checks and follow-ups of internal/operations/runner.go leave alone: the history and the
-- maps of running operations.
use dockhand.Prelude.{
  ℕ, ◌≡◌, refl, Bool, true, false, Option, none, some, List, Text, Result, ok, err, ℤ, lookup,
  Bool-cases, Option-cases, inl, inr, is_empty, not, ◌&&◌, ◌||◌, ◌∙◌,
}
use dockhand.Config.{Operation, App}
use dockhand.Config.Intervals.{enabled}
use dockhand.Operations.SysUpdate.{SystemUpdateInfo, SysUpdateTracker, check, info}
use dockhand.Operations.Runner.{Runner, RunResult}
use dockhand.Operations.Runner.Versions.{
  Write, store_version, store_app_version, cache_latest, keep_version, detect_version,
  run_version_command, run_version_command_str, run_version_source_command,
}
use dockhand.Operations.Runner.Updates.{
  Checks, republish_info, republish_system_update_count, reject, settle_builtin, settle_command,
  ask, check_builtin, check_system_updates, run_system_update_check,
}
use dockhand.Operations.Runner.Followups.{
  succeeded, follow_run, follow_run_app, detect_app_version, then_check,
}
use dockhand.Operations.Runner.Warming.{Job, detect, latest, detect_app, check_app, run_job}

-- The two runners agree in their history and in their maps of running operations.
pub record Keeps (r u : Runner) : Type 0 where
  pub history : u.history ≡ r.history
  pub slots : u.slots ≡ r.slots
  pub apps_slots : u.apps_slots ≡ r.apps_slots

pub Keeps-refl : {r : Runner} → Keeps r r
Keeps-refl = record { history = refl; slots = refl; apps_slots = refl }

Keeps-keep_version :
    (found : Result Text) (store : Text → Runner → Runner × List Write) (r : Runner)
    → ((v : Text) → Keeps r (store v r).0)
    → Keeps r (keep_version found store r).0
Keeps-keep_version (err e) store r h = Keeps-refl
Keeps-keep_version (ok v) store r h = elim (Bool-cases (is_empty v)) [
  | inl e ↦ rw e Keeps-refl
  | inr e ↦ rw e (h v)
]

Keeps-store_version :
    (now : ℕ) (name v : Text) (r : Runner) → Keeps r (store_version now name v r).0
unfolding store_version
Keeps-store_version now name v r = record { history = refl; slots = refl; apps_slots = refl }

Keeps-store_app_version :
    (now : ℕ) (name v : Text) (r : Runner) → Keeps r (store_app_version now name v r).0
unfolding store_app_version
Keeps-store_app_version now name v r = record { history = refl; slots = refl; apps_slots = refl }

Keeps-detect_version :
    (now : ℕ) (shell : Text → Text → Result Text) (name : Text) (op : Operation) (r : Runner)
    → Keeps r (detect_version now shell name op r).0
unfolding detect_version
Keeps-detect_version now shell name op r =
    Keeps-keep_version (run_version_command shell op) (store_version now name) r
      (λ v. Keeps-store_version now name v r)

Keeps-republish :
    (at : ℕ) (app : Text) (i : Option SystemUpdateInfo) (r : Runner)
    → Keeps r (republish_info at app i r)
Keeps-republish at app none r = Keeps-refl
Keeps-republish at app (some i) r = elim (Bool-cases i.has_count) [
  | inl e ↦ rw e (record { history = refl; slots = refl; apps_slots = refl })
  | inr e ↦ rw e Keeps-refl
]

Keeps-settle_command :
    (c : Checks) (app : Text) (n : Result ℤ) (r : Runner) → Keeps r (settle_command c app n r)
Keeps-settle_command c app (ok n) r = record { history = refl; slots = refl; apps_slots = refl }
Keeps-settle_command c app (err e) r = record { history = refl; slots = refl; apps_slots = refl }

pub Keeps-trans : {r u v : Runner} → Keeps r u → Keeps u v → Keeps r v
Keeps-trans h k = record {
  history = k.history ∙ h.history;
  slots = k.slots ∙ h.slots;
  apps_slots = k.apps_slots ∙ h.apps_slots;
}

Keeps-republish_count :
    (at : ℕ) (app : Text) (r : Runner) → Keeps r (republish_system_update_count at app r)
unfolding republish_system_update_count
Keeps-republish_count at app r = Keeps-republish at app (info app r.sys_update) r

Keeps-settle_builtin :
    (c : Checks) (app : Text) (n : Result ℤ) (r : Runner) → Keeps r (settle_builtin c app n r)
Keeps-settle_builtin c app (ok n) r = record { history = refl; slots = refl; apps_slots = refl }
Keeps-settle_builtin c app (err e) r =
    Keeps-trans (record { history = refl; slots = refl; apps_slots = refl })
      (Keeps-republish_count c.checked_at app (reject c app e r))

Keeps-check_builtin :
    (c : Checks) (name : Text) (x : Bool × SysUpdateTracker) (r : Runner)
    → Keeps r (check_builtin c name x r)
Keeps-check_builtin c name (true, t) r =
    Keeps-trans (record { history = refl; slots = refl; apps_slots = refl })
      (Keeps-settle_builtin c name (check c.checker) (record r { sys_update = t }))
Keeps-check_builtin c name (false, t) r =
    Keeps-trans (record { history = refl; slots = refl; apps_slots = refl })
      (Keeps-republish_count c.asked_at name (record r { sys_update = t }))

Keeps-check_system_updates :
    (c : Checks) (name : Text) (app : App) (force : Bool) (r : Runner)
    → Keeps r (check_system_updates c name app force r)
unfolding check_system_updates
Keeps-check_system_updates c name app force r = elim (Bool-cases (enabled app.system_updates)) [
  | inl e ↦ rw e (Keeps-check_builtin c name (ask c name app force r.sys_update) r)
  | inr e ↦ elim (Bool-cases (is_empty app.system_update_check)) [
    | inl f ↦ rw (e, f) Keeps-refl
    | inr f ↦
        rw (e, f)
          (Keeps-settle_command c name (run_system_update_check c.shell app.system_update_check) r)
  ]
]

pub Keeps-run_job :
    (now : ℕ) (shell : Text → Text → Result Text) (c : Checks) (j : Job) (r : Runner)
    → Keeps r (run_job now shell c j r).0
unfolding run_job
Keeps-run_job now shell c (detect name op) r = Keeps-detect_version now shell name op r
Keeps-run_job now shell c (latest name s dir) r =
    Keeps-keep_version (run_version_source_command shell s.command dir) (cache_latest now name) r
      (λ v. record { history = refl; slots = refl; apps_slots = refl })
Keeps-run_job now shell c (detect_app name app) r =
    Keeps-keep_version (run_version_command_str shell app.version_command app.operations)
      (store_app_version now name) r (λ v. Keeps-store_app_version now name v r)
Keeps-run_job now shell c (check_app name app) r = Keeps-check_system_updates c name app false r

module _ (now : ℕ) (shell : Text → Text → Result Text) where
  pub Keeps-follow_run :
      (name : Text) (op : Operation) (x : Result RunResult) (r : Runner)
      → Keeps r (follow_run now shell name op x r).0
  unfolding follow_run
  Keeps-follow_run name op x r =
      elim (Bool-cases (succeeded x && not (is_empty op.version_command))) [
        | inl e ↦ rw e (Keeps-detect_version now shell name op r)
        | inr e ↦ rw e Keeps-refl
      ]

  Keeps-detect_app_version :
      (name : Text) (app : App) (r : Runner) → Keeps r (detect_app_version now shell name app r).0
  Keeps-detect_app_version name app r = elim (Bool-cases (is_empty app.version_command)) [
    | inl e ↦ rw e Keeps-refl
    | inr e ↦ rw e (
        Keeps-keep_version (run_version_command_str shell app.version_command app.operations)
          (store_app_version now name) r (λ v. Keeps-store_app_version now name v r))
  ]

  Keeps-then_check :
      (c : Checks) (name : Text) (app : App) (x : Runner × List Write)
      → Keeps x.0 (then_check c name app x).0
  Keeps-then_check c name app (r, ws) =
      elim (Bool-cases (enabled app.system_updates || not (is_empty app.system_update_check))) [
        | inl e ↦ rw e (Keeps-check_system_updates c name app true r)
        | inr e ↦ rw e Keeps-refl
      ]

  pub Keeps-follow_run_app :
      (c : Checks) (name : Text) (x : Result RunResult) (r : Runner)
      → Keeps r (follow_run_app now shell c name x r).0
  unfolding follow_run_app
  Keeps-follow_run_app c name x r = elim (Bool-cases (succeeded x)) [
    | inl e ↦ rw e (elim (Option-cases (lookup name r.apps)) [
      | inl f ↦ rw f Keeps-refl
      | inr (app, f) ↦ rw f (
          Keeps-trans (Keeps-detect_app_version name app r)
            (Keeps-then_check c name app (detect_app_version now shell name app r)))
    ])
    | inr e ↦ rw e Keeps-refl
  ]
