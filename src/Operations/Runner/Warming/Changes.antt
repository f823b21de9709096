-- ===== src/Operations/Runner/Warming/Changes.antt =====
-- What a warm-up of internal/operations/runner.go changes of the versions of operations.
use dockhand.Prelude.{
  ℕ, ◌+◌, ◌≡◌, ◌≤◌, refl, ap, sym, ◌∙◌, ◌⊎◌, inl, inr, Bool, true, false, Option, none, some, List,
  [], ◌∷◌, ◌++◌, if◌then◌else◌, arith, ltb, Text, codes, text_eq, eq_of-text_eq, has_prefix,
  is_empty, Map, Result, ok, err, Bool-cases, ℤ, itoa, or_zero, lookup, Option-cases,
}
use dockhand.Config.{Operation, App}
use dockhand.Config.Intervals.{enabled}
use dockhand.Operations.VersionCache.{VersionCache, version_cache_ttl, set, get, get-set}
use dockhand.Operations.SysUpdate.{SystemUpdateInfo, SysUpdateTracker, info, check}
use dockhand.Operations.Runner.{Runner}
use dockhand.Operations.Runner.Versions.{
  current_version, run_version_command, run_version_command_str, run_version_source_command,
  store_app_version, keep_version, detect_version, cache_latest, zero_operation,
}
use dockhand.Operations.Runner.Updates.{
  Checks, check_system_updates, publish, republish_info, republish_system_update_count, reject,
  settle_builtin, settle_command, ask, check_builtin, run_system_update_check,
}
use dockhand.Operations.Runner.Followups.{current_version-keep_version}
use dockhand.Operations.Runner.Warming.{Job, detect, latest, detect_app, check_app, run_job, warm}

-- A key with two underscores in front is not the name k.
marked_other :
    (p k : Text) → has_prefix k (codes "__") ≡ false → text_eq (codes "__" ++ p) k ≡ false
unfolding has_prefix
marked_other p k h = elim (Bool-cases (text_eq (codes "__" ++ p) k)) [
  | inl e ↦
      absurd (
        let wrong = ap (λ t. has_prefix t (codes "__")) (eq_of-text_eq (codes "__" ++ p) k e) in cc)
  | inr e ↦ e
]

-- Everything but what the name k is looked up by.
abbrev Same : ℕ → Text → Runner → Runner → Type 0
Same at k r u = (get at k u.version_cache ≡ get at k r.version_cache) × (u.ops ≡ r.ops)

abbrev version_in : Text → Option Text → Map Operation → Text
version_in k none ops = (or_zero zero_operation (lookup k ops)).current_version
version_in k (some v) ops = v

version_in_lem :
    (at : ℕ) (k : Text) (r : Runner)
    → current_version at k r ≡ version_in k (get at k r.version_cache) r.ops
unfolding current_version
version_in_lem at k r = elim (Option-cases (get at k r.version_cache)) [
  | inl e ↦ rw (current_version, e) refl
  | inr (v, e) ↦ rw (current_version, e) refl
]

current_version-Same :
    (at : ℕ) (k : Text) (r u : Runner)
    → Same at k r u
    → current_version at k u ≡ current_version at k r
unfolding current_version
current_version-Same at k r u (cache, ops) =
    version_in_lem at k u
    ∙ ap (λ g. version_in k g u.ops) cache
    ∙ ap (version_in k (get at k r.version_cache)) ops
    ∙ sym (version_in_lem at k r)

module _ (at : ℕ) (k : Text) (named : has_prefix k (codes "__") ≡ false) where
  get-set_marked :
      (now : ℕ) (p v : Text) (c : VersionCache)
      → get at k (set now (codes "__" ++ p) v c) ≡ get at k c
  get-set_marked now p v c =
      get-set at now (codes "__" ++ p) k v c ∙ rw (marked_other p k named) refl

  publish-Same : (now : ℕ) (app : Text) (n : ℤ) (r : Runner) → Same at k r (publish now app n r)
  publish-Same now app n r =
      (get-set_marked now (codes "sysupdate:" ++ app) (itoa n) r.version_cache, refl)

  republish_info-Same :
      (now : ℕ) (app : Text) (i : Option SystemUpdateInfo) (r : Runner)
      → Same at k r (republish_info now app i r)
  republish_info-Same now app none r = (refl, refl)
  republish_info-Same now app (some i) r = elim (Bool-cases i.has_count) [
    | inl e ↦ rw e (publish-Same now app i.count r)
    | inr e ↦ rw e (refl, refl)
  ]

  republish-Same :
      (now : ℕ) (app : Text) (r : Runner) → Same at k r (republish_system_update_count now app r)
  unfolding republish_system_update_count
  republish-Same now app r = republish_info-Same now app (info app r.sys_update) r

  settle_builtin-Same :
      (c : Checks) (app : Text) (x : Result ℤ) (r : Runner) → Same at k r (settle_builtin c app x r)
  settle_builtin-Same c app (ok n) r = publish-Same c.checked_at app n r
  settle_builtin-Same c app (err e) r = republish-Same c.checked_at app (reject c app e r)

  settle_command-Same :
      (c : Checks) (app : Text) (x : Result ℤ) (r : Runner) → Same at k r (settle_command c app x r)
  settle_command-Same c app (ok n) r = publish-Same c.checked_at app n r
  settle_command-Same c app (err e) r = (refl, refl)

  check_builtin-Same :
      (c : Checks) (app : Text) (asked : Bool × SysUpdateTracker) (r : Runner)
      → Same at k r (check_builtin c app asked r)
  check_builtin-Same c app (true, t) r =
      settle_builtin-Same c app (check c.checker) (record r { sys_update = t })
  check_builtin-Same c app (false, t) r =
      republish-Same c.asked_at app (record r { sys_update = t })

  check_system_updates-Same :
      (c : Checks) (name : Text) (app : App) (force : Bool) (r : Runner)
      → Same at k r (check_system_updates c name app force r)
  unfolding check_system_updates
  check_system_updates-Same c name app force r = elim (Bool-cases (enabled app.system_updates)) [
    | inl e ↦
        rw (check_system_updates, e)
          (check_builtin-Same c name (ask c name app force r.sys_update) r)
    | inr e ↦ elim (Bool-cases (is_empty app.system_update_check)) [
      | inl f ↦ rw (check_system_updates, e, f) (refl, refl)
      | inr f ↦
          rw (check_system_updates, e, f)
            (settle_command-Same c name (run_system_update_check c.shell app.system_update_check) r)
    ]
  ]

  latest-Same :
      (now : ℕ) (name : Text) (found : Result Text) (r : Runner)
      → Same at k r (keep_version found (cache_latest now name) r).0
  latest-Same now name (err e) r = (refl, refl)
  latest-Same now name (ok v) r = elim (Bool-cases (is_empty v)) [
    | inl e ↦ rw e (refl, refl)
    | inr e ↦ rw e (get-set_marked now (codes "latest:" ++ name) v r.version_cache, refl)
  ]

-- The job printed the version v for the name k.
abbrev pub Printed : (Text → Text → Result Text) → Text → Text → Job → Type 0
Printed shell k v (detect name op) = (name ≡ k) × (run_version_command shell op ≡ ok v)
Printed shell k v (latest name s dir) = ⊥
Printed shell k v (detect_app name app) =
    (name ≡ k) × (run_version_command_str shell app.version_command app.operations ≡ ok v)
Printed shell k v (check_app name app) = ⊥

-- Some job of the list did.
abbrev pub SomePrinted : (Text → Text → Result Text) → Text → Text → List Job → Type 0
SomePrinted shell k v [] = ⊥
SomePrinted shell k v (j ∷ js) = Printed shell k v j ⊎ SomePrinted shell k v js

current_version-store_app :
    (now at : ℕ) (k name v : Text) (r : Runner)
    → at ≤ now + version_cache_ttl
    → current_version at k (store_app_version now name v r).0
      ≡ (if text_eq name k then v else current_version at k r)
unfolding current_version store_app_version
current_version-store_app now at k name v r h =
    version_in_lem at k (store_app_version now name v r).0
    ∙ ap (λ g. version_in k g r.ops) (get-set at now name k v r.version_cache)
    ∙ elim (Bool-cases (text_eq name k)) [
      | inl e ↦
          let live : ltb (now + version_cache_ttl) at ≡ false = ground arith in rw (e, live) refl
      | inr e ↦ rw e (sym (version_in_lem at k r))
    ]

module _ (now at : ℕ) (shell : Text → Text → Result Text) (c : Checks) (k : Text)
    (named : has_prefix k (codes "__") ≡ false) (live : at ≤ now + version_cache_ttl) where
  detect_app_changes :
      (name : Text) (found : Result Text) (r : Runner)
      → let after = current_version at k (keep_version found (store_app_version now name) r).0 in
        (after ≡ current_version at k r) ⊎ ((name ≡ k) × (found ≡ ok after))
  detect_app_changes name (err e) r = inl refl
  detect_app_changes name (ok v) r = elim (Bool-cases (is_empty v)) [
    | inl e ↦ rw e (inl refl)
    | inr e ↦
        rw (e, current_version-store_app now at k name v r live)
          (elim (Bool-cases (text_eq name k)) [
            | inl f ↦ rw f (inr (eq_of-text_eq name k f, refl))
            | inr f ↦ rw f (inl refl)
          ])
  ]

  run_job_changes :
      (j : Job) (r : Runner)
      → let after = current_version at k (run_job now shell c j r).0 in
        (after ≡ current_version at k r) ⊎ Printed shell k after j
  unfolding run_job detect_version
  run_job_changes (detect name op) r =
      current_version-keep_version now at k name (run_version_command shell op) r
  run_job_changes (latest name s dir) r =
      let found = run_version_source_command shell s.command dir in
      inl (
        current_version-Same at k r (keep_version found (cache_latest now name) r).0
          (latest-Same at k named now name found r))
  run_job_changes (detect_app name app) r =
      detect_app_changes name (run_version_command_str shell app.version_command app.operations) r
  run_job_changes (check_app name app) r = inl (
      current_version-Same at k r (check_system_updates c name app false r)
        (check_system_updates-Same at k named c name app false r))

  -- However the jobs of a warm-up are ordered, the version that the runner tells for a name without two
  -- underscores in front, at any time within 20 minutes, is the one from before or one that the version
  -- command of an operation or of an app with this very name printed in one of the jobs.
  pub warm_changes :
      (js : List Job) (r : Runner)
      → let after = current_version at k (warm now shell c js r).0 in
        (after ≡ current_version at k r) ⊎ SomePrinted shell k after js
  unfolding warm
  warm_changes [] r = inl refl
  warm_changes (j ∷ js) r = elim (warm_changes js (run_job now shell c j r).0) [
    | inr later ↦ inr (inr later)
    | inl same ↦ rw same (elim (run_job_changes j r) [
      | inl before ↦ inl before
      | inr now_printed ↦ inr (inl now_printed)
    ])
  ]
