-- ===== src/Operations/Runner/Warming/Sources.antt =====
-- Where the jobs of a warm-up of internal/operations/runner.go come from.
use dockhand.Prelude.{
  ℕ, ◌+◌, ◌≡◌, ◌≤◌, refl, subst, ◌⊎◌, inl, inr, Bool, true, false, not, ◌||◌, Option, none, some,
  List, [], ◌∷◌, ◌++◌, All, All-append, Member, Text, codes, has_prefix, is_empty, Map, Result, ok,
}
use dockhand.Config.{Operation, App, VersionSource}
use dockhand.Config.Intervals.{enabled}
use dockhand.Operations.VersionCache.{version_cache_ttl}
use dockhand.Operations.Runner.{Runner}
use dockhand.Operations.Runner.Versions.{
  current_version, run_version_command, run_version_command_str,
}
use dockhand.Operations.Runner.Updates.{Checks}
use dockhand.Operations.Runner.Warming.{
  Job, detect, latest, detect_app, check_app, when, has_command, latest_job, op_jobs,
  op_source_jobs, app_jobs, jobs_of, warm,
}
use dockhand.Operations.Runner.Warming.Changes.{Printed, SomePrinted, warm_changes}

-- The operation or the app of a job that looks a version up is one of the runner's.
abbrev pub IsFrom : Runner → Job → Type 0
IsFrom r (detect name op) = Member (name, op) r.ops
IsFrom r (latest name s dir) = Unit
IsFrom r (detect_app name app) = Member (name, app) r.apps
IsFrom r (check_app name app) = Unit

module _ (r : Runner) where
  when-IsFrom : (b : Bool) (j : Job) → IsFrom r j → All (IsFrom r) (when b j)
  when-IsFrom true j h = (h, tt)
  when-IsFrom false j h = tt

  latest_job-IsFrom :
      (name : Text) (s : Option VersionSource) (dir : Text) → All (IsFrom r) (latest_job name s dir)
  latest_job-IsFrom name none dir = tt
  latest_job-IsFrom name (some s) dir = when-IsFrom (has_command s) (latest name s dir) tt

  op_jobs-IsFrom :
      (ops : Map Operation)
      → ((x : Text × Operation) → Member x ops → Member x r.ops)
      → All (IsFrom r) (op_jobs ops)
  op_jobs-IsFrom [] h = tt
  op_jobs-IsFrom ((name, op) ∷ ops) h =
      All-append (IsFrom r) (when (not (is_empty op.version_command)) (detect name op))
        (op_jobs ops)
        (when-IsFrom (not (is_empty op.version_command)) (detect name op) (h (name, op) (inl refl)))
        (op_jobs-IsFrom ops (λ x m. h x (inr m)))

  op_source_jobs-IsFrom : (ops : Map Operation) → All (IsFrom r) (op_source_jobs ops)
  op_source_jobs-IsFrom [] = tt
  op_source_jobs-IsFrom ((name, op) ∷ ops) =
      All-append (IsFrom r) (latest_job name op.version_source op.working_dir) (op_source_jobs ops)
        (latest_job-IsFrom name op.version_source op.working_dir) (op_source_jobs-IsFrom ops)

  app_jobs-IsFrom :
      (apps : Map App)
      → ((x : Text × App) → Member x apps → Member x r.apps)
      → All (IsFrom r) (app_jobs apps)
  app_jobs-IsFrom [] h = tt
  app_jobs-IsFrom ((name, app) ∷ apps) h =
      let rest = app_jobs-IsFrom apps (λ x m. h x (inr m)) in
      let checked = enabled app.system_updates || not (is_empty app.system_update_check) in
      let found = not (is_empty app.version_command) in
      let sources = latest_job name app.version_source [] in
      let checks = when checked (check_app name app) in
      All-append (IsFrom r) (when found (detect_app name app))
        (sources ++ (checks ++ app_jobs apps))
        (when-IsFrom found (detect_app name app) (h (name, app) (inl refl)))
        (All-append (IsFrom r) sources (checks ++ app_jobs apps)
          (latest_job-IsFrom name app.version_source [])
          (All-append (IsFrom r) checks (app_jobs apps)
            (when-IsFrom checked (check_app name app) tt) rest))

  -- All jobs of a warm-up are from the maps of the runner.
  pub jobs_of-IsFrom : All (IsFrom r) (jobs_of r)
  unfolding jobs_of
  jobs_of-IsFrom =
      All-append (IsFrom r) (op_jobs r.ops) (op_source_jobs r.ops ++ app_jobs r.apps)
        (op_jobs-IsFrom r.ops (λ x m. m))
        (All-append (IsFrom r) (op_source_jobs r.ops) (app_jobs r.apps)
          (op_source_jobs-IsFrom r.ops) (app_jobs-IsFrom r.apps (λ x m. m)))

  -- The version command of an operation or of an app of this name printed v.
  abbrev pub Found : (Text → Text → Result Text) → Text → Text → Type 0
  Found shell k v =
      ((op : Operation) × Member (k, op) r.ops × (run_version_command shell op ≡ ok v))
      ⊎ ((app : App) × Member (k, app) r.apps
          × (run_version_command_str shell app.version_command app.operations ≡ ok v))

  Printed-Found :
      (shell : Text → Text → Result Text) (k v : Text) (j : Job)
      → IsFrom r j
      → Printed shell k v j
      → Found shell k v
  Printed-Found shell k v (detect name op) from (same, out) =
      inl (op, subst (λ n. Member (n, op) r.ops) same from, out)
  Printed-Found shell k v (latest name s dir) from p = absurd p
  Printed-Found shell k v (detect_app name app) from (same, out) =
      inr (app, subst (λ n. Member (n, app) r.apps) same from, out)
  Printed-Found shell k v (check_app name app) from p = absurd p

  SomePrinted-Found :
      (shell : Text → Text → Result Text) (k v : Text) (js : List Job)
      → All (IsFrom r) js
      → SomePrinted shell k v js
      → Found shell k v
  SomePrinted-Found shell k v [] from p = absurd p
  SomePrinted-Found shell k v (j ∷ js) from (inl p) = Printed-Found shell k v j from.0 p
  SomePrinted-Found shell k v (j ∷ js) from (inr p) = SomePrinted-Found shell k v js from.1 p

  -- However the jobs of a warm-up, or some of them, are ordered, the version that the runner tells for a
  -- name without two underscores in front, at any time within 20 minutes, is the one from before, or one
  -- that the version command of an operation of this name printed, or that of an app of this name.
  pub warm_sources :
      (now at : ℕ) (shell : Text → Text → Result Text) (c : Checks) (k : Text) (js : List Job)
      → has_prefix k (codes "__") ≡ false
      → at ≤ now + version_cache_ttl
      → All (IsFrom r) js
      → let after = current_version at k (warm now shell c js r).0 in
        (after ≡ current_version at k r) ⊎ Found shell k after
  warm_sources now at shell c k js named live from =
      elim (warm_changes now at shell c k named live js r) [
        | inl same ↦ inl same
        | inr printed ↦ inr (
            SomePrinted-Found shell k (current_version at k (warm now shell c js r).0) js from
              printed)
      ]
