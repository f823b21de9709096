-- ===== src/Operations/Runner/Followups.antt =====
-- internal/operations/runner.go: what `Run` and `RunApp` do after a command has succeeded, in a goroutine
-- that is taken here as the next step.
use dockhand.Prelude.{
  ℕ, zero, suc, ◌≡◌, refl, ◌⊎◌, inl, inr, Bool, true, false, not, ◌&&◌, ◌||◌, none, some, List, [],
  arith, if◌then◌else◌, Text, text_eq, text_eq_iff, is_empty, lookup, Result, ok, err, pos, negsuc,
  Bool-cases, Option-cases, sym, ap,
}
use dockhand.Config.{Operation, App}
use dockhand.Config.Intervals.{enabled}
use dockhand.Operations.History.{Sql}
use dockhand.Operations.Runner.{Runner, World, RunResult, run, run_app}
use dockhand.Operations.Runner.Versions.{
  Write, current_version, run_version_command, run_version_command_str, store_version,
  store_app_version, keep_version, detect_version,
}
use dockhand.Operations.Runner.Updates.{Checks, check_system_updates}
use dockhand.Operations.Runner.Versions.Stored.{current_version-store}

abbrev pub succeeded : Result RunResult → Bool
succeeded (err e) = false
succeeded (ok x) = elim x.exit_code [
  | pos n ↦ elim n [ zero ↦ true | suc m ↦ false ]
  | negsuc n ↦ false
]

-- The goroutine at the end of `Run`, or none.
unfoldable pub follow_run :
    ℕ
    → (Text → Text → Result Text)
    → Text
    → Operation
    → Result RunResult
    → Runner
    → Runner × List Write
unfolding detect_version
follow_run now shell name op result r =
    if succeeded result && not (is_empty op.version_command)
    then detect_version now shell name op r
    else (r, [])

module _ (sql : Sql) (w : World) (now : ℕ) (shell : Text → Text → Result Text) where
  -- `Run`, with what follows it; `now` is the time when the version is found.
  unfoldable pub operate : Text → Runner → Runner × List Write
  unfolding run follow_run
  operate name r = elim (lookup name r.ops) [
    | none ↦ (r, [])
    | some op ↦ follow_run now shell name op (run sql w name r).result (run sql w name r).state
  ]

-- The version of an app, after a run of one of its operations.
abbrev pub detect_app_version :
    ℕ → (Text → Text → Result Text) → Text → App → Runner → Runner × List Write
detect_app_version now shell name app r =
    if is_empty app.version_command
    then (r, [])
    else keep_version (run_version_command_str shell app.version_command app.operations)
        (store_app_version now name) r

abbrev pub then_check : Checks → Text → App → Runner × List Write → Runner × List Write
then_check c name app (r, writes) = (
  if enabled app.system_updates || not (is_empty app.system_update_check)
      then check_system_updates c name app true r
      else r,
  writes,
)

-- The goroutine at the end of `RunApp`, or none.
unfoldable pub follow_run_app :
    ℕ
    → (Text → Text → Result Text)
    → Checks
    → Text
    → Result RunResult
    → Runner
    → Runner × List Write
unfolding run_version_command_str store_app_version check_system_updates enabled
follow_run_app now shell c name result r =
    if succeeded result
    then elim (lookup name r.apps) [
      | none ↦ (r, [])
      | some app ↦ then_check c name app (detect_app_version now shell name app r)
    ]
    else (r, [])

module _ (sql : Sql) (w : World) (now : ℕ) (shell : Text → Text → Result Text) where
  -- `RunApp`, with what follows it.
  unfoldable pub operate_app : Checks → Text → Text → Runner → Runner × List Write
  unfolding run_app follow_run_app
  operate_app c name op_name r =
      let x = run_app sql w name op_name r in follow_run_app now shell c name x.result x.state

run-ops :
    (sql : Sql) (w : World) (name : Text) (r : Runner)
    → ((run sql w name r).state.ops ≡ r.ops)
      × ((run sql w name r).state.version_cache ≡ r.version_cache)
unfolding run
run-ops sql w name r = elim (Option-cases (lookup name r.ops)) [
  | inl e ↦ (rw (run, e) refl, rw (run, e) refl)
  | inr (op, e) ↦ (rw (run, e) refl, rw (run, e) refl)
]

current_version_of_ops :
    (at : ℕ) (k : Text) (r u : Runner)
    → u.ops ≡ r.ops
    → u.version_cache ≡ r.version_cache
    → current_version at k u ≡ current_version at k r
unfolding current_version
current_version_of_ops at k r u ops cache = rw (ops, cache) refl

current_version-run :
    (sql : Sql) (w : World) (at : ℕ) (k name : Text) (r : Runner)
    → current_version at k (run sql w name r).state ≡ current_version at k r
current_version-run sql w at k name r =
    let (ops, cache) = run-ops sql w name r in
    current_version_of_ops at k r (run sql w name r).state ops cache

current_version-store_found :
    (now at : ℕ) (k name v : Text) (r : Runner)
    → let after = current_version at k (store_version now name v r).0 in
      (after ≡ current_version at k r) ⊎ ((name ≡ k) × (v ≡ after))
current_version-store_found now at k name v r =
    rw (current_version-store at now name k v r) (elim (Bool-cases (text_eq name k)) [
      | inl e ↦ rw e (inr ((text_eq_iff name k).0 e, refl))
      | inr e ↦ rw e (inl refl)
    ])

pub current_version-keep_version :
    (now at : ℕ) (k name : Text) (found : Result Text) (r : Runner)
    → let after = current_version at k (keep_version found (store_version now name) r).0 in
      (after ≡ current_version at k r) ⊎ ((name ≡ k) × (found ≡ ok after))
current_version-keep_version now at k name (err e) r = inl refl
current_version-keep_version now at k name (ok v) r = elim (Bool-cases (is_empty v)) [
  | inl e ↦ rw e (inl refl)
  | inr e ↦ rw e (elim (current_version-store_found now at k name v r) [
    | inl h ↦ inl h
    | inr (same, h) ↦ inr (same, ap ok h)
  ])
]

current_version-follow_run :
    (now at : ℕ) (shell : Text → Text → Result Text) (k name : Text) (op : Operation)
    (x : Result RunResult) (r : Runner)
    → let after = current_version at k (follow_run now shell name op x r).0 in
      (after ≡ current_version at k r)
      ⊎ ((name ≡ k) × (succeeded x ≡ true) × (run_version_command shell op ≡ ok after))
unfolding follow_run detect_version
current_version-follow_run now at shell k name op x r =
    elim (Bool-cases (succeeded x && not (is_empty op.version_command))) [
      | inl e ↦
          rw e (elim (current_version-keep_version now at k name (run_version_command shell op) r) [
            | inl h ↦ inl h
            | inr (same, h) ↦ inr (same, ground (arith, e), h)
          ])
      | inr e ↦ rw e (inl refl)
    ]

-- A call of `Run` and what follows it change the current version of an operation, as it is read at any
-- later time, only if it is the operation that ran, the command exited with 0, and its version command
-- printed the new version: a run that fails, in whatever way, changes no version.
pub current_version-operate :
    (sql : Sql) (w : World) (now at : ℕ) (shell : Text → Text → Result Text) (k name : Text)
    (r : Runner)
    → let after = current_version at k (operate sql w now shell name r).0 in
      (after ≡ current_version at k r)
      ⊎ ((name ≡ k)
          × (succeeded (run sql w name r).result ≡ true)
          × ((op : Operation) × (lookup name r.ops ≡ some op)
              × (run_version_command shell op ≡ ok after)))
unfolding operate
current_version-operate sql w now at shell k name r = elim (Option-cases (lookup name r.ops)) [
  | inl e ↦ rw (operate, e) (inl refl)
  | inr (op, e) ↦
      rw (operate, e, sym (current_version-run sql w at k name r))
        (elim (current_version-follow_run now at shell k name op (run sql w name r).result
          (run sql w name r).state) [
            | inl h ↦ inl h
            | inr (same, done, h) ↦ inr (same, done, (op, refl, h))
          ])
]
