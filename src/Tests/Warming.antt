-- ===== src/Tests/Warming.antt =====
-- A warm-up of the versions at a concrete input.
use dockhand.Prelude.{◌≡◌, ◌⊎◌, refl, none, [], ◌∷◌, arith, Text, codes, Result, ok, has_prefix}
use dockhand.Operations.Runner.{Runner}
use dockhand.Operations.Runner.Versions.{zero_app, current_version}
use dockhand.Operations.Runner.Updates.{Checks}
use dockhand.Operations.Runner.Warming.{jobs_of, warm}
use dockhand.Operations.Runner.Warming.Sources.{Found, jobs_of-IsFrom, warm_sources}
use dockhand.Tests.Runs.{backup, op, runner}

abbrev shell : Text → Text → Result Text
shell line dir = ok (codes "2.0\n")

abbrev checks : Checks
checks = record {
  asked_at = 7;
  checked_at = 8;
  parse_duration = λ s. none;
  checker = record { geteuid = 0; run = λ name args. ok [] };
  shell = λ line. ok (codes "0");
}

-- An operation and an app of one name
abbrev shared : Runner
shared = record runner {
  ops = (backup, record op { version_command = codes "v" }) ∷ [];
  apps = (backup, record zero_app { version_command = codes "w" }) ∷ [];
}

warm_sources_example :
    let after = current_version 9 backup (warm 5 shell checks (jobs_of shared) shared).0 in
    (after ≡ current_version 9 backup shared) ⊎ Found shared shell backup after
unfolding has_prefix
warm_sources_example =
    warm_sources shared 5 9 shell checks backup (jobs_of shared) refl (omega arith)
      (jobs_of-IsFrom shared)
