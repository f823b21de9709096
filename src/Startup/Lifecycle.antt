-- ===== src/Startup/Lifecycle.antt =====
-- cmd/runner/main.go: main, from the start of the program to its end, as the sequence of what it starts and
-- releases.
use dockhand.Prelude.{
  ◌≡◌, refl, ◌⊎◌, Bool, true, false, not, ◌&&◌, ◌||◌, Option, none, some, List, [], ◌∷◌, ◌++◌,
  arith, Text, codes, is_empty, Result, ok, on_result, any_of, ◌∙◌,
}
use dockhand.Config.{Config}
use dockhand.Enrollment.{Enrolled}
use dockhand.Heartbeat.{Started, no_url, not_registered, running, start}
use dockhand.Startup.{Attempt, is_connected, connect}

-- What main meets: the configuration, the marker of an earlier registration, what the enrollment does
-- and whether it has ended when the heartbeat is started, the attempts to connect to Docker, the error
-- of OpenDB, whether Uninstall closed the history while the server was up, the error of the server,
-- where it is that and not a signal that ends the wait, and the error of Shutdown, whose timeout
-- leaves handlers running.
pub record Boot : Type 0 where
  pub loaded : Result Config
  pub marked : Bool
  pub enrolled : Config → Enrolled
  pub enrolled_early : Bool
  pub first : Attempt
  pub later : List Attempt
  pub open_fault : Option Text
  pub uninstalled : Bool
  pub server_error : Option Text
  pub shutdown_error : Option Text

pub data Deed : Type 0 where
  enroll : Deed
  retry_docker : Deed
  open_history : Deed
  new_runner : Deed
  watch_config : Deed
  serve : Deed
  beat : Deed
  shut_down : Option Text → Deed
  close_docker : Deed
  stop_runner : Deed
  close_history : Deed
  cancel_context : Deed
  fatal : Text → Deed

abbrev pub when : Bool → Deed → List Deed
when true d = d ∷ []
when false d = []

abbrev is_running : Started → Bool
is_running no_url = false
is_running not_registered = false
is_running running = true

-- The marker file when the heartbeat is started.
abbrev pub marked_at_start : Boot → Config → Bool
marked_at_start b cfg = b.marked || ((b.enrolled cfg).marked && b.enrolled_early)

-- After a signal: the shutdown, and the deferred calls from the last to the first. `available` says
-- whether there is a client of Docker.
abbrev pub wind_down : Bool → Option Text → List Deed
wind_down available shutdown_error =
    shut_down shutdown_error ∷ when available close_docker
    ++ (stop_runner ∷ close_history ∷ cancel_context ∷ [])

-- log.Fatalf runs no deferred call.
abbrev pub ending : Bool → Option Text → Option Text → List Deed
ending available none shutdown_error = wind_down available shutdown_error
ending available (some e) shutdown_error = fatal (codes "server error: " ++ e) ∷ []

-- From the opening of the database on.
abbrev pub with_history : Boot → Bool → Bool → Option Text → List Deed
with_history b beats available (some e) = fatal (codes "history db: " ++ e) ∷ []
with_history b beats available none =
    open_history ∷ new_runner ∷ watch_config ∷ serve ∷ when beats beat
    ++ (when b.uninstalled close_history ++ ending available b.server_error b.shutdown_error)

abbrev pub configured : Boot → Config → List Deed
configured b cfg =
    enroll ∷ when (cfg.docker.enabled && not (is_connected b.first)) retry_docker
    ++ with_history b (is_running (start (marked_at_start b cfg) cfg))
        (connect cfg.docker.enabled b.first b.later).available b.open_fault

-- main
unfoldable pub main : Boot → List Deed
unfolding start connect
main b = on_result b.loaded (configured b) (λ e. fatal (codes "config error: " ++ e) ∷ [])

-- What is open: the database, the runner that uses it, and the server that uses both.
pub record Held : Type 0 where
  pub history : Bool
  pub runner : Bool
  pub server : Bool

abbrev pub nothing : Held
nothing = record { history = false; runner = false; server = false }

-- Nothing is used before it is there, and nothing is released while something uses it.
abbrev allowed : Held → Deed → Bool
allowed h open_history = not h.history
allowed h new_runner = h.history && not h.runner
allowed h watch_config = h.runner
allowed h serve = h.history && h.runner && not h.server
allowed h (shut_down e) = h.server
allowed h stop_runner = h.runner && not h.server
allowed h close_history = h.history && not h.runner && not h.server
allowed h d = true

abbrev held_after : Held → Deed → Held
held_after h open_history = record h { history = true }
held_after h new_runner = record h { runner = true }
held_after h serve = record h { server = true }
held_after h (shut_down none) = record h { server = false }
held_after h stop_runner = record h { runner = false }
held_after h close_history = record h { history = false }
held_after h d = h

pub all_allowed : Held → List Deed → Bool
all_allowed h [] = true
all_allowed h (d ∷ ds) = allowed h d && all_allowed (held_after h d) ds

pub held_at_end : Held → List Deed → Held
held_at_end h [] = h
held_at_end h (d ∷ ds) = held_at_end (held_after h d) ds

pub is_fatal : List Deed → Bool
is_fatal [] = false
is_fatal (fatal e ∷ ds) = true
is_fatal (d ∷ ds) = let rest = is_fatal ds in rest

abbrev IsOrderly : List Deed → Type 0
IsOrderly ds =
    (all_allowed nothing ds ≡ true) × ((held_at_end nothing ds ≡ nothing) ⊎ (is_fatal ds ≡ true))

-- Where something still uses the history as it is closed.
early_close :
    (retry beats available uninstalled : Bool) (e : Text)
    → all_allowed nothing (
        enroll ∷ when retry retry_docker
        ++ (open_history ∷ new_runner ∷ watch_config ∷ serve ∷ when beats beat
            ++ (when uninstalled close_history ++ ending available none (some e))))
      ≡ false
unfolding all_allowed
early_close true true available true e = refl
early_close true false available true e = refl
early_close false true available true e = refl
early_close false false available true e = refl
early_close true true true false e = refl
early_close true true false false e = refl
early_close true false true false e = refl
early_close true false false false e = refl
early_close false true true false e = refl
early_close false true false false e = refl
early_close false false true false e = refl
early_close false false false false e = refl

-- If the configuration loads, the history opens, a signal ends the wait and Shutdown returns an error, as
-- at its timeout, the program does not keep that order: it stops the runner and closes the history
-- while handlers still run.
main_early_close :
    (b : Boot) (cfg : Config) (e : Text)
    → b.loaded ≡ ok cfg
    → b.open_fault ≡ none
    → b.server_error ≡ none
    → b.shutdown_error ≡ some e
    → all_allowed nothing (main b) ≡ false
unfolding main
main_early_close b cfg e l o s d =
    rw (l, o, s, d)
      (early_close (cfg.docker.enabled && not (is_connected b.first))
        (is_running (start (marked_at_start b cfg) cfg))
        (connect cfg.docker.enabled b.first b.later).available b.uninstalled e)

abbrev pub is_beat : Deed → Bool
is_beat beat = true
is_beat d = false

beats_if :
    (retry beats available uninstalled : Bool) (server_error shutdown_error : Option Text)
    → any_of is_beat (
        enroll ∷ when retry retry_docker
        ++ (open_history ∷ new_runner ∷ watch_config ∷ serve ∷ when beats beat
            ++ (when uninstalled close_history ++ ending available server_error shutdown_error)))
      ≡ beats
beats_if true true available uninstalled server_error shutdown_error = refl
beats_if false true available uninstalled server_error shutdown_error = refl
beats_if true false true true none shutdown_error = refl
beats_if true false false true none shutdown_error = refl
beats_if false false true true none shutdown_error = refl
beats_if false false false true none shutdown_error = refl
beats_if true false true false none shutdown_error = refl
beats_if true false false false none shutdown_error = refl
beats_if false false true false none shutdown_error = refl
beats_if false false false false none shutdown_error = refl
beats_if true false available true (some e) shutdown_error = refl
beats_if false false available true (some e) shutdown_error = refl
beats_if true false available false (some e) shutdown_error = refl
beats_if false false available false (some e) shutdown_error = refl

main-beat :
    (b : Boot) (cfg : Config)
    → b.loaded ≡ ok cfg
    → b.open_fault ≡ none
    → any_of is_beat (main b) ≡ is_running (start (marked_at_start b cfg) cfg)
unfolding main
main-beat b cfg l o =
    rw (l, o)
      (beats_if (cfg.docker.enabled && not (is_connected b.first))
        (is_running (start (marked_at_start b cfg) cfg))
        (connect cfg.docker.enabled b.first b.later).available b.uninstalled b.server_error
        b.shutdown_error)

-- Where the configuration loads, the history opens and a server is configured, a start without the marker
-- whose enrollment ends only after the heartbeat was to be started has no heartbeat, even if it is
-- registered; the same start with the marker that the enrollment left, if it did, has one.
pub first_start_silent :
    (b : Boot) (cfg : Config)
    → b.loaded ≡ ok cfg
    → b.open_fault ≡ none
    → is_empty cfg.runner.docked_url ≡ false
    → b.marked ≡ false
    → b.enrolled_early ≡ false
    → (any_of is_beat (main b) ≡ false)
      × (any_of is_beat (main (record b { marked = (b.enrolled cfg).marked }))
          ≡ (b.enrolled cfg).marked)
unfolding start
first_start_silent b cfg l o u m early = (
  main-beat b cfg l o ∙ silent,
  main-beat (record b { marked = (b.enrolled cfg).marked }) cfg l o ∙ later,
)
  where
    silent : is_running (start (marked_at_start b cfg) cfg) ≡ false
    silent = ground arith

    later :
        is_running (start (marked_at_start (record b { marked = (b.enrolled cfg).marked }) cfg) cfg)
        ≡ (b.enrolled cfg).marked
    later = ground arith
