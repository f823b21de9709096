-- ===== src/Operations/SysUpdate/Tracking.antt =====
-- The tracker of internal/operations/sysupdate.go under any sequence of its operations.
use dockhand.Prelude.{
  ℕ, ◌+◌, ◌≤◌, ◌<◌, ◌≡◌, refl, ap, ◌∙◌, true, Option, none, some, List, [], ◌∷◌, arith,
  if◌then◌else◌, Text, text_eq, text_eq_iff, text_eq_refl, lookup-insert, ℤ, All,
}
use native.Mathlib.Nat.{le_refl}
use dockhand.Operations.SysUpdate.{
  SysUpdateTracker, SysUpdateStatus, SystemUpdateInfo, status, put, try_acquire, mark_attempt,
  record_success, record_error, info,
}

-- The operations that change the tracker, with the app's name.
pub data Event : Type 0 where
  acquire : Text → ℕ → Event
  force : Text → Event
  success : Text → ℤ → Event
  failure : Text → Text → Event

unfoldable pub apply : SysUpdateTracker → ℕ × Event → SysUpdateTracker
apply t (now, acquire app interval) = (try_acquire now app interval t).1
apply t (now, force app) = mark_attempt now app t
apply t (now, success app count) = record_success now app count t
apply t (now, failure app e) = record_error now app e t

-- `es` happen one after the other, each at its time.
unfoldable pub run : SysUpdateTracker → List (ℕ × Event) → SysUpdateTracker
run t [] = t
run t (e ∷ es) = run (apply t e) es

-- The count that the API reports, with the time of its check.
abbrev known_of : Option SystemUpdateInfo → Option (ℤ × ℕ)
known_of none = none
known_of (some i) = if i.has_count then some (i.count, i.last_checked) else none

unfoldable pub known : Text → SysUpdateTracker → Option (ℤ × ℕ)
known app t = known_of (info app t)

abbrev last_success_step : Text → Option (ℤ × ℕ) → ℕ × Event → Option (ℤ × ℕ)
last_success_step app k (now, acquire a _) = k
last_success_step app k (now, force a) = k
last_success_step app k (now, success a c) = if text_eq a app then some (c, now) else k
last_success_step app k (now, failure a e) = k

-- The last successful check of the app among the events, or `k`.
abbrev pub last_success : Text → Option (ℤ × ℕ) → List (ℕ × Event) → Option (ℤ × ℕ)
last_success app k [] = k
last_success app k (e ∷ es) = last_success app (last_success_step app k e) es

known-put :
    (app a : Text) (st : SysUpdateStatus) (t : SysUpdateTracker)
    → known app (put a st t) ≡ (
        if text_eq a app
        then if st.has_count then some (st.count, st.last_checked) else none
        else known app t)
unfolding known info
known-put app a st t = ground (arith, lookup-insert a app st t.statuses)

known_lem :
    (app : Text) (t : SysUpdateTracker)
    → known app t
      ≡ (let st = status app t in if st.has_count then some (st.count, st.last_checked) else none)
unfolding known info
known_lem app t = ground arith

pub known-apply :
    (app : Text) (t : SysUpdateTracker) (e : ℕ × Event)
    → known app (apply t e) ≡ last_success_step app (known app t) e
unfolding apply try_acquire mark_attempt record_success record_error
known-apply app t (now, acquire a i) =
    let st = status a t in
    ground (
      arith,
      text_eq_iff a app,
      known_lem app t,
      known-put app a st t,
      known-put app a (record st { last_attempt = now }) t,
    )
known-apply app t (now, force a) = ground (
  arith,
  text_eq_iff a app,
  known_lem app t,
  known-put app a (record (status a t) { last_attempt = now }) t,
)
known-apply app t (now, success a c) =
    let st = record (status a t) {
      count = c;
      has_count = true;
      last_checked = now;
      last_error = [];
      last_error_time = 0;
    } in
    ground (arith, known-put app a st t)
known-apply app t (now, failure a e) =
    let st = record (status a t) { last_error = e; last_error_time = now } in
    ground (arith, text_eq_iff a app, known_lem app t, known-put app a st t)

-- Whatever operations happen on a tracker, in whatever order and on whatever apps, the count that is
-- reported for an app and the time of its check are those of the last successful check of that app,
-- or those reported before if there was none: attempts and failed checks never change them.
pub known-run :
    (app : Text) (t : SysUpdateTracker) (es : List (ℕ × Event))
    → known app (run t es) ≡ last_success app (known app t) es
unfolding run
known-run app t [] = refl
known-run app t (e ∷ es) =
    known-run app (apply t e) es ∙ ap (λ k. last_success app k es) (known-apply app t e)

abbrev attempted : Text → SysUpdateTracker → ℕ
attempted app t = (status app t).last_attempt

attempted-put :
    (app a : Text) (st : SysUpdateStatus) (t : SysUpdateTracker)
    → attempted app (put a st t) ≡ (if text_eq a app then st.last_attempt else attempted app t)
attempted-put app a st t = ground (arith, lookup-insert a app st t.statuses)

abbrev Later : ℕ → List (ℕ × Event) → Type 0
Later m = All (λ e. m ≤ e.0)

attempted-apply :
    (app : Text) (t : SysUpdateTracker) (m : ℕ) (e : ℕ × Event)
    → m ≤ attempted app t
    → m ≤ e.0
    → m ≤ attempted app (apply t e)
unfolding apply try_acquire mark_attempt record_success record_error
attempted-apply app t m (now, acquire a i) h k =
    let st = status a t in
    ground (
      arith,
      text_eq_iff a app,
      attempted-put app a st t,
      attempted-put app a (record st { last_attempt = now }) t,
    )
attempted-apply app t m (now, force a) h k =
    ground (arith, attempted-put app a (record (status a t) { last_attempt = now }) t)
attempted-apply app t m (now, success a c) h k =
    let st = record (status a t) {
      count = c;
      has_count = true;
      last_checked = now;
      last_error = [];
      last_error_time = 0;
    } in
    ground (arith, text_eq_iff a app, attempted-put app a st t)
attempted-apply app t m (now, failure a e) h k =
    let st = record (status a t) { last_error = e; last_error_time = now } in
    ground (arith, text_eq_iff a app, attempted-put app a st t)

attempted-run :
    (app : Text) (t : SysUpdateTracker) (m : ℕ) (es : List (ℕ × Event))
    → m ≤ attempted app t
    → Later m es
    → m ≤ attempted app (run t es)
unfolding run
attempted-run app t m [] h k = h
attempted-run app t m (e ∷ es) h (k, ks) =
    attempted-run app (apply t e) m es (attempted-apply app t m e h k) ks

attempted-try_acquire :
    (now : ℕ) (app : Text) (i : ℕ) (t : SysUpdateTracker)
    → (try_acquire now app i t).0 ≡ true
    → attempted app (try_acquire now app i t).1 ≡ now
unfolding try_acquire
attempted-try_acquire now app i t h = ground (
  arith,
  text_eq_refl app,
  attempted-put app app (record (status app t) { last_attempt = now }) t,
)

try_acquire-attempted :
    (now : ℕ) (app : Text) (i : ℕ) (t : SysUpdateTracker)
    → 0 < attempted app t
    → (try_acquire now app i t).0 ≡ true
    → attempted app t + i ≤ now
unfolding try_acquire
try_acquire-attempted now app i t p h = ground arith

-- Two granted acquisitions of one app are at least the interval apart: if one is granted at a time
-- `first` after the zero time, and another at `second` after any further operations none of which
-- is stamped before `first`, then `second` is at least `first` plus the interval asked for.
pub try_acquire_spaced :
    (app : Text) (i j first second : ℕ) (t : SysUpdateTracker) (es : List (ℕ × Event))
    → 0 < first
    → (try_acquire first app i t).0 ≡ true
    → Later first es
    → (try_acquire second app j (run (try_acquire first app i t).1 es)).0 ≡ true
    → first + j ≤ second
try_acquire_spaced app i j first second t es p granted later again =
    let before = (try_acquire first app i t).1 in
    let kept =
      attempted-run app before first es
        (rw (attempted-try_acquire first app i t granted) (le_refl first)) later in
    let spaced = try_acquire-attempted second app j (run before es) (omega arith) again in
    omega arith
