-- ===== src/Enrollment/ReEnrolling.antt =====
-- internal/enrollment/enrollment.go: ReEnroll, which the heartbeat calls after a 401.
use dockhand.Prelude.{
  ℕ, Bool, not, ◌||◌, Option, none, some, [], ◌∷◌, ◌++◌, if◌then◌else◌, ◌==◌, Text, codes, quoted,
  is_empty, Result, ok, err,
}
use dockhand.Config.{Config}
use dockhand.Enrollment.{Net, Response, build_runner_url, first_text, status_text}

-- reEnrollRequest, with the key of the `Authorization` header, if it is set.
pub record ReEnrollRequest : Type 0 where
  pub name : Text
  pub url : Text
  pub api_key : Text
  pub bearer : Option Text

-- reEnrollResponse
pub record ReEnrollResponse : Type 0 where
  pub success : Bool
  pub error : Text

-- The bytes of —
abbrev em_dash : Text
em_dash = 226 ∷ 128 ∷ 148 ∷ []

abbrev judge_re_enroll : Config → ℕ → Result ReEnrollResponse → Option Text
judge_re_enroll cfg status (err e) =
    some (codes "decoding re-enroll response (status " ++ status_text status ++ codes "): " ++ e)
judge_re_enroll cfg status (ok a) =
    if status == 404
    then some (
        codes "server has no runner named "
        ++ quoted cfg.runner.name
        ++ b' ' ∷ em_dash
        ++ codes " manual enrollment required")
    else if not (status == 200) || not a.success
    then some (
        codes "re-enroll failed (status "
        ++ status_text status
        ++ codes "): "
        ++ first_text a.error (codes "unknown error"))
    else none

abbrev judge_re_enroll_response : Config → Text → Result (Response ReEnrollResponse) → Option Text
judge_re_enroll_response cfg endpoint (err e) = some (codes "POST " ++ endpoint ++ codes ": " ++ e)
judge_re_enroll_response cfg endpoint (ok r) = judge_re_enroll cfg r.status r.body

abbrev re_enroll_at :
    (Text → ReEnrollRequest → Result (Response ReEnrollResponse))
    → Config
    → Result Text
    → Option Text
re_enroll_at post cfg (err e) = some (codes "determining runner URL: " ++ e)
re_enroll_at post cfg (ok url) =
    let endpoint = cfg.runner.docked_url ++ codes "/api/runners/re-enroll" in
    judge_re_enroll_response cfg endpoint (
      post endpoint (record {
        name = cfg.runner.name;
        url = url;
        api_key = cfg.server.api_key;
        bearer = if is_empty cfg.server.api_key then none else some cfg.server.api_key;
      }))

-- ReEnroll; `none` is a nil error.
unfoldable pub re_enroll :
    Net → (Text → ReEnrollRequest → Result (Response ReEnrollResponse)) → Config → Option Text
unfolding build_runner_url
re_enroll net post cfg =
    if is_empty cfg.runner.docked_url
    then some (codes "no docked_url configured")
    else re_enroll_at post cfg (build_runner_url net cfg)
