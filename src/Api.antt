-- ===== src/Api.antt =====
-- internal/api: responses, and what the handlers share. A value that is encoded as JSON stands for
-- itself; headers are left out.
pub mod Logging
pub mod Auth
pub mod Health
pub mod Debug
pub mod System
pub mod Containers
pub mod Binaries
pub mod Downloads
pub mod Logs
pub mod Routes
pub mod Update
pub mod Operations
use dockhand.Prelude.{
  ℕ, zero, suc, Bool, true, false, Option, none, some, List, [], ◌∷◌, ◌++◌, Text, codes, Result, ok,
  err, ℤ, pos, negsuc, atoi, ltb, if◌then◌else◌, ◌≤◌, arith,
}

-- writeJSON, with status 200 or, behind WriteHeader, with status 201; httpError
pub data Response {ℓ} (A : Type ℓ) : Type ℓ where
  json : A → Response A
  json_created : A → Response A
  failed : ℕ → Text → Response A

-- The response of a stream, if there is one.
pub data Reply : Type 0 where
  streamed : Text → Reply
  refused : ℕ → Text → Reply

abbrev positive_or : ℕ → Option ℤ → ℕ
positive_or d none = d
positive_or d (some (pos zero)) = d
positive_or d (some (pos (suc n))) = suc n
positive_or d (some (negsuc n)) = d

-- The query parameter `limit`, and what stands in for it.
unfoldable pub limit_param : ℕ → Text → ℕ
unfolding atoi
limit_param d [] = d
limit_param d (c ∷ s) = positive_or d (atoi (c ∷ s))

abbrev pub capped : ℕ → ℕ → Option ℤ → ℕ
capped d most none = d
capped d most (some (pos zero)) = d
capped d most (some (pos (suc n))) = if ltb most (suc n) then most else suc n
capped d most (some (negsuc n)) = d

-- A number of lines in a query parameter, what stands in for it, and the greatest one.
unfoldable pub capped_param : ℕ → ℕ → Text → ℕ
unfolding atoi
capped_param d most [] = d
capped_param d most (c ∷ s) = capped d most (atoi (c ∷ s))

capped_bounds :
    (d most : ℕ) (n : Option ℤ)
    → 1 ≤ d
    → d ≤ most
    → (1 ≤ capped d most n) × (capped d most n ≤ most)
capped_bounds d most none h k = (h, k)
capped_bounds d most (some (pos zero)) h k = (h, k)
capped_bounds d most (some (pos (suc n))) h k = ground arith
capped_bounds d most (some (negsuc n)) h k = (h, k)

-- However the parameter is written, the number is at least one and within the bound.
pub capped_param_bounds :
    (d most : ℕ) (s : Text)
    → 1 ≤ d
    → d ≤ most
    → (1 ≤ capped_param d most s) × (capped_param d most s ≤ most)
unfolding capped_param
capped_param_bounds d most [] h k = (h, k)
capped_param_bounds d most (c ∷ s) h k = capped_bounds d most (atoi (c ∷ s)) h k

-- The end of the history handlers.
abbrev pub history_response {ℓ} : {A : Type ℓ} → Result A → Response A
history_response (ok records) = json records
history_response (err e) = failed 500 (codes "history error: " ++ e)

abbrev pub cancel_response {ℓ} : {A : Type ℓ} → A → Result ℕ → Response A
cancel_response a (ok context) = json a
cancel_response a (err e) = failed 409 e
