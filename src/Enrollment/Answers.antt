-- ===== src/Enrollment/Answers.antt =====
-- How internal/enrollment/enrollment.go reads the server's answers.
use dockhand.Prelude.{ℕ, ◌≡◌, ◌↔◌, Bool, true, false, arith, Text, ◌++◌, codes, Result, ok, err}
use dockhand.Enrollment.{
  Response, RegisterRequest, RegisterResponse, is_rejection, accepted, judge_body, register,
}

-- The body decodes to an answer that says success.
abbrev pub says_success : Result RegisterResponse → Bool
says_success (err e) = false
says_success (ok a) = a.success

abbrev pub decodes {ℓ} : {A : Type ℓ} → Result A → Bool
decodes (err e) = false
decodes (ok a) = true

judge_body_lem :
    (status : ℕ) (body : Result RegisterResponse)
    → ((judge_body status body ≡ accepted) ↔ ((status ≡ 201) × (says_success body ≡ true)))
      × ((is_rejection (judge_body status body) ≡ true) ↔ ((status ≡ 401) × (decodes body ≡ true)))
judge_body_lem status (err e) =
    ((λ h. ground arith, λ h. ground arith), (λ h. ground arith, λ h. ground arith))
judge_body_lem status (ok a) =
    ((λ h. ground arith, λ h. ground arith), (λ h. ground arith, λ h. ground arith))

-- Where the POST goes through, a registration is accepted exactly if the status is 201 and the body
-- decodes to an answer that says success, and it is rejected for good exactly if the status is 401
-- and the body decodes: a 401 with another body is retried.
register_answers :
    (post : Text → RegisterRequest → Result (Response RegisterResponse)) (url : Text)
    (q : RegisterRequest) (r : Response RegisterResponse)
    → post (url ++ codes "/api/runners/register") q ≡ ok r
    → ((register post url q ≡ accepted) ↔ ((r.status ≡ 201) × (says_success r.body ≡ true)))
      × ((is_rejection (register post url q) ≡ true) ↔ ((r.status ≡ 401) × (decodes r.body ≡ true)))
unfolding register
register_answers post url q r e = rw e (judge_body_lem r.status r.body)
