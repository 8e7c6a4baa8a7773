-- ===== src/Wire/Answers.antt =====
-- What the kernel must have answered for work to go on.
use infernal_pf2e_parser_sim.Base.{arith, ℕ, ◌==◌, ==-eq, Bool-cases, ◌≡◌, ◌≢◌, refl, inl, inr}
use infernal_pf2e_parser_sim.Std.Text.{Text}
use infernal_pf2e_parser_sim.Domain.{ParserError, unexpected_status, malformed_response}
use infernal_pf2e_parser_sim.Result.{Result, ok, err, map_err, ◌>>=◌}
use infernal_pf2e_parser_sim.Wire.{
  Json, Bytes, WorkClaim, ClaimOutcome, claimed, already_claimed, route_not_found,
  parse_claim_response,
}

module _ (json : Json) (status : ℕ) (body : Bytes) where
  -- what the status and the body must have been for an outcome of `parse_claim_response`
  abbrev pub ExplainsClaim : Result ParserError ClaimOutcome → Type 0
  ExplainsClaim (ok (claimed claim)) = (status ≡ 201) × (json.work_claim body ≡ ok claim)
  ExplainsClaim (ok already_claimed) = status ≡ 409
  ExplainsClaim (ok route_not_found) = status ≡ 404
  ExplainsClaim (err (malformed_response why)) = (status ≡ 201) × (json.work_claim body ≡ err why)
  ExplainsClaim (err (unexpected_status s)) =
      (s ≡ status) × (status ≢ 201) × (status ≢ 409) × (status ≢ 404)
  ExplainsClaim (err _) = ⊥

  claim-ExplainsClaim :
      status ≡ 201
      → (m : Result Text WorkClaim) → json.work_claim body ≡ m
      → ExplainsClaim (do claim ← map_err malformed_response m; ok (claimed claim))
  claim-ExplainsClaim created (ok claim) e = (created, e)
  claim-ExplainsClaim created (err why) e = (created, e)

  -- Every answer to a proposed claim is explained by its status and its body: granted exactly by a
  -- 201 whose body decodes to the claim, malformed by a 201 whose body does not, contended by 409,
  -- gone by 404, and an unexpected status is none of these and is reported as it came.
  pub parse_claim_response-Explains : ExplainsClaim (parse_claim_response json status body)
  unfolding parse_claim_response
  parse_claim_response-Explains = elim (Bool-cases (status == 201)) [
    | inl e ↦ rw e (claim-ExplainsClaim (==-eq status 201 e) (json.work_claim body) refl)
    | inr e ↦ rw e (elim (Bool-cases (status == 409)) [
      | inl f ↦ rw f (==-eq status 409 f)
      | inr f ↦ rw f (elim (Bool-cases (status == 404)) [
        | inl g ↦ rw g (==-eq status 404 g)
        | inr g ↦ rw g (refl, (λ h. ground arith), (λ h. ground arith), λ h. ground arith)
      ])
    ])
  ]
