-- ===== src/Work.antt =====
-- `work_once` of src/lib.rs: one pass over the oldest eligible route.
pub mod Passes
pub mod Protocol
pub mod Completion
pub mod Success
pub mod Store
pub mod Published
use infernal_pf2e_parser_sim.Base.{ℤ, List, [], ◌∷◌}
use infernal_pf2e_parser_sim.Std.Text.{Text}
use infernal_pf2e_parser_sim.Domain.{ParserError}
use infernal_pf2e_parser_sim.Result.{Result, ok, err}
use infernal_pf2e_parser_sim.Codec.{Codec}
use infernal_pf2e_parser_sim.Wire.{
  WorkClaim, ClaimOutcome, claimed, EligibleRoute, RoutedRequest, RoutedRequestOutcome, found,
  missing, CompleteOutcome,
}
use infernal_pf2e_parser_sim.Kernel.{
  KernelPort, CandidateRepository, World, Effect, ask_eligible_routes, ask_propose_claim,
  ask_routed_request, ask_complete_claim,
}
use infernal_pf2e_parser_sim.Stateful.{pure, fail, ◌>>=◌, ◌>>◌}
use infernal_pf2e_parser_sim.Dispatch.{DispatchOutcome, dispatch}

pub data WorkOutcome : Type 0 where
  nothing_eligible : WorkOutcome
  claim_lost : Text → WorkOutcome
  request_unavailable : Text → WorkOutcome
  lost_before_completion : Text → Text → WorkOutcome
  completed : Text → DispatchOutcome → WorkOutcome
  unknown_action : Text → Text → WorkOutcome

module _ (codec : Codec) {R : Type 0} (repository : CandidateRepository R) (port : KernelPort) where
  -- the last `match`, on what `complete_claim` returned
  unfoldable pub outcome_of : Text → WorkClaim → DispatchOutcome → CompleteOutcome → WorkOutcome
  outcome_of route_id claim outcome (CompleteOutcome.completed _) = completed route_id outcome
  outcome_of route_id claim outcome _ = lost_before_completion route_id claim.claim_id

  -- the `match` on the result of `dispatch`
  unfoldable pub settle :
      Text → WorkClaim → Result ParserError DispatchOutcome → Effect R WorkOutcome
  unfolding outcome_of
  settle route_id claim (ok outcome) = do
    answer ← ask_complete_claim port claim.claim_id claim.fencing_token
    pure (outcome_of route_id claim outcome answer)
  settle route_id claim (err (ParserError.unknown_action action)) = do
    ask_complete_claim port claim.claim_id claim.fencing_token
    pure (unknown_action route_id action)
  settle route_id claim (err error) = fail error

  -- `dispatch` with its result as a value, not yet behind `?`
  unfoldable pub perform : Text → WorkClaim → RoutedRequest → Effect R WorkOutcome
  unfolding settle
  perform route_id claim request w =
      let (result, w') = dispatch codec repository port request.action request.scope w in
      settle route_id claim result w'

  unfoldable pub with_request : Text → WorkClaim → RoutedRequestOutcome → Effect R WorkOutcome
  unfolding perform
  with_request route_id claim (found request) = perform route_id claim request
  with_request route_id claim missing = pure (request_unavailable route_id)

  unfoldable pub with_claim : Text → ClaimOutcome → Effect R WorkOutcome
  unfolding with_request
  with_claim route_id (claimed claim) = do
    answer ← ask_routed_request port route_id
    with_request route_id claim answer
  with_claim route_id _ = pure (claim_lost route_id)

  unfoldable pub with_routes : ℤ → List EligibleRoute → Effect R WorkOutcome
  unfolding with_claim
  with_routes lease_seconds [] = pure nothing_eligible
  with_routes lease_seconds (route ∷ _) = do
    answer ← ask_propose_claim port route.route_id lease_seconds
    with_claim route.route_id answer

  unfoldable pub work_once : ℤ → Effect R WorkOutcome
  unfolding with_routes
  work_once lease_seconds = do routes ← ask_eligible_routes port; with_routes lease_seconds routes
