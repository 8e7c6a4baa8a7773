-- ===== src/Work/Passes.antt =====
-- What `work_once` asks of the kernel, as relations between its result and its calls.
use infernal_pf2e_parser_sim.Base.{ℤ, List, [], ◌∷◌, ◌++◌, ◌≡◌}
use infernal_pf2e_parser_sim.Std.Text.{Text}
use infernal_pf2e_parser_sim.Domain.{ParserError}
use infernal_pf2e_parser_sim.Result.{Result, ok, err}
use infernal_pf2e_parser_sim.Codec.{Codec}
use infernal_pf2e_parser_sim.Wire.{
  WorkClaim, ClaimOutcome, claimed, EligibleRoute, RoutedRequest, found, missing, CompleteOutcome,
}
use infernal_pf2e_parser_sim.Kernel.{
  KernelPort, CandidateRepository, World, Call, eligible_routes, propose_claim, routed_request,
  complete_claim,
}
use infernal_pf2e_parser_sim.Dispatch.{DispatchOutcome}
use infernal_pf2e_parser_sim.Dispatch.Calls.{Dispatches}
use infernal_pf2e_parser_sim.Work.{
  WorkOutcome, nothing_eligible, claim_lost, request_unavailable, lost_before_completion, completed,
  unknown_action,
}

abbrev pub IsGranted : ClaimOutcome → Type 0
IsGranted (claimed _) = Unit
IsGranted _ = ⊥

abbrev pub IsConfirmed : CompleteOutcome → Type 0
IsConfirmed (CompleteOutcome.completed _) = Unit
IsConfirmed _ = ⊥

abbrev pub IsUnknownAction : ParserError → Type 0
IsUnknownAction (ParserError.unknown_action _) = Unit
IsUnknownAction _ = ⊥

module _ (port : KernelPort) where
  abbrev pub completion : WorkClaim → Call
  completion claim = complete_claim claim.claim_id claim.fencing_token

  abbrev pub answer_to_completion : List Call → WorkClaim → Result ParserError CompleteOutcome
  answer_to_completion h claim = port.complete_claim h claim.claim_id claim.fencing_token

  -- What a pass makes of the result of `dispatch`, and the calls it makes for it. Any error but an
  -- unknown action leaves the claim alone.
  pub data Settles (route_id : Text) (claim : WorkClaim) (h : List Call)
      : Result ParserError DispatchOutcome
        → Result ParserError WorkOutcome
        → List Call
        → Type 0 where
    done :
        {outcome : DispatchOutcome} {answer : CompleteOutcome}
        → answer_to_completion h claim ≡ ok answer
        → IsConfirmed answer
        → Settles route_id claim h
            (ok outcome)
            (ok (completed route_id outcome))
            (completion claim ∷ [])
    too_late :
        {outcome : DispatchOutcome} {answer : CompleteOutcome}
        → answer_to_completion h claim ≡ ok answer
        → ¬ IsConfirmed answer
        → Settles route_id claim h
            (ok outcome)
            (ok (lost_before_completion route_id claim.claim_id))
            (completion claim ∷ [])
    unsure :
        {outcome : DispatchOutcome} {e : ParserError}
        → answer_to_completion h claim ≡ err e
        → Settles route_id claim h (ok outcome) (err e) (completion claim ∷ [])
    closed :
        {action : Text} {answer : CompleteOutcome}
        → answer_to_completion h claim ≡ ok answer
        → Settles route_id claim h
            (err (ParserError.unknown_action action))
            (ok (unknown_action route_id action))
            (completion claim ∷ [])
    not_closed :
        {action : Text} {e : ParserError}
        → answer_to_completion h claim ≡ err e
        → Settles route_id claim h
            (err (ParserError.unknown_action action))
            (err e)
            (completion claim ∷ [])
    abandoned :
        {e : ParserError} → ¬ IsUnknownAction e → Settles route_id claim h (err e) (err e) []

module _ {R : Type 0} where
  -- the calls made before each further step of a pass from `w`
  abbrev pub polled : World R → List Call
  polled w = w.calls ++ eligible_routes ∷ []

  abbrev pub proposed : ℤ → World R → EligibleRoute → List Call
  proposed lease w route = polled w ++ propose_claim route.route_id lease ∷ []

  abbrev pub fetched : ℤ → World R → EligibleRoute → List Call
  fetched lease w route = proposed lease w route ++ routed_request route.route_id ∷ []

module _ (codec : Codec) {R : Type 0} (repository : CandidateRepository R) (port : KernelPort)
    (lease : ℤ) where
  module _ (w : World R) where
    -- What a pass from `w` may return, the repository's state behind it, and its calls.
    pub data Passes : Result ParserError WorkOutcome → R → List Call → Type 0 where
      not_polled :
          {e : ParserError}
          → port.eligible_routes w.calls ≡ err e
          → Passes (err e) w.store (eligible_routes ∷ [])
      idle :
          port.eligible_routes w.calls ≡ ok []
          → Passes (ok nothing_eligible) w.store (eligible_routes ∷ [])
      not_proposed :
          {route : EligibleRoute} {later : List EligibleRoute} {e : ParserError}
          → port.eligible_routes w.calls ≡ ok (route ∷ later)
          → port.propose_claim (polled w) route.route_id lease ≡ err e
          → Passes (err e) w.store (eligible_routes ∷ propose_claim route.route_id lease ∷ [])
      not_granted :
          {route : EligibleRoute} {later : List EligibleRoute} {answer : ClaimOutcome}
          → port.eligible_routes w.calls ≡ ok (route ∷ later)
          → port.propose_claim (polled w) route.route_id lease ≡ ok answer
          → ¬ IsGranted answer
          → Passes
              (ok (claim_lost route.route_id))
              w.store
              (eligible_routes ∷ propose_claim route.route_id lease ∷ [])
      not_fetched :
          {route : EligibleRoute} {later : List EligibleRoute} {claim : WorkClaim} {e : ParserError}
          → port.eligible_routes w.calls ≡ ok (route ∷ later)
          → port.propose_claim (polled w) route.route_id lease ≡ ok (claimed claim)
          → port.routed_request (proposed lease w route) route.route_id ≡ err e
          → Passes (err e) w.store (
              eligible_routes
              ∷ propose_claim route.route_id lease
              ∷ routed_request route.route_id
              ∷ [])
      no_request :
          {route : EligibleRoute} {later : List EligibleRoute} {claim : WorkClaim}
          → port.eligible_routes w.calls ≡ ok (route ∷ later)
          → port.propose_claim (polled w) route.route_id lease ≡ ok (claimed claim)
          → port.routed_request (proposed lease w route) route.route_id ≡ ok missing
          → Passes (ok (request_unavailable route.route_id)) w.store (
              eligible_routes
              ∷ propose_claim route.route_id lease
              ∷ routed_request route.route_id
              ∷ [])
      worked :
          {route : EligibleRoute} {later : List EligibleRoute} {claim : WorkClaim}
          {request : RoutedRequest} {r : Result ParserError DispatchOutcome}
          {r' : Result ParserError WorkOutcome} {st : R} {admissions completions : List Call}
          → port.eligible_routes w.calls ≡ ok (route ∷ later)
          → port.propose_claim (polled w) route.route_id lease ≡ ok (claimed claim)
          → port.routed_request (proposed lease w route) route.route_id ≡ ok (found request)
          → Dispatches codec port repository request.action request.scope
              (record w { calls = fetched lease w route })
              r
              st
              admissions
          → Settles port route.route_id claim (fetched lease w route ++ admissions) r r' completions
          → Passes r' st (
              eligible_routes
              ∷ propose_claim route.route_id lease
              ∷ routed_request route.route_id
              ∷ (admissions ++ completions))

  -- how a pass from `w` ends, given its result and its final state
  abbrev pub PassEnds : World R → Result ParserError WorkOutcome × World R → Type 0
  PassEnds w (r, w') =
      (calls : List Call) × (w'.calls ≡ w.calls ++ calls) × Passes w r w'.store calls
