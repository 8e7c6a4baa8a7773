-- ===== src/Kernel.antt =====
-- The interfaces between the service's parts: `KernelPort` of src/kernel_client.rs and
-- `CandidateRepository` of src/domain.rs, with the effects of their calls. The kernel is outside:
-- what it answers may depend on all calls made so far, so each operation of the port is a
-- function of those. A repository has a state of its own.
use infernal_pf2e_parser_sim.Base.{ℤ, List, [], ◌∷◌, ◌++◌}
use infernal_pf2e_parser_sim.Std.Text.{Text}
use infernal_pf2e_parser_sim.Domain.{
  ParserError, CandidateError, candidate, SourceReference, ParseOutcome,
}
use infernal_pf2e_parser_sim.Stateful.{Stateful}
use infernal_pf2e_parser_sim.Result.{Result, map_err}
use infernal_pf2e_parser_sim.Wire.{
  EligibleRoute, ClaimOutcome, RoutedRequestOutcome, CompleteOutcome,
}

pub data Call : Type 0 where
  eligible_routes : Call
  propose_claim : Text → ℤ → Call
  routed_request : Text → Call
  complete_claim : Text → ℤ → Call
  submit_request : Text → Text → Call

-- the answer to each call, from the calls made before it
pub record KernelPort : Type 0 where
  pub eligible_routes : List Call → Result ParserError (List EligibleRoute)
  pub propose_claim : List Call → Text → ℤ → Result ParserError ClaimOutcome
  pub routed_request : List Call → Text → Result ParserError RoutedRequestOutcome
  pub complete_claim : List Call → Text → ℤ → Result ParserError CompleteOutcome
  pub submit_request : List Call → Text → Text → Result ParserError (Unit {0})

pub record CandidateRepository (R : Type 0) : Type 0 where
  pub parse_once : Text → SourceReference → R → Result CandidateError ParseOutcome × R

-- the calls made to the kernel, oldest first, and the repository's state
pub record World (R : Type 0) : Type 0 where
  pub calls : List Call
  pub store : R

-- a computation that may fail, with its effects
abbrev pub Effect : Type 0 → Type 0 → Type 0
Effect R A = Stateful (World R) ParserError A

module _ {R : Type 0} where
  -- a call of the kernel is answered from the calls before it, and recorded
  abbrev pub call : {A : Type 0} → Call → (List Call → Result ParserError A) → Effect R A
  call c answer w = (answer w.calls, record w { calls = w.calls ++ c ∷ [] })

  module _ (port : KernelPort) where
    abbrev pub ask_eligible_routes : Effect R (List EligibleRoute)
    ask_eligible_routes = call eligible_routes port.eligible_routes

    abbrev pub ask_propose_claim : Text → ℤ → Effect R ClaimOutcome
    ask_propose_claim route_id lease_seconds =
        call (propose_claim route_id lease_seconds)
          (λ h. port.propose_claim h route_id lease_seconds)

    abbrev pub ask_routed_request : Text → Effect R RoutedRequestOutcome
    ask_routed_request route_id =
        call (routed_request route_id) (λ h. port.routed_request h route_id)

    abbrev pub ask_complete_claim : Text → ℤ → Effect R CompleteOutcome
    ask_complete_claim claim_id token =
        call (complete_claim claim_id token) (λ h. port.complete_claim h claim_id token)

    abbrev pub ask_submit_request : Text → Text → Effect R (Unit {0})
    ask_submit_request action scope =
        call (submit_request action scope) (λ h. port.submit_request h action scope)

  -- `parse_once`, with `?` turning its error into the service's
  abbrev pub ask_parse_once : CandidateRepository R → Text → SourceReference → Effect R ParseOutcome
  ask_parse_once repository version source w =
      let (r, store') = repository.parse_once version source w.store in
      (map_err candidate r, record w { store = store' })
