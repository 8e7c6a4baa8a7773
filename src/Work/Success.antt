-- ===== src/Work/Success.antt =====
-- A pass where the kernel and the repository do their parts.
use infernal_pf2e_parser_sim.Base.{
  ℤ, true, List, [], ◌∷◌, ◌≡◌, refl, ap, length, map, ◌++◌, append-nil, append_assoc, ◌∙◌,
}
use infernal_pf2e_parser_sim.Std.Text.{Text, text_eq}
use infernal_pf2e_parser_sim.Domain.{candidate, SourceReference, Candidate, ParseOutcome}
use infernal_pf2e_parser_sim.Result.{ok, map_err}
use infernal_pf2e_parser_sim.Codec.{Codec}
use infernal_pf2e_parser_sim.Wire.{
  WorkClaim, claimed, EligibleRoute, RoutedRequest, found, CompleteOutcome,
}
use infernal_pf2e_parser_sim.Kernel.{KernelPort, CandidateRepository, World, Call, ask_parse_once}
use infernal_pf2e_parser_sim.Stateful.{>>=-ok}
use infernal_pf2e_parser_sim.Dispatch.{
  DispatchOutcome, dispatch, handle_parse, submit_outcome, submit_all, parse_action, admit_action,
}
use infernal_pf2e_parser_sim.Dispatch.Scope.{parse_input_scope, parser_version, admit_scope_for}
use infernal_pf2e_parser_sim.Work.{
  completed, work_once, with_routes, with_claim, with_request, perform, settle, outcome_of,
}
use infernal_pf2e_parser_sim.Work.Passes.{polled, proposed, fetched, completion}
use infernal_pf2e_parser_sim.Dispatch.Calls.{admission}

module _ (codec : Codec) {R : Type 0} (repository : CandidateRepository R) (port : KernelPort) where
  -- the kernel accepts every submission, and confirms every completion
  abbrev pub AcceptsAll : Type 0
  AcceptsAll = (h : List Call) (action scope : Text) → port.submit_request h action scope ≡ ok tt

  abbrev pub ConfirmsAll : Type 0
  ConfirmsAll =
      (h : List Call) (claim_id : Text) (token : ℤ)
      → (claim : WorkClaim) × (port.complete_claim h claim_id token
          ≡ ok (CompleteOutcome.completed claim))

  -- the calls of all these submissions
  abbrev pub admissions : SourceReference → List Candidate → List Call
  admissions source = map (admission codec port source)

  submit_all-ok :
      AcceptsAll
      → (source : SourceReference) (cs : List Candidate) (w : World R)
      → submit_all codec repository port source cs w
        ≡ (ok tt, record w { calls = w.calls ++ admissions source cs })
  unfolding submit_all
  submit_all-ok accepts source [] w = rw append-nil refl
  submit_all-ok accepts source (c ∷ cs) w =
      rw (accepts w.calls admit_action (admit_scope_for codec source c))
        (submit_all-ok accepts source cs _ ∙ rw append_assoc refl)

  -- what a dispatch that parses to this outcome returns
  abbrev pub counted : ParseOutcome → DispatchOutcome
  counted outcome = record {
    candidate_count = length outcome.candidates;
    was_already_processed = outcome.was_already_processed;
  }

  pub dispatch-ok :
      AcceptsAll
      → (action scope : Text) (source : SourceReference) (outcome : ParseOutcome) (w : World R)
      → text_eq action parse_action ≡ true
      → parse_input_scope codec scope ≡ ok source
      → (repository.parse_once parser_version source w.store).0 ≡ ok outcome
      → dispatch codec repository port action scope w ≡ (
        ok (counted outcome),
        record {
          calls = w.calls ++ admissions outcome.source outcome.candidates;
          store = (repository.parse_once parser_version source w.store).1;
        },
      )
  unfolding dispatch handle_parse submit_outcome
  dispatch-ok accepts action scope source outcome w known read parsed =
      let stored = (repository.parse_once parser_version source w.store).1 in
      rw (known, read)
        (>>=-ok (ask_parse_once repository parser_version source)
            (submit_outcome codec repository port) w (ap (map_err candidate) parsed)
          ∙ rw
              (submit_all-ok accepts outcome.source outcome.candidates
                (record w { store = stored }))
              refl)

  settle-ok :
      ConfirmsAll
      → (route_id : Text) (claim : WorkClaim) (outcome : DispatchOutcome) (w : World R)
      → settle codec repository port route_id claim (ok outcome) w ≡ (
        ok (completed route_id outcome),
        record w { calls = w.calls ++ completion port claim ∷ [] },
      )
  unfolding settle outcome_of
  settle-ok confirms route_id claim outcome w =
      let (answer, e) = confirms w.calls claim.claim_id claim.fencing_token in rw e refl

  perform-ok :
      ConfirmsAll
      → (route_id : Text) (claim : WorkClaim) (request : RoutedRequest) (outcome : DispatchOutcome)
        (w after : World R)
      → dispatch codec repository port request.action request.scope w ≡ (ok outcome, after)
      → perform codec repository port route_id claim request w ≡ (
        ok (completed route_id outcome),
        record after { calls = after.calls ++ completion port claim ∷ [] },
      )
  unfolding perform
  perform-ok confirms route_id claim request outcome w after dispatched =
      rw dispatched (settle-ok confirms route_id claim outcome after)

  -- If the kernel lists a route, grants the claim on it and has its request, which is a parse with
  -- a readable scope, if the repository parses its source, and if the kernel accepts every
  -- submission and confirms every completion, then the pass completes that route and counts all
  -- the candidates; it has asked for the routes, the claim and the request, submitted each
  -- candidate once and in order, and asked for the completion, and nothing else; and the
  -- repository is as the parse left it.
  pub work_once-ok :
      AcceptsAll
      → ConfirmsAll
      → (lease : ℤ) (w : World R) (route : EligibleRoute) (later : List EligibleRoute)
        (claim : WorkClaim) (request : RoutedRequest) (source : SourceReference)
        (outcome : ParseOutcome)
      → port.eligible_routes w.calls ≡ ok (route ∷ later)
      → port.propose_claim (polled w) route.route_id lease ≡ ok (claimed claim)
      → port.routed_request (proposed lease w route) route.route_id ≡ ok (found request)
      → text_eq request.action parse_action ≡ true
      → parse_input_scope codec request.scope ≡ ok source
      → (repository.parse_once parser_version source w.store).0 ≡ ok outcome
      → work_once codec repository port lease w ≡ (
        ok (completed route.route_id (counted outcome)),
        record {
          calls =
              (fetched lease w route ++ admissions outcome.source outcome.candidates)
              ++ completion port claim ∷ [];
          store = (repository.parse_once parser_version source w.store).1;
        },
      )
  unfolding work_once with_routes with_claim with_request
  work_once-ok accepts confirms lease w route later claim request source outcome polls proposes
        fetches known read parsed =
      let w3 = record w { calls = fetched lease w route } in
      rw (polls, proposes, fetches)
        (perform-ok confirms route.route_id claim request (counted outcome) w3 _
          (dispatch-ok accepts request.action request.scope source outcome w3 known read parsed))
