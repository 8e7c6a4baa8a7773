-- ===== src/Work/Protocol.antt =====
-- The steps of `work_once`, one by one, against the relation `Passes`.
use infernal_pf2e_parser_sim.Base.{
  ℤ, List, [], ◌∷◌, ◌++◌, ◌≡◌, refl, sym, ◌∙◌, ap, subst, append-nil, append_assoc, inl, inr,
}
use infernal_pf2e_parser_sim.Std.Text.{Text}
use infernal_pf2e_parser_sim.Domain.{ParserError}
use infernal_pf2e_parser_sim.Result.{Result, ok, err, Result-cases}
use infernal_pf2e_parser_sim.Codec.{Codec}
use infernal_pf2e_parser_sim.Wire.{
  WorkClaim, ClaimOutcome, claimed, already_claimed, route_not_found, EligibleRoute, RoutedRequest,
  RoutedRequestOutcome, found, missing, CompleteOutcome, fenced, not_found,
}
use infernal_pf2e_parser_sim.Kernel.{
  KernelPort, CandidateRepository, World, Call, eligible_routes, propose_claim, routed_request,
  ask_eligible_routes, ask_propose_claim, ask_routed_request,
}
use infernal_pf2e_parser_sim.Stateful.{>>=-ok, >>=-err}
use infernal_pf2e_parser_sim.Dispatch.{DispatchOutcome, dispatch}
use infernal_pf2e_parser_sim.Dispatch.Calls.{Explained, dispatch-Explained}
use infernal_pf2e_parser_sim.Work.{
  outcome_of, settle, perform, with_request, with_claim, with_routes, work_once,
}
use infernal_pf2e_parser_sim.Work.Passes.{
  completion, answer_to_completion, Settles, done, too_late, unsure, closed, not_closed, abandoned,
  polled, proposed, fetched, Passes, PassEnds, not_polled, idle, not_proposed, not_granted,
  not_fetched, no_request, worked,
}

module _ (codec : Codec) {R : Type 0} (repository : CandidateRepository R) (port : KernelPort)
    (lease : ℤ) where
  -- a dispatch's result that is settled from `w`
  abbrev SettleEnds : Text → WorkClaim → Result ParserError DispatchOutcome → World R → Type 0
  SettleEnds route_id claim r w =
      (calls : List Call) × ((settle codec repository port route_id claim r w).1
        ≡ record w { calls = w.calls ++ calls })
      × Settles port route_id claim w.calls r (settle codec repository port route_id claim r w).0
          calls

  confirm-Settles :
      (route_id : Text) (claim : WorkClaim) (outcome : DispatchOutcome) (h : List Call)
      (answer : CompleteOutcome)
      → answer_to_completion port h claim ≡ ok answer
      → Settles port route_id claim h
          (ok outcome)
          (ok (outcome_of codec repository port route_id claim outcome answer))
          (completion port claim ∷ [])
  unfolding outcome_of
  confirm-Settles route_id claim outcome h (CompleteOutcome.completed c) e = done e tt
  confirm-Settles route_id claim outcome h fenced e = too_late e (λ h. h)
  confirm-Settles route_id claim outcome h not_found e = too_late e (λ h. h)

  settle-Settles :
      (route_id : Text) (claim : WorkClaim) (r : Result ParserError DispatchOutcome) (w : World R)
      → SettleEnds route_id claim r w
  unfolding settle
  settle-Settles route_id claim (ok outcome) w =
      elim (Result-cases (answer_to_completion port w.calls claim)) [
        | inl (answer, e) ↦ (
          completion port claim ∷ [],
          rw e refl,
          rw e (confirm-Settles route_id claim outcome w.calls answer e),
        )
        | inr (why, e) ↦ (completion port claim ∷ [], rw e refl, rw e (unsure e))
      ]
  settle-Settles route_id claim (err (ParserError.unknown_action action)) w =
      elim (Result-cases (answer_to_completion port w.calls claim)) [
        | inl (answer, e) ↦ (completion port claim ∷ [], rw e refl, rw e (closed e))
        | inr (why, e) ↦ (completion port claim ∷ [], rw e refl, rw e (not_closed e))
      ]
  settle-Settles route_id claim (err (ParserError.missing_env _)) w =
      ([], rw append-nil refl, abandoned (λ h. h))
  settle-Settles route_id claim (err ParserError.invalid_service_id) w =
      ([], rw append-nil refl, abandoned (λ h. h))
  settle-Settles route_id claim (err (ParserError.client _)) w =
      ([], rw append-nil refl, abandoned (λ h. h))
  settle-Settles route_id claim (err (ParserError.unexpected_status _)) w =
      ([], rw append-nil refl, abandoned (λ h. h))
  settle-Settles route_id claim (err (ParserError.malformed_response _)) w =
      ([], rw append-nil refl, abandoned (λ h. h))
  settle-Settles route_id claim (err (ParserError.ca_certificate_unreadable _)) w =
      ([], rw append-nil refl, abandoned (λ h. h))
  settle-Settles route_id claim (err (ParserError.enrollment_token_unreadable _)) w =
      ([], rw append-nil refl, abandoned (λ h. h))
  settle-Settles route_id claim (err ParserError.invalid_enrollment_challenge) w =
      ([], rw append-nil refl, abandoned (λ h. h))
  settle-Settles route_id claim (err (ParserError.malformed_scope _)) w =
      ([], rw append-nil refl, abandoned (λ h. h))
  settle-Settles route_id claim (err (ParserError.admission_not_accepted _)) w =
      ([], rw append-nil refl, abandoned (λ h. h))
  settle-Settles route_id claim (err (ParserError.database _)) w =
      ([], rw append-nil refl, abandoned (λ h. h))
  settle-Settles route_id claim (err (ParserError.candidate _)) w =
      ([], rw append-nil refl, abandoned (λ h. h))

  calls_from_poll :
      (w : World R) (route : EligibleRoute) {h : List Call} (admissions completions : List Call)
      → h ≡ fetched lease w route ++ admissions
      → h ++ completions
        ≡ w.calls
          ++ (eligible_routes
              ∷ propose_claim route.route_id lease
              ∷ routed_request route.route_id
              ∷ (admissions ++ completions))
  calls_from_poll w route _ _ kept =
      rw (kept, append_assoc, append_assoc, append_assoc, append_assoc) refl

  module _ (w : World R) {route : EligibleRoute} {later : List EligibleRoute} where
    module _ (polls : port.eligible_routes w.calls ≡ ok (route ∷ later)) where
      module _ {claim : WorkClaim}
          (proposes : port.propose_claim (polled w) route.route_id lease ≡ ok (claimed claim)) where
        module _ (request : RoutedRequest)
            (fetches : port.routed_request (proposed lease w route) route.route_id
              ≡ ok (found request)) where
          settled-Passes :
              (r : Result ParserError DispatchOutcome) (w' : World R)
              → Explained codec port repository request.action request.scope
                  (record w { calls = fetched lease w route })
                  (r, w')
              → PassEnds codec repository port lease w
                  (settle codec repository port route.route_id claim r w')
          settled-Passes r w' (admissions, kept, dispatched) =
              let (completions, final, settled) = settle-Settles route.route_id claim r w' in
              let ended = settle codec repository port route.route_id claim r w' in
              let calls =
                eligible_routes
                ∷ propose_claim route.route_id lease
                ∷ routed_request route.route_id
                ∷ (admissions ++ completions) in
              (
                calls,
                ap (λ (v : World R). v.calls) final
                    ∙ calls_from_poll w route admissions completions kept,
                subst (λ (st : R). Passes codec repository port lease w ended.0 st calls)
                    (sym (ap (λ (v : World R). v.store) final))
                    (worked polls proposes fetches dispatched (
                      subst
                        (λ (h : List Call).
                          Settles port route.route_id claim h r ended.0 completions)
                        kept settled)),
              )

          perform-Passes : PassEnds codec repository port lease w (
              perform codec repository port route.route_id claim request
                (record w { calls = fetched lease w route }))
          unfolding perform
          perform-Passes =
              let w3 = record w { calls = fetched lease w route } in
              settled-Passes (dispatch codec repository port request.action request.scope w3).0
                (dispatch codec repository port request.action request.scope w3).1
                (dispatch-Explained codec port repository request.action request.scope w3)

        fetched-Passes :
            (answer : RoutedRequestOutcome)
            → port.routed_request (proposed lease w route) route.route_id ≡ ok answer
            → PassEnds codec repository port lease w (
                with_request codec repository port route.route_id claim answer
                  (record w { calls = fetched lease w route }))
        unfolding with_request
        fetched-Passes (found request) e = perform-Passes request e
        fetched-Passes missing e =
            (_, rw (append_assoc, append_assoc) refl, no_request polls proposes e)

        claimed-Passes : PassEnds codec repository port lease w (
            with_claim codec repository port route.route_id
              (claimed claim)
              (record w { calls = proposed lease w route }))
        unfolding with_claim
        claimed-Passes =
            let w2 = record w { calls = proposed lease w route } in
            let ask = ask_routed_request port route.route_id in
            let then_do = with_request codec repository port route.route_id claim in
            elim (Result-cases (port.routed_request (proposed lease w route) route.route_id)) [
              | inl (answer, e) ↦ rw (>>=-ok ask then_do w2 e) (fetched-Passes answer e)
              | inr (why, e) ↦
                  rw (>>=-err ask then_do w2 e)
                    (_, rw (append_assoc, append_assoc) refl, not_fetched polls proposes e)
            ]

      answered-Passes :
          (answer : ClaimOutcome)
          → port.propose_claim (polled w) route.route_id lease ≡ ok answer
          → PassEnds codec repository port lease w (
              with_claim codec repository port route.route_id answer
                (record w { calls = proposed lease w route }))
      unfolding with_claim
      answered-Passes (claimed claim) e = claimed-Passes e
      answered-Passes already_claimed e = (_, rw append_assoc refl, not_granted polls e (λ h. h))
      answered-Passes route_not_found e = (_, rw append_assoc refl, not_granted polls e (λ h. h))

  routes-Passes :
      (w : World R) (routes : List EligibleRoute)
      → port.eligible_routes w.calls ≡ ok routes
      → PassEnds codec repository port lease w
          (with_routes codec repository port lease routes (record w { calls = polled w }))
  unfolding with_routes
  routes-Passes w [] e = (_, refl, idle e)
  routes-Passes w (route ∷ later) polls =
      let w1 = record w { calls = polled w } in
      let ask = ask_propose_claim port route.route_id lease in
      let then_do = with_claim codec repository port route.route_id in
      elim (Result-cases (port.propose_claim (polled w) route.route_id lease)) [
        | inl (answer, e) ↦ rw (>>=-ok ask then_do w1 e) (answered-Passes w polls answer e)
        | inr (why, e) ↦
            rw (>>=-err ask then_do w1 e) (_, rw append_assoc refl, not_proposed polls e)
      ]

  -- Whatever the kernel and the repository answer, a pass of `work_once` ends in one of the ways
  -- of `Passes`, with exactly the calls listed there: it polls, claims the oldest route, fetches
  -- its request and dispatches it, stops at the first of these that fails, and completes the claim
  -- with its fencing token when every candidate was admitted or the action is unknown, but makes
  -- no further call after any other failed dispatch.
  pub work_once-Passes :
      (w : World R)
      → PassEnds codec repository port lease w (work_once codec repository port lease w)
  unfolding work_once
  work_once-Passes w =
      let then_do = with_routes codec repository port lease in
      elim (Result-cases (port.eligible_routes w.calls)) [
        | inl (routes, e) ↦
            rw (>>=-ok (ask_eligible_routes port) then_do w e) (routes-Passes w routes e)
        | inr (why, e) ↦ rw (>>=-err (ask_eligible_routes port) then_do w e) (_, refl, not_polled e)
      ]
