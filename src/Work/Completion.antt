-- ===== src/Work/Completion.antt =====
-- When a pass of `work_once` may complete its claim.
use infernal_pf2e_parser_sim.Base.{
  ℤ, List, ◌∷◌, ◌++◌, ◌≡◌, refl, sym, subst, false, ◌⊎◌, inl, inr, All, All-append,
}
use infernal_pf2e_parser_sim.Std.Text.{Text, text_eq}
use infernal_pf2e_parser_sim.Domain.{ParserError, SourceReference, Candidate, ParseOutcome}
use infernal_pf2e_parser_sim.Result.{Result, ok, err, err-injective}
use infernal_pf2e_parser_sim.Codec.{Codec}
use infernal_pf2e_parser_sim.Wire.{WorkClaim, claimed, EligibleRoute, RoutedRequest, found}
use infernal_pf2e_parser_sim.Kernel.{KernelPort, CandidateRepository, World, Call, complete_claim}
use infernal_pf2e_parser_sim.Dispatch.{DispatchOutcome, parse_action}
use infernal_pf2e_parser_sim.Dispatch.Scope.{parse_input_scope}
use infernal_pf2e_parser_sim.Dispatch.Calls.{
  Submits, none_left, refused, accepted, Dispatches, unknown, malformed, not_parsed, not_admitted,
  admitted, parse_at,
}
use infernal_pf2e_parser_sim.Dispatch.Scope.Errors.{
  OnlyMalformed, value, unreadable, parse_input_scope-OnlyMalformed,
}
use infernal_pf2e_parser_sim.Work.{WorkOutcome, work_once}
use infernal_pf2e_parser_sim.Work.Passes.{
  IsUnknownAction, completion, Settles, done, too_late, unsure, closed, not_closed, abandoned,
  polled, proposed, fetched, Passes, not_polled, idle, not_proposed, not_granted, not_fetched,
  no_request, worked,
}
use infernal_pf2e_parser_sim.Work.Protocol.{work_once-Passes}

module _ (codec : Codec) {R : Type 0} (repository : CandidateRepository R) (port : KernelPort)
    (lease : ℤ) where
  -- A request is finished with: its action is not the parser's, or the repository parsed its
  -- source and the kernel accepted the admission of every candidate.
  abbrev pub IsFinished : World R → EligibleRoute → RoutedRequest → Type 0
  IsFinished w route request =
      (text_eq request.action parse_action ≡ false)
      ⊎ ((source : SourceReference) × (outcome : ParseOutcome) × (calls : List Call)
          × (parse_input_scope codec request.scope ≡ ok source)
          × ((parse_at codec port repository source w.store).0 ≡ ok outcome)
          × Submits codec port outcome.source (fetched lease w route) outcome.candidates (ok tt)
              calls)

  -- A completion is of a claim that this pass was granted on the oldest route, with that claim's
  -- token, behind a finished request. Other calls need no justification.
  abbrev pub IsJustified : World R → Call → Type 0
  IsJustified w (complete_claim claim_id token) =
      (route : EligibleRoute) × (later : List EligibleRoute) × (claim : WorkClaim)
      × (request : RoutedRequest) × (port.eligible_routes w.calls ≡ ok (route ∷ later))
      × (port.propose_claim (polled w) route.route_id lease ≡ ok (claimed claim))
      × (port.routed_request (proposed lease w route) route.route_id ≡ ok (found request))
      × (claim_id ≡ claim.claim_id)
      × (token ≡ claim.fencing_token)
      × IsFinished w route request
  IsJustified w _ = Unit

  Submits-IsJustified :
      (w : World R) {source : SourceReference} {h : List Call} {cs : List Candidate}
      {r : Result ParserError (Unit {0})} (calls : List Call)
      → Submits codec port source h cs r calls
      → All (IsJustified w) calls
  Submits-IsJustified w _ none_left = tt
  Submits-IsJustified w _ (refused _) = (tt, tt)
  Submits-IsJustified w _ (accepted _ rest) = (tt, Submits-IsJustified w _ rest)

  -- a result of `dispatch` that lets the pass complete the claim
  abbrev IsDone : Result ParserError DispatchOutcome → Type 0
  IsDone (ok _) = Unit
  IsDone (err e) = IsUnknownAction e

  malformed-IsUnknownAction :
      {A : Type 0} {e : ParserError} (m : Result ParserError A)
      → OnlyMalformed m
      → m ≡ err e
      → ¬ IsUnknownAction e
  malformed-IsUnknownAction _ value h = cc
  malformed-IsUnknownAction _ unreadable h = λ u. subst IsUnknownAction (sym (err-injective h)) u

  -- `submit_request` fails with other errors than `unknown_action`.
  abbrev pub NeverUnknown : Type 0
  NeverUnknown =
      (h : List Call) (action scope : Text) (e : ParserError)
      → port.submit_request h action scope ≡ err e
      → ¬ IsUnknownAction e

  module _ (never : NeverUnknown) (w : World R) where
    Submits-IsUnknownAction :
        {source : SourceReference} {h : List Call} {cs : List Candidate} {e : ParserError}
        (calls : List Call) (r : Result ParserError (Unit {0}))
        → Submits codec port source h cs r calls
        → r ≡ err e
        → ¬ IsUnknownAction e
    Submits-IsUnknownAction _ _ none_left h = cc
    Submits-IsUnknownAction _ _ (refused answer) h =
        λ u. never _ _ _ _ answer (subst IsUnknownAction (sym (err-injective h)) u)
    Submits-IsUnknownAction _ _ (accepted _ rest) h = Submits-IsUnknownAction _ _ rest h

    dispatches-IsFinished :
        (route : EligibleRoute) (request : RoutedRequest) {r : Result ParserError DispatchOutcome}
        {st : R} (calls : List Call)
        → Dispatches codec port repository request.action request.scope
            (record w { calls = fetched lease w route })
            r
            st
            calls
        → IsDone r
        → IsFinished w route request
    dispatches-IsFinished _ _ _ (unknown other) _ = inl other
    dispatches-IsFinished _ _ _ (malformed _ read) u =
        absurd (malformed-IsUnknownAction _ (parse_input_scope-OnlyMalformed codec _) read u)
    dispatches-IsFinished _ _ _ (not_parsed _ _ _) u = absurd u
    dispatches-IsFinished _ _ _ (not_admitted _ _ _ sub) u =
        absurd (Submits-IsUnknownAction _ _ sub refl u)
    dispatches-IsFinished _ _ _ (admitted _ read parsed sub) _ = inr (_, _, _, read, parsed, sub)

    -- the conditions of a granted claim, with what lets the pass complete it
    Settles-IsJustified :
        (route : EligibleRoute) (claim : WorkClaim) {h : List Call}
        {r : Result ParserError DispatchOutcome} {r' : Result ParserError WorkOutcome}
        (calls : List Call)
        → (IsDone r → IsJustified w (completion port claim))
        → Settles port route.route_id claim h r r' calls
        → All (IsJustified w) calls
    Settles-IsJustified _ _ _ justified (done _ _) = (justified tt, tt)
    Settles-IsJustified _ _ _ justified (too_late _ _) = (justified tt, tt)
    Settles-IsJustified _ _ _ justified (unsure _) = (justified tt, tt)
    Settles-IsJustified _ _ _ justified (closed _) = (justified tt, tt)
    Settles-IsJustified _ _ _ justified (not_closed _) = (justified tt, tt)
    Settles-IsJustified _ _ _ justified (abandoned _) = tt

    dispatches-IsJustified :
        {action scope : Text} {h : List Call} {r : Result ParserError DispatchOutcome} {st : R}
        (calls : List Call)
        → Dispatches codec port repository action scope (record w { calls = h }) r st calls
        → All (IsJustified w) calls
    dispatches-IsJustified _ (unknown _) = tt
    dispatches-IsJustified _ (malformed _ _) = tt
    dispatches-IsJustified _ (not_parsed _ _ _) = tt
    dispatches-IsJustified _ (not_admitted _ _ _ sub) = Submits-IsJustified w _ sub
    dispatches-IsJustified _ (admitted _ _ _ sub) = Submits-IsJustified w _ sub

    Passes-IsJustified :
        {r : Result ParserError WorkOutcome} {st : R} (calls : List Call)
        → Passes codec repository port lease w r st calls
        → All (IsJustified w) calls
    Passes-IsJustified _ (not_polled _) = (tt, tt)
    Passes-IsJustified _ (idle _) = (tt, tt)
    Passes-IsJustified _ (not_proposed _ _) = (tt, (tt, tt))
    Passes-IsJustified _ (not_granted _ _ _) = (tt, (tt, tt))
    Passes-IsJustified _ (not_fetched _ _ _) = (tt, (tt, (tt, tt)))
    Passes-IsJustified _ (no_request _ _ _) = (tt, (tt, (tt, tt)))
    Passes-IsJustified _
          (worked {route} {later} {claim} {request} polls proposes fetches dispatches settles) =
        let admitted_calls = dispatches-IsJustified _ dispatches in
        let completed_calls =
          Settles-IsJustified route claim _
            (λ done. (
              route,
              later,
              claim,
              request,
              polls,
              proposes,
              fetches,
              refl,
              refl,
              dispatches-IsFinished route request _ dispatches done,
            ))
            settles in
        (tt, (tt, (tt, All-append (IsJustified w) _ _ admitted_calls completed_calls)))

    -- If `submit_request` never fails with `unknown_action`, then every completion that a pass of
    -- `work_once` asks for is of the claim it was granted on the oldest route, carries that
    -- claim's fencing token, and follows the acceptance of the admission of every candidate of the
    -- repository's parse, or an action that is not the parser's. So a pass that was refused an
    -- admission does not complete its claim.
    pub work_once-IsJustified :
        (calls : List Call) × ((work_once codec repository port lease w).1.calls ≡ w.calls ++ calls)
        × All (IsJustified w) calls
    work_once-IsJustified =
        let (calls, made, passes) = work_once-Passes codec repository port lease w in
        (calls, made, Passes-IsJustified calls passes)
