-- ===== src/Work/Published.antt =====
-- A whole pass over the repository in PostgreSQL: from the listed route to the submitted admissions
-- and the stored candidates.
use infernal_pf2e_parser_sim.Base.{
  ℕ, ℤ, true, false, List, [], ◌∷◌, ◌++◌, ◌≡◌, ap, arith, length, is_empty, ◌∙◌,
}
use mathlib.Core.List.{Permᴰ}
use infernal_pf2e_parser_sim.Std.Text.{text_eq, trim}
use infernal_pf2e_parser_sim.Std.Unicode.{Unicode}
use infernal_pf2e_parser_sim.Domain.{ParserError, SourceReference, Candidate}
use infernal_pf2e_parser_sim.Result.{Result, ok}
use infernal_pf2e_parser_sim.Codec.{Codec}
use infernal_pf2e_parser_sim.Wire.{WorkClaim, claimed, EligibleRoute, RoutedRequest, found}
use infernal_pf2e_parser_sim.Kernel.{KernelPort, World, Call}
use infernal_pf2e_parser_sim.Repository.{Engine, Session, postgres, key_of}
use infernal_pf2e_parser_sim.Repository.Schema.{ListCodec, CandidateRow, Tables, together, has_run}
use infernal_pf2e_parser_sim.Repository.Settled.{idle, Serves}
use infernal_pf2e_parser_sim.Repository.Stored.{holding}
use infernal_pf2e_parser_sim.Repository.Quiet.{IsQuiet, HasOneDigest, AreFresh}
use infernal_pf2e_parser_sim.Repository.Success.{
  parse_once-stores, parse_once-recalls, run_at, parsed_at,
}
use infernal_pf2e_parser_sim.Dispatch.{parse_action}
use infernal_pf2e_parser_sim.Dispatch.Scope.{parse_input_scope, parser_version}
use infernal_pf2e_parser_sim.Dispatch.Scope.Typed.{parse_input_scope-Reads}
use infernal_pf2e_parser_sim.Work.{WorkOutcome, completed, work_once}
use infernal_pf2e_parser_sim.Work.Passes.{polled, proposed, fetched, completion}
use infernal_pf2e_parser_sim.Work.Success.{AcceptsAll, ConfirmsAll, admissions, work_once-ok}

module _ (engine : Engine) (quiet : IsQuiet engine) (codec : Codec) (lists : ListCodec)
    ⦃u : Unicode⦄ (port : KernelPort) where
  module _ (lease : ℤ) (h : List Call) (t : Tables) (n : ℕ) (route : EligibleRoute)
      (claim : WorkClaim) (source : SourceReference) where
    abbrev from_here : World Session
    from_here = record { calls = h; store = idle t n }

    abbrev fresh_ones : List Candidate
    fresh_ones = parsed_at engine quiet codec lists parser_version source n

    -- the calls of a pass that submits these candidates, behind those before it
    abbrev pub submitting : List Candidate → List Call
    submitting cs =
        (fetched lease from_here route
          ++ admissions codec (postgres engine codec lists) port source cs)
        ++ completion port claim ∷ []

    abbrev whole_pass : Result ParserError WorkOutcome × World Session
    whole_pass = work_once codec (postgres engine codec lists) port lease from_here

    -- The kernel hears the service out, and the source can be parsed.
    module _ (accepts : AcceptsAll codec (postgres engine codec lists) port)
        (confirms : ConfirmsAll codec (postgres engine codec lists) port)
        (later : List EligibleRoute) (request : RoutedRequest)
        (polls : port.eligible_routes h ≡ ok (route ∷ later))
        (proposes : port.propose_claim (polled from_here) route.route_id lease ≡ ok (claimed claim))
        (fetches : port.routed_request (proposed lease from_here route) route.route_id
          ≡ ok (found request))
        (known : text_eq request.action parse_action ≡ true)
        (read : parse_input_scope codec request.scope ≡ ok source)
        (present : is_empty (trim source.source_text) ≡ false)
        (one : HasOneDigest source t.runs) where
      -- Let the database work and have no other users, and let the kernel list a route, grant the
      -- claim on it and have its request, which is a parse with a readable scope, accept every
      -- submission and confirm every completion. Let the source's text not be blank, its run not
      -- be stored, every stored run of its version have its digest, and the identifiers that are
      -- drawn be new and different. Then the pass completes the route and counts the candidates of
      -- the source's text; it has asked for the routes, the claim and the request, submitted the
      -- admission of each of these candidates once and in order, and asked for the completion, and
      -- nothing else; and exactly the run and these candidates are added to the tables.
      pub work_once-publishes :
          has_run (key_of parser_version source) t.runs ≡ false
          → AreFresh codec lists (key_of parser_version source) t fresh_ones
          → (whole_pass.0
              ≡ ok (
                  completed route.route_id (record {
                    candidate_count = length fresh_ones;
                    was_already_processed = false;
                  })))
            × (whole_pass.1.calls ≡ submitting fresh_ones)
            × (whole_pass.1.store.committed
                ≡ together t (
                    holding codec lists
                      (key_of parser_version source)
                      (run_at engine quiet codec lists parser_version source n)
                      fresh_ones))
      work_once-publishes new fresh =
          let typed = parse_input_scope-Reads codec request.scope source read in
          let (returned, stored) =
            parse_once-stores engine quiet codec lists parser_version source t n present
              (ground (arith, typed.digest_size)) one new fresh in
          let whole =
            work_once-ok codec (postgres engine codec lists) port accepts confirms lease from_here
              route later claim request source _ polls proposes fetches known read returned in
          (
            ap (λ x. x.0) whole,
            ap (λ x. x.1.calls) whole,
            ap (λ x. x.1.store.committed) whole ∙ stored,
          )

      -- Let the database work, have no other users and return the selected rows in some order, and
      -- let the kernel list a route, grant the claim on it and have its request, which is a parse
      -- with a readable scope, accept every submission and confirm every completion. Let the
      -- source's text not be blank, every stored run of its version have its digest, and the
      -- tables serve its run with some candidates, as they do behind a parse whose pass was then
      -- cut short. Then the pass completes the route as already processed and counts these
      -- candidates; it has asked for the routes, the claim and the request, submitted the admission
      -- of each of these candidates once, in some order, and asked for the completion, and nothing
      -- else; and the tables stay as they are.
      pub work_once-republishes :
          ((n : ℕ) (rows : List CandidateRow) → Permᴰ (engine.arrange n rows) rows)
          → (cs : List Candidate) → Serves codec lists t (key_of parser_version source) cs
          → (ds : List Candidate) × Permᴰ ds cs
            × (whole_pass.0
                ≡ ok (
                    completed route.route_id
                      (record { candidate_count = length ds; was_already_processed = true })))
            × (whole_pass.1.calls ≡ submitting ds)
            × (whole_pass.1.store.committed ≡ t)
      work_once-republishes arranged cs served =
          let (ds, returned, kept, same) =
            parse_once-recalls engine quiet codec lists parser_version source arranged t n cs
              present one served in
          let whole =
            work_once-ok codec (postgres engine codec lists) port accepts confirms lease from_here
              route later claim request source _ polls proposes fetches known read returned in
          (
            ds,
            same,
            ap (λ x. x.0) whole,
            ap (λ x. x.1.calls) whole,
            ap (λ x. x.1.store.committed) whole ∙ kept,
          )
