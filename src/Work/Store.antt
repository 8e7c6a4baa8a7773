-- ===== src/Work/Store.antt =====
-- What a pass makes of the repository's state.
use infernal_pf2e_parser_sim.Base.{ℤ, List}
use infernal_pf2e_parser_sim.Std.Text.{Text}
use infernal_pf2e_parser_sim.Domain.{ParserError, SourceReference}
use infernal_pf2e_parser_sim.Result.{Result}
use infernal_pf2e_parser_sim.Codec.{Codec}
use infernal_pf2e_parser_sim.Kernel.{KernelPort, CandidateRepository, World, Call}
use infernal_pf2e_parser_sim.Dispatch.{DispatchOutcome}
use infernal_pf2e_parser_sim.Dispatch.Scope.{parser_version}
use infernal_pf2e_parser_sim.Dispatch.Calls.{
  Dispatches, unknown, malformed, not_parsed, not_admitted, admitted,
}
use infernal_pf2e_parser_sim.Work.{WorkOutcome, work_once}
use infernal_pf2e_parser_sim.Work.Passes.{
  Passes, not_polled, idle, not_proposed, not_granted, not_fetched, no_request, worked,
}
use infernal_pf2e_parser_sim.Work.Protocol.{work_once-Passes}

module _ (codec : Codec) {R : Type 0} (repository : CandidateRepository R) (port : KernelPort)
    (Holds : R → Type 0)
    (parses : (source : SourceReference) (r : R)
      → Holds r
      → Holds (repository.parse_once parser_version source r).1) where
  Dispatches-Holds :
      {action scope : Text} {w : World R} {r : Result ParserError DispatchOutcome} {st : R}
      {calls : List Call}
      → Holds w.store
      → Dispatches codec port repository action scope w r st calls
      → Holds st
  Dispatches-Holds h (unknown _) = h
  Dispatches-Holds h (malformed _ _) = h
  Dispatches-Holds {w = w} h (not_parsed {source} _ _ _) = parses source w.store h
  Dispatches-Holds {w = w} h (not_admitted {source} _ _ _ _) = parses source w.store h
  Dispatches-Holds {w = w} h (admitted {source} _ _ _ _) = parses source w.store h

  Passes-Holds :
      {lease : ℤ} {w : World R} {r : Result ParserError WorkOutcome} {st : R} {calls : List Call}
      → Holds w.store
      → Passes codec repository port lease w r st calls
      → Holds st
  Passes-Holds h (not_polled _) = h
  Passes-Holds h (idle _) = h
  Passes-Holds h (not_proposed _ _) = h
  Passes-Holds h (not_granted _ _ _) = h
  Passes-Holds h (not_fetched _ _ _) = h
  Passes-Holds h (no_request _ _ _) = h
  Passes-Holds h (worked _ _ _ d _) = Dispatches-Holds h d

  -- What every parse keeps of the repository's state, a pass keeps.
  pub work_once-Holds :
      (lease : ℤ) (w : World R)
      → Holds w.store
      → Holds (work_once codec repository port lease w).1.store
  work_once-Holds lease w h = Passes-Holds h (work_once-Passes codec repository port lease w).2
