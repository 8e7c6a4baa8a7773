-- ===== src/Dispatch.antt =====
-- `dispatch` of src/dispatch.rs: a routed `pf2e.parse` request to candidates, and each candidate
-- to a `pf2e.rules.admit` request of the service's own.
pub mod Scope
pub mod Calls
pub mod Came
pub mod Retried
use infernal_pf2e_parser_sim.Base.{ℕ, Bool, List, [], ◌∷◌, if◌then◌else◌, length}
use infernal_pf2e_parser_sim.Std.Text.{Text, codes, text_eq}
use infernal_pf2e_parser_sim.Domain.{unknown_action, SourceReference, Candidate, ParseOutcome}
use infernal_pf2e_parser_sim.Codec.{Codec}
use infernal_pf2e_parser_sim.Kernel.{
  KernelPort, CandidateRepository, Effect, ask_parse_once, ask_submit_request,
}
use infernal_pf2e_parser_sim.Stateful.{pure, fail, ◌>>=◌, ◌>>◌, lift}
use Scope.{parse_input_scope, admit_scope_for, parser_version}

abbrev pub parse_action : Text
parse_action = codes "pf2e.parse"

abbrev pub admit_action : Text
admit_action = codes "pf2e.rules.admit"

pub record DispatchOutcome : Type 0 where
  pub candidate_count : ℕ
  pub was_already_processed : Bool

module _ (codec : Codec) {R : Type 0} (repository : CandidateRepository R) (port : KernelPort) where
  -- the loop over the candidates; the first error ends it
  unfoldable pub submit_all : SourceReference → List Candidate → Effect R (Unit {0})
  submit_all source [] = pure tt
  submit_all source (candidate ∷ rest) = do
    ask_submit_request port admit_action (admit_scope_for codec source candidate)
    submit_all source rest

  -- the submissions and the outcome of a parse
  unfoldable pub submit_outcome : ParseOutcome → Effect R DispatchOutcome
  submit_outcome outcome = do
    submit_all outcome.source outcome.candidates
    pure (record {
      candidate_count = length outcome.candidates;
      was_already_processed = outcome.was_already_processed;
    })

  -- the arm of `PARSE_ACTION`
  unfoldable pub handle_parse : Text → Effect R DispatchOutcome
  handle_parse scope = do
    source ← lift (parse_input_scope codec scope)
    outcome ← ask_parse_once repository parser_version source
    submit_outcome outcome

  unfoldable pub dispatch : Text → Text → Effect R DispatchOutcome
  dispatch action scope =
      if text_eq action parse_action then handle_parse scope else fail (unknown_action action)
