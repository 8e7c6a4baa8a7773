-- ===== src/Domain.antt =====
-- src/domain.rs: the kinds of rule, the parsed candidates and the errors of the repository, and
-- src/error.rs: the errors of the service.
pub mod Names
pub mod Display
pub mod Printed
use infernal_pf2e_parser_sim.Base.{ℕ, ℤ, Option, List, Bool, if◌then◌else◌}
use infernal_pf2e_parser_sim.Std.Text.{Text, codes, text_eq}

pub data RuleType : Type 0 where
  action reaction free_action feat condition unclassified : RuleType

-- `RuleType::as_str`, which `Display` writes too
unfoldable pub as_str : RuleType → Text
as_str action = codes "action"
as_str reaction = codes "reaction"
as_str free_action = codes "free-action"
as_str feat = codes "feat"
as_str condition = codes "condition"
as_str unclassified = codes "unclassified"

-- `RuleType::parse`
unfoldable pub parse_rule_type : Text → RuleType
unfolding text_eq
parse_rule_type value =
    if text_eq value (codes "action")
    then action
    else if text_eq value (codes "reaction")
    then reaction
    else if text_eq value (codes "free-action")
    then free_action
    else if text_eq value (codes "feat")
    then feat
    else if text_eq value (codes "condition")
    then condition
    else unclassified

-- A `Uuid` of the uuid crate, by the canonical text that its `Display` writes: two are equal
-- exactly when those texts are.
pub record Uuid : Type 0 where
  pub canonical : Text

pub record SourceReference : Type 0 where
  pub document_id : Uuid
  pub document_version : ℤ
  pub content_digest : List ℕ
  pub location : Text
  pub source_text : Text

-- `confidence` is in hundredths: the source's constants and all that it makes of them are whole
-- hundredths between 0 and 1.
pub record Candidate : Type 0 where
  pub candidate_id : Uuid
  pub rule_type : RuleType
  pub name : Option Text
  pub traits : List Text
  pub trigger : Option Text
  pub requirements : List Text
  pub effect : Option Text
  pub prerequisites : List Text
  pub references : List Text
  pub source_text : Text
  pub inferences : List Text
  pub confidence : ℕ

pub record ParseOutcome : Type 0 where
  pub source : SourceReference
  pub candidates : List Candidate
  pub was_already_processed : Bool

pub data CandidateError : Type 0 where
  empty_source_text source_digest_mismatch repository : CandidateError

pub data DatabaseError : Type 0 where
  missing_environment empty_url invalid_postgres_config : DatabaseError
  pool query : Text → DatabaseError

-- `ClientError` and `std::io::Error` belong to other libraries, and the service does nothing with
-- them but print them: they are kept by the text that they print, so that two of them that print
-- the same are one value here.
pub data ParserError : Type 0 where
  missing_env : Text → ParserError
  invalid_service_id : ParserError
  client : Text → ParserError
  unexpected_status : ℕ → ParserError
  malformed_response : Text → ParserError
  ca_certificate_unreadable : Text → ParserError
  enrollment_token_unreadable : Text → ParserError
  invalid_enrollment_challenge : ParserError
  malformed_scope : Text → ParserError
  unknown_action : Text → ParserError
  admission_not_accepted : ℕ → ParserError
  database : DatabaseError → ParserError
  candidate : CandidateError → ParserError
