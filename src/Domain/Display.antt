-- ===== src/Domain/Display.antt =====
-- The texts of the errors: `Display` of src/error.rs, src/domain.rs and src/database.rs.
use infernal_pf2e_parser_sim.Base.{◌++◌}
use infernal_pf2e_parser_sim.Std.Text.{Text, codes}
use infernal_pf2e_parser_sim.Std.Decimal.{display_nat}
use infernal_pf2e_parser_sim.Domain.{
  CandidateError, empty_source_text, source_digest_mismatch, repository, DatabaseError,
  missing_environment, empty_url, invalid_postgres_config, pool, query, ParserError, missing_env,
  invalid_service_id, client, unexpected_status, malformed_response, ca_certificate_unreadable,
  enrollment_token_unreadable, invalid_enrollment_challenge, malformed_scope, unknown_action,
  admission_not_accepted, database, candidate,
}

unfoldable pub display_candidate : CandidateError → Text
display_candidate empty_source_text = codes "source text must not be empty"
display_candidate source_digest_mismatch =
    codes "this document version was already parsed under a different content digest"
display_candidate repository = codes "candidate repository operation failed"

unfoldable pub display_database : DatabaseError → Text
display_database missing_environment = codes "PF2E_PARSER_DATABASE_URL is not set"
display_database empty_url = codes "PF2E_PARSER_DATABASE_URL is empty"
display_database invalid_postgres_config =
    codes "PF2E_PARSER_DATABASE_URL is not a valid postgres URL"
display_database (pool message) = codes "database pool error: " ++ message
display_database (query message) = codes "database query failed: " ++ message

unfoldable pub display : ParserError → Text
display (missing_env name) = codes "missing required environment variable " ++ name
display invalid_service_id = codes "service ID must be a UUID"
display (client error) = codes "kernel client error: " ++ error
display (unexpected_status status) =
    codes "kernel returned unexpected status " ++ display_nat status
display (malformed_response message) = codes "malformed kernel response: " ++ message
display (ca_certificate_unreadable error) = codes "could not read KERNEL_CA_CERT_PATH: " ++ error
display (enrollment_token_unreadable error) = codes "could not read WORKLOAD_TOKEN_PATH: " ++ error
display invalid_enrollment_challenge =
    codes "ENROLLMENT_CHALLENGE is not a valid base64url 32-byte value"
display (malformed_scope reason) = codes "malformed request scope: " ++ reason
display (unknown_action action) = codes "unknown action: " ++ action
display (admission_not_accepted status) =
    codes "pf2e.rules.admit submission was not accepted (status "
    ++ (display_nat status ++ codes ")")
display (database error) = codes "parser database error: " ++ display_database error
display (candidate error) = codes "parser domain error: " ++ display_candidate error
