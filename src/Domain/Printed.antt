-- ===== src/Domain/Printed.antt =====
-- Reading the text of an error back.
use infernal_pf2e_parser_sim.Base.{
  ℕ, ◌≤◌, Option, none, some, List, [], ◌∷◌, ◌>>=◌, ◌≡◌, ◌≢◌, refl, ap, sym, ◌∙◌, pos, negsuc,
  arith, if◌then◌else◌,
}
use infernal_pf2e_parser_sim.Std.Text.{Text, codes, strip_prefix, strip_suffix, text_eq}
use infernal_pf2e_parser_sim.Std.Text.Lines.{strip_suffix_one}
use infernal_pf2e_parser_sim.Std.Decimal.{display_nat, display_i64, parse_i64}
use infernal_pf2e_parser_sim.Std.Decimal.RoundTrip.{parse-display_i64}
use infernal_pf2e_parser_sim.Domain.{
  CandidateError, empty_source_text, source_digest_mismatch, repository, DatabaseError,
  missing_environment, empty_url, invalid_postgres_config, pool, query, ParserError, missing_env,
  invalid_service_id, client, unexpected_status, malformed_response, ca_certificate_unreadable,
  enrollment_token_unreadable, invalid_enrollment_challenge, malformed_scope, unknown_action,
  admission_not_accepted, database, candidate,
}
use infernal_pf2e_parser_sim.Domain.Display.{display_candidate, display_database, display}

module _ {A : Type 0} where
  -- the first that is there
  first : List (Option A) → Option A
  first [] = none
  first (none ∷ os) = first os
  first (some a ∷ os) = some a

  -- an error with one text
  exactly : Text → A → Text → Option A
  exactly text a t = if text_eq t text then some a else none

  -- an error with a text behind its words
  behind : Text → (Text → A) → Text → Option A
  behind words make t = do rest ← strip_prefix words t; some (make rest)

-- a decimal number without a sign
read_status : Text → Option ℕ
read_status t = elim (parse_i64 t) [
  | none ↦ none
  | some v ↦ elim v [ pos n ↦ some n | negsuc n ↦ none ]
]

read_candidate : Text → Option CandidateError
read_candidate t = first (
    exactly (codes "source text must not be empty") empty_source_text t
    ∷ exactly (codes "this document version was already parsed under a different content digest")
        source_digest_mismatch t
    ∷ exactly (codes "candidate repository operation failed") repository t
    ∷ [])

read_database : Text → Option DatabaseError
read_database t = first (
    exactly (codes "PF2E_PARSER_DATABASE_URL is not set") missing_environment t
    ∷ exactly (codes "PF2E_PARSER_DATABASE_URL is empty") empty_url t
    ∷ exactly (codes "PF2E_PARSER_DATABASE_URL is not a valid postgres URL") invalid_postgres_config
        t
    ∷ behind (codes "database pool error: ") pool t
    ∷ behind (codes "database query failed: ") query t
    ∷ [])

-- an error whose text is behind its words and is read by this
nested : {A : Type 0} → Text → (Text → Option A) → (A → ParserError) → Text → Option ParserError
nested words read make t = do rest ← strip_prefix words t; a ← read rest; some (make a)

in_brackets : Text → Option ℕ
in_brackets t = do inner ← strip_suffix (codes ")") t; read_status inner

read_error : Text → Option ParserError
read_error t = first (
    behind (codes "missing required environment variable ") missing_env t
    ∷ exactly (codes "service ID must be a UUID") invalid_service_id t
    ∷ behind (codes "kernel client error: ") client t
    ∷ nested (codes "kernel returned unexpected status ") read_status unexpected_status t
    ∷ behind (codes "malformed kernel response: ") malformed_response t
    ∷ behind (codes "could not read KERNEL_CA_CERT_PATH: ") ca_certificate_unreadable t
    ∷ behind (codes "could not read WORKLOAD_TOKEN_PATH: ") enrollment_token_unreadable t
    ∷ exactly (codes "ENROLLMENT_CHALLENGE is not a valid base64url 32-byte value")
        invalid_enrollment_challenge t
    ∷ behind (codes "malformed request scope: ") malformed_scope t
    ∷ behind (codes "unknown action: ") unknown_action t
    ∷ nested (codes "pf2e.rules.admit submission was not accepted (status ") in_brackets
        admission_not_accepted t
    ∷ nested (codes "parser database error: ") read_database database t
    ∷ nested (codes "parser domain error: ") read_candidate candidate t
    ∷ [])

-- A status is a `u16`.
abbrev pub HasStatus : ParserError → Type 0
HasStatus (unexpected_status status) = status ≤ 65535
HasStatus (admission_not_accepted status) = status ≤ 65535
HasStatus _ = Unit

read_status-display_nat : (n : ℕ) → n ≤ 65535 → read_status (display_nat n) ≡ some n
unfolding read_status
read_status-display_nat n h =
    let e : parse_i64 (display_nat n) ≡ some (pos n) =
      unfold display_i64 in parse-display_i64 (pos n) (omega arith, omega arith) in
    rw (e, read_status) refl

read-display_candidate : (e : CandidateError) → read_candidate (display_candidate e) ≡ some e
unfolding read_candidate display_candidate first exactly text_eq
read-display_candidate empty_source_text = refl
read-display_candidate source_digest_mismatch = refl
read-display_candidate repository = refl

read-display_database : (e : DatabaseError) → read_database (display_database e) ≡ some e
unfolding read_database display_database first exactly behind text_eq strip_prefix
read-display_database missing_environment = refl
read-display_database empty_url = refl
read-display_database invalid_postgres_config = refl
read-display_database (pool message) = refl
read-display_database (query message) = refl

read-display : (e : ParserError) → HasStatus e → read_error (display e) ≡ some e
unfolding read_error display first exactly behind nested in_brackets text_eq strip_prefix
read-display (missing_env name) h = refl
read-display invalid_service_id h = refl
read-display (client error) h = refl
read-display (unexpected_status status) h = rw (read_status-display_nat status h) refl
read-display (malformed_response message) h = refl
read-display (ca_certificate_unreadable error) h = refl
read-display (enrollment_token_unreadable error) h = refl
read-display invalid_enrollment_challenge h = refl
read-display (malformed_scope reason) h = refl
read-display (unknown_action action) h = refl
read-display (admission_not_accepted status) h =
    rw (strip_suffix_one b')' (display_nat status), read_status-display_nat status h) refl
read-display (database error) h = rw (read-display_database error) refl
read-display (candidate error) h = rw (read-display_candidate error) refl

some-injective : {a b : ParserError} → ◌≡◌ {A = Option ParserError} (some a) (some b) → a ≡ b
some-injective h = cc

display-injective : (e f : ParserError) → HasStatus e → HasStatus f → display e ≡ display f → e ≡ f
display-injective e f h k same =
    some-injective (sym (read-display e h) ∙ ap read_error same ∙ read-display f k)

-- Errors of different variants print different texts, and so do errors of one variant that carry
-- different values. An error of the client library or of the file system counts by the text that it
-- prints itself: two of these that print the same are not told apart. Statuses are at most 65535.
pub display_differs :
    (e f : ParserError) → HasStatus e → HasStatus f → e ≢ f → display e ≢ display f
display_differs e f h k different same = different (display-injective e f h k same)
