-- ===== src/Dispatch/Scope.antt =====
-- The two scopes of src/dispatch.rs: reading the scope of a `pf2e.parse` request, and writing the
-- scope of a `pf2e.rules.admit` request.
pub mod Marks
pub mod Input
pub mod Admit
pub mod Errors
pub mod Typed
use infernal_pf2e_parser_sim.Base.{
  ℕ, ◌+◌, ◌*◌, ◌/◌, ◌%◌, Bool, Option, none, some, List, [], ◌∷◌, ◌++◌, length, is_empty, ◌==◌,
  if◌then◌else◌,
}
use infernal_pf2e_parser_sim.Std.Text.{Text, codes, text_eq, split_once}
use infernal_pf2e_parser_sim.Std.Decimal.{display_nat, display_i64, parse_i64}
use infernal_pf2e_parser_sim.Domain.{
  ParserError, malformed_scope, unknown_action, SourceReference, Candidate, ParseOutcome, as_str,
  Uuid,
}
use infernal_pf2e_parser_sim.Result.{Result, ok, err, ok_or, ◌>>=◌}
use infernal_pf2e_parser_sim.Codec.{Codec}

-- `CARGO_PKG_VERSION` is the version of Cargo.toml.
abbrev pub parser_version : Text
parser_version = codes "pf2e-parser-0.1.0"

-- `{:.2}` of a confidence in hundredths
unfoldable pub display_confidence : ℕ → Text
display_confidence c =
    display_nat (c / 100) ++ (codes "." ++ ((b'0' + c / 10 % 10) ∷ (b'0' + c % 10) ∷ []))

abbrev pub name_or_empty : Option Text → Text
name_or_empty none = []
name_or_empty (some name) = name

abbrev malformed {ℓ} : {A : Type ℓ} → Option A → Text → Result ParserError A
malformed o reason = ok_or o (malformed_scope reason)

-- the reasons of a malformed scope
abbrev pub no_bar : Text
no_bar = codes "scope must contain '|' separating the header from source text"

abbrev pub no_mark : Text
no_mark = codes "scope header must contain '!' before the content digest"

abbrev pub no_hash : Text
no_hash = codes "scope header must contain '#' before the location"

abbrev pub no_at : Text
no_at = codes "scope header must contain '@' before the version"

abbrev pub bad_uuid : Text
bad_uuid = codes "document_id must be a UUID"

abbrev pub bad_version : Text
bad_version = codes "document_version must be an integer"

abbrev no_location : Text
no_location = codes "location must not be empty"

module _ (codec : Codec) where
  -- `try_into` to an array of 32 bytes
  unfoldable pub decode_digest : Text → Result ParserError (List ℕ)
  decode_digest value = elim (codec.decode value) [
    | none ↦ err (malformed_scope (codes "content digest must be base64url"))
    | some bytes ↦
        if length bytes == 32
        then ok bytes
        else err (malformed_scope (codes "content digest must be exactly 32 bytes"))
  ]

  -- The pieces of the scope, checked in the order of the source.
  unfoldable pub parse_input_scope : Text → Result ParserError SourceReference
  unfolding decode_digest
  parse_input_scope scope = do
    (header, source_text) ← malformed (split_once (codes "|") scope) no_bar
    (id_version_location, digest_b64) ← malformed (split_once (codes "!") header) no_mark
    (id_version, location) ← malformed (split_once (codes "#") id_version_location) no_hash
    (document_id, version) ← malformed (split_once (codes "@") id_version) no_at
    id ← malformed (codec.parse_uuid document_id) bad_uuid
    document_version ← malformed (parse_i64 version) bad_version
    if is_empty location then err (malformed_scope no_location) else (do
      content_digest ← decode_digest digest_b64
      ok (record {
        document_id = id;
        document_version = document_version;
        content_digest = content_digest;
        location = location;
        source_text = source_text;
      }))

  unfoldable pub admit_scope_for : SourceReference → Candidate → Text
  admit_scope_for source candidate =
      candidate.candidate_id.canonical
      ++ (codes "@"
          ++ (parser_version
              ++ (codes "#"
                  ++ (as_str candidate.rule_type
                      ++ (codes "!"
                          ++ (display_confidence candidate.confidence
                              ++ (codes "|"
                                  ++ (source.document_id.canonical
                                      ++ (codes "~"
                                          ++ (display_i64 source.document_version
                                              ++ (codes "~"
                                                  ++ (codec.encode source.content_digest
                                                      ++ (codes "~"
                                                          ++ (source.location
                                                            ++ (codes "~"
                                                            ++ name_or_empty
                                                            candidate.name)))))))))))))))
