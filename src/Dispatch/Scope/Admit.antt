-- ===== src/Dispatch/Scope/Admit.antt =====
-- The admission scope, read field by field as its wire shape says.
use infernal_pf2e_parser_sim.Base.{
  ℕ, true, Option, some, [], ◌≡◌, refl, arith, All-append, ◌>>=◌, ◌/◌,
}
use infernal_pf2e_parser_sim.Std.Text.{Text, codes, split_once}
use infernal_pf2e_parser_sim.Std.Text.Split.{Lacks, split_once-append}
use infernal_pf2e_parser_sim.Std.Decimal.{display_i64, display_nat}
use infernal_pf2e_parser_sim.Domain.{
  SourceReference, Candidate, RuleType, action, reaction, free_action, feat, condition,
  unclassified, as_str,
}
use infernal_pf2e_parser_sim.Codec.{Codec, is_canonical}
use infernal_pf2e_parser_sim.Dispatch.Scope.{
  admit_scope_for, parser_version, display_confidence, name_or_empty,
}
use infernal_pf2e_parser_sim.Dispatch.Scope.Marks.{
  bar, at_sign, tilde, canonical-Lacks, display_i64-Lacks, encode-Lacks, display_nat-Lacks,
}

-- The fields of an admission scope, as texts.
pub record AdmitFields : Type 0 where
  pub candidate_id : Text
  pub version : Text
  pub rule_type : Text
  pub confidence : Text
  pub document_id : Text
  pub document_version : Text
  pub digest : Text
  pub location : Text
  pub name : Text

-- `<candidate_id>@<parser_version>#<rule_type>!<confidence>|<document_id>~<document_version>~`
-- `<digest_b64>~<location>~<name>`, each field up to the first separator behind it
pub read_admit_scope : Text → Option AdmitFields
read_admit_scope scope = do
  (candidate_id, s1) ← split_once (codes "@") scope
  (version, s2) ← split_once (codes "#") s1
  (rule_type, s3) ← split_once (codes "!") s2
  (confidence, s4) ← split_once (codes "|") s3
  (document_id, s5) ← split_once (codes "~") s4
  (document_version, s6) ← split_once (codes "~") s5
  (digest, s7) ← split_once (codes "~") s6
  (location, name) ← split_once (codes "~") s7
  some (record {
    candidate_id = candidate_id;
    version = version;
    rule_type = rule_type;
    confidence = confidence;
    document_id = document_id;
    document_version = document_version;
    digest = digest;
    location = location;
    name = name;
  })

as_str-Lacks : (t : RuleType) → Lacks b'!' (as_str t)
unfolding as_str
as_str-Lacks action = omega arith
as_str-Lacks reaction = omega arith
as_str-Lacks free_action = omega arith
as_str-Lacks feat = omega arith
as_str-Lacks condition = omega arith
as_str-Lacks unclassified = omega arith

confidence-Lacks : (c : ℕ) → Lacks b'|' (display_confidence c)
unfolding display_confidence
confidence-Lacks c =
    All-append _ (display_nat (c / 100)) _ (display_nat-Lacks (bar refl) (c / 100)) (omega arith)

module _ (codec : Codec) where
  -- the fields that the candidate and its source stand for
  pub admit_fields : SourceReference → Candidate → AdmitFields
  admit_fields source candidate = record {
    candidate_id = candidate.candidate_id.canonical;
    version = parser_version;
    rule_type = as_str candidate.rule_type;
    confidence = display_confidence candidate.confidence;
    document_id = source.document_id.canonical;
    document_version = display_i64 source.document_version;
    digest = codec.encode source.content_digest;
    location = source.location;
    name = name_or_empty candidate.name;
  }

  -- An admission scope whose identifiers are canonical and whose location holds no `~` reads as
  -- the candidate's identity, kind and confidence, and the source's document, version, digest and
  -- location, with the name behind them, whatever characters the name holds.
  pub read-admit_scope_for :
      (source : SourceReference) (candidate : Candidate)
      → is_canonical candidate.candidate_id.canonical ≡ true
      → is_canonical source.document_id.canonical ≡ true
      → Lacks b'~' source.location
      → read_admit_scope (admit_scope_for codec source candidate)
        ≡ some (admit_fields source candidate)
  unfolding read_admit_scope admit_scope_for admit_fields
  read-admit_scope_for source candidate h k l =
      rw
        (split_once-append b'@' [] candidate.candidate_id.canonical _
          (canonical-Lacks (at_sign refl) _ h))
        (rw (split_once-append b'#' [] parser_version _ (omega arith)) (
          rw
            (split_once-append b'!' [] (as_str candidate.rule_type) _
              (as_str-Lacks candidate.rule_type))
            (rw
              (split_once-append b'|' [] (display_confidence candidate.confidence) _
                (confidence-Lacks candidate.confidence))
              (rw
                (split_once-append b'~' [] source.document_id.canonical _
                  (canonical-Lacks (tilde refl) _ k))
                (rw
                  (split_once-append b'~' [] (display_i64 source.document_version) _
                    (display_i64-Lacks (tilde refl) source.document_version))
                  (rw
                    (split_once-append b'~' [] (codec.encode source.content_digest) _
                      (encode-Lacks (tilde refl) codec source.content_digest))
                    (rw (split_once-append b'~' [] source.location (name_or_empty candidate.name) l)
                      refl)))))))
