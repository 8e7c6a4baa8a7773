-- ===== src/Repository/Schema.antt =====
-- The two tables of migrations/0001_init.sql, and the rows of
-- src/postgres_candidate_repository.rs. A table is the list of its rows in some order.
use infernal_pf2e_parser_sim.Base.{
  ℕ, Bool, ◌&&◌, ◌==◌, ℤ, pos, negsuc, Option, none, some, List, [], ◌∷◌, ◌++◌, any, filter, false,
  ◌≡◌,
}
use infernal_pf2e_parser_sim.Std.Text.{Text, text_eq}
use infernal_pf2e_parser_sim.Domain.{Candidate, CandidateError, repository, as_str, parse_rule_type}
use infernal_pf2e_parser_sim.Result.{Result, ok, ok_or, ◌>>=◌}
use infernal_pf2e_parser_sim.Codec.{Codec}

-- serde_json on lists of strings
pub record ListCodec : Type 0 where
  pub encode_list : List Text → Text
  pub decode_list : Text → Option (List Text)
  pub decode-encode_list : (values : List Text) → decode_list (encode_list values) ≡ some values

-- the primary key of `parse_runs`, which `parsed_candidates` refers to
pub record RunKey : Type 0 where
  pub document_id : Text
  pub document_version : ℤ
  pub content_digest : List ℕ
  pub parser_version : Text

abbrev pub eq_ℤ : ℤ → ℤ → Bool
eq_ℤ (pos a) (pos b) = a == b
eq_ℤ (negsuc a) (negsuc b) = a == b
eq_ℤ _ _ = false

-- equality of lists of numbers is that of texts
abbrev pub digest_eq : List ℕ → List ℕ → Bool
digest_eq = text_eq

abbrev pub same_version : Text → ℤ → RunKey → Bool
same_version document_id document_version k =
    text_eq k.document_id document_id && eq_ℤ k.document_version document_version

unfoldable pub key_eq : RunKey → RunKey → Bool
key_eq a b =
    same_version b.document_id b.document_version a
    && digest_eq a.content_digest b.content_digest
    && text_eq a.parser_version b.parser_version

-- The time `created_at` is left out: nothing reads it.
pub record RunRow : Type 0 where
  pub key : RunKey
  pub request_id : Text

pub record CandidateRow : Type 0 where
  pub candidate_id : Text
  pub key : RunKey
  pub rule_type : Text
  pub name : Option Text
  pub traits : Text
  pub trigger : Option Text
  pub requirements : Text
  pub prerequisites : Text
  pub effect : Option Text
  pub related_references : Text
  pub source_text : Text
  pub inferences : Text
  pub confidence : ℕ

pub record Tables : Type 0 where
  pub runs : List RunRow
  pub candidates : List CandidateRow

abbrev pub no_tables : Tables
no_tables = record { runs = []; candidates = [] }

-- the rows of both
abbrev pub together : Tables → Tables → Tables
together s t = record { runs = s.runs ++ t.runs; candidates = s.candidates ++ t.candidates }

abbrev pub has_run : RunKey → List RunRow → Bool
has_run k = any (λ (r : RunRow). key_eq r.key k)

abbrev pub has_candidate : Text → List CandidateRow → Bool
has_candidate id = any (λ (r : CandidateRow). text_eq r.candidate_id id)

-- the rows that `SELECT_CANDIDATES_SQL` selects
abbrev pub rows_of : RunKey → List CandidateRow → List CandidateRow
rows_of k = filter (λ (r : CandidateRow). key_eq r.key k)

module _ (codec : Codec) (lists : ListCodec) where
  abbrev or_default : Option (List Text) → List Text
  or_default none = []
  or_default (some values) = values

  unfoldable pub decode_string_list : Text → List Text
  decode_string_list value = or_default (lists.decode_list value)

  unfoldable pub encode_string_list : List Text → Text
  encode_string_list values = lists.encode_list values

  -- the parameters of `INSERT_CANDIDATE_SQL`
  unfoldable pub row_of : RunKey → Candidate → CandidateRow
  row_of k c = record {
    candidate_id = c.candidate_id.canonical;
    key = k;
    rule_type = as_str c.rule_type;
    name = c.name;
    traits = encode_string_list c.traits;
    trigger = c.trigger;
    requirements = encode_string_list c.requirements;
    prerequisites = encode_string_list c.prerequisites;
    effect = c.effect;
    related_references = encode_string_list c.references;
    source_text = c.source_text;
    inferences = encode_string_list c.inferences;
    confidence = c.confidence;
  }

  -- the closure of `load_candidates`
  unfoldable pub candidate_of : CandidateRow → Result CandidateError Candidate
  candidate_of r = do
    candidate_id ← ok_or (codec.parse_uuid r.candidate_id) repository
    ok (record {
      candidate_id = candidate_id;
      rule_type = parse_rule_type r.rule_type;
      name = r.name;
      traits = decode_string_list r.traits;
      trigger = r.trigger;
      requirements = decode_string_list r.requirements;
      effect = r.effect;
      prerequisites = decode_string_list r.prerequisites;
      references = decode_string_list r.related_references;
      source_text = r.source_text;
      inferences = decode_string_list r.inferences;
      confidence = r.confidence;
    })

  -- `collect` into a `Result`: the first error ends it
  unfoldable pub candidates_of : List CandidateRow → Result CandidateError (List Candidate)
  candidates_of [] = ok []
  candidates_of (r ∷ rs) = do c ← candidate_of r; cs ← candidates_of rs; ok (c ∷ cs)
