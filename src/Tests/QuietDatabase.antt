-- ===== src/Tests/QuietDatabase.antt =====
-- A database that works and has no other users, and a parse on its empty tables.
use infernal_pf2e_parser_sim.Base.{
  ℕ, ◌+◌, ◌%◌, true, false, List, [], ◌∷◌, ◌++◌, reverse, length, ◌==◌, is_empty, ◌≡◌, refl, arith,
  subst, sym,
}
use mathlib.Core.List.{Permᴰ}
use mathlib.Core.List.Permᴰ
use infernal_pf2e_parser_sim.Std.Text.{
  codes, to_ascii_lowercase, text_eq, trim, split_once, strip_line_end, strip_suffix, split, lines,
  replace_char, is_whitespace,
}
use infernal_pf2e_parser_sim.Std.Text.Trim.{text_eq_refl}
use infernal_pf2e_parser_sim.Std.Decimal.{display_nat}
use infernal_pf2e_parser_sim.Domain.{CandidateError, parse_rule_type, Uuid, Candidate, ParseOutcome}
use infernal_pf2e_parser_sim.Result.{Result, ok}
use infernal_pf2e_parser_sim.Codec.{is_canonical}
use infernal_pf2e_parser_sim.Parser.{
  parse_candidates, parse_blocks, source_blocks, parse_block, finish_block, read_fields,
  block_lines, detect_bare_type, normalize_type, apply_lines, apply_line, apply_label, split_label,
  split_list, extract_bracketed_references, untagged_note,
}
use infernal_pf2e_parser_sim.Repository.{Engine, Session, applied, parse_once, key_of}
use infernal_pf2e_parser_sim.Repository.Schema.{Tables, no_tables, together, digest_eq, row_of}
use infernal_pf2e_parser_sim.Repository.Consistent.{IsConsistent}
use infernal_pf2e_parser_sim.Repository.Growth.{Extends-refl}
use infernal_pf2e_parser_sim.Repository.Laws.{IsPostgres}
use infernal_pf2e_parser_sim.Repository.Settled.{Settled, Serves, Promises, idle}
use infernal_pf2e_parser_sim.Repository.Outcome.{parse_once-Settled}
use infernal_pf2e_parser_sim.Repository.Success.{parse_once-stores, parse_once-recalls, run_at}
use infernal_pf2e_parser_sim.Repository.Quiet.{IsQuiet, AreFresh, HasOneDigest}
use infernal_pf2e_parser_sim.Repository.Stored.{holding}
use infernal_pf2e_parser_sim.Tests.Ascii.{ascii}
use infernal_pf2e_parser_sim.Tests.HexCodec.{hex_codec}
use infernal_pf2e_parser_sim.Tests.ListCodec.{ended_texts}
use infernal_pf2e_parser_sim.Tests.Fixtures.{source}
use infernal_pf2e_parser_sim.Dispatch.Scope.{parser_version}

-- the identifier with this last digit
abbrev pub numbered_id : ℕ → Uuid
numbered_id i = record {
  canonical = codes "00000000-0000-4000-8000-00000000000" ++ (48 + i % 10) ∷ [];
}

numbered_id-canonical : (i : ℕ) → is_canonical (numbered_id i).canonical ≡ true
unfolding is_canonical
numbered_id-canonical i = ground arith

-- everything works, and rows come in reverse
abbrev pub quiet_engine : Engine
quiet_engine = record {
  fails = λ n. false;
  fate = λ n. applied;
  arrange = λ n rows. reverse rows;
  others = λ n t own. t;
  draw = λ n i. numbered_id i;
}

pub quiet_engine-IsQuiet : IsQuiet quiet_engine
quiet_engine-IsQuiet = record { works = λ n. refl; confirms = λ n. refl; alone = λ n t own. refl }

pub quiet_engine-IsPostgres : IsPostgres quiet_engine
quiet_engine-IsPostgres = record {
  arranged = λ n rows. Permᴰ.reverse rows;
  interferes =
      λ n t own c both. record { consistent = c; with_own = both; extends = Extends-refl t };
  canonical = λ n i. numbered_id-canonical i;
}

pub no_tables-IsConsistent : IsConsistent no_tables
no_tables-IsConsistent = record { digests = tt; confidences = tt; owned = tt; runs = tt; ids = tt }

pub source-present : is_empty (trim source.source_text) ≡ false
unfolding trim is_whitespace
source-present = refl

pub digest_is_long : (length source.content_digest == 32) ≡ true
digest_is_long = refl

-- the two candidates have different identifiers
pub two_ids :
    AreFresh hex_codec ended_texts
      (key_of parser_version source)
      no_tables
      (parse_candidates numbered_id source.source_text)
unfolding row_of parse_candidates parse_blocks source_blocks parse_block finish_block read_fields
    block_lines detect_bare_type normalize_type apply_lines apply_line apply_label split_label
    split_list split_once strip_line_end strip_suffix extract_bracketed_references untagged_note
    parse_rule_type text_eq trim split lines replace_char is_whitespace to_ascii_lowercase
    display_nat
two_ids = (refl, (refl, tt))

abbrev pub at_first : Result CandidateError ParseOutcome × Session
at_first = parse_once quiet_engine hex_codec ended_texts parser_version source (idle no_tables 7)

abbrev pub parsed : List Candidate
parsed = parse_candidates numbered_id source.source_text

abbrev pub first_outcome : ParseOutcome
first_outcome = record { source = source; candidates = parsed; was_already_processed = false }

pub first_stored :
    (at_first.0 ≡ ok first_outcome)
    × (at_first.1.committed
        ≡ together no_tables (
            holding hex_codec ended_texts
              (key_of parser_version source)
              (run_at quiet_engine quiet_engine-IsQuiet hex_codec ended_texts parser_version source
                7)
              parsed))
first_stored =
    parse_once-stores quiet_engine quiet_engine-IsQuiet hex_codec ended_texts parser_version source
      no_tables 7 source-present digest_is_long tt refl two_ids

-- the tables behind the first parse
abbrev pub stored_tables : Tables
stored_tables = at_first.1.committed

pub first-Settled :
    Settled hex_codec ended_texts quiet_engine no_tables
      (key_of parser_version source)
      source
      at_first
first-Settled =
    parse_once-Settled hex_codec ended_texts quiet_engine quiet_engine-IsPostgres no_tables source
      parser_version 7 no_tables-IsConsistent

pub stored_tables-Serves :
    Serves hex_codec ended_texts stored_tables (key_of parser_version source) parsed
stored_tables-Serves =
    (subst
      (Promises hex_codec ended_texts quiet_engine no_tables (key_of parser_version source) source
        stored_tables)
      first_stored.0 first-Settled.promises).1

digest_eq_itself : digest_eq source.content_digest source.content_digest ≡ true
digest_eq_itself = text_eq_refl source.content_digest

pub stored_tables-HasOneDigest : HasOneDigest source stored_tables.runs
stored_tables-HasOneDigest =
    subst (λ (t : Tables). HasOneDigest source t.runs) (sym first_stored.1)
      ((λ _. digest_eq_itself), tt)

-- a parse of the source on those tables, whose first operation has this number
abbrev pub at_later : ℕ → Result CandidateError ParseOutcome × Session
at_later n =
    parse_once quiet_engine hex_codec ended_texts parser_version source (idle stored_tables n)

abbrev pub Recalls : ℕ → Type 0
Recalls n =
    (ds : List Candidate) × ((at_later n).0
      ≡ ok (record { source = source; candidates = ds; was_already_processed = true }))
    × ((at_later n).1.committed ≡ stored_tables)
    × Permᴰ ds parsed

pub later_recalls : (n : ℕ) → Recalls n
later_recalls n =
    parse_once-recalls quiet_engine quiet_engine-IsQuiet hex_codec ended_texts parser_version source
      (λ n rows. Permᴰ.reverse rows) stored_tables n parsed source-present
      stored_tables-HasOneDigest stored_tables-Serves
