-- ===== src/Tests/RepositoryExamples.antt =====
-- The repository's theorems at a database that works, with no other users.
use infernal_pf2e_parser_sim.Base.{
  ap, if◌then◌else◌, ℕ, true, false, List, [], ◌∷◌, ◌++◌, reverse, map, length, ◌==◌, ◌≡◌, refl,
  subst, sym,
}
use mathlib.Core.List.{Permᴰ}
use infernal_pf2e_parser_sim.Std.Text.{
  codes, to_ascii_lowercase, text_eq, trim, split_once, strip_line_end, strip_suffix, split, lines,
  replace_char, is_whitespace,
}
use infernal_pf2e_parser_sim.Std.Text.Trim.{text_eq_refl}
use infernal_pf2e_parser_sim.Std.Decimal.{display_nat}
use infernal_pf2e_parser_sim.Domain.{ParserError, parse_rule_type, ParseOutcome}
use infernal_pf2e_parser_sim.Result.{Result, ok}
use infernal_pf2e_parser_sim.Parser.{
  parse_candidates, parse_blocks, source_blocks, parse_block, finish_block, read_fields,
  block_lines, detect_bare_type, normalize_type, apply_lines, apply_line, apply_label, split_label,
  split_list, extract_bracketed_references, untagged_note,
}
use infernal_pf2e_parser_sim.Repository.{Engine, Session, parse_once, key_of}
use infernal_pf2e_parser_sim.Repository.Schema.{
  Tables, no_tables, together, key_eq, digest_eq, row_of,
}
use infernal_pf2e_parser_sim.Repository.Consistent.{IsConsistent}
use infernal_pf2e_parser_sim.Repository.Growth.{Extends, Extends-refl}
use infernal_pf2e_parser_sim.Repository.Settled.{Settled, idle}
use infernal_pf2e_parser_sim.Repository.Outcome.{parse_once-Settled}
use infernal_pf2e_parser_sim.Repository.Success.{parse_once-stores, run_at}
use infernal_pf2e_parser_sim.Repository.Stored.{holding}
use infernal_pf2e_parser_sim.Tests.Ascii.{ascii}
use infernal_pf2e_parser_sim.Tests.HexCodec.{hex_codec}
use infernal_pf2e_parser_sim.Tests.ListCodec.{ended_texts}
use infernal_pf2e_parser_sim.Tests.Fixtures.{source}
use infernal_pf2e_parser_sim.Dispatch.Scope.{parser_version}
use infernal_pf2e_parser_sim.Tests.QuietDatabase.{
  quiet_engine, quiet_engine-IsQuiet, quiet_engine-IsPostgres, no_tables-IsConsistent,
  source-present, digest_is_long, two_ids, at_first, parsed, first_outcome, stored_tables,
  first-Settled, later_recalls,
}
use infernal_pf2e_parser_sim.Tests.Fixtures.{willing, request, source-IsCarried}
use infernal_pf2e_parser_sim.Repository.Retry.{parse_once-mismatch, parse_once-stuck, Mismatches}
use infernal_pf2e_parser_sim.Repository.Schema.{
  encode_string_list, RunRow, RunKey, same_version, has_run,
}
use infernal_pf2e_parser_sim.Repository.{
  postgres, in_transaction, store_new, finish_new, insert_all, commit_as, dropped, statement,
  check_digests,
}
use infernal_pf2e_parser_sim.Dispatch.{DispatchOutcome, parse_action}
use infernal_pf2e_parser_sim.Dispatch.Retried.{attempt, dispatch-retried}
use infernal_pf2e_parser_sim.Dispatch.Came.{dispatch-store}
use infernal_pf2e_parser_sim.Dispatch.Scope.Input.{parse-input_scope}
use infernal_pf2e_parser_sim.Work.Success.{dispatch-ok}
use infernal_pf2e_parser_sim.Kernel.{Call, World}

parse_once-Settled_example :
    Settled hex_codec ended_texts quiet_engine no_tables
      (key_of parser_version source)
      source
      (parse_once quiet_engine hex_codec ended_texts parser_version source (idle no_tables 7))
parse_once-Settled_example =
    parse_once-Settled hex_codec ended_texts quiet_engine quiet_engine-IsPostgres no_tables source
      parser_version 7 no_tables-IsConsistent

parse_once-stores_example :
    (at_first.0 ≡ ok first_outcome)
    × (at_first.1.committed
        ≡ together no_tables (
            holding hex_codec ended_texts
              (key_of parser_version source)
              (run_at quiet_engine quiet_engine-IsQuiet hex_codec ended_texts parser_version source
                7)
              parsed))
parse_once-stores_example =
    parse_once-stores quiet_engine quiet_engine-IsQuiet hex_codec ended_texts parser_version source
      no_tables 7 source-present digest_is_long tt refl two_ids

abbrev second_outcome : ParseOutcome
second_outcome = record {
  source = source;
  candidates = (later_recalls 20).0;
  was_already_processed = true;
}

-- thirty-two bytes, the first of which is this
abbrev digest_from : ℕ → List ℕ
digest_from n =
    n ∷ 0 ∷ 0 ∷ 0 ∷ 0 ∷ 0 ∷ 0 ∷ 0 ∷ 0 ∷ 0 ∷ 0 ∷ 0 ∷ 0 ∷ 0 ∷ 0 ∷ 0 ∷ 0 ∷ 0 ∷ 0 ∷ 0 ∷ 0 ∷ 0 ∷ 0 ∷ 0
    ∷ 0 ∷ 0 ∷ 0 ∷ 0 ∷ 0 ∷ 0 ∷ 0 ∷ 0 ∷ []

-- runs of the source's version with two other digests, by another version of the parser
abbrev other_key : ℕ → RunKey
other_key n = record (key_of (codes "0") source) { content_digest = digest_from n }

abbrev other_tables : Tables
other_tables = record {
  runs =
      record { key = other_key 8; request_id = codes "r1" }
      ∷ record { key = other_key 9; request_id = codes "r2" }
      ∷ [];
  candidates = [];
}

other_tables-IsConsistent : IsConsistent other_tables
unfolding key_eq text_eq
other_tables-IsConsistent = record {
  digests = (refl, (refl, tt));
  confidences = tt;
  owned = tt;
  runs = (refl, (refl, tt));
  ids = tt;
}

other_tables_runs :
    (has_run (other_key 8) other_tables.runs ≡ true)
    × (has_run (other_key 9) other_tables.runs ≡ true)
unfolding key_eq text_eq
other_tables_runs = (refl, refl)

other_keys_version :
    (n : ℕ) → same_version source.document_id.canonical source.document_version (other_key n) ≡ true
unfolding text_eq
other_keys_version n = refl

other_keys_differ :
    (digest_eq (digest_from 8) source.content_digest ≡ false)
    × (digest_eq (digest_from 8) (digest_from 9) ≡ false)
unfolding text_eq
other_keys_differ = (refl, refl)

parse_once-mismatch_example :
    Mismatches quiet_engine 7
      (parse_once quiet_engine hex_codec ended_texts parser_version source (idle other_tables 7)).0
parse_once-mismatch_example =
    parse_once-mismatch hex_codec ended_texts quiet_engine quiet_engine-IsPostgres parser_version
      source other_tables 7 (other_key 8) other_tables-IsConsistent source-present
      other_tables_runs.0 (other_keys_version 8) other_keys_differ.0

parse_once-stuck_example :
    Mismatches quiet_engine 7
      (parse_once quiet_engine hex_codec ended_texts parser_version source (idle other_tables 7)).0
parse_once-stuck_example =
    parse_once-stuck hex_codec ended_texts quiet_engine quiet_engine-IsPostgres parser_version
      source other_tables 7 (other_key 8) (other_key 9) other_tables-IsConsistent source-present
      other_tables_runs.0 other_tables_runs.1 (other_keys_version 8) (other_keys_version 9)
      other_keys_differ.1

action_is_known : text_eq parse_action parse_action ≡ true
action_is_known = text_eq_refl parse_action

abbrev try_at : Tables → ℕ → Result ParserError DispatchOutcome × World Session
try_at t n =
    attempt hex_codec ended_texts quiet_engine quiet_engine-IsPostgres willing parse_action
      request.scope [] t n

first_try_stores : (try_at no_tables 7).1.store ≡ at_first.1
first_try_stores =
    dispatch-store hex_codec willing (postgres quiet_engine hex_codec ended_texts) parse_action
      request.scope (record { calls = []; store = idle no_tables 7 }) source action_is_known
      (parse-input_scope hex_codec source source-IsCarried)

abbrev second_try : DispatchOutcome
second_try = record { candidate_count = length (later_recalls 20).0; was_already_processed = true }

second_try-ok : (try_at stored_tables 20).0 ≡ ok second_try
second_try-ok =
    ap (λ (x : Result ParserError DispatchOutcome × World Session). x.0)
      (dispatch-ok hex_codec (postgres quiet_engine hex_codec ended_texts) willing
        (λ h action scope. refl) parse_action request.scope source second_outcome
        (record { calls = []; store = idle stored_tables 20 }) action_is_known
        (parse-input_scope hex_codec source source-IsCarried) (later_recalls 20).1)

dispatch-retried_example :
    (made again rest : List Call) × ((try_at no_tables 7).1.calls ≡ [] ++ made)
    × ((try_at stored_tables 20).1.calls ≡ [] ++ again)
    × Permᴰ (made ++ rest) again
    × ((before : DispatchOutcome)
        → (try_at no_tables 7).0 ≡ ok before
        → (rest ≡ []) × (second_try.was_already_processed ≡ true))
dispatch-retried_example =
    dispatch-retried hex_codec ended_texts quiet_engine quiet_engine-IsPostgres willing parse_action
      request.scope no_tables stored_tables 7 20 [] [] second_try no_tables-IsConsistent
      first-Settled.consistent
      (subst (λ (s : Session). Extends s.committed stored_tables) (sym first_try_stores)
        (Extends-refl stored_tables))
      second_try-ok

-- Between the comparison of the digests and the insertion of the run, another instance commits a
-- first parse of the same version with another digest.
abbrev racing_engine : Engine
racing_engine = record quiet_engine {
  others = λ n t own.
      if n == 11
      then record t {
        runs =
            t.runs
            ++ record {
              key = record (key_of parser_version source) {
                content_digest = reverse source.content_digest;
              };
              request_id = codes "r1";
            }
              ∷ [];
      }
      else t;
}

-- Both are committed.
both_digests :
    map
      (λ (r : RunRow). r.key.content_digest)
      (parse_once racing_engine hex_codec ended_texts parser_version source
        (idle no_tables 7)).1.committed.runs
    ≡ reverse source.content_digest ∷ source.content_digest ∷ []
unfolding parse_once in_transaction store_new finish_new insert_all commit_as dropped statement
    check_digests row_of encode_string_list key_eq parse_candidates parse_blocks source_blocks
    parse_block finish_block read_fields block_lines detect_bare_type normalize_type apply_lines
    apply_line apply_label split_label split_list split_once strip_line_end strip_suffix
    extract_bracketed_references untagged_note parse_rule_type text_eq trim split lines replace_char
    is_whitespace to_ascii_lowercase display_nat
both_digests = refl
