-- ===== src/Tests/PublishedExamples.antt =====
-- A whole pass at a willing kernel and a quiet database, and the reading of a request's scope.
use infernal_pf2e_parser_sim.Base.{List, pos, true, false, [], ◌≡◌, refl, length}
use infernal_pf2e_parser_sim.Std.Text.{text_eq, codes}
use mathlib.Core.List.{Permᴰ}
use mathlib.Core.List.Permᴰ
use infernal_pf2e_parser_sim.Domain.{Candidate}
use infernal_pf2e_parser_sim.Result.{ok}
use infernal_pf2e_parser_sim.Kernel.{World}
use infernal_pf2e_parser_sim.Dispatch.{parse_action}
use infernal_pf2e_parser_sim.Dispatch.Scope.{parse_input_scope, parser_version}
use infernal_pf2e_parser_sim.Dispatch.Scope.Input.{parse-input_scope}
use infernal_pf2e_parser_sim.Dispatch.Scope.Typed.{Reads, parse_input_scope-Reads}
use infernal_pf2e_parser_sim.Repository.{Session, postgres, key_of}
use infernal_pf2e_parser_sim.Repository.Schema.{no_tables, together}
use infernal_pf2e_parser_sim.Repository.Settled.{idle}
use infernal_pf2e_parser_sim.Repository.Stored.{holding}
use infernal_pf2e_parser_sim.Repository.Success.{run_at}
use infernal_pf2e_parser_sim.Work.{completed, work_once}
use infernal_pf2e_parser_sim.Work.Published.{submitting, work_once-publishes, work_once-republishes}
use infernal_pf2e_parser_sim.Tests.Ascii.{ascii}
use infernal_pf2e_parser_sim.Tests.HexCodec.{hex_codec}
use infernal_pf2e_parser_sim.Tests.ListCodec.{ended_texts}
use infernal_pf2e_parser_sim.Tests.Fixtures.{
  source, route, claim, request, willing, source-IsCarried,
}
use infernal_pf2e_parser_sim.Tests.QuietDatabase.{
  quiet_engine, quiet_engine-IsQuiet, parsed, source-present, two_ids, stored_tables,
  stored_tables-HasOneDigest, stored_tables-Serves,
}

scope_read : parse_input_scope hex_codec request.scope ≡ ok source
scope_read = parse-input_scope hex_codec source source-IsCarried

parse_input_scope-Reads_example : Reads hex_codec request.scope source
parse_input_scope-Reads_example = parse_input_scope-Reads hex_codec request.scope source scope_read

abbrev start : World Session
start = record { calls = []; store = idle no_tables 7 }

action_known : text_eq request.action parse_action ≡ true
unfolding text_eq
action_known = refl

work_once-publishes_example :
    let (result, after) =
      work_once hex_codec (postgres quiet_engine hex_codec ended_texts) willing (pos 30) start in
    (result
      ≡ ok (
          completed
            (codes "r1")
            (record { candidate_count = length parsed; was_already_processed = false })))
    × (after.calls
        ≡ submitting quiet_engine quiet_engine-IsQuiet hex_codec ended_texts willing
            (pos 30)
            []
            no_tables
            7
            route
            claim
            source
            parsed)
    × (after.store.committed
        ≡ together no_tables (
            holding hex_codec ended_texts
              (key_of parser_version source)
              (run_at quiet_engine quiet_engine-IsQuiet hex_codec ended_texts parser_version source
                7)
              parsed))
work_once-publishes_example =
    work_once-publishes quiet_engine quiet_engine-IsQuiet hex_codec ended_texts willing (pos 30) []
      no_tables 7 route claim source (λ h action scope. refl) (λ h claim_id token. (claim, refl)) []
      request refl refl refl action_known scope_read source-present tt refl two_ids

-- the same request again, on the tables that the pass leaves
abbrev again : World Session
again = record { calls = []; store = idle stored_tables 20 }

work_once-republishes_example :
    let (result, after) =
      work_once hex_codec (postgres quiet_engine hex_codec ended_texts) willing (pos 30) again in
    (ds : List Candidate) × Permᴰ ds parsed
    × (result
        ≡ ok (
            completed
              (codes "r1")
              (record { candidate_count = length ds; was_already_processed = true })))
    × (after.calls
        ≡ submitting quiet_engine quiet_engine-IsQuiet hex_codec ended_texts willing
            (pos 30)
            []
            stored_tables
            20
            route
            claim
            source
            ds)
    × (after.store.committed ≡ stored_tables)
work_once-republishes_example =
    work_once-republishes quiet_engine quiet_engine-IsQuiet hex_codec ended_texts willing (pos 30)
      [] stored_tables 20 route claim source (λ h action scope. refl)
      (λ h claim_id token. (claim, refl)) [] request refl refl refl action_known scope_read
      source-present stored_tables-HasOneDigest (λ n rows. Permᴰ.reverse rows) parsed
      stored_tables-Serves
