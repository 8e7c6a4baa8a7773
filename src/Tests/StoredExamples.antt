-- ===== src/Tests/StoredExamples.antt =====
-- Longer runs of the service at a database that works.
use infernal_pf2e_parser_sim.Base.{pos, true, none, some, [], ◌∷◌, ◌≡◌, refl, sym, subst, ap, ◌∙◌}
use mathlib.Core.List.{Permᴰ}
use infernal_pf2e_parser_sim.Std.Text.{codes, trim, is_whitespace}
use infernal_pf2e_parser_sim.Domain.{SourceReference, ParseOutcome}
use infernal_pf2e_parser_sim.Result.{ok}
use infernal_pf2e_parser_sim.Health.{new_heartbeat, default_thresholds}
use infernal_pf2e_parser_sim.Dispatch.Scope.{parser_version}
use infernal_pf2e_parser_sim.Repository.{Session, parse_once, postgres}
use infernal_pf2e_parser_sim.Repository.Schema.{Tables, no_tables}
use infernal_pf2e_parser_sim.Repository.Growth.{Extends-refl}
use infernal_pf2e_parser_sim.Repository.Settled.{idle}
use infernal_pf2e_parser_sim.Repository.History.{IsBetween, parse_all, parse_once-stable}
use infernal_pf2e_parser_sim.Kernel.{CandidateRepository}
use infernal_pf2e_parser_sim.Clock.{unix_time}
use infernal_pf2e_parser_sim.Service.{Service, Tick}
use infernal_pf2e_parser_sim.Process.{
  Process, started, renewed, after_pass, pass, Reach, here, later, loop_step, renew, work,
}
use infernal_pf2e_parser_sim.Process.Stored.{Reach-IsBetween}
use infernal_pf2e_parser_sim.Tests.Ascii.{ascii}
use infernal_pf2e_parser_sim.Tests.HexCodec.{hex_codec}
use infernal_pf2e_parser_sim.Tests.ListCodec.{ended_texts}
use infernal_pf2e_parser_sim.Tests.Fixtures.{source, willing}
use infernal_pf2e_parser_sim.Tests.QuietDatabase.{
  quiet_engine, quiet_engine-IsPostgres, no_tables-IsConsistent, at_first, parsed, first_outcome,
  first_stored, first-Settled, stored_tables, later_recalls,
}

-- a source of spaces, which is refused at once
abbrev blank : SourceReference
blank = record source { source_text = codes "  " }

blank_changes_nothing :
    parse_all hex_codec ended_texts quiet_engine ((parser_version, blank) ∷ []) at_first.1
    ≡ at_first.1
unfolding parse_all parse_once trim is_whitespace
blank_changes_nothing = refl

-- the session behind the first parse
at_first_idle : idle stored_tables at_first.1.clock ≡ at_first.1
at_first_idle = ap (λ (p : Tables). record at_first.1 { pending = p }) (sym first-Settled.closed)

abbrev recalled_outcome : ParseOutcome
recalled_outcome = record {
  source = source;
  candidates = (later_recalls at_first.1.clock).0;
  was_already_processed = true;
}

parses_again :
    (parse_once quiet_engine hex_codec ended_texts parser_version source
      (parse_all hex_codec ended_texts quiet_engine ((parser_version, blank) ∷ []) at_first.1)).0
    ≡ ok recalled_outcome
parses_again =
    subst
      (λ (s : Session).
        (parse_once quiet_engine hex_codec ended_texts parser_version source s).0
        ≡ ok recalled_outcome)
      (at_first_idle ∙ sym blank_changes_nothing) (later_recalls at_first.1.clock).1

parse_once-stable_example : (true ≡ true) × Permᴰ parsed (later_recalls at_first.1.clock).0
parse_once-stable_example =
    parse_once-stable hex_codec ended_texts quiet_engine quiet_engine-IsPostgres parser_version
      source ((parser_version, blank) ∷ []) no_tables 7 first_outcome recalled_outcome
      no_tables-IsConsistent first_stored.0 parses_again

abbrev minute : Tick
minute = record {
  now = pos 60;
  renew_lease = λ revision. ok (record { lease_revision = pos 2; lease_expires_at = pos 120 });
  success_time = pos 61;
}

abbrev service : Service Session
service = record {
  instance_lease = none;
  heartbeat = new_heartbeat;
  world = record { calls = []; store = idle no_tables 0 };
}

-- behind the renewal and the pass of the first turn
abbrev checked : Service Session
checked = renewed (unix_time (some 1045)) minute.renew_lease service

abbrev repository : CandidateRepository Session
repository = postgres quiet_engine hex_codec ended_texts

abbrev parsed_process : Process Session
parsed_process = record (started service) {
  point = after_pass (pass hex_codec repository willing (pos 300) checked).0;
  service = record checked { world = (pass hex_codec repository willing (pos 300) checked).1 };
}

parsed_process-reached :
    Reach hex_codec repository willing (pos 300) default_thresholds (started service) parsed_process
unfolding renewed
parsed_process-reached =
    later (later here (loop_step (renew (some 1045) minute.renew_lease))) (loop_step work)

Reach-IsBetween_example : IsBetween no_tables parsed_process.service.world.store
Reach-IsBetween_example =
    Reach-IsBetween hex_codec ended_texts quiet_engine quiet_engine-IsPostgres willing (pos 300)
      default_thresholds no_tables service
      (record {
        closed = refl;
        consistent = no_tables-IsConsistent;
        extends = Extends-refl no_tables;
      })
      parsed_process-reached
