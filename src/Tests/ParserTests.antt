-- ===== src/Tests/ParserTests.antt =====
-- The unit tests of src/parser.rs.
use infernal_pf2e_parser_sim.Base.{ℕ, none, some, List, [], ◌∷◌, ◌≡◌, refl}
use infernal_pf2e_parser_sim.Std.Text.{
  Text, codes, to_ascii_lowercase, text_eq, trim, split_once, strip_line_end, strip_suffix, split,
  lines, replace_char, is_whitespace,
}
use infernal_pf2e_parser_sim.Std.Decimal.{display_nat}
use infernal_pf2e_parser_sim.Domain.{parse_rule_type, action, Uuid, Candidate}
use infernal_pf2e_parser_sim.Parser.{
  parse_candidates, parse_blocks, source_blocks, parse_block, finish_block, read_fields,
  block_lines, detect_bare_type, normalize_type, apply_lines, apply_line, apply_label, split_label,
  split_list, extract_bracketed_references, untagged_note,
}
use infernal_pf2e_parser_sim.Tests.Ascii.{ascii}

-- every draw gives one identifier
abbrev pub one_id : Uuid
one_id = record { canonical = codes "00000000-0000-4000-8000-000000000000" }

abbrev pub ids : ℕ → Uuid
ids n = one_id

abbrev stride : Candidate
stride = record {
  candidate_id = one_id;
  rule_type = action;
  name = some (codes "Stride");
  traits = [];
  trigger = none;
  requirements = [];
  effect = some (codes "Move up to your Speed.");
  prerequisites = [];
  references = [];
  source_text = codes "Action\nName: Stride\nEffect: Move up to your Speed.";
  inferences = [];
  confidence = 90;
}

-- its line opens all that the parser calls
unfoldable pub run_parser : Text → List Candidate
unfolding parse_candidates parse_blocks source_blocks parse_block finish_block read_fields
    block_lines detect_bare_type normalize_type apply_lines apply_line apply_label split_label
    split_list split_once strip_line_end strip_suffix extract_bracketed_references untagged_note
    parse_rule_type text_eq trim split lines replace_char is_whitespace to_ascii_lowercase
    display_nat
run_parser = parse_candidates ids

a_simple_action :
    parse_candidates ids (codes "Action\nName: Stride\nEffect: Move up to your Speed.")
    ≡ stride ∷ []
unfolding run_parser
a_simple_action = refl
