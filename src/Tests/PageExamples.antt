-- ===== src/Tests/PageExamples.antt =====
-- Whole pages of the book, converted and parsed.
use infernal_pf2e_parser_sim.Base.{none, [], ◌∷◌, ◌≡◌, refl, sym, subst, arith, All}
use infernal_pf2e_parser_sim.Std.Text.{
  Text, codes, trim, is_whitespace, to_ascii_lowercase, strip_prefix, strip_suffix, split_once,
  join, split_whitespace, lines, strip_line_end, contains, is_ascii_digit, eq_ignore_ascii_case,
  text_eq,
}
use infernal_pf2e_parser_sim.Parser.{parse_candidates}
use infernal_pf2e_parser_sim.Adapter.{group_paragraphs, is_shouty, title_case, title_word}
use infernal_pf2e_parser_sim.Adapter.Pages.{numbered}
use infernal_pf2e_parser_sim.Adapter.Actions.{
  RawEntry, Parts, split_entries, detect_heading, split_entries_from, detect_among, render_block,
  convert_page, read_parts, apply_paragraphs, apply_paragraph, extract_book_label,
}
use infernal_pf2e_parser_sim.Adapter.Actions.Readback.{ArePlain}
use infernal_pf2e_parser_sim.Adapter.Actions.Pages.{candidate_of, IsLabel, convert_page-parsed}
use infernal_pf2e_parser_sim.Adapter.Conditions.{
  RawConditionEntry, split_condition_entries, split_conditions_from, is_page_number,
  is_condition_heading, is_strict_title_case, render_condition_block, convert_condition_page,
}
use infernal_pf2e_parser_sim.Adapter.Conditions.Readback.{condition_candidate}
use infernal_pf2e_parser_sim.Adapter.Conditions.Pages.{convert_condition_page-parsed}
use infernal_pf2e_parser_sim.Adapter.Feats.{
  RawFeatEntry, split_feat_entries, split_feats_fuel, heading_at, is_feat_level_marker,
  try_read_heading_block, scan_heading, collect_traits, render_feat_block, convert_feat_page,
}
use infernal_pf2e_parser_sim.Adapter.Feats.Readback.{feat_candidate}
use infernal_pf2e_parser_sim.Adapter.Feats.Pages.{convert_feat_page-parsed}
use infernal_pf2e_parser_sim.Adapter.Feats.Pages as FeatPages
use infernal_pf2e_parser_sim.Adapter.Conditions.Pages as ConditionPages
use infernal_pf2e_parser_sim.Adapter.Actions.Pages as ActionPages
use infernal_pf2e_parser_sim.Tests.Ascii.{ascii}
use infernal_pf2e_parser_sim.Tests.ParserTests.{ids}

-- with two conditions, a page number and a line in front of the glossary
abbrev glossary : Text
glossary = codes "Appendix\nList of Conditions\nBlinded\nYou can't see.\n412\n\nDazed\nYou reel."

glossary_read :
    split_condition_entries glossary
    ≡ record { name = codes "Blinded"; body_lines = codes "You can't see." ∷ [] }
      ∷ record { name = codes "Dazed"; body_lines = codes "You reel." ∷ [] }
      ∷ []
unfolding split_condition_entries split_conditions_from lines trim strip_line_end strip_suffix
    eq_ignore_ascii_case is_page_number is_condition_heading is_strict_title_case split_whitespace
    is_ascii_digit is_whitespace text_eq to_ascii_lowercase
glossary_read = refl

glossary-IsWhole :
    All (λ (e : RawConditionEntry). ConditionPages.IsWhole e) (split_condition_entries glossary)
unfolding render_condition_block split_once strip_prefix trim is_whitespace join
glossary-IsWhole = rw glossary_read (refl, (refl, tt))

convert_condition_page-parsed_example :
    parse_candidates ids (convert_condition_page glossary)
    ≡ numbered condition_candidate ids 0 (split_condition_entries glossary)
convert_condition_page-parsed_example = convert_condition_page-parsed ids glossary glossary-IsWhole

-- a heading with its trait behind the level, and one line of text
abbrev feat_page : Text
feat_page = codes "TOUGHNESS\n\nFEAT 1\nGENERAL\nYou are tough."

abbrev toughness : RawFeatEntry
toughness = record {
  name = codes "Toughness";
  traits = codes "general" ∷ [];
  body_lines = codes "You are tough." ∷ [];
}

feat_page_read : split_feat_entries feat_page ≡ toughness ∷ []
unfolding split_feat_entries split_feats_fuel lines trim strip_line_end strip_suffix is_whitespace
    heading_at is_shouty is_feat_level_marker strip_prefix try_read_heading_block scan_heading
    title_case title_word collect_traits join contains split_whitespace to_ascii_lowercase
    is_ascii_digit
feat_page_read = refl

toughness-IsWhole : FeatPages.IsWhole toughness
unfolding trim is_whitespace render_feat_block split_once strip_prefix join group_paragraphs
toughness-IsWhole = record {
  name = record { not_empty = λ e. cc; trimmed = refl; one_line = omega arith };
  traits = (
    (
      record { not_empty = λ e. cc; trimmed = refl; one_line = omega arith },
      record { not_empty = λ e. cc; trimmed = refl; no_comma = omega arith },
    ),
    tt,
  );
  whole = refl;
}

convert_feat_page-parsed_example :
    parse_candidates ids (convert_feat_page feat_page)
    ≡ numbered feat_candidate ids 0 (split_feat_entries feat_page)
convert_feat_page-parsed_example =
    convert_feat_page-parsed ids feat_page (rw feat_page_read (toughness-IsWhole, tt))

-- a page of actions, with a line in front of the first
abbrev actions_page : Text
actions_page = codes "Chapter 9\nSTEP [one-action]\nMOVE\n\nMove a little."

abbrev step : RawEntry
step = record {
  name = codes "Step";
  rule_type_label = codes "Action";
  body_lines = codes "MOVE" ∷ [] ∷ codes "Move a little." ∷ [];
}

actions_page_read : split_entries actions_page ≡ step ∷ []
unfolding split_entries split_entries_from detect_heading detect_among lines trim strip_line_end
    strip_suffix is_whitespace is_shouty title_case title_word join split_whitespace
    to_ascii_lowercase text_eq
actions_page_read = refl

abbrev step_parts : Parts
step_parts = record {
  traits = codes "move" ∷ [];
  trigger = none;
  requirements = none;
  effect_parts = codes "Move a little." ∷ [];
}

step_read : read_parts (group_paragraphs step.body_lines) ≡ step_parts
unfolding read_parts group_paragraphs is_shouty join split_whitespace apply_paragraphs
    apply_paragraph extract_book_label strip_prefix split_once to_ascii_lowercase trim
step_read = refl

step_parts-ArePlain : ArePlain step_parts
unfolding trim is_whitespace
step_parts-ArePlain = record {
  traits = (
    (
      record { not_empty = λ e. cc; trimmed = refl; one_line = omega arith },
      record { not_empty = λ e. cc; trimmed = refl; no_comma = omega arith },
    ),
    tt,
  );
  trigger = tt;
  requirements = tt;
  effect_parts = (record { not_empty = λ e. cc; trimmed = refl; one_line = omega arith }, tt);
}

step-IsWhole : ActionPages.IsWhole step
unfolding trim is_whitespace render_block split_once strip_prefix join
step-IsWhole = record {
  name = record { not_empty = λ e. cc; trimmed = refl; one_line = omega arith };
  parts = subst ArePlain (sym step_read) step_parts-ArePlain;
  whole = rw step_read refl;
}

convert_page-parsed_example :
    (parse_candidates ids (convert_page actions_page)
      ≡ numbered candidate_of ids 0 (split_entries actions_page))
    × All (λ (e : RawEntry). IsLabel e.rule_type_label) (split_entries actions_page)
convert_page-parsed_example =
    convert_page-parsed ids actions_page (rw actions_page_read (step-IsWhole, tt))
