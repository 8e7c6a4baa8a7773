-- ===== src/Tests/AdapterExamples.antt =====
-- What the book adapter's splitters make of concrete pages.
use infernal_pf2e_parser_sim.Base.{none, [], ◌≡◌, All}
use infernal_pf2e_parser_sim.Std.Text.{codes, trim}
use infernal_pf2e_parser_sim.Base.{length, ◌+◌, map}
use infernal_pf2e_parser_sim.Std.Text.{Text, lines}
use infernal_pf2e_parser_sim.Adapter.Feats.Splitting.{split_feat_entries-enough}
use infernal_pf2e_parser_sim.Adapter.Feats.{split_feats_fuel, split_feat_entries}
use infernal_pf2e_parser_sim.Adapter.Actions.Entries.{
  all_marks, from_opening, marks, split_entries-marks,
}
use infernal_pf2e_parser_sim.Adapter.Actions.{split_entries}
use infernal_pf2e_parser_sim.Adapter.Conditions.Entries.{
  all_lines, from_heading, kept, after_anchor, IsEntry, split_condition_entries-IsEntry,
}
use infernal_pf2e_parser_sim.Adapter.Conditions.{split_condition_entries}
use infernal_pf2e_parser_sim.Tests.Ascii.{ascii}

-- a heading with its trait behind the level, and one line of text
abbrev feat_page : Text
feat_page = codes "TOUGHNESS\n\nFEAT 1\nGENERAL\nYou are tough."

split_feat_entries-enough_example :
    split_feats_fuel (length (map trim (lines feat_page)) + 9) [] none (map trim (lines feat_page))
    ≡ split_feat_entries feat_page
split_feat_entries-enough_example = split_feat_entries-enough 9 feat_page

-- a page of the glossary, with its page number
abbrev glossary : Text
glossary = codes "Appendix\nList of Conditions\nBlinded\nYou can't see.\n412\n\nDazed\nYou reel."

split_condition_entries-IsEntry_example :
    (all_lines (split_condition_entries glossary)
      ≡ from_heading (kept (after_anchor (lines glossary))))
    × All IsEntry (split_condition_entries glossary)
split_condition_entries-IsEntry_example = split_condition_entries-IsEntry glossary

-- a page of actions, with a line in front of the first
abbrev actions_page : Text
actions_page =
    codes "Chapter 9\nSTRIDE [one-action]\nMOVE\n\nMove up to your Speed.\nSTEP [one-action]\nMove."

split_entries-marks_example :
    all_marks (split_entries actions_page) ≡ from_opening (marks (lines actions_page))
split_entries-marks_example = split_entries-marks actions_page
