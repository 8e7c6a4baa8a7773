-- ===== src/Adapter/Feats.antt =====
-- `convert_feat_page` of src/book_adapter.rs: feats. An index into the lines is the list of the
-- lines from there on.
pub mod Readback
pub mod Pages
pub mod Splitting
use infernal_pf2e_parser_sim.Base.{
  ℕ, zero, suc, Bool, true, false, not, ◌&&◌, Option, none, some, List, [], ◌∷◌, ◌++◌, map,
  is_empty, length, leb, if◌then◌else◌, all,
}
use infernal_pf2e_parser_sim.Std.Text.{
  Text, codes, join, trim, lines, strip_prefix, is_ascii_digit, contains,
}
use infernal_pf2e_parser_sim.Std.Unicode.{Unicode}
use infernal_pf2e_parser_sim.Adapter.{
  is_shouty, title_case, group_paragraphs, effect_line, traits_line, to_list, block_joiner,
}

pub record RawFeatEntry : Type 0 where
  pub name : Text
  pub traits : List Text
  pub body_lines : List Text

abbrev pub max_heading_block_lines : ℕ
max_heading_block_lines = 8

unfoldable pub is_feat_level_marker : Text → Bool
is_feat_level_marker line = elim (strip_prefix (codes "FEAT ") line) [
  | none ↦ false
  | some rest ↦ not (is_empty rest) && all is_ascii_digit rest
]

-- What the scan of a heading block has found when it stops: the shouty lines, whether a level
-- marker stood among them, and the lines that follow.
pub record Scan : Type 0 where
  pub shouty_lines : List Text
  pub saw_feat_marker : Bool
  pub rest : List Text

module _ ⦃u : Unicode⦄ where
  -- the `while` loop of `try_read_heading_block`
  unfoldable pub scan_heading : List Text → List Text → Bool → Scan
  scan_heading [] shouty saw = record { shouty_lines = shouty; saw_feat_marker = saw; rest = [] }
  scan_heading (line ∷ rest) shouty saw =
      let stop : Scan = record {
        shouty_lines = shouty;
        saw_feat_marker = saw;
        rest = line ∷ rest;
      } in
      let skipped = scan_heading rest shouty saw in
      let marked = scan_heading rest shouty true in
      let longer = scan_heading rest (shouty ++ line ∷ []) saw in
      if not (leb (length shouty) max_heading_block_lines)
      then stop
      else if is_empty line
      then skipped
      else if is_feat_level_marker line
      then marked
      else if is_shouty line
      then longer
      else stop

  -- every distinct trait word, in the order of their first lines
  unfoldable pub collect_traits : List Text → List Text → List Text
  collect_traits traits [] = traits
  collect_traits traits (line ∷ rest) =
      let trait_word = u.to_lowercase line in
      collect_traits (if contains traits trait_word then traits else traits ++ trait_word ∷ []) rest

  pub heading_of : List Text → Scan → Option (Text × List Text × List Text)
  heading_of [] s = none
  heading_of (name_line ∷ trait_lines) s =
      if s.saw_feat_marker
      then some (title_case name_line, collect_traits [] trait_lines, s.rest)
      else none

  -- name, traits, and the lines behind the heading
  unfoldable pub try_read_heading_block : List Text → Option (Text × List Text × List Text)
  unfolding heading_of
  try_read_heading_block from = let s = scan_heading from [] false in heading_of s.shouty_lines s

  -- the guard on the first line of a heading scan
  unfoldable pub heading_at : Text → List Text → Option (Text × List Text × List Text)
  heading_at line rest =
      if is_shouty line && not (is_feat_level_marker line)
      then try_read_heading_block (line ∷ rest)
      else none

  abbrev pub add_line : Text → Option RawFeatEntry → Option RawFeatEntry
  add_line line none = none
  add_line line (some entry) = some (record entry { body_lines = entry.body_lines ++ line ∷ [] })

  -- The `while` loop of `split_feat_entries`. Every round drops a line, so the number of lines is
  -- fuel enough. Blank lines are dropped before they reach a body.
  unfoldable pub split_feats_fuel :
      ℕ → List RawFeatEntry → Option RawFeatEntry → List Text → List RawFeatEntry
  split_feats_fuel f entries current [] = entries ++ to_list current
  split_feats_fuel zero entries current (line ∷ rest) = entries ++ to_list current
  split_feats_fuel (suc f) entries current (line ∷ rest) =
      let skipped = split_feats_fuel f entries current rest in
      let read : List RawFeatEntry = elim (heading_at line rest) [
        | some (name, traits, behind) ↦
            split_feats_fuel f (entries ++ to_list current)
              (some (record { name = name; traits = traits; body_lines = [] })) behind
        | none ↦ split_feats_fuel f entries (add_line line current) rest
      ] in
      if is_empty line then skipped else read

  unfoldable pub split_feat_entries : Text → List RawFeatEntry
  split_feat_entries text =
      let all_lines = map trim (lines text) in split_feats_fuel (length all_lines) [] none all_lines

unfoldable pub render_feat_block : RawFeatEntry → Text
render_feat_block entry = join (codes "\n") (
    codes "Feat"
    ∷ (codes "Name: " ++ entry.name)
    ∷ (traits_line entry.traits ++ effect_line (group_paragraphs entry.body_lines)))

module _ ⦃u : Unicode⦄ where
  unfoldable pub convert_feat_page : Text → Text
  convert_feat_page text = join block_joiner (map render_feat_block (split_feat_entries text))
