-- ===== src/Adapter/Conditions.antt =====
-- `convert_condition_page` of src/book_adapter.rs: the conditions glossary.
pub mod Readback
pub mod Entries
pub mod Pages
use infernal_pf2e_parser_sim.Base.{
  Bool, true, false, not, ◌&&◌, ◌||◌, Option, none, some, List, [], ◌∷◌, ◌++◌, map, is_empty,
  length, leb, if◌then◌else◌, all,
}
use infernal_pf2e_parser_sim.Std.Text.{
  Text, codes, join, trim, lines, is_ascii_digit, eq_ignore_ascii_case, split_whitespace,
}
use infernal_pf2e_parser_sim.Std.Unicode.{Unicode}
use infernal_pf2e_parser_sim.Adapter.{to_list, block_joiner}

pub record RawConditionEntry : Type 0 where
  pub name : Text
  pub body_lines : List Text

unfoldable pub is_page_number : Text → Bool
is_page_number line = not (is_empty line) && all is_ascii_digit line

abbrev pub add_line : Text → Option RawConditionEntry → Option RawConditionEntry
add_line line none = none
add_line line (some entry) = some (record entry { body_lines = entry.body_lines ++ line ∷ [] })

module _ ⦃u : Unicode⦄ where
  unfoldable pub is_strict_title_case : Text → Bool
  is_strict_title_case [] = false
  is_strict_title_case (first ∷ rest) =
      u.is_uppercase first && all (λ c. not (u.is_alphabetic c) || u.is_lowercase c) rest

  unfoldable pub is_condition_heading : Text → Bool
  is_condition_heading line =
      let words = split_whitespace line in
      not (is_empty words) && leb (length words) 2 && all is_strict_title_case words

  -- the loop of `split_condition_entries`
  unfoldable pub split_conditions_from :
      List RawConditionEntry → Option RawConditionEntry → Bool → List Text → List RawConditionEntry
  split_conditions_from entries current past_anchor [] = entries ++ to_list current
  split_conditions_from entries current false (raw_line ∷ rest) =
      split_conditions_from entries current
        (eq_ignore_ascii_case (trim raw_line) (codes "List of Conditions")) rest
  split_conditions_from entries current true (raw_line ∷ rest) =
      let line = trim raw_line in
      let skipped = split_conditions_from entries current true rest in
      let opened =
        split_conditions_from (entries ++ to_list current)
          (some (record { name = line; body_lines = [] })) true rest in
      let longer = split_conditions_from entries (add_line line current) true rest in
      if is_empty line || is_page_number line
      then skipped
      else if is_condition_heading line
      then opened
      else longer

  unfoldable pub split_condition_entries : Text → List RawConditionEntry
  split_condition_entries text = split_conditions_from [] none false (lines text)

unfoldable pub render_condition_block : RawConditionEntry → Text
render_condition_block entry =
    let effect = trim (join (codes " ") entry.body_lines) in
    join (codes "\n") (
      codes "Condition"
      ∷ (codes "Name: " ++ entry.name)
      ∷ (if is_empty effect then [] else (codes "Effect: " ++ effect) ∷ []))

module _ ⦃u : Unicode⦄ where
  unfoldable pub convert_condition_page : Text → Text
  convert_condition_page text =
      join block_joiner (map render_condition_block (split_condition_entries text))
