-- ===== src/Adapter/Actions.antt =====
-- `convert_page` of src/book_adapter.rs: actions, reactions and free actions.
pub mod Readback
pub mod Entries
pub mod Pages
use infernal_pf2e_parser_sim.Base.{
  ℕ, Bool, true, false, not, ◌&&◌, Option, none, some, List, [], ◌∷◌, ◌++◌, map, is_empty, length,
  leb, if◌then◌else◌, ◌>>=◌,
}
use infernal_pf2e_parser_sim.Std.Text.{
  Text, codes, join, split_whitespace, trim, lines, strip_suffix, strip_prefix, split_once,
}
use infernal_pf2e_parser_sim.Std.Unicode.{Unicode}
use infernal_pf2e_parser_sim.Adapter.{
  is_shouty, title_case, group_paragraphs, effect_line, traits_line, to_list, block_joiner,
}

abbrev pub action_cost_markers : List (Text × Text)
action_cost_markers =
    (codes "[one-action]", codes "Action")
    ∷ (codes "[two-actions]", codes "Action")
    ∷ (codes "[three-actions]", codes "Action")
    ∷ (codes "[free-action]", codes "Free Action")
    ∷ (codes "[reaction]", codes "Reaction")
    ∷ []

pub record RawEntry : Type 0 where
  pub name : Text
  pub rule_type_label : Text
  pub body_lines : List Text

-- The clause that `extract_book_label` finds, and what follows it in the paragraph.
unfoldable pub extract_book_label : Text → Text → Option (Text × Option Text)
extract_book_label paragraph label = do
  unlabelled ← strip_prefix label paragraph
  rest ← strip_prefix (codes " ") unlabelled
  elim (split_once (codes ". ") rest) [
    | none ↦ some (trim rest, none)
    | some (sentence, behind) ↦
        let value = sentence ++ codes "." in
        let remainder = trim (codes " " ++ behind) in
        some (trim value, if is_empty remainder then none else some remainder)
  ]

-- the local variables of `render_block`
pub record Parts : Type 0 where
  pub traits : List Text
  pub trigger : Option Text
  pub requirements : Option Text
  pub effect_parts : List Text

abbrev pub no_parts : Parts
no_parts = record { traits = []; trigger = none; requirements = none; effect_parts = [] }

-- one paragraph behind the test for a trait line
unfoldable pub apply_paragraph : Text → Parts → Parts
apply_paragraph paragraph p = elim (extract_book_label paragraph (codes "Requirements")) [
  | some (value, leftover) ↦ record p {
    requirements = some value;
    effect_parts = p.effect_parts ++ to_list leftover;
  }
  | none ↦ elim (extract_book_label paragraph (codes "Trigger")) [
    | some (value, leftover) ↦ record p {
      trigger = some value;
      effect_parts = p.effect_parts ++ to_list leftover;
    }
    | none ↦ record p { effect_parts = p.effect_parts ++ paragraph ∷ [] }
  ]
]

unfoldable pub apply_paragraphs : List Text → Parts → Parts
apply_paragraphs [] p = p
apply_paragraphs (paragraph ∷ rest) p = apply_paragraphs rest (apply_paragraph paragraph p)

abbrev pub optional_line : Text → Option Text → List Text
optional_line label none = []
optional_line label (some value) = (label ++ value) ∷ []

module _ ⦃u : Unicode⦄ where
  unfoldable pub detect_among : List (Text × Text) → Text → Option (Text × Text)
  detect_among [] line = none
  detect_among ((marker, rule_type_label) ∷ markers) line =
      let later = detect_among markers line in
      elim (strip_suffix marker line) [
        | none ↦ later
        | some prefix ↦
            let name = trim prefix in
            if not (is_empty name) && is_shouty name
            then some (title_case name, rule_type_label)
            else later
      ]

  unfoldable pub detect_heading : Text → Option (Text × Text)
  detect_heading line = detect_among action_cost_markers line

  abbrev pub add_line : Text → Option RawEntry → Option RawEntry
  add_line line none = none
  add_line line (some entry) = some (record entry { body_lines = entry.body_lines ++ line ∷ [] })

  -- the loop of `split_entries`, over `entries` and `current`
  unfoldable pub split_entries_from : List RawEntry → Option RawEntry → List Text → List RawEntry
  split_entries_from entries current [] = entries ++ to_list current
  split_entries_from entries current (raw_line ∷ rest) =
      let line = trim raw_line in
      elim (detect_heading line) [
        | some (name, rule_type_label) ↦
            split_entries_from (entries ++ to_list current)
              (some (record { name = name; rule_type_label = rule_type_label; body_lines = [] }))
              rest
        | none ↦ split_entries_from entries (add_line line current) rest
      ]

  unfoldable pub split_entries : Text → List RawEntry
  split_entries text = split_entries_from [] none (lines text)

  -- The paragraph at index 0 is a trait if it is shouty and has at most two words.
  unfoldable pub read_parts : List Text → Parts
  read_parts [] = no_parts
  read_parts (first ∷ rest) =
      if is_shouty first && leb (length (split_whitespace first)) 2
      then apply_paragraphs rest (record no_parts { traits = u.to_lowercase first ∷ [] })
      else apply_paragraphs (first ∷ rest) no_parts

  unfoldable pub render_block : RawEntry → Text
  render_block entry =
      let p = read_parts (group_paragraphs entry.body_lines) in
      join (codes "\n") (
        entry.rule_type_label
        ∷ (codes "Name: " ++ entry.name)
        ∷ (traits_line p.traits
            ++ (optional_line (codes "Trigger: ") p.trigger
                ++ (optional_line (codes "Requirements: ") p.requirements
                    ++ effect_line p.effect_parts))))

  unfoldable pub convert_page : Text → Text
  convert_page text = join block_joiner (map render_block (split_entries text))
