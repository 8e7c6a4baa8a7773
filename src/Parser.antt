-- ===== src/Parser.antt =====
-- src/parser.rs: PF2e source text to candidates, by line-based rules.
pub mod Labels
pub mod States
pub mod Grounded
pub mod Confidence
pub mod Blocks
pub mod References
use infernal_pf2e_parser_sim.Base.{
  ℕ, zero, suc, ◌-◌, Bool, true, false, not, ◌&&◌, ◌||◌, Option, none, some, List, [], ◌∷◌, ◌++◌,
  map, ltb, if◌then◌else◌, length, is_empty, filter, is_none, ◌>>=◌,
}
use infernal_pf2e_parser_sim.Std.Text.{
  Text, codes, text_eq, trim, split, split_once, lines, replace_char,
}
use infernal_pf2e_parser_sim.Std.Decimal.{display_nat}
use infernal_pf2e_parser_sim.Std.Unicode.{Unicode}
use infernal_pf2e_parser_sim.Domain.{RuleType, unclassified, parse_rule_type, Uuid, Candidate}

abbrev pub block_separator : Text
block_separator = codes "---"

-- the confidences and penalties, in hundredths
abbrev pub base_confidence : ℕ
base_confidence = 90

abbrev pub unclassified_confidence : ℕ
unclassified_confidence = 20

abbrev pub missing_type_penalty : ℕ
missing_type_penalty = 20

abbrev pub leftover_penalty : ℕ
leftover_penalty = 15

unfoldable pub split_list : Text → List Text
split_list value = filter (λ item. not (is_empty item)) (map trim (split (codes ",") value))

-- The `while let` loop over the remainder. Each round shortens the remainder, so a fuel of more
-- than the block's length is never used up.
unfoldable pub bracketed_fuel : ℕ → Text → List Text
bracketed_fuel zero remainder = []
bracketed_fuel (suc f) remainder = elim (split_once (codes "[[") remainder) [
  | none ↦ []
  | some (before, after_open) ↦ elim (split_once (codes "]]") after_open) [
    | none ↦ []
    | some (inside, after_close) ↦
        let reference = trim inside in
        let later = bracketed_fuel f after_close in
        if is_empty reference then later else reference ∷ later
  ]
]

unfoldable pub extract_bracketed_references : Text → List Text
unfolding bracketed_fuel
extract_bracketed_references block = bracketed_fuel (suc (length block)) block

-- The local variables of `parse_block` that its loop over the lines writes.
pub record Fields : Type 0 where
  pub rule_type : Option RuleType
  pub name : Option Text
  pub traits : List Text
  pub trigger : Option Text
  pub requirements : List Text
  pub prerequisites : List Text
  pub effect : Option Text
  pub references : List Text
  pub leftover_lines : List Text

abbrev pub no_fields : Fields
no_fields = record {
  rule_type = none;
  name = none;
  traits = [];
  trigger = none;
  requirements = [];
  prerequisites = [];
  effect = none;
  references = [];
  leftover_lines = [];
}

-- the `match` of `detect_bare_type`
unfoldable pub known_type : RuleType → Option RuleType
known_type unclassified = none
known_type detected = some detected

module _ ⦃u : Unicode⦄ where
  unfoldable pub normalize_type : Text → Text
  normalize_type value = replace_char b' ' b'-' (u.to_lowercase (trim value))

  unfoldable pub detect_bare_type : Text → Option RuleType
  unfolding known_type
  detect_bare_type line = known_type (parse_rule_type (normalize_type line))

  unfoldable pub split_label : Text → Option (Text × Text)
  split_label line = do
    (raw_label, value) ← split_once (codes ":") line
    let label = trim raw_label
    if is_empty label || ltb 32 (length label)
        then none
        else some (u.to_lowercase label, trim value)

  -- the arms of the `match` on a label
  unfoldable pub apply_label : Text → Text → Text → Fields → Fields
  apply_label line label value f =
      if text_eq label (codes "type")
      then record f { rule_type = some (parse_rule_type (normalize_type value)) }
      else if text_eq label (codes "name")
      then record f { name = some value }
      else if text_eq label (codes "traits")
      then record f { traits = split_list value }
      else if text_eq label (codes "trigger")
      then record f { trigger = some value }
      else if text_eq label (codes "requirements")
      then record f { requirements = split_list value }
      else if text_eq label (codes "prerequisites")
      then record f { prerequisites = split_list value }
      else if text_eq label (codes "effect")
      then record f { effect = some value }
      else if text_eq label (codes "see also") || text_eq label (codes "references")
      then record f { references = f.references ++ split_list value }
      else record f { leftover_lines = f.leftover_lines ++ line ∷ [] }

  -- one line behind the test for a bare type
  unfoldable pub apply_line : Text → Fields → Fields
  apply_line line f = elim (split_label line) [
    | none ↦ record f { leftover_lines = f.leftover_lines ++ line ∷ [] }
    | some (label, value) ↦ apply_label line label value f
  ]

  unfoldable pub apply_lines : List Text → Fields → Fields
  apply_lines [] f = f
  apply_lines (line ∷ rest) f = apply_lines rest (apply_line line f)

  -- The loop: only the line at index 0 may be a bare type.
  unfoldable pub read_fields : List Text → Fields
  read_fields [] = no_fields
  read_fields (first ∷ rest) = elim (detect_bare_type first) [
    | some detected ↦ apply_lines rest (record no_fields { rule_type = some detected })
    | none ↦ apply_lines (first ∷ rest) no_fields
  ]

-- trimmed lines that are not empty
unfoldable pub block_lines : Text → List Text
block_lines block = filter (λ line. not (is_empty line)) (map trim (lines block))

unfoldable pub untagged_note : List Text → Text
untagged_note leftover =
    display_nat (length leftover)
    ++ codes " untagged line(s) present in source, not mapped to a known field"

-- the type that the block states, and the confidence left by the test for it
pub typed : Option RuleType → RuleType × ℕ
typed (some detected) = (detected, base_confidence)
typed none = (unclassified, base_confidence - missing_type_penalty)

unfoldable pub is_unclassified : RuleType → Bool
is_unclassified unclassified = true
is_unclassified _ = false

-- `clamp(0.0, 1.0)`, in hundredths; no value here is below 0
unfoldable pub clamp : ℕ → ℕ
clamp c = if ltb 100 c then 100 else c

-- no normalized field was filled in
unfoldable pub has_no_field : Fields → Bool
has_no_field f =
    is_none f.name
    && is_none f.trigger
    && is_none f.effect
    && is_empty f.traits
    && is_empty f.requirements
    && is_empty f.prerequisites

-- The part of `parse_block` behind its loop. `id` is what `Uuid::new_v4` returns: each of the two
-- ways out draws one.
unfoldable pub finish_block : Uuid → Text → Fields → Candidate
unfolding typed is_unclassified clamp has_no_field
finish_block id block f =
    let references = f.references ++ extract_bracketed_references block in
    let (rule_type, typed_confidence) = typed f.rule_type in
    let untagged = not (is_empty f.leftover_lines) in
    let inferences = if untagged then untagged_note f.leftover_lines ∷ [] else [] in
    let confidence = if untagged then typed_confidence - leftover_penalty else typed_confidence in
    if has_no_field f && is_unclassified rule_type
    then record {
      candidate_id = id;
      rule_type = unclassified;
      name = none;
      traits = [];
      trigger = none;
      requirements = [];
      effect = none;
      prerequisites = [];
      references = references;
      source_text = block;
      inferences = [];
      confidence = unclassified_confidence;
    }
    else record {
      candidate_id = id;
      rule_type = rule_type;
      name = f.name;
      traits = f.traits;
      trigger = f.trigger;
      requirements = f.requirements;
      effect = f.effect;
      prerequisites = f.prerequisites;
      references = references;
      source_text = block;
      inferences = inferences;
      confidence = clamp confidence;
    }

unfoldable pub source_blocks : Text → List Text
source_blocks source_text =
    filter (λ block. not (is_empty block)) (map trim (split block_separator source_text))

module _ ⦃u : Unicode⦄ where
  unfoldable pub parse_block : Uuid → Text → Candidate
  parse_block id block = finish_block id block (read_fields (block_lines block))

  -- The `n`-th call of `Uuid::new_v4` returns `ids n`.
  unfoldable pub parse_blocks : (ℕ → Uuid) → ℕ → List Text → List Candidate
  parse_blocks ids n [] = []
  parse_blocks ids n (b ∷ bs) = parse_block (ids n) b ∷ parse_blocks ids (suc n) bs

  unfoldable pub parse_candidates : (ℕ → Uuid) → Text → List Candidate
  parse_candidates ids source_text = parse_blocks ids 0 (source_blocks source_text)
