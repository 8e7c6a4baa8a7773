-- ===== src/Adapter/Actions/Readback.antt =====
-- What `parser.rs` reads from a block that `render_block` wrote.
use infernal_pf2e_parser_sim.Base.{
  Option, none, some, List, [], ◌∷◌, ◌++◌, ◌≡◌, refl, ◌∙◌, ap, All, All-append, arith,
}
use infernal_pf2e_parser_sim.Std.Text.{
  Text, codes, trim, text_eq, is_whitespace, to_ascii_lowercase, replace_char,
}
use infernal_pf2e_parser_sim.Std.Text.Lines.{IsPlain, IsPlain-append}
use infernal_pf2e_parser_sim.Std.Unicode.{Unicode}
use infernal_pf2e_parser_sim.Domain.{
  RuleType, action, free_action, reaction, parse_rule_type, Uuid, Candidate,
}
use infernal_pf2e_parser_sim.Parser.{
  Fields, no_fields, detect_bare_type, apply_lines, parse_block, finish_block,
  extract_bracketed_references, known_type, split_list,
}
use infernal_pf2e_parser_sim.Parser.Labels.{
  detect_bare_type_ascii, apply_line_trigger, apply_line_requirements,
}
use infernal_pf2e_parser_sim.Parser.Blocks.{IsBlock}
use infernal_pf2e_parser_sim.Adapter.{effect_line, traits_line, group_paragraphs}
use infernal_pf2e_parser_sim.Adapter.Actions.{
  RawEntry, Parts, optional_line, read_parts, render_block,
}
use infernal_pf2e_parser_sim.Adapter.Rendered.{
  IsTrait, effect_of, name_line-IsPlain, traits_line-IsPlain, effect_line-IsPlain, apply_name_line,
  apply_traits_line, apply_effect_line, parse_block_typed, join-IsBlock,
}

-- The labels that the action-cost markers stand for, with the kinds of rule that they name.
pub data LabelOf : RuleType → Text → Type 0 where
  for_action : {t : Text} → t ≡ codes "Action" → LabelOf action t
  for_free_action : {t : Text} → t ≡ codes "Free Action" → LabelOf free_action t
  for_reaction : {t : Text} → t ≡ codes "Reaction" → LabelOf reaction t

abbrev OptionPlain : Option Text → Type 0
OptionPlain none = Unit
OptionPlain (some t) = IsPlain t

-- the comma-separated pieces of a clause, as the parser cuts it
abbrev pub clauses_of : Option Text → List Text
clauses_of none = []
clauses_of (some t) = split_list t

-- Pieces of an entry that keep their places in the rendered block.
pub record ArePlain (p : Parts) : Type 0 where
  pub traits : All IsTrait p.traits
  pub trigger : OptionPlain p.trigger
  pub requirements : OptionPlain p.requirements
  pub effect_parts : All IsPlain p.effect_parts

label-IsPlain : {t : RuleType} {label : Text} → LabelOf t label → IsPlain label
unfolding trim is_whitespace
label-IsPlain (for_action e) =
    rw e (record { not_empty = cc; trimmed = refl; one_line = omega arith })
label-IsPlain (for_free_action e) =
    rw e (record { not_empty = cc; trimmed = refl; one_line = omega arith })
label-IsPlain (for_reaction e) =
    rw e (record { not_empty = cc; trimmed = refl; one_line = omega arith })

trigger-IsPlain :
    (o : Option Text) → OptionPlain o → All IsPlain (optional_line (codes "Trigger: ") o)
unfolding is_whitespace
trigger-IsPlain none h = tt
trigger-IsPlain (some t) h = (IsPlain-append b'T' (codes "rigger: ") t refl (omega arith) h, tt)

requirements-IsPlain :
    (o : Option Text) → OptionPlain o → All IsPlain (optional_line (codes "Requirements: ") o)
unfolding is_whitespace
requirements-IsPlain none h = tt
requirements-IsPlain (some t) h =
    (IsPlain-append b'R' (codes "equirements: ") t refl (omega arith) h, tt)

-- the lines behind the name, in the order that `render_block` writes them
abbrev part_lines : Parts → List Text
part_lines p =
    traits_line p.traits
    ++ (optional_line (codes "Trigger: ") p.trigger
        ++ (optional_line (codes "Requirements: ") p.requirements ++ effect_line p.effect_parts))

part_lines-IsPlain : (p : Parts) → ArePlain p → All IsPlain (part_lines p)
part_lines-IsPlain p h =
    All-append IsPlain (traits_line p.traits) _ (traits_line-IsPlain p.traits h.traits) (
      All-append IsPlain (optional_line (codes "Trigger: ") p.trigger) _
        (trigger-IsPlain p.trigger h.trigger)
        (All-append IsPlain (optional_line (codes "Requirements: ") p.requirements) _
          (requirements-IsPlain p.requirements h.requirements)
          (effect_line-IsPlain p.effect_parts h.effect_parts)))

module _ ⦃u : Unicode⦄ where
  detect_label : {t : RuleType} {label : Text} → LabelOf t label → detect_bare_type label ≡ some t
  unfolding parse_rule_type replace_char text_eq to_ascii_lowercase known_type
  detect_label (for_action e) = rw e (
      detect_bare_type_ascii (codes "Action") (label-IsPlain (for_action refl)).trimmed
        (omega arith))
  detect_label (for_free_action e) = rw e (
      detect_bare_type_ascii (codes "Free Action") (label-IsPlain (for_free_action refl)).trimmed
        (omega arith))
  detect_label (for_reaction e) = rw e (
      detect_bare_type_ascii (codes "Reaction") (label-IsPlain (for_reaction refl)).trimmed
        (omega arith))

  apply_trigger :
      (o : Option Text) (rest : List Text) (f : Fields)
      → OptionPlain o
      → f.trigger ≡ none
      → apply_lines (optional_line (codes "Trigger: ") o ++ rest) f
        ≡ apply_lines rest (record f { trigger = o })
  unfolding apply_lines
  apply_trigger none rest f h e = λ i. apply_lines rest (record f { trigger = e i })
  apply_trigger (some t) rest f h e = ap (apply_lines rest) (apply_line_trigger t f h.trimmed)

  apply_requirements :
      (o : Option Text) (rest : List Text) (f : Fields)
      → OptionPlain o
      → f.requirements ≡ []
      → apply_lines (optional_line (codes "Requirements: ") o ++ rest) f
        ≡ apply_lines rest (record f { requirements = clauses_of o })
  unfolding apply_lines
  apply_requirements none rest f h e = λ i. apply_lines rest (record f { requirements = e i })
  apply_requirements (some t) rest f h e =
      ap (apply_lines rest) (apply_line_requirements t f h.trimmed)

  abbrev parts_of : RawEntry → Parts
  parts_of e = read_parts (group_paragraphs e.body_lines)

  -- the fields that the parser finds behind the type line
  part_fields :
      (t : RuleType) (name : Text) (p : Parts)
      → IsPlain name
      → ArePlain p
      → apply_lines
          ((codes "Name: " ++ name) ∷ part_lines p)
          (record no_fields { rule_type = some t })
        ≡ record no_fields {
          rule_type = some t;
          name = some name;
          traits = p.traits;
          trigger = p.trigger;
          requirements = clauses_of p.requirements;
          effect = effect_of p.effect_parts;
        }
  part_fields t name p n h =
      apply_name_line name _ _ n
      ∙ apply_traits_line p.traits _ _ h.traits refl
      ∙ apply_trigger p.trigger _ _ h.trigger refl
      ∙ apply_requirements p.requirements _ _ h.requirements refl
      ∙ apply_effect_line p.effect_parts _ h.effect_parts refl

  -- the candidate that the entry stands for
  abbrev pub action_candidate : Uuid → RuleType → RawEntry → Candidate
  action_candidate id t e = record {
    candidate_id = id;
    rule_type = t;
    name = some e.name;
    traits = (parts_of e).traits;
    trigger = (parts_of e).trigger;
    requirements = clauses_of (parts_of e).requirements;
    effect = effect_of (parts_of e).effect_parts;
    prerequisites = [];
    references = extract_bracketed_references (render_block e);
    source_text = render_block e;
    inferences = [];
    confidence = 90;
  }

  -- An entry with a label of the marker table, a plain name and plain pieces, rendered as a block
  -- and parsed, gives a candidate of the label's kind at full confidence, with the entry's name
  -- and pieces. Its requirements are the clause cut at its commas.
  pub parse-render_action :
      (id : Uuid) (t : RuleType) (e : RawEntry)
      → LabelOf t e.rule_type_label
      → IsPlain e.name
      → ArePlain (read_parts (group_paragraphs e.body_lines))
      → parse_block id (render_block e) ≡ action_candidate id t e
  unfolding render_block
  parse-render_action id t e l n h =
      parse_block_typed id e.rule_type_label _ t
        (label-IsPlain l, (name_line-IsPlain e.name n, part_lines-IsPlain (parts_of e) h))
        (detect_label l)
      ∙ ap (finish_block id (render_block e)) (part_fields t e.name (parts_of e) n h)
      ∙ unfold finish_block in refl

  -- A rendered entry is a block as the parser takes it.
  pub render-IsBlock :
      {t : RuleType} (e : RawEntry)
      → LabelOf t e.rule_type_label
      → IsPlain e.name
      → ArePlain (read_parts (group_paragraphs e.body_lines))
      → IsBlock (render_block e)
  unfolding render_block
  render-IsBlock e l n h =
      join-IsBlock e.rule_type_label _
        (label-IsPlain l, (name_line-IsPlain e.name n, part_lines-IsPlain (parts_of e) h))
