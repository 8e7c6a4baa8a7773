-- ===== src/Adapter/Conditions/Readback.antt =====
-- What `parser.rs` reads from a block that `render_condition_block` wrote.
use infernal_pf2e_parser_sim.Base.{
  none, some, List, [], ◌∷◌, ◌++◌, ◌≡◌, refl, ◌∙◌, ap, All, arith, if◌then◌else◌, is_empty,
}
use infernal_pf2e_parser_sim.Std.Text.{
  Text, codes, trim, join, text_eq, is_whitespace, to_ascii_lowercase, replace_char,
}
use infernal_pf2e_parser_sim.Std.Text.Lines.{IsPlain}
use infernal_pf2e_parser_sim.Std.Text.Split.{Lacks}
use infernal_pf2e_parser_sim.Std.Text.Trim.{IsTrimmed, trim-IsTrimmed}
use infernal_pf2e_parser_sim.Std.Unicode.{Unicode}
use infernal_pf2e_parser_sim.Domain.{condition, parse_rule_type, Uuid, Candidate}
use infernal_pf2e_parser_sim.Parser.{
  no_fields, detect_bare_type, apply_lines, parse_block, finish_block, extract_bracketed_references,
  known_type,
}
use infernal_pf2e_parser_sim.Parser.Labels.{detect_bare_type_ascii}
use infernal_pf2e_parser_sim.Parser.Blocks.{IsBlock}
use infernal_pf2e_parser_sim.Adapter.{effect_line}
use infernal_pf2e_parser_sim.Adapter.Conditions.{RawConditionEntry, render_condition_block}
use infernal_pf2e_parser_sim.Adapter.Rendered.{
  effect_of, name_line-IsPlain, effect_line-IsPlain, apply_name_line, apply_effect_line,
  parse_block_typed, join-IsBlock,
}

-- the text that the body lines make
abbrev pub body_text : RawConditionEntry → Text
body_text e = trim (join (codes " ") e.body_lines)

-- the paragraphs that the body stands for: none, or one
abbrev paragraph : Text → List Text
paragraph t = if is_empty t then [] else t ∷ []

paragraph-IsPlain : (s : Text) → Lacks b'\n' (trim s) → All IsPlain (paragraph (trim s))
paragraph-IsPlain s l = plain (trim s) l (trim-IsTrimmed s)
  where
    plain : (t : Text) → Lacks b'\n' t → IsTrimmed t → All IsPlain (paragraph t)
    plain [] l h = tt
    plain (c ∷ t) l h = (record { not_empty = λ e. cc e; trimmed = h; one_line = l }, tt)

effect_line_lem :
    (t : Text)
    → (if is_empty t then [] else (codes "Effect: " ++ t) ∷ []) ≡ effect_line (paragraph t)
unfolding join
effect_line_lem [] = refl
effect_line_lem (c ∷ t) = refl

condition-IsPlain : IsPlain (codes "Condition")
unfolding trim is_whitespace
condition-IsPlain = record { not_empty = cc; trimmed = refl; one_line = omega arith }

module _ ⦃u : Unicode⦄ where
  detect_condition : detect_bare_type (codes "Condition") ≡ some condition
  unfolding parse_rule_type replace_char text_eq to_ascii_lowercase known_type
  detect_condition =
      detect_bare_type_ascii (codes "Condition") condition-IsPlain.trimmed (omega arith)

  abbrev pub condition_candidate : Uuid → RawConditionEntry → Candidate
  condition_candidate id e = record {
    candidate_id = id;
    rule_type = condition;
    name = some e.name;
    traits = [];
    trigger = none;
    requirements = [];
    effect = effect_of (paragraph (body_text e));
    prerequisites = [];
    references = extract_bracketed_references (render_condition_block e);
    source_text = render_condition_block e;
    inferences = [];
    confidence = 90;
  }

  condition_fields :
      (e : RawConditionEntry)
      → IsPlain e.name
      → Lacks b'\n' (body_text e)
      → apply_lines
          ((codes "Name: " ++ e.name) ∷ effect_line (paragraph (body_text e)))
          (record no_fields { rule_type = some condition })
        ≡ record no_fields {
          rule_type = some condition;
          name = some e.name;
          effect = effect_of (paragraph (body_text e));
        }
  condition_fields e n l =
      apply_name_line e.name _ _ n
      ∙ apply_effect_line (paragraph (body_text e)) _ (paragraph-IsPlain _ l) refl

  render_lem :
      (e : RawConditionEntry)
      → render_condition_block e
        ≡ join
            (codes "\n")
            (codes "Condition" ∷ (codes "Name: " ++ e.name) ∷ effect_line (paragraph (body_text e)))
  unfolding render_condition_block
  render_lem e = rw (effect_line_lem (body_text e)) refl

  -- A glossary entry with a plain name and a body without line ends, rendered as a block and
  -- parsed, gives a condition candidate at full confidence with that name, and with the trimmed
  -- body as its effect if there is one.
  pub parse-render_condition :
      (id : Uuid) (e : RawConditionEntry)
      → IsPlain e.name
      → Lacks b'\n' (body_text e)
      → parse_block id (render_condition_block e) ≡ condition_candidate id e
  parse-render_condition id e n l = rw (render_lem e) (
      parse_block_typed id (codes "Condition") _ condition
        (
          condition-IsPlain,
          (name_line-IsPlain e.name n, effect_line-IsPlain _ (paragraph-IsPlain _ l)),
        )
        detect_condition
      ∙ ap (finish_block id _) (condition_fields e n l)
      ∙ unfold finish_block in refl)

  -- A rendered entry is a block as the parser takes it.
  pub render-IsBlock :
      (e : RawConditionEntry)
      → IsPlain e.name
      → Lacks b'\n' (body_text e)
      → IsBlock (render_condition_block e)
  render-IsBlock e n l = rw (render_lem e) (
      join-IsBlock (codes "Condition") _ (
        condition-IsPlain,
        (name_line-IsPlain e.name n, effect_line-IsPlain _ (paragraph-IsPlain _ l)),
      ))
