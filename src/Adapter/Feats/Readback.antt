-- ===== src/Adapter/Feats/Readback.antt =====
-- What `parser.rs` reads from a block that `render_feat_block` wrote.
use infernal_pf2e_parser_sim.Base.{
  none, some, [], ◌∷◌, ◌++◌, ◌≡◌, refl, ◌∙◌, ap, All, All-append, arith,
}
use infernal_pf2e_parser_sim.Std.Text.{
  codes, trim, text_eq, is_whitespace, to_ascii_lowercase, replace_char,
}
use infernal_pf2e_parser_sim.Std.Text.Lines.{IsPlain}
use infernal_pf2e_parser_sim.Std.Unicode.{Unicode}
use infernal_pf2e_parser_sim.Domain.{feat, parse_rule_type, Uuid, Candidate}
use infernal_pf2e_parser_sim.Parser.{
  no_fields, detect_bare_type, apply_lines, parse_block, finish_block, extract_bracketed_references,
  known_type,
}
use infernal_pf2e_parser_sim.Parser.Labels.{detect_bare_type_ascii}
use infernal_pf2e_parser_sim.Parser.Blocks.{IsBlock}
use infernal_pf2e_parser_sim.Adapter.{effect_line, traits_line, group_paragraphs}
use infernal_pf2e_parser_sim.Adapter.Feats.{RawFeatEntry, render_feat_block}
use infernal_pf2e_parser_sim.Adapter.Rendered.{
  IsTrait, effect_of, name_line-IsPlain, traits_line-IsPlain, effect_line-IsPlain, apply_name_line,
  apply_traits_line, apply_effect_line, parse_block_typed, join-IsBlock,
}

-- An entry whose pieces keep their places in the rendered block.
pub record IsReadable (e : RawFeatEntry) : Type 0 where
  pub name : IsPlain e.name
  pub traits : All IsTrait e.traits
  pub paragraphs : All IsPlain (group_paragraphs e.body_lines)

feat-IsPlain : IsPlain (codes "Feat")
unfolding trim is_whitespace
feat-IsPlain = record { not_empty = cc; trimmed = refl; one_line = omega arith }

lines-IsPlain :
    (e : RawFeatEntry)
    → IsReadable e
    → All IsPlain (traits_line e.traits ++ effect_line (group_paragraphs e.body_lines))
lines-IsPlain e h =
    All-append IsPlain (traits_line e.traits) _ (traits_line-IsPlain e.traits h.traits)
      (effect_line-IsPlain _ h.paragraphs)

module _ ⦃u : Unicode⦄ where
  detect_feat : detect_bare_type (codes "Feat") ≡ some feat
  unfolding parse_rule_type replace_char text_eq to_ascii_lowercase known_type
  detect_feat = detect_bare_type_ascii (codes "Feat") feat-IsPlain.trimmed (omega arith)

  -- the candidate that the entry stands for
  abbrev pub feat_candidate : Uuid → RawFeatEntry → Candidate
  feat_candidate id e = record {
    candidate_id = id;
    rule_type = feat;
    name = some e.name;
    traits = e.traits;
    trigger = none;
    requirements = [];
    effect = effect_of (group_paragraphs e.body_lines);
    prerequisites = [];
    references = extract_bracketed_references (render_feat_block e);
    source_text = render_feat_block e;
    inferences = [];
    confidence = 90;
  }

  feat_fields :
      (e : RawFeatEntry)
      → IsReadable e
      → apply_lines
          ((codes "Name: " ++ e.name)
            ∷ (traits_line e.traits ++ effect_line (group_paragraphs e.body_lines)))
          (record no_fields { rule_type = some feat })
        ≡ record no_fields {
          rule_type = some feat;
          name = some e.name;
          traits = e.traits;
          effect = effect_of (group_paragraphs e.body_lines);
        }
  feat_fields e h =
      apply_name_line e.name _ _ h.name
      ∙ apply_traits_line e.traits _ _ h.traits refl
      ∙ apply_effect_line (group_paragraphs e.body_lines) _ h.paragraphs refl

  -- A readable feat entry, rendered as a block and parsed, gives a feat candidate at full
  -- confidence with the entry's name, traits and effect, and no other field.
  pub parse-render_feat :
      (id : Uuid) (e : RawFeatEntry)
      → IsReadable e
      → parse_block id (render_feat_block e) ≡ feat_candidate id e
  unfolding render_feat_block
  parse-render_feat id e h =
      parse_block_typed id (codes "Feat") _ feat
        (feat-IsPlain, (name_line-IsPlain e.name h.name, lines-IsPlain e h)) detect_feat
      ∙ ap (finish_block id (render_feat_block e)) (feat_fields e h)
      ∙ unfold finish_block in refl

  -- A rendered entry is a block as the parser takes it.
  pub render-IsBlock : (e : RawFeatEntry) → IsReadable e → IsBlock (render_feat_block e)
  unfolding render_feat_block
  render-IsBlock e h =
      join-IsBlock (codes "Feat") _
        (feat-IsPlain, (name_line-IsPlain e.name h.name, lines-IsPlain e h))
