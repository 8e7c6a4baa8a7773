-- ===== src/Tests/ParserExamples.antt =====
-- The parser's theorems at concrete texts.
use infernal_pf2e_parser_sim.Base.{
  List, [], ◌∷◌, ◌++◌, map, ◌≡◌, refl, suc, length, All, ◌≤◌, arith, ◌↔◌, ◌+◌,
}
use infernal_pf2e_parser_sim.Std.Text.{Text, codes, trim, is_whitespace}
use infernal_pf2e_parser_sim.Std.Text.Trim.{IsTrimmed}
use infernal_pf2e_parser_sim.Std.Text.Lines.{IsPlain}
use infernal_pf2e_parser_sim.Domain.{Candidate, parse_rule_type, unclassified}
use infernal_pf2e_parser_sim.Parser.{
  parse_block, parse_candidates, block_lines, source_blocks, read_fields, bracketed_fuel,
  extract_bracketed_references, block_separator, normalize_type,
}
use infernal_pf2e_parser_sim.Parser.Grounded.{CandidateIsGrounded, parse_block-IsGrounded}
use infernal_pf2e_parser_sim.Parser.Confidence.{
  IsComplete, parse_block-confidence, unknown_type_confidence, IsField,
}
use infernal_pf2e_parser_sim.Parser.Blocks.{
  IsBlock, draws, parse_candidates-blocks, parse_candidates-append,
}
use infernal_pf2e_parser_sim.Parser.References.{
  IsBracketed, extract_bracketed_references-enough, extract_bracketed_references-IsBracketed,
}
use infernal_pf2e_parser_sim.Tests.Ascii.{ascii}
use infernal_pf2e_parser_sim.Tests.ParserTests.{one_id, ids, run_parser}

-- a block with a bare type, two labels and a line that is left over
abbrev stride_text : Text
stride_text = codes "Action\nName: Stride\nTraits: move\nYou move up to your [[Speed]]."

abbrev prose : Text
prose = codes "Nothing here is a rule."

abbrev two_blocks : Text
two_blocks = codes "Action\nName: Stride\n---\n\n---\nFeat\nName: Toughness"

parse_block-IsGrounded_example :
    CandidateIsGrounded (block_lines stride_text) (parse_block one_id stride_text)
parse_block-IsGrounded_example = parse_block-IsGrounded one_id stride_text

parse_block-confidence_example :
    (20 ≤ (parse_block one_id stride_text).confidence)
    × ((parse_block one_id stride_text).confidence ≤ 90)
    × ((parse_block one_id stride_text).confidence ≡ 90
        ↔ IsComplete (read_fields (block_lines stride_text)))
parse_block-confidence_example = parse_block-confidence one_id stride_text

stride_inference :
    (parse_block one_id stride_text).inferences
    ≡ codes "1 untagged line(s) present in source, not mapped to a known field" ∷ []
unfolding run_parser
stride_inference = refl

spell_IsPlain : IsPlain (codes "Spell")
unfolding trim is_whitespace
spell_IsPlain = record { not_empty = cc; trimmed = refl; one_line = omega arith }

fireball_IsTrimmed : IsTrimmed (codes "Fireball")
unfolding trim is_whitespace
fireball_IsTrimmed = refl

abbrev fireball_text : Text
fireball_text =
    codes "Type: Spell\nName: Fireball\n\n  Traits: Fire, Concentrate\nEffect: A burst of fire.\n"

abbrev fireball_rest : List Text
fireball_rest = codes "Traits: Fire, Concentrate" ∷ codes "Effect: A burst of fire." ∷ []

fireball_lines :
    block_lines fireball_text ≡ codes "Type: Spell" ∷ codes "Name: Fireball" ∷ fireball_rest
unfolding run_parser
fireball_lines = refl

fireball_IsField : All IsField fireball_rest
unfolding run_parser
fireball_IsField = (
  (codes "traits", codes "Fire, Concentrate", refl, refl),
  ((codes "effect", codes "A burst of fire.", refl, refl), tt),
)

spell_unclassified : parse_rule_type (normalize_type (codes "Spell")) ≡ unclassified
unfolding run_parser
spell_unclassified = refl

unknown_type_confidence_example :
    ((parse_block one_id fireball_text).rule_type ≡ unclassified)
    × ((parse_block one_id fireball_text).confidence ≡ 90)
    × ((parse_block one_id fireball_text).inferences ≡ [])
unknown_type_confidence_example =
    unknown_type_confidence one_id fireball_text (codes "Spell") (codes "Fireball") fireball_rest
      fireball_lines spell_IsPlain (omega arith) fireball_IsTrimmed spell_unclassified
      fireball_IsField

parse_candidates-blocks_example :
    (map (λ (c : Candidate). c.source_text) (parse_candidates ids two_blocks)
      ≡ source_blocks two_blocks)
    × (map (λ (c : Candidate). c.candidate_id) (parse_candidates ids two_blocks)
        ≡ map ids (draws 0 (length (source_blocks two_blocks))))
    × All IsBlock (source_blocks two_blocks)
parse_candidates-blocks_example = parse_candidates-blocks ids two_blocks

parse_candidates-append_example :
    map
      (λ (c : Candidate). c.source_text)
      (parse_candidates ids (codes "Feat\nName: One " ++ (block_separator ++ codes " two")))
    ≡ map (λ (c : Candidate). c.source_text) (parse_candidates ids (codes "Feat\nName: One "))
      ++ map (λ (c : Candidate). c.source_text) (parse_candidates ids (codes " two"))
parse_candidates-append_example =
    parse_candidates-append ids (codes "Feat\nName: One ") (codes " two") (omega arith)

extract_bracketed_references-enough_example :
    bracketed_fuel (suc (length stride_text) + 7) stride_text
    ≡ extract_bracketed_references stride_text
extract_bracketed_references-enough_example = extract_bracketed_references-enough 7 stride_text

extract_bracketed_references-IsBracketed_example :
    All (IsBracketed stride_text) (extract_bracketed_references stride_text)
extract_bracketed_references-IsBracketed_example =
    extract_bracketed_references-IsBracketed stride_text
