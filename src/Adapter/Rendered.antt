-- ===== src/Adapter/Rendered.antt =====
-- The lines that the renderers of src/book_adapter.rs write, and what src/parser.rs reads from each.
use infernal_pf2e_parser_sim.Base.{
  Option, none, some, List, [], ◌∷◌, ◌++◌, ◌≡◌, refl, ◌∙◌, ap, All, arith,
}
use infernal_pf2e_parser_sim.Std.Text.{Text, codes, join, is_whitespace}
use infernal_pf2e_parser_sim.Std.Text.Lines.{IsPlain, IsPlain-append, IsPlain-join}
use infernal_pf2e_parser_sim.Std.Text.Plain.{join-IsTrimmed, join-ne-nil}
use infernal_pf2e_parser_sim.Std.Unicode.{Unicode}
use infernal_pf2e_parser_sim.Domain.{RuleType, Uuid}
use infernal_pf2e_parser_sim.Parser.{
  Fields, no_fields, detect_bare_type, read_fields, apply_lines, parse_block, finish_block,
}
use infernal_pf2e_parser_sim.Parser.Labels.{
  IsItem, block_lines-join, split_list-join, apply_line_name, apply_line_traits, apply_line_effect,
}
use infernal_pf2e_parser_sim.Parser.Blocks.{IsBlock}
use infernal_pf2e_parser_sim.Adapter.{effect_line, traits_line}

-- A trait that keeps its place in a `Traits:` line.
abbrev pub IsTrait : Text → Type 0
IsTrait t = IsPlain t × IsItem t

-- the effect that the paragraphs of a body make
abbrev pub effect_of : List Text → Option Text
effect_of [] = none
effect_of (p ∷ ps) = some (join (codes " ") (p ∷ ps))

trait-IsPlain : (ts : List Text) → All IsTrait ts → All IsPlain ts
trait-IsPlain [] h = tt
trait-IsPlain (t ∷ ts) ((p, i), h) = (p, trait-IsPlain ts h)

trait-IsItem : (ts : List Text) → All IsTrait ts → All IsItem ts
trait-IsItem [] h = tt
trait-IsItem (t ∷ ts) ((p, i), h) = (i, trait-IsItem ts h)

pub name_line-IsPlain : (name : Text) → IsPlain name → IsPlain (codes "Name: " ++ name)
unfolding is_whitespace
name_line-IsPlain name h = IsPlain-append b'N' (codes "ame: ") name refl (omega arith) h

pub traits_line-IsPlain : (ts : List Text) → All IsTrait ts → All IsPlain (traits_line ts)
unfolding is_whitespace
traits_line-IsPlain [] h = tt
traits_line-IsPlain (t ∷ ts) h = (
  IsPlain-append b'T' (codes "raits: ") _ refl (omega arith)
      (IsPlain-join (codes ", ") t ts (omega arith) (trait-IsPlain (t ∷ ts) h)),
  tt,
)

pub effect_line-IsPlain : (ps : List Text) → All IsPlain ps → All IsPlain (effect_line ps)
unfolding is_whitespace
effect_line-IsPlain [] h = tt
effect_line-IsPlain (p ∷ ps) h = (
  IsPlain-append b'E' (codes "ffect: ") _ refl (omega arith)
      (IsPlain-join (codes " ") p ps (omega arith) h),
  tt,
)

-- Plain lines make a block as the parser takes it.
pub join-IsBlock :
    (l : Text) (ls : List Text) → All IsPlain (l ∷ ls) → IsBlock (join (codes "\n") (l ∷ ls))
join-IsBlock l ls h = (join-IsTrimmed l ls h, join-ne-nil l ls h.0.not_empty)

module _ ⦃u : Unicode⦄ where
  pub apply_effect_line :
      (ps : List Text) (f : Fields)
      → All IsPlain ps
      → f.effect ≡ none
      → apply_lines (effect_line ps) f ≡ record f { effect = effect_of ps }
  unfolding apply_lines
  apply_effect_line [] f h e = λ i. record f { effect = e i }
  apply_effect_line (p ∷ ps) f h e =
      apply_line_effect _ f (IsPlain-join (codes " ") p ps (omega arith) h).trimmed

  pub apply_traits_line :
      (ts rest : List Text) (f : Fields)
      → All IsTrait ts
      → f.traits ≡ []
      → apply_lines (traits_line ts ++ rest) f ≡ apply_lines rest (record f { traits = ts })
  unfolding apply_lines
  apply_traits_line [] rest f h e = λ i. apply_lines rest (record f { traits = e i })
  apply_traits_line (t ∷ ts) rest f h e = ap (apply_lines rest) (
      apply_line_traits _ f
        (IsPlain-join (codes ", ") t ts (omega arith) (trait-IsPlain (t ∷ ts) h)).trimmed
      ∙ λ i. record f { traits = split_list-join t ts (trait-IsItem (t ∷ ts) h) i })

  pub apply_name_line :
      (name : Text) (rest : List Text) (f : Fields)
      → IsPlain name
      → apply_lines ((codes "Name: " ++ name) ∷ rest) f
        ≡ apply_lines rest (record f { name = some name })
  unfolding apply_lines
  apply_name_line name rest f h = ap (apply_lines rest) (apply_line_name name f h.trimmed)

  -- A block of plain lines whose first one is a bare type.
  pub parse_block_typed :
      (id : Uuid) (first : Text) (rest : List Text) (detected : RuleType)
      → All IsPlain (first ∷ rest)
      → detect_bare_type first ≡ some detected
      → let block = join (codes "\n") (first ∷ rest) in
        parse_block id block
        ≡ finish_block id block (apply_lines rest (record no_fields { rule_type = some detected }))
  unfolding parse_block read_fields
  parse_block_typed id first rest detected h e =
      let block = join (codes "\n") (first ∷ rest) in
      ap (λ (ls : List Text). finish_block id block (read_fields ls))
        (block_lines-join (first ∷ rest) h)
      ∙ ap (finish_block id block) (rw (e, read_fields) refl)
