-- ===== src/Parser/Confidence.antt =====
-- The confidence, the inferences and the kind that `parse_block` records.
use infernal_pf2e_parser_sim.Base.{
  ◌≤◌, true, false, any, is_none, Bool-cases, Bool_clash, inl, inr, List, All, ◌&&◌, none, some, [],
  ◌∷◌, ◌++◌, All-append, ◌≡◌, ◌≢◌, ◌↔◌, refl, sym, subst, ◌∙◌, ap, arith,
}
use infernal_pf2e_parser_sim.Std.Text.{
  Text, codes, is_whitespace, replace_char, text_eq, to_ascii_lowercase,
}
use infernal_pf2e_parser_sim.Std.Text.Trim.{IsTrimmed, text_eq-eq}
use infernal_pf2e_parser_sim.Std.Text.Lines.{IsPlain, IsPlain-append}
use infernal_pf2e_parser_sim.Std.Unicode.{Unicode, IsAscii}
use infernal_pf2e_parser_sim.Parser.Labels.{
  apply_line_type, apply_line_name, detect_bare_type_ascii,
}
use infernal_pf2e_parser_sim.Domain.{parse_rule_type, unclassified, Uuid, Candidate}
use infernal_pf2e_parser_sim.Parser.{
  Fields, read_fields, block_lines, parse_block, finish_block, split_label, apply_label,
  has_no_field, is_unclassified, typed, no_fields, normalize_type, detect_bare_type, known_type,
  apply_line, apply_lines,
}

-- The block states its type, and every other line of it was mapped to a field.
pub record IsComplete (f : Fields) : Type 0 where
  pub type_stated : f.rule_type ≢ none
  pub all_mapped : f.leftover_lines ≡ []
  pub some_field : (has_no_field f && is_unclassified (typed f.rule_type).0) ≡ false

-- An unclassified candidate with no normalized field and no inference.
pub record IsWrapped (c : Candidate) : Type 0 where
  pub rule_type : c.rule_type ≡ unclassified
  pub name : c.name ≡ none
  pub traits : c.traits ≡ []
  pub trigger : c.trigger ≡ none
  pub requirements : c.requirements ≡ []
  pub effect : c.effect ≡ none
  pub prerequisites : c.prerequisites ≡ []
  pub inferences : c.inferences ≡ []

module _ (id : Uuid) (block : Text) (f : Fields) where
  confidence_range :
      (20 ≤ (finish_block id block f).confidence) × ((finish_block id block f).confidence ≤ 90)
  unfolding finish_block
  confidence_range = ground arith

  confidence-IsComplete : (finish_block id block f).confidence ≡ 90 → IsComplete f
  unfolding finish_block
  confidence-IsComplete h = ground arith

  complete_confidence : IsComplete f → (finish_block id block f).confidence ≡ 90
  unfolding finish_block
  complete_confidence h = ground arith

  confidence_inferred :
      (finish_block id block f).inferences ≢ [] → (finish_block id block f).confidence ≤ 75
  unfolding finish_block
  confidence_inferred h = ground arith

  confidence-IsWrapped :
      (finish_block id block f).confidence ≡ 20 → IsWrapped (finish_block id block f)
  unfolding finish_block
  confidence-IsWrapped h = ground arith

-- the labels of the fields other than the type
abbrev field_labels : List Text
field_labels =
    codes "name"
    ∷ codes "traits"
    ∷ codes "trigger"
    ∷ codes "requirements"
    ∷ codes "prerequisites"
    ∷ codes "effect"
    ∷ codes "see also"
    ∷ codes "references"
    ∷ []

field_label_is_other :
    (label : Text) → any (text_eq label) field_labels ≡ true → text_eq label (codes "type") ≡ false
unfolding text_eq
field_label_is_other label known = elim (Bool-cases (text_eq label (codes "type"))) [
  | inr e ↦ e
  | inl e ↦ Bool_clash _ known (
      subst (λ l. any (text_eq l) field_labels ≡ false) (sym (text_eq-eq label (codes "type") e))
        refl)
]

module _ ⦃u : Unicode⦄ where
  -- A parsed block's confidence lies between 0.20 and 0.90, and it is 0.90 exactly when the block
  -- states its type, no line was left over, and it is not the case that the type is unclassified
  -- and every normalized field is empty.
  pub parse_block-confidence :
      (id : Uuid) (block : Text)
      → (20 ≤ (parse_block id block).confidence)
        × ((parse_block id block).confidence ≤ 90)
        × ((parse_block id block).confidence ≡ 90 ↔ IsComplete (read_fields (block_lines block)))
  unfolding parse_block
  parse_block-confidence id block =
      let f = read_fields (block_lines block) in
      let range = confidence_range id block f in
      (range.0, range.1, (confidence-IsComplete id block f, complete_confidence id block f))

  -- A parsed block with an inference has a confidence of at most 0.75.
  pub parse_block-inferred :
      (id : Uuid) (block : Text)
      → (parse_block id block).inferences ≢ []
      → (parse_block id block).confidence ≤ 75
  unfolding parse_block
  parse_block-inferred id block = confidence_inferred id block (read_fields (block_lines block))

  -- A parsed block at the lowest confidence, 0.20, is unclassified, and all its normalized fields
  -- and its inferences are empty.
  pub parse_block-IsWrapped :
      (id : Uuid) (block : Text)
      → (parse_block id block).confidence ≡ 20
      → IsWrapped (parse_block id block)
  unfolding parse_block
  parse_block-IsWrapped id block = confidence-IsWrapped id block (read_fields (block_lines block))

  type_line-IsPlain : (word : Text) → IsPlain word → IsPlain (codes "Type: " ++ word)
  unfolding is_whitespace
  type_line-IsPlain word h = IsPlain-append b'T' (codes "ype: ") word refl (omega arith) h

  type_line_not_bare :
      (word : Text) → IsPlain word → IsAscii word → detect_bare_type (codes "Type: " ++ word) ≡ none
  unfolding parse_rule_type text_eq replace_char to_ascii_lowercase known_type
  type_line_not_bare word h a =
      detect_bare_type_ascii (codes "Type: " ++ word) (type_line-IsPlain word h).trimmed
        (All-append _ (codes "Type: ") word (omega arith) a)

  -- a line `label: value` whose label is one of the fields other than the type
  abbrev pub IsField : Text → Type 0
  IsField line =
      (label value : Text) × (split_label line ≡ some (label, value))
      × (any (text_eq label) field_labels ≡ true)

  -- an unclassified type is stated, every line was mapped, and there is a name
  abbrev IsUnknown : Fields → Type 0
  IsUnknown f =
      (f.rule_type ≡ some unclassified) × (f.leftover_lines ≡ []) × (is_none f.name ≡ false)

  finish-IsUnknown :
      (id : Uuid) (block : Text) (f : Fields)
      → IsUnknown f
      → ((finish_block id block f).rule_type ≡ unclassified)
        × ((finish_block id block f).confidence ≡ 90)
        × ((finish_block id block f).inferences ≡ [])
  unfolding finish_block
  finish-IsUnknown id block f (t, l, n) = rw (t, l, n) (refl, refl, refl)

  apply_label-IsUnknown :
      (line label value : Text) (f : Fields)
      → any (text_eq label) field_labels ≡ true
      → IsUnknown f
      → IsUnknown (apply_label line label value f)
  unfolding apply_label
  apply_label-IsUnknown line label value f known (t, l, n) =
      let other = field_label_is_other label known in ground (arith, other)

  apply_lines-IsUnknown :
      (ls : List Text) (f : Fields) → All IsField ls → IsUnknown f → IsUnknown (apply_lines ls f)
  unfolding apply_lines apply_line
  apply_lines-IsUnknown [] f h i = i
  apply_lines-IsUnknown (line ∷ ls) f ((label, value, e, known), h) i =
      apply_lines-IsUnknown ls (apply_line line f) h
        (rw (apply_line, e) (apply_label-IsUnknown line label value f known i))

  typed_fields :
      (word name : Text) (rest : List Text)
      → IsPlain word
      → IsAscii word
      → IsTrimmed name
      → parse_rule_type (normalize_type word) ≡ unclassified
      → All IsField rest
      → IsUnknown (read_fields ((codes "Type: " ++ word) ∷ (codes "Name: " ++ name) ∷ rest))
  unfolding read_fields apply_lines
  typed_fields word name rest h a n k fields =
      rw (type_line_not_bare word h a, read_fields)
        (subst (λ (f : Fields). IsUnknown (apply_lines rest f))
          (sym (
            ap (apply_line (codes "Name: " ++ name)) (apply_line_type word no_fields h.trimmed)
            ∙ apply_line_name name _ n))
          (apply_lines-IsUnknown rest _ fields (rw k refl, refl, refl)))

  -- Let a block begin with a line `Type: word` whose ASCII word names no kind of rule and a line
  -- `Name: name`, and let each further line of it be labelled as another field than the type. Then
  -- the candidate is unclassified and yet has full confidence, 0.90, and no inference.
  pub unknown_type_confidence :
      (id : Uuid) (block word name : Text) (rest : List Text)
      → block_lines block ≡ (codes "Type: " ++ word) ∷ (codes "Name: " ++ name) ∷ rest
      → IsPlain word
      → IsAscii word
      → IsTrimmed name
      → parse_rule_type (normalize_type word) ≡ unclassified
      → All IsField rest
      → ((parse_block id block).rule_type ≡ unclassified)
        × ((parse_block id block).confidence ≡ 90)
        × ((parse_block id block).inferences ≡ [])
  unfolding parse_block
  unknown_type_confidence id block word name rest e h a n k fields =
      let (typed, mapped, named) = typed_fields word name rest h a n k fields in
      rw e (finish-IsUnknown id block _ (typed, mapped, named))
