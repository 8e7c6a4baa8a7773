-- ===== src/Parser/Grounded.antt =====
-- Where in a block the normalized fields of its candidate come from.
use infernal_pf2e_parser_sim.Base.{
  ◌&&◌, ◌||◌, Option, none, some, List, [], ◌∷◌, ◌++◌, ◌≡◌, refl, sym, if-branches, subst,
  append-nil, Option-cases, inl, inr, append_assoc,
}
use infernal_pf2e_parser_sim.Std.Text.{Text, codes, text_eq}
use infernal_pf2e_parser_sim.Std.Unicode.{Unicode}
use infernal_pf2e_parser_sim.Domain.{RuleType, Uuid, Candidate}
use infernal_pf2e_parser_sim.Parser.{
  Fields, no_fields, split_label, apply_line, apply_label, apply_lines, read_fields,
  detect_bare_type, block_lines, parse_block, finish_block, has_no_field, is_unclassified, typed,
}
use infernal_pf2e_parser_sim.Parser.States.{
  FromLine, FromList, FromLine-mono, FromList-mono, found_at,
}

module _ ⦃u : Unicode⦄ where
  -- Each field of a block is empty, or a line states it.
  abbrev pub IsGrounded : List Text → Fields → Type 0
  IsGrounded ls f =
      FromLine ls (codes "name") f.name
      × FromLine ls (codes "trigger") f.trigger
      × FromLine ls (codes "effect") f.effect
      × FromList ls (codes "traits") f.traits
      × FromList ls (codes "requirements") f.requirements
      × FromList ls (codes "prerequisites") f.prerequisites

  IsGrounded-mono :
      (l : Text) (ls : List Text) (f : Fields) → IsGrounded ls f → IsGrounded (ls ++ l ∷ []) f
  IsGrounded-mono l ls f (name, trigger, effect, traits, requirements, prerequisites) = (
    FromLine-mono l ls _ f.name name,
    FromLine-mono l ls _ f.trigger trigger,
    FromLine-mono l ls _ f.effect effect,
    FromList-mono l ls _ f.traits traits,
    FromList-mono l ls _ f.requirements requirements,
    FromList-mono l ls _ f.prerequisites prerequisites,
  )

  apply_label-IsGrounded :
      (l label value : Text) (ls : List Text) (f : Fields)
      → split_label l ≡ some (label, value)
      → IsGrounded (ls ++ l ∷ []) f
      → IsGrounded (ls ++ l ∷ []) (apply_label l label value f)
  unfolding apply_label
  apply_label-IsGrounded l label value ls f h g =
      let (name, trigger, effect, traits, requirements, prerequisites) = g in
      let P : Fields → Type 0 = IsGrounded (ls ++ l ∷ []) in
      let at = λ (literal : Text). found_at l label value ls literal h in
      if-branches P (text_eq label (codes "type")) (λ e. g)
        λ _.
          if-branches P (text_eq label (codes "name"))
            (λ e. (at (codes "name") e, trigger, effect, traits, requirements, prerequisites))
            λ _.
              if-branches P (text_eq label (codes "traits"))
                (λ e. (
                  name,
                  trigger,
                  effect,
                  inr (value, at (codes "traits") e, refl),
                  requirements,
                  prerequisites,
                ))
                λ _.
                  if-branches P (text_eq label (codes "trigger"))
                    (λ e.
                      (name, at (codes "trigger") e, effect, traits, requirements, prerequisites))
                    λ _.
                      if-branches P (text_eq label (codes "requirements"))
                        (λ e. (
                          name,
                          trigger,
                          effect,
                          traits,
                          inr (value, at (codes "requirements") e, refl),
                          prerequisites,
                        ))
                        λ _.
                          if-branches P (text_eq label (codes "prerequisites"))
                            (λ e. (
                              name,
                              trigger,
                              effect,
                              traits,
                              requirements,
                              inr (value, at (codes "prerequisites") e, refl),
                            ))
                            λ _.
                              if-branches P (text_eq label (codes "effect"))
                                (λ e. (
                                  name,
                                  trigger,
                                  at (codes "effect") e,
                                  traits,
                                  requirements,
                                  prerequisites,
                                ))
                                λ _.
                                  if-branches P
                                    (text_eq label (codes "see also")
                                      || text_eq label (codes "references"))
                                    (λ e. g) (λ _. g)

  module _ (l : Text) (f : Fields) where
    apply_line-some :
        (label value : Text)
        → split_label l ≡ some (label, value)
        → apply_line l f ≡ apply_label l label value f
    unfolding apply_line
    apply_line-some label value e = rw (e, apply_line)

    apply_line-none :
        split_label l ≡ none
        → apply_line l f ≡ record f { leftover_lines = f.leftover_lines ++ l ∷ [] }
    unfolding apply_line
    apply_line-none e = rw (e, apply_line)

  apply_line-IsGrounded :
      (l : Text) (ls : List Text) (f : Fields)
      → IsGrounded ls f
      → IsGrounded (ls ++ l ∷ []) (apply_line l f)
  apply_line-IsGrounded l ls f g = elim (Option-cases (split_label l)) [
    | inl ((label, value), e) ↦
        subst (IsGrounded (ls ++ l ∷ [])) (sym (apply_line-some l f label value e))
          (apply_label-IsGrounded l label value ls f e (IsGrounded-mono l ls f g))
    | inr e ↦
        subst (IsGrounded (ls ++ l ∷ [])) (sym (apply_line-none l f e)) (IsGrounded-mono l ls f g)
  ]

  apply_lines-IsGrounded :
      (ls before : List Text) (f : Fields)
      → IsGrounded before f
      → IsGrounded (before ++ ls) (apply_lines ls f)
  unfolding apply_lines
  apply_lines-IsGrounded [] before f g = rw append-nil g
  apply_lines-IsGrounded (l ∷ ls) before f g =
      subst (λ (all : List Text). IsGrounded all (apply_lines ls (apply_line l f)))
        (append_assoc before (l ∷ []) ls)
        (apply_lines-IsGrounded ls (before ++ l ∷ []) (apply_line l f)
          (apply_line-IsGrounded l before f g))

  nothing_read :
      (ls : List Text) (t : Option RuleType) → IsGrounded ls (record no_fields { rule_type = t })
  nothing_read ls t = (tt, tt, tt, inl refl, inl refl, inl refl)

  -- what a candidate made of grounded fields keeps
  abbrev pub CandidateIsGrounded : List Text → Candidate → Type 0
  CandidateIsGrounded ls c =
      FromLine ls (codes "name") c.name
      × FromLine ls (codes "trigger") c.trigger
      × FromLine ls (codes "effect") c.effect
      × FromList ls (codes "traits") c.traits
      × FromList ls (codes "requirements") c.requirements
      × FromList ls (codes "prerequisites") c.prerequisites

  finish_block-IsGrounded :
      (id : Uuid) (block : Text) (ls : List Text) (f : Fields)
      → IsGrounded ls f
      → CandidateIsGrounded ls (finish_block id block f)
  unfolding finish_block
  finish_block-IsGrounded id block ls f g =
      if-branches (CandidateIsGrounded ls) (has_no_field f && is_unclassified (typed f.rule_type).0)
        (λ _. (tt, tt, tt, inl refl, inl refl, inl refl)) (λ _. g)

  read_fields-IsGrounded : (ls : List Text) → IsGrounded ls (read_fields ls)
  unfolding read_fields
  read_fields-IsGrounded [] = nothing_read [] none
  read_fields-IsGrounded (first ∷ rest) = elim (Option-cases (detect_bare_type first)) [
    | inl (t, e) ↦
        rw (e, read_fields)
          (apply_lines-IsGrounded rest (first ∷ []) (record no_fields { rule_type = some t })
            (nothing_read (first ∷ []) (some t)))
    | inr e ↦
        rw (e, read_fields)
          (apply_lines-IsGrounded (first ∷ rest) [] no_fields (nothing_read [] none))
  ]

  -- Each of the fields name, trigger, effect, traits, requirements and prerequisites of a parsed
  -- candidate is empty, or is the value that a line of the block with exactly its label states,
  -- cut at the commas where it is a list.
  pub parse_block-IsGrounded :
      (id : Uuid) (block : Text) → CandidateIsGrounded (block_lines block) (parse_block id block)
  unfolding parse_block
  parse_block-IsGrounded id block =
      finish_block-IsGrounded id block _ _ (read_fields-IsGrounded (block_lines block))
