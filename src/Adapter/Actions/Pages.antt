-- ===== src/Adapter/Actions/Pages.antt =====
-- A whole page of actions, from its entries to the parsed candidates.
use infernal_pf2e_parser_sim.Base.{
  ℕ, not, ◌&&◌, Option, none, some, List, [], ◌∷◌, ◌++◌, ◌≡◌, refl, sym, subst, All, All-append,
  if◌then◌else◌, is_empty, Bool-cases, Option-cases, inl, inr,
}
use infernal_pf2e_parser_sim.Std.Text.{Text, codes, text_eq, split_once, strip_suffix, trim, lines}
use infernal_pf2e_parser_sim.Std.Text.Lines.{IsPlain}
use infernal_pf2e_parser_sim.Std.Unicode.{Unicode}
use infernal_pf2e_parser_sim.Domain.{Uuid, RuleType, action, free_action, reaction, Candidate}
use infernal_pf2e_parser_sim.Parser.{parse_candidates, block_separator}
use infernal_pf2e_parser_sim.Adapter.{group_paragraphs, to_list, is_shouty}
use infernal_pf2e_parser_sim.Adapter.Actions.{
  RawEntry, read_parts, detect_among, detect_heading, action_cost_markers, add_line,
  split_entries_from, split_entries, render_block, convert_page,
}
use infernal_pf2e_parser_sim.Adapter.Actions.Readback.{
  LabelOf, for_action, for_free_action, for_reaction, ArePlain, action_candidate,
  parse-render_action, render-IsBlock,
}
use infernal_pf2e_parser_sim.Parser.Blocks.{All-pair}
use infernal_pf2e_parser_sim.Adapter.Pages.{numbered, parse_candidates-page}

-- the kind of rule that a label names
abbrev pub kind_of : Text → RuleType
kind_of label =
    if text_eq label (codes "Reaction")
    then reaction
    else if text_eq label (codes "Free Action")
    then free_action
    else action

abbrev pub IsLabel : Text → Type 0
IsLabel label = LabelOf (kind_of label) label

LabelOf-IsLabel : {t : RuleType} {label : Text} → LabelOf t label → IsLabel label
unfolding text_eq
LabelOf-IsLabel (for_action e) = subst IsLabel (sym e) (for_action refl)
LabelOf-IsLabel (for_free_action e) = subst IsLabel (sym e) (for_free_action refl)
LabelOf-IsLabel (for_reaction e) = subst IsLabel (sym e) (for_reaction refl)

-- An entry with plain pieces, whose rendered block holds no separator.
pub record IsWhole ⦃u : Unicode⦄ (e : RawEntry) : Type 0 where
  pub name : IsPlain e.name
  pub parts : ArePlain (read_parts (group_paragraphs e.body_lines))
  pub whole : split_once block_separator (render_block e) ≡ none

same_label : {a b c d : Text} → ◌≡◌ {A = Option (Text × Text)} (some (a, b)) (some (c, d)) → b ≡ d
same_label h = cc

module _ ⦃u : Unicode⦄ where
  -- the candidate of an entry, of the kind that its label names
  abbrev pub candidate_of : Uuid → RawEntry → Candidate
  candidate_of id e = action_candidate id (kind_of e.rule_type_label) e

  -- only labels of the marker table are given
  detect_among-IsLabel :
      (markers : List (Text × Text)) (line name label : Text)
      → All (λ (m : Text × Text). IsLabel m.1) markers
      → detect_among markers line ≡ some (name, label)
      → IsLabel label
  unfolding detect_among
  detect_among-IsLabel [] line name label h e = cc
  detect_among-IsLabel ((marker, l) ∷ markers) line name label (hl, h) e =
      elim (Option-cases (strip_suffix marker line)) [
        | inr absent ↦
            detect_among-IsLabel markers line name label h (rw (detect_among, absent) at e)
        | inl (prefix, there) ↦
            elim (Bool-cases (not (is_empty (trim prefix)) && is_shouty (trim prefix))) [
              | inr plain ↦
                  detect_among-IsLabel markers line name label h
                    (rw (detect_among, there, plain) at e)
              | inl heading ↦ subst IsLabel (same_label (rw (detect_among, there, heading) at e)) hl
            ]
      ]

  detect_heading-IsLabel :
      (line name label : Text) → detect_heading line ≡ some (name, label) → IsLabel label
  unfolding detect_heading
  detect_heading-IsLabel line name label =
      detect_among-IsLabel action_cost_markers line name label (
        LabelOf-IsLabel (for_action refl),
        (
          LabelOf-IsLabel (for_action refl),
          (
            LabelOf-IsLabel (for_action refl),
            (LabelOf-IsLabel (for_free_action refl), (LabelOf-IsLabel (for_reaction refl), tt)),
          ),
        ),
      )

  HasLabel : Option RawEntry → Type 0
  HasLabel none = Unit
  HasLabel (some e) = IsLabel e.rule_type_label

  to_list-HasLabel :
      (o : Option RawEntry)
      → HasLabel o
      → All (λ (e : RawEntry). IsLabel e.rule_type_label) (to_list o)
  unfolding HasLabel
  to_list-HasLabel none h = tt
  to_list-HasLabel (some e) h = (h, tt)

  add_line-HasLabel : (line : Text) (o : Option RawEntry) → HasLabel o → HasLabel (add_line line o)
  unfolding HasLabel
  add_line-HasLabel line none h = tt
  add_line-HasLabel line (some e) h = h

  split_entries_from-IsLabel :
      (ls : List Text) (entries : List RawEntry) (current : Option RawEntry)
      → All (λ (e : RawEntry). IsLabel e.rule_type_label) entries
      → HasLabel current
      → All (λ (e : RawEntry). IsLabel e.rule_type_label) (split_entries_from entries current ls)
  unfolding split_entries_from HasLabel
  split_entries_from-IsLabel [] entries current he hc =
      All-append _ entries (to_list current) he (to_list-HasLabel current hc)
  split_entries_from-IsLabel (raw ∷ rest) entries current he hc =
      elim (Option-cases (detect_heading (trim raw))) [
        | inr e ↦
            rw (split_entries_from, e)
              (split_entries_from-IsLabel rest entries (add_line (trim raw) current) he
                (add_line-HasLabel (trim raw) current hc))
        | inl ((name, label), e) ↦
            rw (split_entries_from, e)
              (split_entries_from-IsLabel rest (entries ++ to_list current) (some _)
                (All-append _ entries (to_list current) he (to_list-HasLabel current hc))
                (detect_heading-IsLabel (trim raw) name label e))
      ]

  -- If the entries of a page of actions have plain pieces and render to blocks without three
  -- hyphens, then parsing the converted page gives one candidate for each entry, in order and with
  -- successive identifiers: of the kind that its label names, which is one of the marker table's,
  -- with the entry's name and pieces at full confidence.
  pub convert_page-parsed :
      (ids : ℕ → Uuid) (text : Text)
      → All (λ (e : RawEntry). IsWhole e) (split_entries text)
      → (parse_candidates ids (convert_page text)
          ≡ numbered candidate_of ids 0 (split_entries text))
        × All (λ (e : RawEntry). IsLabel e.rule_type_label) (split_entries text)
  unfolding convert_page split_entries HasLabel
  convert_page-parsed ids text whole =
      let labelled = split_entries_from-IsLabel (lines text) [] none tt tt in
      (
        parse_candidates-page render_block candidate_of
            (λ (e : RawEntry). IsLabel e.rule_type_label × IsWhole e)
            (λ id e (l, w). parse-render_action id (kind_of e.rule_type_label) e l w.name w.parts)
            (λ e (l, w). record { block = render-IsBlock e l w.name w.parts; whole = w.whole }) ids
            (split_entries text)
            (All-pair (λ (e : RawEntry). IsLabel e.rule_type_label) (λ (e : RawEntry). IsWhole e)
              (split_entries text) labelled whole),
        labelled,
      )
