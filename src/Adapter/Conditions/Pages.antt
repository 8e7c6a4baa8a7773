-- ===== src/Adapter/Conditions/Pages.antt =====
-- A whole glossary page, from its text to the parsed candidates.
use infernal_pf2e_parser_sim.Base.{
  ℕ, Bool, true, false, ◌||◌, Option, none, some, List, [], ◌∷◌, ◌++◌, ◌≡◌, ◌≢◌, All, All-append,
  is_empty, Bool-cases, inl, inr, arith,
}
use infernal_pf2e_parser_sim.Std.Text.{
  Text, codes, trim, lines, join, split_once, eq_ignore_ascii_case,
}
use infernal_pf2e_parser_sim.Std.Text.Trim.{trim-IsTrimmed}
use infernal_pf2e_parser_sim.Std.Text.Lines.{IsPlain}
use infernal_pf2e_parser_sim.Std.Text.Split.{Lacks}
use infernal_pf2e_parser_sim.Std.Text.Plain.{All-trim, All-join, lines-Lacks}
use infernal_pf2e_parser_sim.Std.Unicode.{Unicode}
use infernal_pf2e_parser_sim.Domain.{Uuid}
use infernal_pf2e_parser_sim.Parser.{parse_candidates, block_separator}
use infernal_pf2e_parser_sim.Parser.Blocks.{All-pair}
use infernal_pf2e_parser_sim.Adapter.{to_list}
use infernal_pf2e_parser_sim.Adapter.Conditions.{
  RawConditionEntry, add_line, is_page_number, is_condition_heading, split_conditions_from,
  split_condition_entries, render_condition_block, convert_condition_page,
}
use infernal_pf2e_parser_sim.Adapter.Conditions.Readback.{
  body_text, condition_candidate, parse-render_condition, render-IsBlock,
}
use infernal_pf2e_parser_sim.Adapter.Pages.{numbered, parse_candidates-page}

-- An entry whose name is a plain line and whose body is of lines.
record IsOfLines (e : RawConditionEntry) : Type 0 where
  name : IsPlain e.name
  body_lines : All (Lacks b'\n') e.body_lines

abbrev AllOfLines : Option RawConditionEntry → Type 0
AllOfLines none = Unit
AllOfLines (some e) = IsOfLines e

to_list-IsOfLines : (o : Option RawConditionEntry) → AllOfLines o → All IsOfLines (to_list o)
to_list-IsOfLines none h = tt
to_list-IsOfLines (some e) h = (h, tt)

add_line-IsOfLines :
    (line : Text) (o : Option RawConditionEntry)
    → Lacks b'\n' line
    → AllOfLines o
    → AllOfLines (add_line line o)
add_line-IsOfLines line none l h = tt
add_line-IsOfLines line (some e) l h = record {
  name = h.name;
  body_lines = All-append _ e.body_lines (line ∷ []) h.body_lines (l, tt);
}

-- A trimmed line that is not empty is plain.
trim-IsPlain : (raw : Text) → Lacks b'\n' raw → is_empty (trim raw) ≡ false → IsPlain (trim raw)
trim-IsPlain raw l h = record {
  not_empty = not_empty (trim raw) h;
  trimmed = trim-IsTrimmed raw;
  one_line = All-trim _ raw l;
}
  where
    not_empty : (t : Text) → is_empty t ≡ false → t ≢ []
    not_empty [] h = cc
    not_empty (c ∷ t) h = λ e. cc e

left_of : (a b : Bool) → (a || b) ≡ false → a ≡ false
left_of a b h = ground arith

module _ ⦃u : Unicode⦄ where
  split_conditions_from-IsOfLines :
      (ls : List Text) (entries : List RawConditionEntry) (current : Option RawConditionEntry)
      (past : Bool)
      → All (Lacks b'\n') ls
      → All IsOfLines entries
      → AllOfLines current
      → All IsOfLines (split_conditions_from entries current past ls)
  unfolding split_conditions_from
  split_conditions_from-IsOfLines [] entries current past h he hc =
      All-append IsOfLines entries (to_list current) he (to_list-IsOfLines current hc)
  split_conditions_from-IsOfLines (raw ∷ rest) entries current false (l, h) he hc =
      split_conditions_from-IsOfLines rest entries current
        (eq_ignore_ascii_case (trim raw) (codes "List of Conditions")) h he hc
  split_conditions_from-IsOfLines (raw ∷ rest) entries current true (l, h) he hc =
      elim (Bool-cases (is_empty (trim raw) || is_page_number (trim raw))) [
        | inl skip ↦ rw skip (split_conditions_from-IsOfLines rest entries current true h he hc)
        | inr kept ↦ elim (Bool-cases (is_condition_heading (trim raw))) [
          | inl heading ↦
              rw (kept, heading)
                (split_conditions_from-IsOfLines rest (entries ++ to_list current)
                  (some (record { name = trim raw; body_lines = [] })) true h
                  (All-append IsOfLines entries (to_list current) he (to_list-IsOfLines current hc))
                  (record { name = trim-IsPlain raw l (left_of _ _ kept); body_lines = tt }))
          | inr body ↦
              rw (kept, body)
                (split_conditions_from-IsOfLines rest entries (add_line (trim raw) current) true h
                  he (add_line-IsOfLines (trim raw) current (All-trim _ raw l) hc))
        ]
      ]

  -- the entry can be rendered, joined and parsed again
  abbrev pub IsWhole : RawConditionEntry → Type 0
  IsWhole e = split_once block_separator (render_condition_block e) ≡ none

  body_text-Lacks : (e : RawConditionEntry) → IsOfLines e → Lacks b'\n' (body_text e)
  body_text-Lacks e h =
      All-trim _ (join (codes " ") e.body_lines)
        (All-join _ (codes " ") e.body_lines (omega arith) h.body_lines)

  -- If the entries of a page of the conditions glossary render to blocks without three hyphens,
  -- then parsing the converted page gives one condition candidate for each entry, in order and
  -- with successive identifiers, with the entry's name, and its trimmed body as its effect if
  -- there is one, at full confidence.
  pub convert_condition_page-parsed :
      (ids : ℕ → Uuid) (text : Text)
      → All IsWhole (split_condition_entries text)
      → parse_candidates ids (convert_condition_page text)
        ≡ numbered condition_candidate ids 0 (split_condition_entries text)
  unfolding convert_condition_page split_condition_entries
  convert_condition_page-parsed ids text whole =
      parse_candidates-page render_condition_block condition_candidate
        (λ e. IsOfLines e × IsWhole e)
        (λ id e (h, w). parse-render_condition id e h.name (body_text-Lacks e h))
        (λ e (h, w). record { block = render-IsBlock e h.name (body_text-Lacks e h); whole = w })
        ids (split_condition_entries text)
        (All-pair IsOfLines IsWhole (split_condition_entries text)
          (split_conditions_from-IsOfLines (lines text) [] none false (lines-Lacks text) tt tt)
          whole)
