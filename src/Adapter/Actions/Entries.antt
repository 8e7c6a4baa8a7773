-- ===== src/Adapter/Actions/Entries.antt =====
-- What `split_entries` makes of the lines of a page.
use infernal_pf2e_parser_sim.Base.{
  Option, none, some, List, [], ◌∷◌, ◌++◌, map, ◌≡◌, refl, sym, ap, ◌∙◌, append-nil, append_assoc,
  map-append, Option-cases, inl, inr,
}
use infernal_pf2e_parser_sim.Std.Text.{Text, trim, lines}
use infernal_pf2e_parser_sim.Std.Unicode.{Unicode}
use infernal_pf2e_parser_sim.Adapter.{to_list}
use infernal_pf2e_parser_sim.Adapter.Actions.{
  RawEntry, detect_heading, split_entries_from, split_entries, add_line,
}

-- A line opens an entry of this name and label, or belongs to a body.
pub data Mark : Type 0 where
  opens : Text → Text → Mark
  says : Text → Mark

abbrev pub entry_marks : RawEntry → List Mark
entry_marks e = opens e.name e.rule_type_label ∷ map says e.body_lines

abbrev pub all_marks : List RawEntry → List Mark
all_marks [] = []
all_marks (e ∷ es) = entry_marks e ++ all_marks es

-- from the first mark that opens an entry on
abbrev pub from_opening : List Mark → List Mark
from_opening [] = []
from_opening (opens name label ∷ ks) = opens name label ∷ ks
from_opening (says line ∷ ks) = from_opening ks

all_marks-append : (es fs : List RawEntry) → all_marks (es ++ fs) ≡ all_marks es ++ all_marks fs
all_marks-append [] fs = refl
all_marks-append (e ∷ es) fs =
    ap (λ ks. entry_marks e ++ ks) (all_marks-append es fs)
    ∙ sym (append_assoc (entry_marks e) (all_marks es) (all_marks fs))

-- the marks of the open entry, and of those behind it
abbrev marks_from : Option RawEntry → List Mark → List Mark
marks_from none ks = from_opening ks
marks_from (some e) ks = entry_marks e ++ ks

-- An entry is closed before a mark that opens one, and at the end.
close_marks :
    (entries : List RawEntry) (current : Option RawEntry) (ks : List Mark)
    → from_opening ks ≡ ks
    → all_marks (entries ++ to_list current) ++ ks ≡ all_marks entries ++ marks_from current ks
close_marks entries none ks h = rw (append-nil entries, h) refl
close_marks entries (some e) ks h =
    rw (all_marks-append entries (e ∷ []), append_assoc, append-nil) refl

module _ ⦃u : Unicode⦄ where
  add_line_marks :
      (l : Text) (current : Option RawEntry) (ks : List Mark)
      → marks_from (add_line l current) ks ≡ marks_from current (says l ∷ ks)
  add_line_marks l none ks = refl
  add_line_marks l (some e) ks =
      ap (λ ms. opens e.name e.rule_type_label ∷ (ms ++ ks)) (map-append says e.body_lines (l ∷ []))
      ∙ ap (λ ms. opens e.name e.rule_type_label ∷ ms)
          (append_assoc (map says e.body_lines) (says l ∷ []) ks)

  abbrev pub mark : Text → Mark
  mark line = elim (detect_heading line) [
    | some (name, label) ↦ opens name label
    | none ↦ says line
  ]

  abbrev pub marks : List Text → List Mark
  marks ls = map mark (map trim ls)

  mark-opens :
      (line : Text) {name label : Text}
      → detect_heading line ≡ some (name, label)
      → mark line ≡ opens name label
  mark-opens line e = rw (mark, e) refl

  mark-says : (line : Text) → detect_heading line ≡ none → mark line ≡ says line
  mark-says line e = rw (mark, e) refl

  -- the same with the mark of a line in front
  marks_again :
      (entries : List RawEntry) (current : Option RawEntry) (ls : List Text) {k k' : Mark}
      → k ≡ k'
      → all_marks entries ++ marks_from current (k' ∷ marks ls)
        ≡ all_marks entries ++ marks_from current (k ∷ marks ls)
  marks_again entries current ls e =
      ap (λ (k : Mark). all_marks entries ++ marks_from current (k ∷ marks ls)) (sym e)

  split_entries_from-marks :
      (entries : List RawEntry) (current : Option RawEntry) (ls : List Text)
      → all_marks (split_entries_from entries current ls)
        ≡ all_marks entries ++ marks_from current (marks ls)
  unfolding split_entries_from
  split_entries_from-marks entries current [] =
      sym (append-nil (all_marks (entries ++ to_list current)))
      ∙ close_marks entries current [] refl
  split_entries_from-marks entries current (l ∷ ls) =
      elim (Option-cases (detect_heading (trim l))) [
        | inl ((name, label), e) ↦
            let next : RawEntry = record {
              name = name;
              rule_type_label = label;
              body_lines = [];
            } in
            rw (split_entries_from, e)
              (split_entries_from-marks (entries ++ to_list current) (some next) ls
                ∙ close_marks entries current (opens name label ∷ marks ls) refl
                ∙ marks_again entries current ls (mark-opens (trim l) e))
        | inr e ↦
            rw (split_entries_from, e)
              (split_entries_from-marks entries (add_line (trim l) current) ls
                ∙ ap (λ ks. all_marks entries ++ ks) (add_line_marks (trim l) current (marks ls))
                ∙ marks_again entries current ls (mark-says (trim l) e))
      ]

  -- The entries of a page of actions are its trimmed lines from the first heading on, the empty
  -- ones included: none of them is lost, none is added, their order stays, and an entry begins
  -- exactly at each heading, with the name and the label that are read from it.
  pub split_entries-marks :
      (text : Text) → all_marks (split_entries text) ≡ from_opening (marks (lines text))
  unfolding split_entries
  split_entries-marks text = split_entries_from-marks [] none (lines text)
