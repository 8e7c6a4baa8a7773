-- ===== src/Adapter/Conditions/Entries.antt =====
-- What `split_condition_entries` makes of the lines of a page.
use infernal_pf2e_parser_sim.Base.{
  true, false, not, ◌||◌, Option, none, some, List, [], ◌∷◌, ◌++◌, map, filter, is_empty, ◌≡◌, refl,
  sym, ap, ◌∙◌, append-nil, append_assoc, if◌then◌else◌, Bool-cases, inl, inr, All, All-append,
}
use infernal_pf2e_parser_sim.Std.Text.{Text, codes, trim, lines, eq_ignore_ascii_case}
use infernal_pf2e_parser_sim.Std.Unicode.{Unicode}
use infernal_pf2e_parser_sim.Adapter.{to_list}
use infernal_pf2e_parser_sim.Adapter.Conditions.{
  RawConditionEntry, is_page_number, is_condition_heading, split_conditions_from,
  split_condition_entries, add_line,
}

-- the lines behind the first that is the anchor
abbrev pub after_anchor : List Text → List Text
after_anchor [] = []
after_anchor (l ∷ ls) =
    if eq_ignore_ascii_case (trim l) (codes "List of Conditions") then ls else after_anchor ls

-- the lines that count, trimmed
abbrev pub kept : List Text → List Text
kept ls = filter (λ l. not (is_empty l || is_page_number l)) (map trim ls)

abbrev pub entry_lines : RawConditionEntry → List Text
entry_lines e = e.name ∷ e.body_lines

abbrev pub all_lines : List RawConditionEntry → List Text
all_lines [] = []
all_lines (e ∷ es) = entry_lines e ++ all_lines es

all_lines-append :
    (es fs : List RawConditionEntry) → all_lines (es ++ fs) ≡ all_lines es ++ all_lines fs
all_lines-append [] fs = refl
all_lines-append (e ∷ es) fs =
    ap (λ ls. entry_lines e ++ ls) (all_lines-append es fs)
    ∙ sym (append_assoc (entry_lines e) (all_lines es) (all_lines fs))

module _ ⦃u : Unicode⦄ where
  abbrev pub from_heading : List Text → List Text
  from_heading [] = []
  from_heading (l ∷ ls) = if is_condition_heading l then l ∷ ls else from_heading ls

  -- its name is a heading, and none of its body lines is one
  abbrev pub IsEntry : RawConditionEntry → Type 0
  IsEntry e =
      (is_condition_heading e.name ≡ true) × All (λ l. is_condition_heading l ≡ false) e.body_lines

  -- the lines of the open entry, and of those behind it
  abbrev lines_from : Option RawConditionEntry → List Text → List Text
  lines_from none ks = from_heading ks
  lines_from (some e) ks = entry_lines e ++ ks

  IsOpenEntry : Option RawConditionEntry → Type 0
  IsOpenEntry none = Unit
  IsOpenEntry (some e) = IsEntry e

  abbrev Splits :
      List RawConditionEntry
      → Option RawConditionEntry
      → List Text
      → List RawConditionEntry
      → Type 0
  Splits entries current ks result =
      (all_lines result ≡ all_lines entries ++ lines_from current ks) × All IsEntry result

  close :
      (entries : List RawConditionEntry) (current : Option RawConditionEntry)
      → All IsEntry entries
      → IsOpenEntry current
      → All IsEntry (entries ++ to_list current)
  unfolding IsOpenEntry
  close entries none h o = All-append IsEntry entries [] h tt
  close entries (some e) h o = All-append IsEntry entries (e ∷ []) h (o, tt)

  close_lines :
      (entries : List RawConditionEntry) (current : Option RawConditionEntry) (ks : List Text)
      → from_heading ks ≡ ks
      → all_lines (entries ++ to_list current) ++ ks ≡ all_lines entries ++ lines_from current ks
  close_lines entries none ks h = rw (append-nil entries, h) refl
  close_lines entries (some e) ks h =
      rw (all_lines-append entries (e ∷ []), append_assoc, append-nil) refl

  none_open : IsOpenEntry none
  unfolding IsOpenEntry
  none_open = tt

  is_open : (e : RawConditionEntry) → IsEntry e → IsOpenEntry (some e)
  unfolding IsOpenEntry
  is_open e h = h

  add_line_lines :
      (l : Text) (current : Option RawConditionEntry) (ks : List Text)
      → is_condition_heading l ≡ false
      → lines_from (add_line l current) ks ≡ lines_from current (l ∷ ks)
  add_line_lines l none ks f = rw f refl
  add_line_lines l (some e) ks f = ap (λ ls. e.name ∷ ls) (append_assoc e.body_lines (l ∷ []) ks)

  add_line-IsOpenEntry :
      (l : Text) (current : Option RawConditionEntry)
      → is_condition_heading l ≡ false
      → IsOpenEntry current
      → IsOpenEntry (add_line l current)
  unfolding IsOpenEntry
  add_line-IsOpenEntry l none f o = tt
  add_line-IsOpenEntry l (some e) f (named, body) =
      (named, All-append (λ l. is_condition_heading l ≡ false) e.body_lines (l ∷ []) body (f, tt))

  split-Splits :
      (entries : List RawConditionEntry) (current : Option RawConditionEntry) (ls : List Text)
      → All IsEntry entries
      → IsOpenEntry current
      → Splits entries current (kept ls) (split_conditions_from entries current true ls)
  unfolding split_conditions_from
  split-Splits entries current [] h o = (
    sym (append-nil (all_lines (entries ++ to_list current))) ∙ close_lines entries current [] refl,
    close entries current h o,
  )
  split-Splits entries current (l ∷ ls) h o =
      elim (Bool-cases (is_empty (trim l) || is_page_number (trim l))) [
        | inl e ↦ rw e (split-Splits entries current ls h o)
        | inr e ↦ elim (Bool-cases (is_condition_heading (trim l))) [
          | inl f ↦
              let next : RawConditionEntry = record { name = trim l; body_lines = [] } in
              let (made, are) =
                split-Splits (entries ++ to_list current) (some next) ls (close entries current h o)
                  (is_open next (f, tt)) in
              rw (e, f) (made ∙ close_lines entries current (trim l ∷ kept ls) (rw f refl), are)
          | inr f ↦
              let (made, are) =
                split-Splits entries (add_line (trim l) current) ls h
                  (add_line-IsOpenEntry (trim l) current f o) in
              rw (e, f)
                (
                  made
                      ∙ ap (λ ks. all_lines entries ++ ks)
                          (add_line_lines (trim l) current (kept ls) f),
                  are,
                )
        ]
      ]

  before_anchor :
      (ls : List Text)
      → split_conditions_from [] none false ls
        ≡ split_conditions_from [] none true (after_anchor ls)
  unfolding split_conditions_from
  before_anchor [] = refl
  before_anchor (l ∷ ls) =
      elim (Bool-cases (eq_ignore_ascii_case (trim l) (codes "List of Conditions"))) [
        | inl e ↦ rw e refl
        | inr e ↦ rw e (before_anchor ls)
      ]

  -- The entries of a page are the lines behind the anchor, from the first heading on, without the
  -- empty lines and the page numbers: none of them is lost, none is added, and their order stays.
  -- Each entry begins at a heading, and each heading begins one. A heading is what the code takes
  -- for one, a line of one or two words that begin with an upper-case letter and whose other
  -- letters are lower-case: these words may have punctuation behind their first letter.
  pub split_condition_entries-IsEntry :
      (text : Text)
      → (all_lines (split_condition_entries text) ≡ from_heading (kept (after_anchor (lines text))))
        × All IsEntry (split_condition_entries text)
  unfolding split_condition_entries
  split_condition_entries-IsEntry text =
      rw (before_anchor (lines text))
        (split-Splits [] none (after_anchor (lines text)) tt none_open)
