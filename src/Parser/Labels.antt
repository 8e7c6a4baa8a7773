-- ===== src/Parser/Labels.antt =====
-- What the parser reads from a line `Label: value` and from a block of such lines.
use infernal_pf2e_parser_sim.Base.{
  ◌≤◌, true, false, not, some, List, [], ◌∷◌, ◌++◌, map, ◌≡◌, ◌≢◌, refl, sym, ap, arith, ltb, ◌||◌,
  All, length, is_empty, filter-All, All-impl, append-nil,
}
use infernal_pf2e_parser_sim.Std.Text.{
  Text, codes, trim, split, join, text_eq, to_ascii_lowercase, is_whitespace, replace_char,
}
use infernal_pf2e_parser_sim.Std.Text.Trim.{IsTrimmed, trim_space}
use infernal_pf2e_parser_sim.Std.Text.Split.{Lacks, split_once-append, split-append, split-none}
use infernal_pf2e_parser_sim.Std.Text.Lines.{IsPlain, lines-join}
use infernal_pf2e_parser_sim.Std.Unicode.{Unicode, IsAscii}
use infernal_pf2e_parser_sim.Domain.{parse_rule_type}
use infernal_pf2e_parser_sim.Parser.{
  Fields, split_label, apply_line, apply_label, split_list, block_lines, normalize_type,
  detect_bare_type, known_type,
}

abbrev colon_space : Text
colon_space = codes ": "

-- A label that the parser compares: what is left of its line when the value is taken off.
pub record IsLabel (label : Text) : Type 0 where
  pub no_colon : Lacks b':' label
  pub trimmed : IsTrimmed label
  pub not_empty : label ≢ []
  pub short : length label ≤ 32
  pub ascii : IsAscii label

not-is_empty {ℓ} : {A : Type ℓ} (s : List A) → s ≢ [] → not (is_empty s) ≡ true
not-is_empty [] h = absurd (h refl)
not-is_empty (c ∷ s) h = refl

IsLabel-guard :
    (label : Text)
    → label ≢ []
    → length label ≤ 32
    → (is_empty label || ltb 32 (length label)) ≡ false
IsLabel-guard [] ne h = absurd (ne refl)
IsLabel-guard (c ∷ s) ne h = ground arith

module _ ⦃u : Unicode⦄ where
  -- A line of a label, a colon, a space and a trimmed value is read as the label in lower case
  -- and the value.
  pub split_label_lem :
      (label value : Text)
      → IsLabel label
      → IsTrimmed value
      → split_label (label ++ (b':' ∷ b' ' ∷ value)) ≡ some (map to_ascii_lowercase label, value)
  unfolding split_label
  split_label_lem label value l t = rw (split_once-append b':' [] label (b' ' ∷ value) l.no_colon) (
      rw l.trimmed (
        rw (IsLabel-guard label l.not_empty l.short)
          (rw (u.lowercase_ascii label l.ascii, trim_space value t) refl)))

  -- Each labelled line sets its own field and nothing else.
  pub apply_line-label :
      (label value : Text) (f : Fields)
      → IsLabel label
      → IsTrimmed value
      → apply_line (label ++ (b':' ∷ b' ' ∷ value)) f
        ≡ apply_label (label ++ (b':' ∷ b' ' ∷ value)) (map to_ascii_lowercase label) value f
  unfolding apply_line
  apply_line-label label value f l t = rw (split_label_lem label value l t, apply_line)

name-IsLabel : IsLabel (codes "Name")
unfolding trim is_whitespace
name-IsLabel = record {
  no_colon = omega arith;
  trimmed = refl;
  not_empty = cc;
  short = omega arith;
  ascii = omega arith;
}

traits-IsLabel : IsLabel (codes "Traits")
unfolding trim is_whitespace
traits-IsLabel = record {
  no_colon = omega arith;
  trimmed = refl;
  not_empty = cc;
  short = omega arith;
  ascii = omega arith;
}

trigger-IsLabel : IsLabel (codes "Trigger")
unfolding trim is_whitespace
trigger-IsLabel = record {
  no_colon = omega arith;
  trimmed = refl;
  not_empty = cc;
  short = omega arith;
  ascii = omega arith;
}

requirements-IsLabel : IsLabel (codes "Requirements")
unfolding trim is_whitespace
requirements-IsLabel = record {
  no_colon = omega arith;
  trimmed = refl;
  not_empty = cc;
  short = omega arith;
  ascii = omega arith;
}

effect-IsLabel : IsLabel (codes "Effect")
unfolding trim is_whitespace
effect-IsLabel = record {
  no_colon = omega arith;
  trimmed = refl;
  not_empty = cc;
  short = omega arith;
  ascii = omega arith;
}

type-IsLabel : IsLabel (codes "Type")
unfolding trim is_whitespace
type-IsLabel = record {
  no_colon = omega arith;
  trimmed = refl;
  not_empty = cc;
  short = omega arith;
  ascii = omega arith;
}

module _ ⦃u : Unicode⦄ (value : Text) (f : Fields) (t : IsTrimmed value) where
  pub apply_line_name : apply_line (codes "Name: " ++ value) f ≡ record f { name = some value }
  unfolding apply_label text_eq to_ascii_lowercase
  apply_line_name = apply_line-label (codes "Name") value f name-IsLabel t

  pub apply_line_traits :
      apply_line (codes "Traits: " ++ value) f ≡ record f { traits = split_list value }
  unfolding apply_label text_eq to_ascii_lowercase
  apply_line_traits = apply_line-label (codes "Traits") value f traits-IsLabel t

  pub apply_line_trigger :
      apply_line (codes "Trigger: " ++ value) f ≡ record f { trigger = some value }
  unfolding apply_label text_eq to_ascii_lowercase
  apply_line_trigger = apply_line-label (codes "Trigger") value f trigger-IsLabel t

  pub apply_line_requirements :
      apply_line (codes "Requirements: " ++ value) f ≡ record f { requirements = split_list value }
  unfolding apply_label text_eq to_ascii_lowercase
  apply_line_requirements = apply_line-label (codes "Requirements") value f requirements-IsLabel t

  pub apply_line_effect :
      apply_line (codes "Effect: " ++ value) f ≡ record f { effect = some value }
  unfolding apply_label text_eq to_ascii_lowercase
  apply_line_effect = apply_line-label (codes "Effect") value f effect-IsLabel t

  pub apply_line_type :
      apply_line (codes "Type: " ++ value) f
      ≡ record f { rule_type = some (parse_rule_type (normalize_type value)) }
  unfolding apply_label text_eq to_ascii_lowercase
  apply_line_type = apply_line-label (codes "Type") value f type-IsLabel t

-- An item of a comma-separated list.
pub record IsItem (t : Text) : Type 0 where
  pub not_empty : t ≢ []
  pub trimmed : IsTrimmed t
  pub no_comma : Lacks b',' t

-- the items behind the first one
behind_first : List Text → Text
behind_first [] = []
behind_first (y ∷ ys) = b',' ∷ b' ' ∷ (y ++ behind_first ys)

join-behind_first : (x : Text) (xs : List Text) → join (codes ", ") (x ∷ xs) ≡ x ++ behind_first xs
unfolding join behind_first
join-behind_first x [] = sym (append-nil x)
join-behind_first x (y ∷ ys) = ap (λ (r : Text). x ++ (b',' ∷ b' ' ∷ r)) (join-behind_first y ys)

trim_pieces :
    (raw x : Text) (xs : List Text)
    → Lacks b',' raw
    → trim raw ≡ x
    → All IsItem xs
    → map trim (split (codes ",") (raw ++ behind_first xs)) ≡ x ∷ xs
unfolding behind_first
trim_pieces raw x [] l e h = rw (append-nil, split-none b',' [] raw l, e) refl
trim_pieces raw x (y ∷ ys) l e (i, h) =
    rw (split-append b',' [] raw (b' ' ∷ (y ++ behind_first ys)) l, e)
      (ap (◌∷◌ x)
        (trim_pieces (b' ' ∷ y) y ys (omega arith, i.no_comma) (trim_space y i.trimmed) h))

IsItem-kept : (xs : List Text) → All IsItem xs → All (λ x. not (is_empty x) ≡ true) xs
IsItem-kept = All-impl IsItem _ (λ x i. not-is_empty x i.not_empty)

-- A list of items joined by commas is read back.
pub split_list-join :
    (x : Text) (xs : List Text)
    → All IsItem (x ∷ xs)
    → split_list (join (codes ", ") (x ∷ xs)) ≡ x ∷ xs
unfolding split_list
split_list-join x xs (i, h) =
    rw (join-behind_first x xs, trim_pieces x x xs i.no_comma i.trimmed h)
      (filter-All (λ item. not (is_empty item)) (x ∷ xs) (IsItem-kept (x ∷ xs) (i, h)))

map-trim : (ls : List Text) → All IsPlain ls → map trim ls ≡ ls
map-trim [] h = refl
map-trim (l ∷ ls) (p, h) = cc (p.trimmed, map-trim ls h)

-- A block of plain lines is read as those lines.
pub block_lines-join : (ls : List Text) → All IsPlain ls → block_lines (join (codes "\n") ls) ≡ ls
unfolding block_lines
block_lines-join ls h =
    rw (lines-join ls h, map-trim ls h)
      (filter-All (λ line. not (is_empty line)) ls
        (All-impl IsPlain _ (λ l p. not-is_empty l p.not_empty) ls h))

module _ ⦃u : Unicode⦄ where
  -- Over an ASCII line the test for a bare type is the one on its lower-case letters.
  pub detect_bare_type_ascii :
      (line : Text)
      → IsTrimmed line
      → IsAscii line
      → detect_bare_type line
        ≡ known_type (parse_rule_type (replace_char b' ' b'-' (map to_ascii_lowercase line)))
  unfolding detect_bare_type normalize_type
  detect_bare_type_ascii line t a = rw t (rw (u.lowercase_ascii line a) refl)
