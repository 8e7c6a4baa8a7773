-- ===== src/Parser/States.antt =====
-- The lines of a block that state a labelled value.
use infernal_pf2e_parser_sim.Base.{
  true, Option, none, some, List, [], ◌∷◌, ◌++◌, ◌≡◌, ◌∙◌, inl, inr, ◌⊎◌, Any,
}
use infernal_pf2e_parser_sim.Std.Text.{Text, text_eq}
use infernal_pf2e_parser_sim.Std.Text.Trim.{text_eq-eq}
use infernal_pf2e_parser_sim.Std.Unicode.{Unicode}
use infernal_pf2e_parser_sim.Parser.{split_label, split_list}

module _ ⦃u : Unicode⦄ where
  -- Some line of the block reads as this label with this value.
  abbrev pub States : List Text → Text → Text → Type 0
  States ls label value = Any (λ l. split_label l ≡ some (label, value)) ls

  -- A text field is empty, or a line with its label states it.
  abbrev pub FromLine : List Text → Text → Option Text → Type 0
  FromLine ls label none = Unit
  FromLine ls label (some value) = States ls label value

  -- A list field is empty, or it is the list in the value of a line with its label.
  abbrev pub FromList : List Text → Text → List Text → Type 0
  FromList ls label items =
      (items ≡ []) ⊎ ((value : Text) × States ls label value × (items ≡ split_list value))

  States-mono :
      (l : Text) (ls : List Text) (label value : Text)
      → States ls label value
      → States (ls ++ l ∷ []) label value
  States-mono l [] label value h = elim h [ ]
  States-mono l (x ∷ ls) label value (inl h) = inl h
  States-mono l (x ∷ ls) label value (inr h) = inr (States-mono l ls label value h)

  States-last :
      (l : Text) (ls : List Text) (label value : Text)
      → split_label l ≡ some (label, value)
      → States (ls ++ l ∷ []) label value
  States-last l [] label value h = inl h
  States-last l (x ∷ ls) label value h = inr (States-last l ls label value h)

  pub FromLine-mono :
      (l : Text) (ls : List Text) (label : Text) (o : Option Text)
      → FromLine ls label o
      → FromLine (ls ++ l ∷ []) label o
  FromLine-mono l ls label none h = tt
  FromLine-mono l ls label (some value) h = States-mono l ls label value h

  pub FromList-mono :
      (l : Text) (ls : List Text) (label : Text) (items : List Text)
      → FromList ls label items
      → FromList (ls ++ l ∷ []) label items
  FromList-mono l ls label items (inl e) = inl e
  FromList-mono l ls label items (inr (value, h, e)) =
      inr (value, States-mono l ls label value h, e)

  -- The line last read states the label that the code found on it.
  pub found_at :
      (l label value : Text) (ls : List Text) (literal : Text)
      → split_label l ≡ some (label, value)
      → text_eq label literal ≡ true
      → States (ls ++ l ∷ []) literal value
  found_at l label value ls literal h e =
      States-last l ls literal value (h ∙ λ i. some (text_eq-eq label literal e i, value))
