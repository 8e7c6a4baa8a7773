-- ===== src/Adapter/Feats/Splitting.antt =====
-- The rounds of `split_feat_entries` and the lines they consume.
use infernal_pf2e_parser_sim.Base.{
  ℕ, zero, suc, ◌+◌, ◌≤◌, Bool, true, false, not, ◌&&◌, leb, Option, none, some, List, [], ◌∷◌,
  ◌++◌, length, map, is_empty, if◌then◌else◌, if-branches, subst, Bool-cases, Option-cases, ◌≡◌,
  refl, arith, inl, inr,
}
use infernal_pf2e_parser_sim.Std.Text.{Text, lines, trim}
use infernal_pf2e_parser_sim.Std.Unicode.{Unicode}
use infernal_pf2e_parser_sim.Adapter.{is_shouty, to_list}
use infernal_pf2e_parser_sim.Adapter.Feats.{
  RawFeatEntry, Scan, scan_heading, is_feat_level_marker, heading_of, try_read_heading_block,
  heading_at, add_line, split_feats_fuel, split_feat_entries, max_heading_block_lines,
}

rest-if :
    (n : ℕ) (b : Bool) (s t : Scan)
    → length s.rest ≤ n
    → length t.rest ≤ n
    → length (if b then s else t).rest ≤ n
rest-if n true s t h k = h
rest-if n false s t h k = k

module _ ⦃u : Unicode⦄ where
  length-scan_heading :
      (ls shouty : List Text) (saw : Bool) → length (scan_heading ls shouty saw).rest ≤ length ls
  unfolding scan_heading
  length-scan_heading [] shouty saw = omega arith
  length-scan_heading (line ∷ rest) shouty saw =
      let n = suc (length rest) in
      let skip = length-scan_heading rest shouty saw in
      let mark = length-scan_heading rest shouty true in
      let long = length-scan_heading rest (shouty ++ line ∷ []) saw in
      rest-if n (not (leb (length shouty) max_heading_block_lines)) _ _ (omega arith) (
        rest-if n (is_empty line) _ _ (omega (arith, skip)) (
          rest-if n (is_feat_level_marker line) _ _ (omega (arith, mark))
            (rest-if n (is_shouty line) _ _ (omega (arith, long)) (omega arith))))

  -- A scan that starts at a shouty line consumes it.
  scan_heading-shouty :
      (line : Text) (rest : List Text)
      → is_shouty line ≡ true
      → length (scan_heading (line ∷ rest) [] false).rest ≤ length rest
  unfolding scan_heading
  scan_heading-shouty line rest h =
      rest-if (length rest) (is_empty line) _ _ (length-scan_heading rest [] false) (
        rest-if (length rest) (is_feat_level_marker line) _ _ (length-scan_heading rest [] true)
          (rw h (length-scan_heading rest (line ∷ []) false)))

  -- at most `n` lines are left behind a heading
  abbrev AtMost : ℕ → Option (Text × List Text × List Text) → Type 0
  AtMost n none = Unit
  AtMost n (some (_, _, behind)) = length behind ≤ n

  heading_of-AtMost :
      (n : ℕ) (shouty : List Text) (s : Scan) → length s.rest ≤ n → AtMost n (heading_of shouty s)
  unfolding heading_of
  heading_of-AtMost n [] s h = tt
  heading_of-AtMost n (line ∷ ls) s h = if-branches (AtMost n) s.saw_feat_marker (λ e. h) (λ e. tt)

  heading_at-AtMost : (line : Text) (rest : List Text) → AtMost (length rest) (heading_at line rest)
  unfolding heading_at try_read_heading_block
  heading_at-AtMost line rest =
      if-branches (AtMost (length rest)) (is_shouty line && not (is_feat_level_marker line))
        (λ e.
          heading_of-AtMost (length rest) _ (scan_heading (line ∷ rest) [] false)
            (scan_heading-shouty line rest (ground arith)))
        (λ e. tt)

  split_feats_fuel-more :
      (f g : ℕ) (entries : List RawFeatEntry) (current : Option RawFeatEntry) (ls : List Text)
      → length ls ≤ f
      → length ls ≤ g
      → split_feats_fuel f entries current ls ≡ split_feats_fuel g entries current ls
  unfolding split_feats_fuel
  split_feats_fuel-more f g entries current [] h k = refl
  split_feats_fuel-more zero g entries current (line ∷ rest) h k = absurd (omega arith)
  split_feats_fuel-more (suc f) zero entries current (line ∷ rest) h k = absurd (omega arith)
  split_feats_fuel-more (suc f) (suc g) entries current (line ∷ rest) h k =
      let same = λ (es : List RawFeatEntry) (c : Option RawFeatEntry).
        split_feats_fuel-more f g es c rest (omega (arith, h)) (omega (arith, k)) in
      elim (Bool-cases (is_empty line)) [
        | inl e ↦ rw e (same entries current)
        | inr e ↦ elim (Option-cases (heading_at line rest)) [
          | inr n ↦ rw (e, n) (same entries (add_line line current))
          | inl ((name, traits, behind), n) ↦
              let few = subst (AtMost (length rest)) n (heading_at-AtMost line rest) in
              rw (e, n)
                (split_feats_fuel-more f g (entries ++ to_list current)
                  (some (record { name = name; traits = traits; body_lines = [] })) behind
                  (omega (arith, few, h)) (omega (arith, few, k)))
        ]
      ]

  -- The loop over the lines of a page of feats always ends because no line is left: with any
  -- number of further rounds it gives the same entries.
  pub split_feat_entries-enough :
      (extra : ℕ) (text : Text)
      → split_feats_fuel (length (map trim (lines text)) + extra) [] none (map trim (lines text))
        ≡ split_feat_entries text
  unfolding split_feat_entries
  split_feat_entries-enough extra text =
      split_feats_fuel-more _ _ [] none (map trim (lines text)) (omega arith) (omega arith)
