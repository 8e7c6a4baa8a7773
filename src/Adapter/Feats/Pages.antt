-- ===== src/Adapter/Feats/Pages.antt =====
-- A whole page of feats, from its entries to the parsed candidates.
use infernal_pf2e_parser_sim.Base.{
  ℕ, zero, suc, Bool, true, false, not, ◌&&◌, leb, Option, none, some, List, [], ◌∷◌, ◌++◌, map,
  length, ◌≡◌, subst, All, All-append, if◌then◌else◌, if-branches, is_empty, Bool-cases,
  Option-cases, inl, inr,
}
use infernal_pf2e_parser_sim.Std.Text.{Text, split_once, trim, lines}
use infernal_pf2e_parser_sim.Std.Text.Lines.{IsPlain}
use infernal_pf2e_parser_sim.Std.Text.Split.{Lacks}
use infernal_pf2e_parser_sim.Std.Text.Plain.{lines-Lacks}
use infernal_pf2e_parser_sim.Std.Unicode.{Unicode}
use infernal_pf2e_parser_sim.Domain.{Uuid}
use infernal_pf2e_parser_sim.Parser.{parse_candidates, block_separator}
use infernal_pf2e_parser_sim.Parser.Blocks.{All-pair}
use infernal_pf2e_parser_sim.Adapter.{is_shouty, to_list}
use infernal_pf2e_parser_sim.Adapter.Rendered.{IsTrait}
use infernal_pf2e_parser_sim.Adapter.Paragraphs.{IsKept, trim-IsKept, group_paragraphs-IsPlain}
use infernal_pf2e_parser_sim.Adapter.Feats.{
  Scan, scan_heading, is_feat_level_marker, heading_of, try_read_heading_block, heading_at,
  add_line, split_feats_fuel, max_heading_block_lines, RawFeatEntry, split_feat_entries,
  render_feat_block, convert_feat_page,
}
use infernal_pf2e_parser_sim.Adapter.Feats.Readback.{
  IsReadable, feat_candidate, parse-render_feat, render-IsBlock,
}
use infernal_pf2e_parser_sim.Adapter.Pages.{numbered, parse_candidates-page}

-- An entry whose name and traits keep their places in the rendered block, and whose block holds no
-- separator.
pub record IsWhole (e : RawFeatEntry) : Type 0 where
  pub name : IsPlain e.name
  pub traits : All IsTrait e.traits
  pub whole : split_once block_separator (render_feat_block e) ≡ none

abbrev HasKept : RawFeatEntry → Type 0
HasKept e = All IsKept e.body_lines

AllKept : Option RawFeatEntry → Type 0
AllKept none = Unit
AllKept (some e) = HasKept e

to_list-HasKept : (o : Option RawFeatEntry) → AllKept o → All HasKept (to_list o)
unfolding AllKept
to_list-HasKept none h = tt
to_list-HasKept (some e) h = (h, tt)

map-trim-IsKept : (ls : List Text) → All (Lacks b'\n') ls → All IsKept (map trim ls)
map-trim-IsKept [] h = tt
map-trim-IsKept (l ∷ ls) (o, h) = (trim-IsKept l o, map-trim-IsKept ls h)

-- what holds of the lines left behind a heading
abbrev BehindKept : Option (Text × List Text × List Text) → Type 0
BehindKept none = Unit
BehindKept (some (_, _, behind)) = All IsKept behind

rest_if-IsKept :
    (b : Bool) (s t : Scan)
    → All IsKept s.rest
    → All IsKept t.rest
    → All IsKept (if b then s else t).rest
rest_if-IsKept true s t h k = h
rest_if-IsKept false s t h k = k

module _ ⦃u : Unicode⦄ where
  add_line-AllKept :
      (line : Text) (o : Option RawFeatEntry) → IsKept line → AllKept o → AllKept (add_line line o)
  unfolding AllKept
  add_line-AllKept line none l h = tt
  add_line-AllKept line (some e) l h = All-append IsKept e.body_lines (line ∷ []) h (l, tt)

  scan_heading-IsKept :
      (ls shouty : List Text) (saw : Bool)
      → All IsKept ls
      → All IsKept (scan_heading ls shouty saw).rest
  unfolding scan_heading
  scan_heading-IsKept [] shouty saw h = tt
  scan_heading-IsKept (line ∷ rest) shouty saw (l, h) =
      rest_if-IsKept (not (leb (length shouty) max_heading_block_lines)) _ _ (l, h)
        (rest_if-IsKept (is_empty line) _ _ (scan_heading-IsKept rest shouty saw h) (
          rest_if-IsKept (is_feat_level_marker line) _ _ (scan_heading-IsKept rest shouty true h) (
            rest_if-IsKept (is_shouty line) _ _
              (scan_heading-IsKept rest (shouty ++ line ∷ []) saw h) (l, h))))

  heading_of-BehindKept :
      (shouty : List Text) (s : Scan) → All IsKept s.rest → BehindKept (heading_of shouty s)
  unfolding heading_of
  heading_of-BehindKept [] s h = tt
  heading_of-BehindKept (line ∷ ls) s h =
      if-branches BehindKept s.saw_feat_marker (λ e. h) (λ e. tt)

  heading_at-BehindKept :
      (line : Text) (rest : List Text)
      → All IsKept (line ∷ rest)
      → BehindKept (heading_at line rest)
  unfolding heading_at try_read_heading_block
  heading_at-BehindKept line rest h =
      if-branches BehindKept (is_shouty line && not (is_feat_level_marker line))
        (λ e. heading_of-BehindKept _ _ (scan_heading-IsKept (line ∷ rest) [] false h)) (λ e. tt)

  split_feats_fuel-HasKept :
      (f : ℕ) (entries : List RawFeatEntry) (current : Option RawFeatEntry) (ls : List Text)
      → All IsKept ls
      → All HasKept entries
      → AllKept current
      → All HasKept (split_feats_fuel f entries current ls)
  unfolding split_feats_fuel AllKept
  split_feats_fuel-HasKept f entries current [] h he hc =
      All-append HasKept entries (to_list current) he (to_list-HasKept current hc)
  split_feats_fuel-HasKept zero entries current (line ∷ rest) h he hc =
      All-append HasKept entries (to_list current) he (to_list-HasKept current hc)
  split_feats_fuel-HasKept (suc f) entries current (line ∷ rest) (l, h) he hc =
      elim (Bool-cases (is_empty line)) [
        | inl e ↦ rw e (split_feats_fuel-HasKept f entries current rest h he hc)
        | inr e ↦ elim (Option-cases (heading_at line rest)) [
          | inr none_here ↦
              rw (split_feats_fuel, e, none_here)
                (split_feats_fuel-HasKept f entries (add_line line current) rest h he
                  (add_line-AllKept line current l hc))
          | inl ((name, traits, behind), found) ↦
              rw (split_feats_fuel, e, found)
                (split_feats_fuel-HasKept f (entries ++ to_list current) (some _) behind
                  (subst BehindKept found (heading_at-BehindKept line rest (l, h)))
                  (All-append HasKept entries (to_list current) he (to_list-HasKept current hc)) tt)
        ]
      ]

  -- If the names and traits of the entries of a page of feats are plain, and the entries render to
  -- blocks without three hyphens, then parsing the converted page gives one feat candidate for
  -- each entry, in order and with successive identifiers, with the entry's name, traits and effect
  -- at full confidence.
  pub convert_feat_page-parsed :
      (ids : ℕ → Uuid) (text : Text)
      → All IsWhole (split_feat_entries text)
      → parse_candidates ids (convert_feat_page text)
        ≡ numbered feat_candidate ids 0 (split_feat_entries text)
  unfolding convert_feat_page split_feat_entries AllKept
  convert_feat_page-parsed ids text whole =
      let ls = map trim (lines text) in
      let readable : (e : RawFeatEntry) → HasKept e → IsWhole e → IsReadable e = λ e k w. record {
        name = w.name;
        traits = w.traits;
        paragraphs = group_paragraphs-IsPlain e.body_lines k;
      } in
      parse_candidates-page render_feat_block feat_candidate (λ e. HasKept e × IsWhole e)
        (λ id e (k, w). parse-render_feat id e (readable e k w))
        (λ e (k, w). record { block = render-IsBlock e (readable e k w); whole = w.whole }) ids
        (split_feat_entries text)
        (All-pair HasKept IsWhole (split_feat_entries text)
          (split_feats_fuel-HasKept (length ls) [] none ls
            (map-trim-IsKept (lines text) (lines-Lacks text)) tt tt)
          whole)
