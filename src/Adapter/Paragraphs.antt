-- ===== src/Adapter/Paragraphs.antt =====
-- What `group_paragraphs` of src/book_adapter.rs makes of the lines of a page.
use infernal_pf2e_parser_sim.Base.{
  false, List, [], ◌∷◌, ◌++◌, ◌≡◌, All, All-append, is_empty, Bool-cases, inl, inr, arith,
}
use infernal_pf2e_parser_sim.Std.Text.{Text, codes, trim}
use infernal_pf2e_parser_sim.Std.Text.Trim.{IsTrimmed, trim-IsTrimmed}
use infernal_pf2e_parser_sim.Std.Text.Lines.{IsPlain, IsPlain-join}
use infernal_pf2e_parser_sim.Std.Text.Split.{Lacks}
use infernal_pf2e_parser_sim.Std.Text.Plain.{All-trim}
use infernal_pf2e_parser_sim.Adapter.{close_paragraph, group_from, group_paragraphs}

-- a line as the converters keep it: trimmed, and perhaps empty
abbrev pub IsKept : Text → Type 0
IsKept l = IsTrimmed l × Lacks b'\n' l

pub trim-IsKept : (raw : Text) → Lacks b'\n' raw → IsKept (trim raw)
trim-IsKept raw h = (trim-IsTrimmed raw, All-trim _ raw h)

pub IsKept-IsPlain : (l : Text) → IsKept l → is_empty l ≡ false → IsPlain l
IsKept-IsPlain [] k h = cc
IsKept-IsPlain (c ∷ l) (t, o) h = record { not_empty = λ e. cc e; trimmed = t; one_line = o }

close_paragraph-IsPlain :
    (paragraphs current : List Text)
    → All IsPlain paragraphs
    → All IsPlain current
    → All IsPlain (close_paragraph paragraphs current)
unfolding close_paragraph
close_paragraph-IsPlain paragraphs [] hp hc = hp
close_paragraph-IsPlain paragraphs (l ∷ ls) hp hc =
    All-append IsPlain paragraphs _ hp (IsPlain-join (codes " ") l ls (omega arith) hc, tt)

group_from-IsPlain :
    (ls paragraphs current : List Text)
    → All IsKept ls
    → All IsPlain paragraphs
    → All IsPlain current
    → All IsPlain (group_from paragraphs current ls)
unfolding group_from
group_from-IsPlain [] paragraphs current h hp hc = close_paragraph-IsPlain paragraphs current hp hc
group_from-IsPlain (line ∷ rest) paragraphs current (k, h) hp hc =
    elim (Bool-cases (is_empty line)) [
      | inl e ↦ rw e (
          group_from-IsPlain rest (close_paragraph paragraphs current) [] h
            (close_paragraph-IsPlain paragraphs current hp hc) tt)
      | inr e ↦ rw e (
          group_from-IsPlain rest paragraphs (current ++ line ∷ []) h hp
            (All-append IsPlain current (line ∷ []) hc (IsKept-IsPlain line k e, tt)))
    ]

-- The paragraphs of trimmed lines are plain: not empty, trimmed, and of one line.
pub group_paragraphs-IsPlain : (ls : List Text) → All IsKept ls → All IsPlain (group_paragraphs ls)
unfolding group_paragraphs
group_paragraphs-IsPlain ls h = group_from-IsPlain ls [] [] h tt tt
