-- ===== src/Std/Text/Plain.antt =====
-- Texts without line ends, and texts of plain lines.
use infernal_pf2e_parser_sim.Base.{
  ℕ, none, List, [], ◌∷◌, ◌++◌, ◌≡◌, ◌≢◌, refl, subst, arith, All, All-append, All-left, map,
  Bool-cases, Option-cases, inl, inr, ◌==◌, append_assoc,
}
use infernal_pf2e_parser_sim.Std.Text.{
  Text, codes, trim, trim_start, trim_end, keep_end, is_whitespace, strip_suffix, strip_line_end,
  split_inclusive, lines, join, push_line,
}
use infernal_pf2e_parser_sim.Std.Text.Trim.{IsTrimmed}
use infernal_pf2e_parser_sim.Std.Text.Split.{Lacks}
use infernal_pf2e_parser_sim.Std.Text.Lines.{
  IsPlain, strip_suffix_one_sound, IsTrimmed-append, IsPlain-start,
}

module _ (P : ℕ → Type 0) where
  All-trim_start : (s : Text) → All P s → All P (trim_start s)
  unfolding trim_start
  All-trim_start [] h = tt
  All-trim_start (c ∷ s) (p, h) = elim (Bool-cases (is_whitespace c)) [
    | inl e ↦ rw e (All-trim_start s h)
    | inr e ↦ rw e (p, h)
  ]

  All-keep_end : (c : ℕ) (t : Text) → P c → All P t → All P (keep_end c t)
  unfolding keep_end
  All-keep_end c [] p h = elim (Bool-cases (is_whitespace c)) [
    | inl e ↦ rw e tt
    | inr e ↦ rw e (p, tt)
  ]
  All-keep_end c (d ∷ t) p h = (p, h)

  All-trim_end : (s : Text) → All P s → All P (trim_end s)
  unfolding trim_end
  All-trim_end [] h = tt
  All-trim_end (c ∷ s) (p, h) = All-keep_end c (trim_end s) p (All-trim_end s h)

  -- What holds of every character of a text holds of those that `trim` keeps.
  pub All-trim : (s : Text) → All P s → All P (trim s)
  unfolding trim
  All-trim s h = All-trim_end (trim_start s) (All-trim_start s h)

  pub All-join : (sep : Text) (ts : List Text) → All P sep → All (All P) ts → All P (join sep ts)
  unfolding join
  All-join sep [] l h = tt
  All-join sep (t ∷ []) l (p, h) = p
  All-join sep (t ∷ u ∷ ts) l (p, h) =
      All-append P t _ p (All-append P sep _ l (All-join sep (u ∷ ts) l h))

-- a text with no line end but at its end
abbrev IsLine : Text → Type 0
IsLine [] = Unit
IsLine (c ∷ []) = Unit
IsLine (c ∷ d ∷ s) = (c ≢ b'\n') × IsLine (d ∷ s)

push_line-IsLine :
    (c : ℕ) (ls : List Text) → c ≢ b'\n' → All IsLine ls → All IsLine (push_line c ls)
unfolding push_line
push_line-IsLine c [] ne h = (tt, tt)
push_line-IsLine c ([] ∷ ls) ne (_, h) = (tt, h)
push_line-IsLine c ((d ∷ l) ∷ ls) ne (hl, h) = ((ne, hl), h)

split_inclusive-IsLine : (s : Text) → All IsLine (split_inclusive s)
unfolding split_inclusive
split_inclusive-IsLine [] = tt
split_inclusive-IsLine (c ∷ s) = elim (Bool-cases (c == b'\n')) [
  | inl e ↦ rw e (tt, split_inclusive-IsLine s)
  | inr e ↦ rw e (push_line-IsLine c (split_inclusive s) (ground arith) (split_inclusive-IsLine s))
]

IsLine-front : (t : Text) (c : ℕ) → IsLine (t ++ c ∷ []) → Lacks b'\n' t
IsLine-front [] c h = tt
IsLine-front (d ∷ []) c (ne, h) = (ne, tt)
IsLine-front (d ∷ e ∷ t) c (ne, h) = (ne, IsLine-front (e ∷ t) c h)

IsLine-whole : (l : Text) → IsLine l → strip_suffix (b'\n' ∷ []) l ≡ none → Lacks b'\n' l
unfolding strip_suffix
IsLine-whole [] h e = tt
IsLine-whole (c ∷ []) h e = (ground arith, tt)
IsLine-whole (c ∷ d ∷ l) (ne, h) e = elim (Option-cases (strip_suffix (b'\n' ∷ []) (d ∷ l))) [
  | inl (t, e') ↦ ground arith
  | inr e' ↦ (ne, IsLine-whole (d ∷ l) h e')
]

strip_line_end-Lacks : (l : Text) → IsLine l → Lacks b'\n' (strip_line_end l)
unfolding strip_line_end
strip_line_end-Lacks l h = elim (Option-cases (strip_suffix (b'\n' ∷ []) l)) [
  | inr e ↦ rw (strip_line_end, e) (IsLine-whole l h e)
  | inl (s, e) ↦
      let front = IsLine-front s b'\n' (subst IsLine (strip_suffix_one_sound b'\n' l s e) h) in
      elim (Option-cases (strip_suffix (b'\r' ∷ []) s)) [
        | inr e' ↦ rw (strip_line_end, e, e') front
        | inl (t, e') ↦
            rw (strip_line_end, e, e')
              (All-left _ t (b'\r' ∷ [])
                (subst (Lacks b'\n') (strip_suffix_one_sound b'\r' s t e') front))
      ]
]

-- No line of a text has a line end.
pub lines-Lacks : (s : Text) → All (Lacks b'\n') (lines s)
unfolding lines
lines-Lacks s = stripped (split_inclusive s) (split_inclusive-IsLine s)
  where
    stripped : (ls : List Text) → All IsLine ls → All (Lacks b'\n') (map strip_line_end ls)
    stripped [] h = tt
    stripped (l ∷ ls) (p, h) = (strip_line_end-Lacks l p, stripped ls h)

pub join-ne-nil : (l : Text) (ls : List Text) → l ≢ [] → join (codes "\n") (l ∷ ls) ≢ []
unfolding join
join-ne-nil l [] ne = ne
join-ne-nil [] (m ∷ ls) ne = absurd (ne refl)
join-ne-nil (c ∷ l) (m ∷ ls) ne = λ e. cc e

-- Plain lines, joined by line ends, make a text with no white space at its ends.
pub join-IsTrimmed :
    (l : Text) (ls : List Text) → All IsPlain (l ∷ ls) → IsTrimmed (join (codes "\n") (l ∷ ls))
unfolding join
join-IsTrimmed l [] (h, _) = h.trimmed
join-IsTrimmed [] (m ∷ ls) (h, hs) = absurd (h.not_empty refl)
join-IsTrimmed (c ∷ l) (m ∷ ls) (h, hs) =
    subst IsTrimmed (append_assoc (c ∷ l) (codes "\n") (join (codes "\n") (m ∷ ls))) (
      IsTrimmed-append c (l ++ codes "\n") (join (codes "\n") (m ∷ ls)) (IsPlain-start c l h)
        (join-ne-nil m ls hs.0.not_empty) (join-IsTrimmed m ls hs))
