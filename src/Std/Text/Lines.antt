-- ===== src/Std/Text/Lines.antt =====
-- Laws of `lines`.
use infernal_pf2e_parser_sim.Base.{
  ℕ, suc, ◌≤◌, true, false, none, some, List, [], ◌∷◌, ◌++◌, ◌≡◌, ◌≢◌, refl, sym, ap, ◌∙◌, arith,
  Option-cases, inl, inr, All, All-append, subst, length, length-append, append_assoc,
}
use infernal_pf2e_parser_sim.Std.Text.{
  Text, codes, trim, trim_start, trim_end, keep_end, is_whitespace, strip_suffix, strip_line_end,
  split_inclusive, lines, join,
}
use infernal_pf2e_parser_sim.Std.Text.Trim.{IsTrimmed, IsTrimmed-IsStart, trim_start_id}
use infernal_pf2e_parser_sim.Std.Text.Split.{Lacks}

abbrev newline : ℕ
newline = b'\n'

-- A line that stands for itself in a text of lines: not empty, no white space at its ends, and no
-- line end in it.
pub record IsPlain (l : Text) : Type 0 where
  pub not_empty : l ≢ []
  pub trimmed : IsTrimmed l
  pub one_line : Lacks b'\n' l

pub strip_suffix_one : (w : ℕ) (l : Text) → strip_suffix (w ∷ []) (l ++ w ∷ []) ≡ some l
unfolding strip_suffix
strip_suffix_one w [] = ground arith
strip_suffix_one w (c ∷ []) = ground (arith, strip_suffix_one w [])
strip_suffix_one w (c ∷ d ∷ l) = ground (arith, strip_suffix_one w (d ∷ l))

pub strip_suffix_one_sound :
    (w : ℕ) (l t : Text) → strip_suffix (w ∷ []) l ≡ some t → l ≡ t ++ w ∷ []
unfolding strip_suffix
strip_suffix_one_sound w [] t h = cc
strip_suffix_one_sound w (c ∷ []) t h = ground arith
strip_suffix_one_sound w (c ∷ d ∷ l) t h = elim (Option-cases (strip_suffix (w ∷ []) (d ∷ l))) [
  | inl (t', e) ↦ ground (arith, strip_suffix_one_sound w (d ∷ l) t' e)
  | inr e ↦ ground arith
]

length-keep_end : (c : ℕ) (t : Text) → length (keep_end c t) ≤ suc (length t)
unfolding keep_end
length-keep_end c [] = ground arith
length-keep_end c (d ∷ t) = omega arith

trim_end_shorter : (s : Text) → length (trim_end s) ≤ length s
unfolding trim_end
trim_end_shorter [] = omega arith
trim_end_shorter (c ∷ s) = omega (arith, length-keep_end c (trim_end s), trim_end_shorter s)

trim_end_space : (w : ℕ) (t : Text) → is_whitespace w ≡ true → trim_end (t ++ w ∷ []) ≡ trim_end t
unfolding trim_end
trim_end_space w [] h = rw h
trim_end_space w (c ∷ t) h = ap (keep_end c) (trim_end_space w t h)

IsTrimmed-end : (s : Text) → IsTrimmed s → trim_end s ≡ s
unfolding trim
IsTrimmed-end s h = rw (trim_start_id s (IsTrimmed-IsStart s h)) at h

-- A trimmed text does not end in white space.
strip_suffix_trimmed :
    (w : ℕ) (l : Text) → is_whitespace w ≡ true → IsTrimmed l → strip_suffix (w ∷ []) l ≡ none
strip_suffix_trimmed w l space h = elim (Option-cases (strip_suffix (w ∷ []) l)) [
  | inr e ↦ e
  | inl (t, e) ↦
      let ends = strip_suffix_one_sound w l t e in
      let short = trim_end_shorter t in
      let same = rw ends at (IsTrimmed-end l h) in
      let size = ap length (sym (trim_end_space w t space) ∙ same) in
      absurd (omega (arith, length-append {0} t (w ∷ [])))
]

strip_line_end-newline : (l : Text) → IsTrimmed l → strip_line_end (l ++ newline ∷ []) ≡ l
unfolding strip_line_end is_whitespace
strip_line_end-newline l h =
    rw (strip_suffix_one newline l, strip_line_end) (rw (strip_suffix_trimmed b'\r' l refl h))

strip_line_end_last : (l : Text) → IsTrimmed l → strip_line_end l ≡ l
unfolding strip_line_end is_whitespace
strip_line_end_last l h = rw (strip_suffix_trimmed newline l refl h, strip_line_end)

split_inclusive-append :
    (l s : Text)
    → Lacks newline l
    → split_inclusive (l ++ newline ∷ s) ≡ (l ++ newline ∷ []) ∷ split_inclusive s
unfolding split_inclusive
split_inclusive-append [] s h = refl
split_inclusive-append (c ∷ l) s (hc, h) = ground (arith, split_inclusive-append l s h)

split_inclusive_last :
    (c : ℕ) (l : Text) → Lacks newline (c ∷ l) → split_inclusive (c ∷ l) ≡ (c ∷ l) ∷ []
unfolding split_inclusive
split_inclusive_last c [] (hc, h) = ground arith
split_inclusive_last c (d ∷ l) (hc, h) = ground (arith, split_inclusive_last d l h)

pub lines-append : (l s : Text) → IsPlain l → lines (l ++ newline ∷ s) ≡ l ∷ lines s
unfolding lines
lines-append l s p = rw (split_inclusive-append l s p.one_line, strip_line_end-newline l p.trimmed)

pub lines_last : (l : Text) → IsPlain l → lines l ≡ l ∷ []
unfolding lines
lines_last [] p = absurd (p.not_empty refl)
lines_last (c ∷ l) p =
    rw (split_inclusive_last c l p.one_line, strip_line_end_last (c ∷ l) p.trimmed)

-- Plain lines, joined by line ends, are read back.
pub lines-join : (ls : List Text) → All IsPlain ls → lines (join (codes "\n") ls) ≡ ls
unfolding join
lines-join [] h = unfold lines split_inclusive in refl
lines-join (l ∷ []) (p, _) = lines_last l p
lines-join (l ∷ m ∷ ls) (p, ps) =
    lines-append l (join (codes "\n") (m ∷ ls)) p ∙ ap (◌∷◌ l) (lines-join (m ∷ ls) ps)

trim_end-append : (p n : Text) → n ≢ [] → trim_end n ≡ n → trim_end (p ++ n) ≡ p ++ n
unfolding trim_end
trim_end-append [] n ne h = h
trim_end-append (c ∷ []) [] ne h = absurd (ne refl)
trim_end-append (c ∷ []) (d ∷ n) ne h = ap (keep_end c) h ∙ unfold keep_end in refl
trim_end-append (c ∷ d ∷ p) n ne h =
    ap (keep_end c) (trim_end-append (d ∷ p) n ne h) ∙ unfold keep_end in refl

pub IsTrimmed-append :
    (c : ℕ) (p n : Text) → is_whitespace c ≡ false → n ≢ [] → IsTrimmed n → IsTrimmed ((c ∷ p) ++ n)
unfolding trim
IsTrimmed-append c p n start ne h =
    rw (trim_start_id ((c ∷ p) ++ n) start) (trim_end-append (c ∷ p) n ne (IsTrimmed-end n h))

-- A plain text stays plain behind a text that begins with no white space and holds no line end.
pub IsPlain-append :
    (c : ℕ) (p n : Text)
    → is_whitespace c ≡ false
    → Lacks newline (c ∷ p)
    → IsPlain n
    → IsPlain ((c ∷ p) ++ n)
IsPlain-append c p n start l h = record {
  not_empty = λ e. cc e;
  trimmed = IsTrimmed-append c p n start h.not_empty h.trimmed;
  one_line = All-append _ (c ∷ p) n l h.one_line;
}

pub IsPlain-start : (c : ℕ) (s : Text) → IsPlain (c ∷ s) → is_whitespace c ≡ false
IsPlain-start c s h = IsTrimmed-IsStart (c ∷ s) h.trimmed

-- Plain texts, joined by a separator with no line end, make a plain text.
pub IsPlain-join :
    (sep x : Text) (xs : List Text)
    → Lacks newline sep
    → All IsPlain (x ∷ xs)
    → IsPlain (join sep (x ∷ xs))
unfolding join
IsPlain-join sep x [] l (h, _) = h
IsPlain-join sep [] (y ∷ ys) l (h, hs) = absurd (h.not_empty refl)
IsPlain-join sep (c ∷ x) (y ∷ ys) l (h, hs) =
    subst IsPlain (append_assoc (c ∷ x) sep (join sep (y ∷ ys))) (
      IsPlain-append c (x ++ sep) (join sep (y ∷ ys)) (IsPlain-start c x h)
        (All-append _ (c ∷ x) sep h.one_line l) (IsPlain-join sep y ys l hs))

-- A line end on either side of a text is dropped.
pub trim-newline_front : (s : Text) → trim (newline ∷ s) ≡ trim s
unfolding trim is_whitespace
trim-newline_front s = refl

pub trim-newline : (s : Text) → IsTrimmed s → trim (s ++ newline ∷ []) ≡ s
unfolding trim trim_start trim_end is_whitespace
trim-newline [] h = refl
trim-newline (c ∷ s) h =
    rw (trim_start_id ((c ∷ s) ++ newline ∷ []) (IsTrimmed-IsStart (c ∷ s) h))
      (trim_end_space newline (c ∷ s) refl ∙ IsTrimmed-end (c ∷ s) h)
