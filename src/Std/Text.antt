-- ===== src/Std/Text.antt =====
-- Rust's `str` and `char` operations, as far as the source calls them. A text is the list of its
-- Unicode scalar values. Slicing at a byte position that `find` returned is taking the text
-- before or behind the match, so positions are not modelled.
pub mod Trim
pub mod Split
pub mod Lines
pub mod Plain
use Prim.Native.Char.{code}
use infernal_pf2e_parser_sim.Base.{
  ℕ, zero, suc, ◌+◌, String, Bool, true, false, not, ◌&&◌, ◌||◌, Option, none, some, List, [], ◌∷◌,
  ◌++◌, map, leb, ◌==◌, if◌then◌else◌, length, is_empty, filter,
}

abbrev pub Text : Type 0
Text = List ℕ

-- the scalar values of a literal
abbrev pub codes : String → Text
codes String.[] = []
codes (String.◌∷◌ c s) = code c ∷ codes s

-- `==` on texts
unfoldable pub text_eq : Text → Text → Bool
text_eq [] [] = true
text_eq (c ∷ s) (d ∷ t) = c == d && text_eq s t
text_eq _ _ = false

-- `char::is_whitespace`: the code points with the property White_Space.
unfoldable pub is_whitespace : ℕ → Bool
is_whitespace c =
    (leb 0x9 c && leb c 0xd)
    || c == 0x20
    || c == 0x85
    || c == 0xa0
    || c == 0x1680
    || (leb 0x2000 c && leb c 0x200a)
    || c == 0x2028
    || c == 0x2029
    || c == 0x202f
    || c == 0x205f
    || c == 0x3000

unfoldable pub is_ascii_digit : ℕ → Bool
is_ascii_digit c = leb b'0' c && leb c b'9'

-- `str::trim` and its two halves
unfoldable pub trim_start : Text → Text
trim_start [] = []
trim_start (c ∷ s) = let rest = trim_start s in if is_whitespace c then rest else c ∷ s

-- A character stays if it is no white space or stands before one that stays.
keep_end : ℕ → Text → Text
keep_end c [] = if is_whitespace c then [] else c ∷ []
keep_end c (d ∷ t) = c ∷ d ∷ t

unfoldable pub trim_end : Text → Text
unfolding keep_end
trim_end [] = []
trim_end (c ∷ s) = keep_end c (trim_end s)

unfoldable pub trim : Text → Text
unfolding trim_start trim_end
trim s = trim_end (trim_start s)

-- `str::strip_prefix` and `str::strip_suffix`
unfoldable pub strip_prefix : Text → Text → Option Text
strip_prefix [] s = some s
strip_prefix (p ∷ ps) [] = none
strip_prefix (p ∷ ps) (c ∷ s) = let rest = strip_prefix ps s in if p == c then rest else none

-- the text before the suffix: the shortest one that leaves exactly the suffix
unfoldable pub strip_suffix : Text → Text → Option Text
unfolding text_eq
strip_suffix p [] = if text_eq [] p then some [] else none
strip_suffix p (c ∷ s) =
    let rest = strip_suffix p s in
    if text_eq (c ∷ s) p then some [] else elim rest [ none ↦ none | some t ↦ some (c ∷ t) ]

push_front : ℕ → Option (Text × Text) → Option (Text × Text)
push_front c none = none
push_front c (some (a, b)) = some (c ∷ a, b)

-- `str::split_once` with a non-empty pattern: the texts round the first match. It is also
-- `find` followed by slices before and behind the match.
unfoldable pub split_once : Text → Text → Option (Text × Text)
unfolding push_front strip_prefix
split_once p [] = none
split_once p (c ∷ s) =
    let later = push_front c (split_once p s) in
    elim (strip_prefix p (c ∷ s)) [ some rest ↦ some ([], rest) | none ↦ later ]

-- `str::split` with a non-empty pattern. Each match shortens the text, so a fuel of more than the
-- text's length is never used up.
unfoldable pub split_fuel : ℕ → Text → Text → List Text
split_fuel zero p s = s ∷ []
split_fuel (suc f) p s = elim (split_once p s) [
  | none ↦ s ∷ []
  | some (a, b) ↦ a ∷ split_fuel f p b
]

unfoldable pub split : Text → Text → List Text
unfolding split_fuel
split p s = split_fuel (suc (length s)) p s

push_line : ℕ → List Text → List Text
push_line c [] = (c ∷ []) ∷ []
push_line c (l ∷ ls) = (c ∷ l) ∷ ls

-- `split_inclusive('\n')`
unfoldable pub split_inclusive : Text → List Text
unfolding push_line
split_inclusive [] = []
split_inclusive (c ∷ s) =
    let rest = split_inclusive s in if c == b'\n' then (c ∷ []) ∷ rest else push_line c rest

-- A line loses its `\n`, and then a `\r` before that. A last line with no `\n` is kept whole.
unfoldable pub strip_line_end : Text → Text
strip_line_end l = elim (strip_suffix (b'\n' ∷ []) l) [
  | none ↦ l
  | some s ↦ elim (strip_suffix (b'\r' ∷ []) s) [ none ↦ s | some t ↦ t ]
]

-- `str::lines`
unfoldable pub lines : Text → List Text
unfolding split_inclusive
lines s = map strip_line_end (split_inclusive s)

push_word : ℕ → List Text → List Text
push_word c [] = (c ∷ []) ∷ []
push_word c (w ∷ ws) = (c ∷ w) ∷ ws

-- the pieces between single white space characters
unfoldable pub split_spaces : Text → List Text
unfolding push_word is_whitespace
split_spaces [] = [] ∷ []
split_spaces (c ∷ s) =
    let rest = split_spaces s in if is_whitespace c then [] ∷ rest else push_word c rest

-- `str::split_whitespace`
unfoldable pub split_whitespace : Text → List Text
unfolding split_spaces
split_whitespace s = filter (λ w. not (is_empty w)) (split_spaces s)

-- `join` on a slice of texts
unfoldable pub join : Text → List Text → Text
join sep [] = []
join sep (x ∷ []) = x
join sep (x ∷ y ∷ ys) = x ++ (sep ++ join sep (y ∷ ys))

-- `str::replace` of one character by another
unfoldable pub replace_char : ℕ → ℕ → Text → Text
replace_char a b s = map (λ c. if c == a then b else c) s

unfoldable pub to_ascii_lowercase : ℕ → ℕ
to_ascii_lowercase c = if leb b'A' c && leb c b'Z' then c + 32 else c

-- `str::eq_ignore_ascii_case`
unfoldable pub eq_ignore_ascii_case : Text → Text → Bool
unfolding text_eq to_ascii_lowercase
eq_ignore_ascii_case s t = text_eq (map to_ascii_lowercase s) (map to_ascii_lowercase t)

-- `Vec::contains`
unfoldable pub contains : List Text → Text → Bool
unfolding text_eq
contains [] t = false
contains (x ∷ xs) t = text_eq x t || contains xs t
