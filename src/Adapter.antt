-- ===== src/Adapter.antt =====
-- src/book_adapter.rs: raw page text of the book to labelled blocks for the parser. This file has
-- what the three converters share; each of them is a child module.
pub mod Actions
pub mod Feats
pub mod Conditions
pub mod Rendered
pub mod Pages
pub mod Paragraphs
use infernal_pf2e_parser_sim.Base.{
  Bool, if◌then◌else◌, ◌&&◌, Option, none, some, List, [], ◌∷◌, ◌++◌, map, is_empty, filter, all,
  any,
}
use infernal_pf2e_parser_sim.Std.Text.{Text, codes, join, split_whitespace}
use infernal_pf2e_parser_sim.Std.Unicode.{Unicode}

-- `join("\n---\n")` over the rendered blocks
abbrev pub block_joiner : Text
block_joiner = codes "\n---\n"

-- `Vec::extend` by an `Option`
abbrev pub to_list {ℓ} : {A : Type ℓ} → Option A → List A
to_list none = []
to_list (some a) = a ∷ []

module _ ⦃u : Unicode⦄ where
  -- Some letter, and every letter is upper case.
  unfoldable pub is_shouty : Text → Bool
  is_shouty text = any u.is_alphabetic text && all u.is_uppercase (filter u.is_alphabetic text)

  unfoldable pub title_word : Text → Text
  title_word [] = []
  title_word (first ∷ rest) = u.to_uppercase first ++ u.to_lowercase rest

  unfoldable pub title_case : Text → Text
  title_case text = join (codes " ") (map title_word (split_whitespace text))

close_paragraph : List Text → List Text → List Text
close_paragraph paragraphs [] = paragraphs
close_paragraph paragraphs (l ∷ ls) = paragraphs ++ join (codes " ") (l ∷ ls) ∷ []

-- the loop of `group_paragraphs`, over its two vectors
unfoldable pub group_from : List Text → List Text → List Text → List Text
unfolding close_paragraph
group_from paragraphs current [] = close_paragraph paragraphs current
group_from paragraphs current (line ∷ rest) =
    let closed = group_from (close_paragraph paragraphs current) [] rest in
    let longer = group_from paragraphs (current ++ line ∷ []) rest in
    if is_empty line then closed else longer

unfoldable pub group_paragraphs : List Text → List Text
unfolding group_from
group_paragraphs body_lines = group_from [] [] body_lines

-- the `Effect:` line, if there is anything to say
abbrev pub effect_line : List Text → List Text
effect_line [] = []
effect_line (p ∷ ps) = (codes "Effect: " ++ join (codes " ") (p ∷ ps)) ∷ []

abbrev pub traits_line : List Text → List Text
traits_line [] = []
traits_line (t ∷ ts) = (codes "Traits: " ++ join (codes ", ") (t ∷ ts)) ∷ []
