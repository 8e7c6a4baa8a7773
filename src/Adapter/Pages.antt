-- ===== src/Adapter/Pages.antt =====
-- How the parser cuts a page that a converter of src/book_adapter.rs joined from blocks.
use infernal_pf2e_parser_sim.Base.{
  ℕ, suc, not, none, some, List, [], ◌∷◌, ◌++◌, map, is_empty, ◌≡◌, ◌≢◌, if◌then◌else◌, refl, ap,
  sym, append-nil, ◌∙◌, arith, All, Option-cases, inl, inr,
}
use infernal_pf2e_parser_sim.Std.Text.{Text, codes, join, trim, strip_prefix, split_once, split}
use infernal_pf2e_parser_sim.Std.Text.Lines.{trim-newline_front, trim-newline}
use infernal_pf2e_parser_sim.Std.Text.Split.{Lacks, strip_prefix-append, split-some, split_last}
use infernal_pf2e_parser_sim.Std.Unicode.{Unicode}
use infernal_pf2e_parser_sim.Domain.{Uuid, Candidate}
use infernal_pf2e_parser_sim.Parser.{
  parse_block, parse_blocks, parse_candidates, source_blocks, block_separator,
}
use infernal_pf2e_parser_sim.Parser.Blocks.{IsBlock}
use infernal_pf2e_parser_sim.Adapter.{block_joiner}

-- A character that the pattern does not have ends any match.
strip_prefix_cut :
    (p a s : Text) (d : ℕ)
    → Lacks d p
    → strip_prefix p a ≡ none
    → strip_prefix p (a ++ d ∷ s) ≡ none
unfolding strip_prefix
strip_prefix_cut [] a s d l h = cc
strip_prefix_cut (c ∷ p) [] s d (ne, l) h = ground arith
strip_prefix_cut (c ∷ p) (x ∷ a) s d (ne, l) h = ground (arith, strip_prefix_cut p a s d l)

split_once_front : (c : ℕ) (ps r : Text) → split_once (c ∷ ps) ((c ∷ ps) ++ r) ≡ some ([], r)
unfolding split_once
split_once_front c ps r = ground (arith, strip_prefix-append ps r)

split_once_skip :
    (p s a b : Text) (x : ℕ)
    → strip_prefix p (x ∷ s) ≡ none
    → split_once p s ≡ some (a, b)
    → split_once p (x ∷ s) ≡ some (x ∷ a, b)
unfolding split_once
split_once_skip p s a b x h k = rw (split_once, h, k)

some_clash : {A : Type 0} {a : A} → ¬ (some a ≡ none)
some_clash h = cc

-- A text with no match has none at its front and none behind its first character.
no_match :
    (p s : Text) (x : ℕ)
    → split_once p (x ∷ s) ≡ none
    → (strip_prefix p (x ∷ s) ≡ none) × (split_once p s ≡ none)
unfolding split_once
no_match p s x h = elim (Option-cases (strip_prefix p (x ∷ s))) [
  | inl (r, e) ↦ absurd (some_clash (rw (split_once, e) at h))
  | inr e ↦ elim (Option-cases (split_once p s)) [
    | inl ((a, b), e') ↦ absurd (some_clash (sym (split_once_skip p s a b x e e') ∙ h))
    | inr e' ↦ (e, e')
  ]
]

split_once_cut :
    (c : ℕ) (ps a r : Text) (d : ℕ)
    → Lacks d (c ∷ ps)
    → split_once (c ∷ ps) a ≡ none
    → split_once (c ∷ ps) (a ++ d ∷ ((c ∷ ps) ++ r)) ≡ some (a ++ d ∷ [], r)
split_once_cut c ps [] r d l h =
    split_once_skip (c ∷ ps) ((c ∷ ps) ++ r) [] r d
      (strip_prefix_cut (c ∷ ps) [] ((c ∷ ps) ++ r) d l (unfold strip_prefix in refl))
      (split_once_front c ps r)
split_once_cut c ps (x ∷ a) r d l h =
    let (front, behind) = no_match (c ∷ ps) a x h in
    split_once_skip (c ∷ ps) (a ++ d ∷ ((c ∷ ps) ++ r)) (a ++ d ∷ []) r x
      (strip_prefix_cut (c ∷ ps) (x ∷ a) ((c ∷ ps) ++ r) d l front)
      (split_once_cut c ps a r d l behind)

-- what `join` puts behind a block
behind : List Text → Text
behind [] = []
behind (b ∷ bs) = block_joiner ++ join block_joiner (b ∷ bs)

join-behind : (b : Text) (bs : List Text) → join block_joiner (b ∷ bs) ≡ b ++ behind bs
unfolding join behind
join-behind b [] = sym (append-nil b)
join-behind b (b' ∷ bs) = refl

-- A block that the converters may join: the parser takes it as it is, and it holds no separator.
pub record IsSeparate (b : Text) : Type 0 where
  pub block : IsBlock b
  pub whole : split_once block_separator b ≡ none

kept_block :
    (b : Text) (bs : List Text) → b ≢ [] → (if not (is_empty b) then b ∷ bs else bs) ≡ b ∷ bs
kept_block [] bs ne = absurd (ne refl)
kept_block (c ∷ b) bs ne = refl

-- a piece of the page: a block, with or without line ends round it
module _ (x b : Text) (only : split_once block_separator x ≡ none) where
  -- the pieces of a page whose first one this is
  source_blocks_last : trim x ≡ b → b ≢ [] → source_blocks x ≡ b ∷ []
  unfolding source_blocks
  source_blocks_last t ne = rw (split_last block_separator x only, t) (kept_block b [] ne)

  source_blocks_first :
      (r : Text)
      → trim (x ++ b'\n' ∷ []) ≡ b
      → b ≢ []
      → source_blocks (x ++ b'\n' ∷ (block_separator ++ r)) ≡ b ∷ source_blocks r
  unfolding source_blocks
  source_blocks_first r t ne =
      rw
        (
          split-some b'-' (codes "--") _ _ r
              (split_once_cut b'-' (codes "--") x r b'\n' (omega arith) only),
          t,
        )
        (kept_block b _ ne)

newline_only :
    (b : Text) → split_once block_separator b ≡ none → split_once block_separator (b'\n' ∷ b) ≡ none
unfolding split_once strip_prefix
newline_only b h = rw h refl

source_blocks-behind :
    (x b : Text) (bs : List Text)
    → split_once block_separator x ≡ none
    → trim x ≡ b
    → trim (x ++ b'\n' ∷ []) ≡ b
    → b ≢ []
    → All IsSeparate bs
    → source_blocks (x ++ behind bs) ≡ b ∷ bs
unfolding behind
source_blocks-behind x b [] only t t' ne h =
    ap source_blocks (append-nil x) ∙ source_blocks_last x b only t ne
source_blocks-behind x b (b' ∷ bs) only t t' ne (s, h) =
    source_blocks_first x b only (b'\n' ∷ join block_joiner (b' ∷ bs)) t' ne
    ∙ ap (λ (r : Text). b ∷ source_blocks (b'\n' ∷ r)) (join-behind b' bs)
    ∙ ap (◌∷◌ b) (
        source_blocks-behind (b'\n' ∷ b') b' bs (newline_only b' s.whole)
          (trim-newline_front b' ∙ s.block.0)
          (trim-newline_front (b' ++ b'\n' ∷ []) ∙ trim-newline b' s.block.0) s.block.1 h)

-- The parser takes from a page exactly the blocks that were joined.
source_blocks-join :
    (bs : List Text) → All IsSeparate bs → source_blocks (join block_joiner bs) ≡ bs
source_blocks-join [] h = unfold source_blocks split split_once join trim in refl
source_blocks-join (b ∷ bs) (s, h) =
    ap source_blocks (join-behind b bs)
    ∙ source_blocks-behind b b bs s.whole s.block.0 (trim-newline b s.block.0) s.block.1 h

-- what successive draws make of these
unfoldable pub numbered :
    {E : Type 0} → (Uuid → E → Candidate) → (ℕ → Uuid) → ℕ → List E → List Candidate
numbered candidate ids n [] = []
numbered candidate ids n (e ∷ es) = candidate (ids n) e ∷ numbered candidate ids (suc n) es

module _ ⦃u : Unicode⦄ {E : Type 0} (render : E → Text) (candidate : Uuid → E → Candidate)
    (Fits : E → Type 0)
    (reads : (id : Uuid) (e : E) → Fits e → parse_block id (render e) ≡ candidate id e) where
  parse_blocks-numbered :
      (ids : ℕ → Uuid) (n : ℕ) (es : List E)
      → All Fits es
      → parse_blocks ids n (map render es) ≡ numbered candidate ids n es
  unfolding parse_blocks numbered
  parse_blocks-numbered ids n [] h = refl
  parse_blocks-numbered ids n (e ∷ es) (f, h) =
      cc (reads (ids n) e f, parse_blocks-numbered ids (suc n) es h)

  IsSeparate-All :
      ((e : E) → Fits e → IsSeparate (render e))
      → (es : List E) → All Fits es
      → All IsSeparate (map render es)
  IsSeparate-All separate [] h = tt
  IsSeparate-All separate (e ∷ es) (f, h) = (separate e f, IsSeparate-All separate es h)

  -- A page of rendered entries is parsed to the candidates of the entries, in order.
  pub parse_candidates-page :
      (separate : (e : E) → Fits e → IsSeparate (render e)) (ids : ℕ → Uuid) (es : List E)
      → All Fits es
      → parse_candidates ids (join block_joiner (map render es)) ≡ numbered candidate ids 0 es
  unfolding parse_candidates
  parse_candidates-page separate ids es h =
      ap (parse_blocks ids 0) (source_blocks-join (map render es) (IsSeparate-All separate es h))
      ∙ parse_blocks-numbered ids 0 es h
