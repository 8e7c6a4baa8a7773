-- ===== src/Parser/Blocks.antt =====
-- The candidates of a text and its blocks.
use infernal_pf2e_parser_sim.Base.{
  ℕ, zero, suc, true, not, List, [], ◌∷◌, ◌++◌, ◌≡◌, ◌≢◌, refl, ◌∙◌, arith, is_empty, map, length,
  All, All-filter, All-filter_keep, filter-append,
}
use infernal_pf2e_parser_sim.Std.Text.{Text, codes, split, trim}
use infernal_pf2e_parser_sim.Std.Text.Trim.{IsTrimmed, trim-IsTrimmed}
use infernal_pf2e_parser_sim.Std.Text.Split.{Lacks, split-append, split-none}
use infernal_pf2e_parser_sim.Std.Unicode.{Unicode}
use infernal_pf2e_parser_sim.Domain.{Uuid, Candidate}
use infernal_pf2e_parser_sim.Parser.{
  parse_block, parse_blocks, parse_candidates, source_blocks, block_separator, finish_block,
}

-- the numbers of `n` draws from the `i`-th on
abbrev pub draws : ℕ → ℕ → List ℕ
draws i zero = []
draws i (suc n) = i ∷ draws (suc i) n

finish_block-source :
    (id : Uuid) (block : Text) (f : _) → (finish_block id block f).source_text ≡ block
unfolding finish_block
finish_block-source id block f = ground arith

finish_block-id : (id : Uuid) (block : Text) (f : _) → (finish_block id block f).candidate_id ≡ id
unfolding finish_block
finish_block-id id block f = ground arith

-- A block as it is parsed: trimmed and not empty.
abbrev pub IsBlock : Text → Type 0
IsBlock b = IsTrimmed b × (b ≢ [])

map-trim-IsTrimmed : (pieces : List Text) → All IsTrimmed (map trim pieces)
map-trim-IsTrimmed [] = tt
map-trim-IsTrimmed (p ∷ ps) = (trim-IsTrimmed p, map-trim-IsTrimmed ps)

not_empty-ne : (b : Text) → not (is_empty b) ≡ true → b ≢ []
not_empty-ne [] h = cc
not_empty-ne (c ∷ b) h = λ e. cc e

pub All-pair {ℓ} :
    {A : Type ℓ} (P Q : A → Type 0) (xs : List A) → All P xs → All Q xs → All (λ x. P x × Q x) xs
All-pair P Q [] h k = tt
All-pair P Q (x ∷ xs) (px, h) (qx, k) = ((px, qx), All-pair P Q xs h k)

source_blocks-IsBlock : (t : Text) → All IsBlock (source_blocks t)
unfolding source_blocks
source_blocks-IsBlock t =
    let pieces = map trim (split block_separator t) in
    All-pair IsTrimmed (λ b. b ≢ []) _
      (All-filter_keep IsTrimmed (λ b. not (is_empty b)) pieces (map-trim-IsTrimmed _))
      (All-filter (λ b. b ≢ []) (λ b. not (is_empty b)) not_empty-ne pieces)

-- The separator needs no line of its own.
source_blocks-append :
    (a b : Text)
    → Lacks b'-' a
    → source_blocks (a ++ (block_separator ++ b)) ≡ source_blocks a ++ source_blocks b
unfolding source_blocks
source_blocks-append a b h =
    rw (split-append b'-' (codes "--") a b h, split-none b'-' (codes "--") a h)
      (filter-append (λ x. not (is_empty x)) (trim a ∷ []) (map trim (split block_separator b)))

module _ ⦃u : Unicode⦄ where
  parse_blocks-source :
      (ids : ℕ → Uuid) (n : ℕ) (bs : List Text)
      → map (λ (c : Candidate). c.source_text) (parse_blocks ids n bs) ≡ bs
  unfolding parse_blocks parse_block
  parse_blocks-source ids n [] = refl
  parse_blocks-source ids n (b ∷ bs) =
      cc (finish_block-source (ids n) b _, parse_blocks-source ids (suc n) bs)

  parse_blocks-ids :
      (ids : ℕ → Uuid) (n : ℕ) (bs : List Text)
      → map (λ (c : Candidate). c.candidate_id) (parse_blocks ids n bs)
        ≡ map ids (draws n (length bs))
  unfolding parse_blocks parse_block
  parse_blocks-ids ids n [] = refl
  parse_blocks-ids ids n (b ∷ bs) =
      cc (finish_block-id (ids n) b _, parse_blocks-ids ids (suc n) bs)

  parse_blocks-All :
      (P : Candidate → Type 0) (ids : ℕ → Uuid)
      → ((i : ℕ) (b : Text) → P (parse_block (ids i) b))
      → (n : ℕ) (bs : List Text) → All P (parse_blocks ids n bs)
  unfolding parse_blocks
  parse_blocks-All P ids h n [] = tt
  parse_blocks-All P ids h n (b ∷ bs) = (h n b, parse_blocks-All P ids h (suc n) bs)

  -- What holds of every parsed block holds of the candidates of a text.
  pub parse_candidates-All :
      (P : Candidate → Type 0) (ids : ℕ → Uuid)
      → ((i : ℕ) (b : Text) → P (parse_block (ids i) b))
      → (t : Text) → All P (parse_candidates ids t)
  unfolding parse_candidates
  parse_candidates-All P ids h t = parse_blocks-All P ids h 0 (source_blocks t)

  pub parse_block-id : (id : Uuid) (b : Text) → (parse_block id b).candidate_id ≡ id
  unfolding parse_block
  parse_block-id id b = finish_block-id id b _

  -- Parsing a text gives one candidate for each of its blocks, in order: the candidates' source
  -- texts are the blocks, each trimmed and not empty, and the identifiers are as many successive
  -- draws.
  pub parse_candidates-blocks :
      (ids : ℕ → Uuid) (t : Text)
      → (map (λ (c : Candidate). c.source_text) (parse_candidates ids t) ≡ source_blocks t)
        × (map (λ (c : Candidate). c.candidate_id) (parse_candidates ids t)
            ≡ map ids (draws 0 (length (source_blocks t))))
        × All IsBlock (source_blocks t)
  unfolding parse_candidates
  parse_candidates-blocks ids t = (
    parse_blocks-source ids 0 (source_blocks t),
    parse_blocks-ids ids 0 (source_blocks t),
    source_blocks-IsBlock t,
  )

  -- Three hyphens separate blocks wherever they stand, also inside a line: behind a text with no
  -- hyphen, the candidates' source texts are those of the two sides.
  pub parse_candidates-append :
      (ids : ℕ → Uuid) (a b : Text)
      → Lacks b'-' a
      → map (λ (c : Candidate). c.source_text) (parse_candidates ids (a ++ (block_separator ++ b)))
        ≡ map (λ (c : Candidate). c.source_text) (parse_candidates ids a)
          ++ map (λ (c : Candidate). c.source_text) (parse_candidates ids b)
  parse_candidates-append ids a b h =
      (parse_candidates-blocks ids (a ++ (block_separator ++ b))).0
      ∙ source_blocks-append a b h
      ∙ cc ((parse_candidates-blocks ids a).0, (parse_candidates-blocks ids b).0)
