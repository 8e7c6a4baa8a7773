-- ===== src/Repository/Rows.antt =====
-- Reading back the rows of candidates.
use infernal_pf2e_parser_sim.Base.{true, List, [], ◌∷◌, map, ◌≡◌, refl, sym, All}
use mathlib.Core.List.{Permᴰ}
use mathlib.Core.List.Permᴰ
use infernal_pf2e_parser_sim.Std.Text.{Text}
use infernal_pf2e_parser_sim.Domain.{Candidate}
use infernal_pf2e_parser_sim.Domain.Names.{parse-as_str}
use infernal_pf2e_parser_sim.Result.{ok, parts_of_chain, ok-injective}
use infernal_pf2e_parser_sim.Codec.{Codec, is_canonical}
use infernal_pf2e_parser_sim.Repository.Schema.{
  ListCodec, RunKey, CandidateRow, row_of, candidate_of, candidates_of, encode_string_list,
  decode_string_list,
}

-- A candidate whose identifier is one that `Display` writes.
abbrev pub HasCanonicalId : Candidate → Type 0
HasCanonicalId c = is_canonical c.candidate_id.canonical ≡ true

module _ (codec : Codec) (lists : ListCodec) where
  list_read_back :
      (values : List Text)
      → decode_string_list codec lists (encode_string_list codec lists values) ≡ values
  unfolding decode_string_list encode_string_list
  list_read_back values = rw (lists.decode-encode_list values) refl

  candidate_of-row_of :
      (k : RunKey) (c : Candidate)
      → HasCanonicalId c
      → candidate_of codec lists (row_of codec lists k c) ≡ ok c
  unfolding candidate_of row_of
  candidate_of-row_of k c h =
      rw
        (
          codec.parse_uuid_canonical c.candidate_id.canonical h,
          parse-as_str c.rule_type,
          list_read_back c.traits,
          list_read_back c.requirements,
          list_read_back c.prerequisites,
          list_read_back c.references,
          list_read_back c.inferences,
        )
        refl

  -- Candidates with canonical identifiers, stored as rows, are loaded as they were, in the order
  -- of the rows.
  pub candidates_of-row_of :
      (k : RunKey) (cs : List Candidate)
      → All HasCanonicalId cs
      → candidates_of codec lists (map (row_of codec lists k) cs) ≡ ok cs
  unfolding candidates_of
  candidates_of-row_of k [] h = refl
  candidates_of-row_of k (c ∷ cs) (hc, h) =
      rw (candidate_of-row_of k c hc, candidates_of-row_of k cs h) refl

  -- what one more row adds to a list of rows that can be loaded
  candidates_of-cons :
      (r : CandidateRow) (rs : List CandidateRow) {cs : List Candidate}
      → candidates_of codec lists (r ∷ rs) ≡ ok cs
      → (c : Candidate) × (ds : List Candidate) × (candidate_of codec lists r ≡ ok c)
        × (candidates_of codec lists rs ≡ ok ds)
        × (cs ≡ c ∷ ds)
  unfolding candidates_of
  candidates_of-cons r rs h =
      let (c, e, h1) = parts_of_chain _ (candidate_of codec lists r) h in
      let (ds, f, h2) = parts_of_chain _ (candidates_of codec lists rs) h1 in
      (c, ds, e, f, sym (ok-injective h2))

  cons-candidates_of :
      (r : CandidateRow) (rs : List CandidateRow) {c : Candidate} {ds : List Candidate}
      → candidate_of codec lists r ≡ ok c
      → candidates_of codec lists rs ≡ ok ds
      → candidates_of codec lists (r ∷ rs) ≡ ok (c ∷ ds)
  unfolding candidates_of
  cons-candidates_of r rs e f = rw (e, f) refl

  -- Rows in another order give the candidates in another order.
  pub candidates_of-perm :
      (rs rs' : List CandidateRow) (cs : List Candidate)
      → Permᴰ rs rs'
      → candidates_of codec lists rs ≡ ok cs
      → (ds : List Candidate) × (candidates_of codec lists rs' ≡ ok ds) × Permᴰ cs ds
  candidates_of-perm _ _ cs Permᴰ.nil h = (cs, h, Permᴰ.refl cs)
  candidates_of-perm _ _ cs (Permᴰ.cons {a} {b} {l₁} {l₂} same p) h =
      let (c, ds, e, f, split) = candidates_of-cons a l₁ h in
      let (es, g, q) = candidates_of-perm l₁ l₂ ds p f in
      (c ∷ es, cons-candidates_of b l₂ (rw same at e) g, rw split (Permᴰ.cons refl q))
  candidates_of-perm _ _ cs (Permᴰ.swap {a} {b} {a'} {b'} {l} p q) h =
      let (c, ds, e, f, split) = candidates_of-cons a (b ∷ l) h in
      let (d, es, e', f', split') = candidates_of-cons b l f in
      (
        d ∷ c ∷ es,
        cons-candidates_of a' (b' ∷ l) (rw q at e') (cons-candidates_of b' l (rw p at e) f'),
        rw (split, split') (Permᴰ.swap refl refl),
      )
  candidates_of-perm _ _ cs (Permᴰ.trans {l₁} {l₂} {l₃} p q) h =
      let (ds, e, p') = candidates_of-perm l₁ l₂ cs p h in
      let (es, f, q') = candidates_of-perm l₂ l₃ ds q e in (es, f, Permᴰ.trans p' q')
