-- ===== src/Repository/Quiet.antt =====
-- A database in which nothing goes wrong and that nobody else writes.
use infernal_pf2e_parser_sim.Base.{
  ℕ, suc, true, false, leb, List, [], ◌∷◌, ◌++◌, map, filter, ◌≡◌, refl, Bool-cases, Bool_clash,
  inl, inr, arith, All,
}
use infernal_pf2e_parser_sim.Std.Text.{Text}
use infernal_pf2e_parser_sim.Std.Unicode.{Unicode}
use infernal_pf2e_parser_sim.Domain.{SourceReference, Candidate, CandidateError}
use infernal_pf2e_parser_sim.Result.{Result, ok}
use infernal_pf2e_parser_sim.Stateful.{continue, ◌>>=◌}
use infernal_pf2e_parser_sim.Codec.{Codec}
use infernal_pf2e_parser_sim.Parser.{parse_block}
use infernal_pf2e_parser_sim.Parser.Confidence.{parse_block-confidence}
use infernal_pf2e_parser_sim.Repository.{
  Engine, Session, Statement, applied, statement, check_digests,
}
use infernal_pf2e_parser_sim.Repository.Schema.{
  ListCodec, RunKey, RunRow, Tables, together, same_version, digest_eq, row_of,
}
use infernal_pf2e_parser_sim.Repository.Consistent.{IsDistinct, id_eq}
use infernal_pf2e_parser_sim.Repository.Laws.{statement_cases}

-- Nothing fails, and nobody else writes.
pub record IsQuiet (engine : Engine) : Type 0 where
  pub works : (n : ℕ) → engine.fails n ≡ false
  pub confirms : (n : ℕ) → engine.fate n ≡ applied
  pub alone : (n : ℕ) (t own : Tables) → engine.others n t own ≡ t

abbrev pub StorableConfidence : Candidate → Type 0
StorableConfidence c = leb c.confidence 100 ≡ true

module _ ⦃u : Unicode⦄ where
  pub parse_block-StorableConfidence :
      (ids : ℕ → _) (i : ℕ) (b : Text) → StorableConfidence (parse_block (ids i) b)
  parse_block-StorableConfidence ids i b = ground (arith, (parse_block-confidence (ids i) b).1)

-- The candidates' identifiers differ from each other and from those of the table.
abbrev pub AreFresh : Codec → ListCodec → RunKey → Tables → List Candidate → Type 0
AreFresh codec lists k t cs = IsDistinct id_eq (t.candidates ++ map (row_of codec lists k) cs)

-- Every run of the source's version has the source's digest.
abbrev pub HasOneDigest : SourceReference → List RunRow → Type 0
HasOneDigest source = All (λ (r : RunRow).
    same_version source.document_id.canonical source.document_version r.key ≡ true
    → digest_eq r.key.content_digest source.content_digest ≡ true)

pub check_digests-HasOneDigest :
    (source : SourceReference) (runs : List RunRow)
    → HasOneDigest source runs
    → check_digests source.content_digest (
        map
          (λ (r : RunRow). r.key.content_digest)
          (filter
            (λ (r : RunRow).
              same_version source.document_id.canonical source.document_version r.key)
            runs))
      ≡ ok tt
unfolding check_digests
check_digests-HasOneDigest source [] h = refl
check_digests-HasOneDigest source (r ∷ runs) (same, h) =
    elim (Bool-cases (same_version source.document_id.canonical source.document_version r.key)) [
      | inl e ↦ rw (e, same e) (check_digests-HasOneDigest source runs h)
      | inr e ↦ rw e (check_digests-HasOneDigest source runs h)
    ]

module _ (engine : Engine) (quiet : IsQuiet engine) where
  -- the next operation of a quiet database
  abbrev pub onward : Session → Tables → Session
  onward s own = record { committed = s.committed; pending = own; clock = suc s.clock }

  pub quiet_chain :
      {A B : Type 0} (P : Result CandidateError B × Session → Type 0)
      (run : Tables → Tables → Result CandidateError A × Tables) (f : A → Statement B) (s : Session)
      → (let (r, own) = run (together s.committed s.pending) s.pending in
          P (continue f r (onward s own)))
      → P ((statement engine run >>= f) s)
  quiet_chain P run f s good =
      statement_cases engine P run f s
        (λ h. Bool_clash (engine.fails s.clock) h (quiet.works s.clock))
        (λ h. rw (quiet.alone s.clock s.committed s.pending) good)
