-- ===== src/Repository/Settled.antt =====
-- What one call of `parse_once` makes of the tables, and what it returns.
use infernal_pf2e_parser_sim.Base.{
  ℕ, suc, true, false, List, [], ◌++◌, ◌≡◌, refl, subst, append-nil, inl, inr,
}
use mathlib.Core.List.{Permᴰ}
use infernal_pf2e_parser_sim.Std.Unicode.{Unicode}
use infernal_pf2e_parser_sim.Domain.{
  SourceReference, Candidate, ParseOutcome, CandidateError, repository,
}
use infernal_pf2e_parser_sim.Result.{Result, ok, err, Result-cases}
use infernal_pf2e_parser_sim.Stateful.{continue, pure, ◌>>◌}
use infernal_pf2e_parser_sim.Codec.{Codec}
use infernal_pf2e_parser_sim.Parser.{parse_candidates}
use infernal_pf2e_parser_sim.Repository.{
  Engine, Session, CommitFate, applied, refused, unconfirmed, arrive, commit, commit_as, dropped,
  load_candidates, finish_cached,
}
use infernal_pf2e_parser_sim.Repository.Schema.{
  ListCodec, RunKey, Tables, no_tables, together, has_run, rows_of, candidates_of,
}
use infernal_pf2e_parser_sim.Repository.Consistent.{IsConsistent}
use infernal_pf2e_parser_sim.Repository.Growth.{Extends}
use infernal_pf2e_parser_sim.Repository.Rows.{candidates_of-perm}
use infernal_pf2e_parser_sim.Repository.Laws.{
  IsPostgres, IsOpen, arrive-IsOpen, chain_statement, together_none,
}

-- a session with no rows of its own
abbrev pub idle : Tables → ℕ → Session
idle t n = record { committed = t; pending = no_tables; clock = n }

module _ (codec : Codec) (lists : ListCodec) where
  -- The tables have the run, and these candidates are those of its rows, in some order.
  pub record Serves (t : Tables) (k : RunKey) (cs : List Candidate) : Type 0 where
    pub ran : has_run k t.runs ≡ true
    pub stored : List Candidate
    pub loaded : candidates_of codec lists (rows_of k t.candidates) ≡ ok stored
    pub same : Permᴰ cs stored

  -- The candidates of a run stay while the tables grow.
  pub Serves-Extends :
      {t t' : Tables} {k : RunKey} {cs : List Candidate}
      → Extends t t'
      → Serves t k cs
      → Serves t' k cs
  Serves-Extends {t} {t'} {k} e v = record {
    ran = e.runs k v.ran;
    stored = v.stored;
    loaded = rw (e.rows k v.ran) v.loaded;
    same = v.same;
  }

  module _ (engine : Engine) ⦃u : Unicode⦄ where
    -- the outcome of a parse that the tables `t0` did not have
    abbrev pub IsFresh : Tables → RunKey → SourceReference → ParseOutcome → Type 0
    IsFresh t0 k source o =
        (has_run k t0.runs ≡ false)
        × (n : ℕ) × (o.candidates ≡ parse_candidates (engine.draw n) source.source_text)

    -- what a result promises of the tables behind it
    abbrev pub Promises :
        Tables → RunKey → SourceReference → Tables → Result CandidateError ParseOutcome → Type 0
    Promises t0 k source t (err _) = Unit
    Promises t0 k source t (ok o) =
        (o.source ≡ source)
        × Serves t k o.candidates
        × (o.was_already_processed ≡ false → IsFresh t0 k source o)

    -- A call that began with the tables `t0` has ended with this result and this session.
    pub record Settled (t0 : Tables) (k : RunKey) (source : SourceReference)
        (x : Result CandidateError ParseOutcome × Session) : Type 0 where
      pub closed : x.1.pending ≡ no_tables
      pub consistent : IsConsistent x.1.committed
      pub extends : Extends t0 x.1.committed
      pub promises : Promises t0 k source x.1.committed x.0

    module _ (law : IsPostgres engine) (t0 : Tables) (k : RunKey) (source : SourceReference) where
      abbrev pub Ends : Result CandidateError ParseOutcome × Session → Type 0
      Ends x = Settled t0 k source (dropped x)

      pub Ends-err : (e : CandidateError) (s : Session) → IsOpen t0 s → Ends (err e, s)
      unfolding dropped
      Ends-err e s o = record {
        closed = refl;
        consistent = o.consistent;
        extends = o.extends;
        promises = tt;
      }

      abbrev pub cached : List Candidate → ParseOutcome
      cached cs = record { source = source; candidates = cs; was_already_processed = true }

      -- Whatever becomes of a commit, if the promises hold once it has taken effect.
      pub commit_Ends :
          (outcome : ParseOutcome) (s : Session)
          → IsOpen t0 s
          → Extends t0 (together s.committed s.pending)
          → Promises t0 k source (together s.committed s.pending) (ok outcome)
          → (f : CommitFate) → Ends ((commit_as f >> pure outcome) s)
      unfolding commit_as dropped
      commit_Ends outcome s o extends promises applied = record {
        closed = refl;
        consistent = o.with_own;
        extends = extends;
        promises = promises;
      }
      commit_Ends outcome s o extends promises refused = record {
        closed = refl;
        consistent = o.consistent;
        extends = o.extends;
        promises = tt;
      }
      commit_Ends outcome s o extends promises unconfirmed = record {
        closed = refl;
        consistent = o.with_own;
        extends = extends;
        promises = tt;
      }

      commit-cached :
          (cs : List Candidate) (t : Tables) (n : ℕ)
          → IsOpen t0 (idle t n)
          → Serves t k cs
          → Ends ((commit engine >> pure (cached cs)) (idle t n))
      commit-cached cs t n o serves =
          let t' = engine.others n t no_tables in
          let o' = arrive-IsOpen engine law o in
          let more = law.interferes n t no_tables o.consistent o.with_own in
          commit_Ends (cached cs) (arrive engine (idle t n)) o' (rw (together_none t') o'.extends)
            (refl, rw (together_none t') (Serves-Extends more.extends serves), λ h. cc)
            (engine.fate n)

      pub finish_cached-Ends :
          (t : Tables) (n : ℕ)
          → IsOpen t0 (idle t n)
          → has_run k t.runs ≡ true
          → Ends (finish_cached engine codec lists k source (idle t n))
      unfolding finish_cached load_candidates
      finish_cached-Ends t n o ran =
          let o' = arrive-IsOpen engine law o in
          let t' = engine.others n t no_tables in
          let ran' = (law.interferes n t no_tables o.consistent o.with_own).extends.runs k ran in
          let rows = rows_of k (t'.candidates ++ []) in
          let finish = λ (cs : List Candidate). commit engine >> pure (cached cs) in
          chain_statement engine
            (λ (x : Result CandidateError (List Candidate) × Session).
              Ends (continue finish x.0 x.1))
            _ _ (idle t n) (Ends-err repository _ o')
            (elim (Result-cases (candidates_of codec lists (engine.arrange n rows))) [
              | inl (cs, e) ↦
                  let (stored, loaded, same) =
                    candidates_of-perm codec lists (engine.arrange n rows) rows cs
                      (law.arranged n rows) e in
                  rw e (
                    commit-cached cs t' (suc n) o' (record {
                      ran = ran';
                      stored = stored;
                      loaded =
                          subst (λ xs. candidates_of codec lists (rows_of k xs) ≡ ok stored)
                            (append-nil t'.candidates) loaded;
                      same = same;
                    }))
              | inr (why, e) ↦ rw e (Ends-err why _ o')
            ])
