-- ===== src/Repository/Stored.antt =====
-- The rows that a transaction adds for a new run.
use infernal_pf2e_parser_sim.Base.{
  map-append, ℕ, suc, true, false, List, [], ◌∷◌, ◌++◌, map, ◌≡◌, refl, sym, ◌∙◌, subst, append-nil,
  append_assoc, Bool-cases, inl, inr, All, filter-append, arith,
}
use mathlib.Core.List.Permᴰ
use infernal_pf2e_parser_sim.Std.Unicode.{Unicode}
use infernal_pf2e_parser_sim.Domain.{
  SourceReference, Candidate, ParseOutcome, CandidateError, repository,
}
use infernal_pf2e_parser_sim.Result.{Result}
use infernal_pf2e_parser_sim.Stateful.{continue, pure, ◌>>◌}
use infernal_pf2e_parser_sim.Codec.{Codec}
use infernal_pf2e_parser_sim.Parser.{parse_candidates}
use infernal_pf2e_parser_sim.Parser.Blocks.{parse_candidates-All, parse_block-id}
use infernal_pf2e_parser_sim.Repository.{
  Engine, Session, arrive, commit, insert_all, finish_new, violates,
}
use infernal_pf2e_parser_sim.Repository.Schema.{
  ListCodec, RunKey, RunRow, CandidateRow, Tables, together, has_run, has_candidate, rows_of,
  row_of, key_eq,
}
use infernal_pf2e_parser_sim.Repository.Consistent.{
  IsConsistent, StorableRow, rows_of-nil, any-append, key_eq_refl, key_eq_comm, IsDistinct_later,
  add_candidate-IsConsistent,
}
use infernal_pf2e_parser_sim.Repository.Growth.{
  Extends-trans, Extends-together, OfRun, rows_of_own, absent_before,
}
use infernal_pf2e_parser_sim.Repository.Rows.{HasCanonicalId, candidates_of-row_of}
use infernal_pf2e_parser_sim.Repository.Laws.{IsPostgres, IsOpen, arrive-IsOpen, chain_statement}
use infernal_pf2e_parser_sim.Repository.Settled.{Serves, Ends, Ends-err, commit_Ends}

id_is_free :
    (seen : Tables) (row : CandidateRow)
    → violates seen row ≡ false
    → has_candidate row.candidate_id seen.candidates ≡ false
id_is_free seen row h = ground (arith, h)

is_storable : (seen : Tables) (row : CandidateRow) → violates seen row ≡ false → StorableRow row
is_storable seen row h = ground (arith, h)

module _ (codec : Codec) (lists : ListCodec) (k : RunKey) where
  -- what a transaction holds that has inserted a run and these of its candidates
  abbrev pub holding : RunRow → List Candidate → Tables
  holding run done = record { runs = run ∷ []; candidates = map (row_of codec lists k) done }

  row_of-OfRun : (cs : List Candidate) → OfRun k (map (row_of codec lists k) cs)
  unfolding row_of
  row_of-OfRun [] = tt
  row_of-OfRun (c ∷ cs) = (refl, row_of-OfRun cs)

  module _ (t : Tables) (run : RunRow) (own : run.key ≡ k) where
    -- The constraint on runs shows that no other transaction has stored this one.
    run_is_new :
        (done : List Candidate)
        → IsConsistent (together t (holding run done))
        → has_run k t.runs ≡ false
    run_is_new done c =
        subst (λ (key : RunKey). has_run key t.runs ≡ false) own
          (IsDistinct_later (λ (a b : RunRow). key_eq a.key b.key) (λ a b. key_eq_comm a.key b.key)
            t.runs run [] c.runs)

    pub has_own_run : has_run k (t.runs ++ run ∷ []) ≡ true
    has_own_run =
        any-append (λ (r : RunRow). key_eq r.key k) t.runs (run ∷ [])
        ∙ rw (own, key_eq_refl k) (ground arith)

    -- The rows of the run are those of the transaction.
    own_rows :
        (cs : List Candidate)
        → IsConsistent t
        → has_run k t.runs ≡ false
        → rows_of k (t.candidates ++ map (row_of codec lists k) cs) ≡ map (row_of codec lists k) cs
    own_rows cs c new =
        filter-append (λ (r : CandidateRow). key_eq r.key k) t.candidates
          (map (row_of codec lists k) cs)
        ∙ cc (
          rows_of-nil k t.runs t.candidates c.owned new,
          rows_of_own k (map (row_of codec lists k) cs) (row_of-OfRun cs),
        )

    new_run-Serves :
        (cs : List Candidate)
        → IsConsistent t
        → has_run k t.runs ≡ false
        → All HasCanonicalId cs
        → Serves codec lists (together t (holding run cs)) k cs
    new_run-Serves cs c new canonical = record {
      ran = has_own_run;
      stored = cs;
      loaded = rw (own_rows cs c new) (candidates_of-row_of codec lists k cs canonical);
      same = Permᴰ.refl cs;
    }

  module _ (engine : Engine) ⦃u : Unicode⦄ (law : IsPostgres engine) (t0 : Tables)
      (source : SourceReference) (run : RunRow) (own : run.key ≡ k) where
    abbrev fresh : List Candidate → ParseOutcome
    fresh cs = record { source = source; candidates = cs; was_already_processed = false }

    abbrev busy : Tables → ℕ → List Candidate → Session
    busy t n done = record { committed = t; pending = holding run done; clock = n }

    module _ (all : List Candidate) (canonical : All HasCanonicalId all) (d : ℕ)
        (drawn : all ≡ parse_candidates (engine.draw d) source.source_text) where
      commit_new :
          (t : Tables) (n : ℕ)
          → IsOpen t0 (busy t n all)
          → Ends codec lists engine law t0 k source
              ((commit engine >> pure (fresh all)) (busy t n all))
      commit_new t n o =
          let t' = engine.others n t (holding run all) in
          let o' = arrive-IsOpen engine law o in
          let new = run_is_new t' run own all o'.with_own in
          commit_Ends codec lists engine law t0 k source (fresh all) (arrive engine (busy t n all))
            o'
            (Extends-trans o'.extends
              (Extends-together t' (holding run all) k (own, tt) (row_of-OfRun all) new))
            (
              refl,
              new_run-Serves t' run own all o'.consistent new canonical,
              λ h. (absent_before k o'.extends new, d, drawn),
            )
            (engine.fate n)

      commit_done :
          (done : List Candidate)
          → done ≡ all
          → (t : Tables) (n : ℕ) → IsOpen t0 (busy t n done)
          → Ends codec lists engine law t0 k source
              ((commit engine >> pure (fresh all)) (busy t n done))
      commit_done done whole t n o = rw whole (commit_new t n (rw whole at o))

      -- One more candidate, when the checks of the table let it in.
      candidate-IsOpen :
          (t : Tables) (n : ℕ) (done : List Candidate) (c : Candidate)
          → IsOpen t0 (busy t n done)
          → StorableRow (row_of codec lists k c)
          → has_candidate
              (row_of codec lists k c).candidate_id
              (together t (holding run done)).candidates
            ≡ false
          → IsOpen t0 (busy t n (done ++ c ∷ []))
      unfolding row_of
      candidate-IsOpen t n done c o low new = record {
        consistent = o.consistent;
        extends = o.extends;
        with_own =
            rw
              (
                map-append (row_of codec lists k) done (c ∷ []),
                ← append_assoc t.candidates (map (row_of codec lists k) done)
                    (map (row_of codec lists k) (c ∷ [])),
              )
              (add_candidate-IsConsistent (together t (holding run done)) o.with_own
                (row_of codec lists k c) low (has_own_run t run own) new);
      }

      insert_all-Ends :
          (done rest : List Candidate)
          → done ++ rest ≡ all
          → (t : Tables) (n : ℕ) → IsOpen t0 (busy t n done)
          → Ends codec lists engine law t0 k source (
              (insert_all engine codec lists k rest >> (commit engine >> pure (fresh all)))
                (busy t n done))
      unfolding insert_all
      insert_all-Ends done [] e t n o =
          let whole = sym (append-nil done) ∙ e in commit_done done whole t n o
      insert_all-Ends done (c ∷ cs) e t n o =
          let o' = arrive-IsOpen engine law o in
          let t' = engine.others n t (holding run done) in
          chain_statement engine
            (λ (x : Result CandidateError (Unit {0}) × Session).
              Ends codec lists engine law t0 k source
                (continue (λ _. commit engine >> pure (fresh all)) x.0 x.1))
            _ _ (busy t n done) (Ends-err codec lists engine law t0 k source repository _ o')
            (elim (Bool-cases
              (violates (together t' (holding run done)) (row_of codec lists k c))) [
                | inl b ↦ rw b (Ends-err codec lists engine law t0 k source repository _ o')
                | inr b ↦
                    rw (b, ← map-append (row_of codec lists k) done (c ∷ []))
                      (insert_all-Ends (done ++ c ∷ []) cs (append_assoc done (c ∷ []) cs ∙ e) t'
                        (suc n)
                        (candidate-IsOpen t' (suc n) done c o'
                          (is_storable _ (row_of codec lists k c) b)
                          (id_is_free _ (row_of codec lists k c) b)))
              ])

    -- A transaction whose only row is that of the run.
    pub finish_new-Ends :
        (cs : List Candidate) (d : ℕ)
        → cs ≡ parse_candidates (engine.draw d) source.source_text
        → (t : Tables) (n : ℕ) → IsOpen t0 (busy t n [])
        → Ends codec lists engine law t0 k source
            (finish_new engine codec lists k source cs (busy t n []))
    unfolding finish_new
    finish_new-Ends cs d drawn t n o =
        insert_all-Ends cs
          (subst (All HasCanonicalId) (sym drawn) (
            parse_candidates-All HasCanonicalId (engine.draw d)
              (λ i b. rw (parse_block-id (engine.draw d i) b) (law.canonical d i))
              source.source_text))
          d drawn [] cs refl t n o
