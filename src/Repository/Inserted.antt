-- ===== src/Repository/Inserted.antt =====
-- The insertion of a run's candidates where nothing goes wrong outside.
use infernal_pf2e_parser_sim.Base.{
  map-append, ℕ, suc, false, List, [], ◌∷◌, ◌++◌, map, ◌≡◌, refl, sym, subst, ap, ◌∙◌, append-nil,
  append_assoc, All,
}
use infernal_pf2e_parser_sim.Std.Unicode.{Unicode}
use infernal_pf2e_parser_sim.Domain.{SourceReference, Candidate, ParseOutcome, CandidateError}
use infernal_pf2e_parser_sim.Result.{Result, ok}
use infernal_pf2e_parser_sim.Stateful.{continue, pure, ◌>>◌}
use infernal_pf2e_parser_sim.Codec.{Codec}
use infernal_pf2e_parser_sim.Repository.{Engine, Session, commit, commit_as, violates, insert_all}
use infernal_pf2e_parser_sim.Repository.Schema.{
  ListCodec, RunKey, RunRow, Tables, together, has_candidate, row_of,
}
use infernal_pf2e_parser_sim.Repository.Consistent.{
  IsDistinct, IsDistinct_later, id_eq, text_eq_comm,
}
use infernal_pf2e_parser_sim.Repository.Stored.{holding, has_own_run}
use infernal_pf2e_parser_sim.Repository.Quiet.{IsQuiet, StorableConfidence, AreFresh, quiet_chain}

module _ (engine : Engine) (quiet : IsQuiet engine) where
  module _ (codec : Codec) (lists : ListCodec) ⦃u : Unicode⦄ (k : RunKey) (source : SourceReference)
      (run : RunRow) (own : run.key ≡ k) where
    abbrev fresh : List Candidate → ParseOutcome
    fresh cs = record { source = source; candidates = cs; was_already_processed = false }

    abbrev busy : Tables → ℕ → List Candidate → Session
    busy t n done = record { committed = t; pending = holding codec lists k run done; clock = n }

    abbrev pub Stores :
        Tables → List Candidate → Result CandidateError ParseOutcome × Session → Type 0
    Stores t all x =
        (x.0 ≡ ok (fresh all)) × (x.1.committed ≡ together t (holding codec lists k run all))

    next_is_fresh :
        (t : Tables) (done : List Candidate) (c : Candidate) (cs : List Candidate)
        → AreFresh codec lists k t (done ++ c ∷ cs)
        → has_candidate
            (row_of codec lists k c).candidate_id
            (t.candidates ++ map (row_of codec lists k) done)
          ≡ false
    next_is_fresh t done c cs d =
        IsDistinct_later id_eq (λ a b. text_eq_comm a.candidate_id b.candidate_id)
          (t.candidates ++ map (row_of codec lists k) done) (row_of codec lists k c)
          (map (row_of codec lists k) cs)
          (subst (IsDistinct id_eq)
            (ap (λ rows. t.candidates ++ rows) (map-append (row_of codec lists k) done (c ∷ cs))
              ∙ sym (
                  append_assoc t.candidates (map (row_of codec lists k) done)
                    (map (row_of codec lists k) (c ∷ cs))))
            d)

    lets_in :
        (t : Tables) (done : List Candidate) (c : Candidate) (cs : List Candidate)
        → AreFresh codec lists k t (done ++ c ∷ cs)
        → StorableConfidence c
        → violates (together t (holding codec lists k run done)) (row_of codec lists k c) ≡ false
    unfolding row_of
    lets_in t done c cs d low =
        rw (next_is_fresh t done c cs d, has_own_run codec lists k t run own, low) refl

    pub insert_all-Stores :
        (t : Tables) (all done rest : List Candidate) (n : ℕ)
        → done ++ rest ≡ all
        → AreFresh codec lists k t all
        → All StorableConfidence rest
        → Stores t all (
            (insert_all engine codec lists k rest >> (commit engine >> pure (fresh all)))
              (busy t n done))
    unfolding insert_all commit_as
    insert_all-Stores t all done [] n e d low =
        rw
          (quiet.confirms n, quiet.alone n t (holding codec lists k run done), ← e, append-nil done)
          (refl, refl)
    insert_all-Stores t all done (c ∷ cs) n e d (low, lows) =
        quiet_chain engine quiet
          (λ (x : Result CandidateError (Unit {0}) × Session).
            Stores t all (continue (λ _. commit engine >> pure (fresh all)) x.0 x.1))
          _ _ (busy t n done)
          (rw
            (
              lets_in t done c cs (subst (AreFresh codec lists k t) (sym e) d) low,
              ← map-append (row_of codec lists k) done (c ∷ []),
            )
            (insert_all-Stores t all (done ++ c ∷ []) cs (suc n) (append_assoc done (c ∷ []) cs ∙ e)
              d lows))
