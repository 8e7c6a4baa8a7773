-- ===== src/Repository/Success.antt =====
-- Calls of `parse_once` in which nothing goes wrong outside.
use infernal_pf2e_parser_sim.Base.{
  ℕ, suc, true, false, ◌==◌, List, [], length, is_empty, ◌≡◌, refl, append-nil, if◌then◌else◌,
}
use mathlib.Core.List.{Permᴰ}
use mathlib.Core.List.Permᴰ
use infernal_pf2e_parser_sim.Repository.Rows.{candidates_of-perm}
use infernal_pf2e_parser_sim.Std.Text.{Text, trim}
use infernal_pf2e_parser_sim.Std.Unicode.{Unicode}
use infernal_pf2e_parser_sim.Domain.{SourceReference, Candidate, ParseOutcome, CandidateError}
use infernal_pf2e_parser_sim.Result.{Result, ok}
use infernal_pf2e_parser_sim.Stateful.{continue, pure, ◌>>◌}
use infernal_pf2e_parser_sim.Codec.{Codec}
use infernal_pf2e_parser_sim.Parser.{parse_candidates}
use infernal_pf2e_parser_sim.Parser.Blocks.{parse_candidates-All}
use infernal_pf2e_parser_sim.Repository.{
  Engine, Session, commit, commit_as, finish_new, finish_cached, load_candidates, key_of,
  in_transaction, store_new, parse_once,
}
use infernal_pf2e_parser_sim.Repository.Schema.{
  ListCodec, RunRow, CandidateRow, Tables, no_tables, together, has_run, rows_of,
}
use infernal_pf2e_parser_sim.Repository.Laws.{together_none, dropped_result, dropped_committed}
use infernal_pf2e_parser_sim.Repository.Settled.{idle, Serves}
use infernal_pf2e_parser_sim.Repository.Stored.{holding}
use infernal_pf2e_parser_sim.Repository.Quiet.{
  IsQuiet, StorableConfidence, parse_block-StorableConfidence, AreFresh, HasOneDigest,
  check_digests-HasOneDigest, quiet_chain,
}
use infernal_pf2e_parser_sim.Repository.Inserted.{Stores, insert_all-Stores}

module _ (engine : Engine) (quiet : IsQuiet engine) where
  module _ (codec : Codec) (lists : ListCodec) ⦃u : Unicode⦄ (version : Text)
      (source : SourceReference) where
    -- the candidates of a parse whose first operation has this number
    abbrev pub parsed_at : ℕ → List Candidate
    parsed_at n = parse_candidates (engine.draw (suc (suc (suc (suc n))))) source.source_text

    -- the run of a parse, with the identifier that is drawn behind those of its candidates
    abbrev pub run_at : ℕ → RunRow
    run_at n = record {
      key = key_of version source;
      request_id = (engine.draw (suc (suc (suc (suc n)))) (length (parsed_at n))).canonical;
    }

    store_new-Stores :
        (t : Tables) (n : ℕ)
        → (length source.content_digest == 32) ≡ true
        → has_run (key_of version source) t.runs ≡ false
        → AreFresh codec lists (key_of version source) t (parsed_at n)
        → Stores engine quiet codec lists
            (key_of version source)
            source
            (run_at n)
            refl
            t
            (parsed_at n)
            (store_new engine codec lists
              (key_of version source)
              source
              (idle t (suc (suc (suc (suc n))))))
    unfolding store_new finish_new
    store_new-Stores t n long new d =
        quiet_chain engine quiet
          (Stores engine quiet codec lists (key_of version source) source (run_at n) refl t
            (parsed_at n))
          _ _ (idle t _)
          (rw (long, append-nil t.runs, new)
            (insert_all-Stores engine quiet codec lists (key_of version source) source (run_at n)
              refl t (parsed_at n) [] (parsed_at n) _ refl d
              (parse_candidates-All StorableConfidence _ (parse_block-StorableConfidence _)
                source.source_text)))

    -- the chain of `in_transaction` on a quiet database
    quiet_transaction :
        (P : Result CandidateError ParseOutcome × Session → Type 0) (t : Tables) (n : ℕ)
        → HasOneDigest source t.runs
        → P (
            (if has_run (key_of version source) t.runs
                then finish_cached engine codec lists (key_of version source) source
                else store_new engine codec lists (key_of version source) source)
              (idle t (suc (suc (suc (suc n))))))
        → P (in_transaction engine codec lists (key_of version source) source (idle t n))
    unfolding in_transaction
    quiet_transaction P t n one good = quiet_chain engine quiet P _ _ (idle t n) (
        quiet_chain engine quiet P _ _ (idle t (suc n)) (
          quiet_chain engine quiet P _ _ (idle t (suc (suc n))) (
            rw (append-nil t.runs, check_digests-HasOneDigest source t.runs one)
              (quiet_chain engine quiet P _ _ (idle t (suc (suc (suc n))))
                (rw (append-nil t.runs) good)))))

    -- On a database where nothing fails and that nobody else writes, let a source have a text that
    -- is not blank and a digest of 32 bytes, let its run not be there, let every run of its version
    -- have its digest, and let the identifiers that are drawn for its candidates be new and
    -- different. Then a parse of it succeeds, returns the candidates of its text as new, and adds
    -- exactly the run and all of these candidates to the tables.
    pub parse_once-stores :
        (t : Tables) (n : ℕ)
        → is_empty (trim source.source_text) ≡ false
        → (length source.content_digest == 32) ≡ true
        → HasOneDigest source t.runs
        → has_run (key_of version source) t.runs ≡ false
        → AreFresh codec lists (key_of version source) t (parsed_at n)
        → let x = parse_once engine codec lists version source (idle t n) in
          (x.0
            ≡ ok (record {
              source = source;
              candidates = parsed_at n;
              was_already_processed = false;
            }))
          × (x.1.committed
              ≡ together t (holding codec lists (key_of version source) (run_at n) (parsed_at n)))
    unfolding parse_once
    parse_once-stores t n present long one new d =
        let x = in_transaction engine codec lists (key_of version source) source (idle t n) in
        let (result, tables) =
          quiet_transaction
            (Stores engine quiet codec lists (key_of version source) source (run_at n) refl t
              (parsed_at n))
            t n one (rw new (store_new-Stores t n long new d)) in
        rw (present, dropped_result x, dropped_committed x) (result, tables)

    module _
        (arranged : (n : ℕ) (rows : List CandidateRow) → Permᴰ (engine.arrange n rows) rows) where
      abbrev Recalls :
          List Candidate → Tables → Result CandidateError ParseOutcome × Session → Type 0
      Recalls cs t x =
          (ds : List Candidate) × (x.0
            ≡ ok (record { source = source; candidates = ds; was_already_processed = true }))
          × (x.1.committed ≡ t)
          × Permᴰ ds cs

      finish_cached-Recalls :
          (t : Tables) (n : ℕ) (cs : List Candidate)
          → Serves codec lists t (key_of version source) cs
          → Recalls cs t
              (finish_cached engine codec lists (key_of version source) source (idle t n))
      unfolding finish_cached load_candidates commit_as
      finish_cached-Recalls t n cs v =
          let k = key_of version source in
          let rows = rows_of k t.candidates in
          let (ds, loaded, same) =
            candidates_of-perm codec lists rows (engine.arrange n rows) v.stored
              (Permᴰ.symm (arranged n rows)) v.loaded in
          quiet_chain engine quiet
            (λ (x : Result CandidateError (List Candidate) × Session). Recalls cs t (
              continue
                (λ (cs : List Candidate).
                  commit engine
                  >> pure
                      (record { source = source; candidates = cs; was_already_processed = true }))
                x.0 x.1))
            _ _ (idle t n)
            (rw
              (
                append-nil t.candidates,
                loaded,
                quiet.confirms (suc n),
                quiet.alone (suc n) t no_tables,
                together_none t,
              )
              (ds, refl, refl, Permᴰ.trans (Permᴰ.symm same) (Permᴰ.symm v.same)))

      -- On a database where nothing fails and that nobody else writes, and that returns the
      -- selected rows in some order, let a source have a text that is not blank, let the tables
      -- serve its run with some candidates, and let every run of its version have its digest. Then
      -- a parse of it succeeds, returns these candidates in some order as already processed, and
      -- changes nothing.
      pub parse_once-recalls :
          (t : Tables) (n : ℕ) (cs : List Candidate)
          → is_empty (trim source.source_text) ≡ false
          → HasOneDigest source t.runs
          → Serves codec lists t (key_of version source) cs
          → let x = parse_once engine codec lists version source (idle t n) in
            (ds : List Candidate) × (x.0
              ≡ ok (record { source = source; candidates = ds; was_already_processed = true }))
            × (x.1.committed ≡ t)
            × Permᴰ ds cs
      unfolding parse_once
      parse_once-recalls t n cs present one v =
          let x = in_transaction engine codec lists (key_of version source) source (idle t n) in
          rw (present, dropped_result x, dropped_committed x)
            (quiet_transaction (Recalls cs t) t n one (rw v.ran (finish_cached-Recalls t _ cs v)))
