-- ===== src/Repository/Outcome.antt =====
-- `parse_once` as a whole: from tables that keep their constraints, with nothing of its own yet.
use infernal_pf2e_parser_sim.Base.{
  ℕ, suc, true, false, not, ◌==◌, [], ◌∷◌, map, filter, length, is_empty, ◌≡◌, refl, subst,
  append-nil, Bool-cases, inl, inr, arith,
}
use infernal_pf2e_parser_sim.Std.Text.{Text, trim}
use infernal_pf2e_parser_sim.Std.Unicode.{Unicode}
use infernal_pf2e_parser_sim.Domain.{SourceReference, ParseOutcome, repository}
use infernal_pf2e_parser_sim.Result.{ok, Result-cases}
use infernal_pf2e_parser_sim.Stateful.{◌>>=◌}
use infernal_pf2e_parser_sim.Codec.{Codec}
use infernal_pf2e_parser_sim.Parser.{parse_candidates}
use infernal_pf2e_parser_sim.Repository.{
  Engine, Statement, statement, check_digests, key_of, store_new, in_transaction, parse_once,
}
use infernal_pf2e_parser_sim.Repository.Schema.{
  ListCodec, RunKey, RunRow, Tables, no_tables, together, has_run, same_version,
}
use infernal_pf2e_parser_sim.Repository.Consistent.{IsConsistent, StorableRun, add_run-IsConsistent}
use infernal_pf2e_parser_sim.Repository.Growth.{Extends-refl}
use infernal_pf2e_parser_sim.Repository.Laws.{
  IsPostgres, IsOpen, arrive-IsOpen, chain_statement, together_none,
}
use infernal_pf2e_parser_sim.Repository.Settled.{Ends, Settled, idle, Ends-err, finish_cached-Ends}
use infernal_pf2e_parser_sim.Repository.Stored.{finish_new-Ends}

-- what the check of the table lets in
is_long :
    (k : RunKey)
    → not (length k.content_digest == 32) ≡ false
    → (length k.content_digest == 32) ≡ true
is_long k h = ground (arith, h)

module _ (codec : Codec) (lists : ListCodec) (engine : Engine) ⦃u : Unicode⦄
    (law : IsPostgres engine) (t0 : Tables) (source : SourceReference) where
  module _ (k : RunKey) where
    -- the session behind the insertion of the run
    with_run-IsOpen :
        (t : Tables) (n : ℕ) (run : RunRow)
        → IsOpen t0 (idle t n)
        → StorableRun run
        → has_run run.key t.runs ≡ false
        → IsOpen t0 (record {
          committed = t;
          pending = record { runs = run ∷ []; candidates = [] };
          clock = n;
        })
    with_run-IsOpen t n run o long new = record {
      consistent = o.consistent;
      extends = o.extends;
      with_own = rw (append-nil t.candidates) (add_run-IsConsistent t o.consistent run long new);
    }

    -- a statement that only reads
    read-Ends :
        {A : Type 0} (query : Tables → A) (f : A → Statement ParseOutcome) (t : Tables) (n : ℕ)
        → IsOpen t0 (idle t n)
        → ((t' : Tables)
            → IsOpen t0 (idle t' (suc n))
            → Ends codec lists engine law t0 k source (f (query t') (idle t' (suc n))))
        → Ends codec lists engine law t0 k source
            ((statement engine (λ seen own. (ok (query seen), own)) >>= f) (idle t n))
    read-Ends query f t n o next =
        let o' = arrive-IsOpen engine law o in
        let t' = engine.others n t no_tables in
        chain_statement engine (Ends codec lists engine law t0 k source) _ f (idle t n)
          (Ends-err codec lists engine law t0 k source repository _ o')
          (rw (together_none t') (next t' o'))

    store_new-Ends :
        (t : Tables) (n : ℕ)
        → IsOpen t0 (idle t n)
        → Ends codec lists engine law t0 k source (store_new engine codec lists k source (idle t n))
    unfolding store_new
    store_new-Ends t n o =
        let o' = arrive-IsOpen engine law o in
        let t' = engine.others n t no_tables in
        chain_statement engine (Ends codec lists engine law t0 k source) _ _ (idle t n)
          (Ends-err codec lists engine law t0 k source repository _ o')
          (elim (Bool-cases (not (length k.content_digest == 32))) [
            | inl b ↦ rw b (Ends-err codec lists engine law t0 k source repository _ o')
            | inr b ↦ elim (Bool-cases (has_run k (together t' no_tables).runs)) [
              | inl h ↦
                  rw (b, h)
                    (finish_cached-Ends codec lists engine law t0 k source t' (suc n) o'
                      (subst (λ rs. has_run k rs ≡ true) (append-nil t'.runs) h))
              | inr h ↦
                  rw (b, h)
                    (finish_new-Ends codec lists k engine law t0 source
                      (record {
                        key = k;
                        request_id =
                            (engine.draw n (
                              length
                                (parse_candidates (engine.draw n) source.source_text))).canonical;
                      })
                      refl (parse_candidates (engine.draw n) source.source_text) n refl t' (suc n)
                      (with_run-IsOpen t' (suc n) (record { key = k; request_id = _ }) o'
                        (is_long k b) (subst (λ rs. has_run k rs ≡ false) (append-nil t'.runs) h)))
            ]
          ])

    in_transaction-Ends :
        (t : Tables) (n : ℕ)
        → IsOpen t0 (idle t n)
        → Ends codec lists engine law t0 k source
            (in_transaction engine codec lists k source (idle t n))
    unfolding in_transaction
    in_transaction-Ends t n o =
        read-Ends (λ _. tt) _ t n o
          λ t1 o1.
            read-Ends (λ _. tt) _ t1 (suc n) o1
              λ t2 o2. read-Ends _ _ t2 (suc (suc n)) o2 λ t3 o3.
                elim (Result-cases (
                  check_digests k.content_digest (
                    map (λ (r : RunRow). r.key.content_digest)
                      (filter (λ (r : RunRow). same_version k.document_id k.document_version r.key)
                        t3.runs)))) [
                          | inr (why, e) ↦
                              rw e (Ends-err codec lists engine law t0 k source why _ o3)
                          | inl (_, e) ↦ rw e (
                              read-Ends _ _ t3 (suc (suc (suc n))) o3 λ t4 o4.
                                elim (Bool-cases (has_run k t4.runs)) [
                                  | inl h ↦ rw h (
                                      finish_cached-Ends codec lists engine law t0 k source t4 _ o4
                                        h)
                                  | inr h ↦ rw h (store_new-Ends t4 _ o4)
                                ])
                        ]

  -- A call of `parse_once`, whatever fails in it and whatever other instances commit meanwhile,
  -- leaves no transaction open and the constraints of both tables kept: their keys, the reference
  -- between them, and the checks of the digest's length and of the confidence. It never takes away
  -- or changes the row of a run or its candidates, and returns candidates only if they are now
  -- committed under the run of this very document, version, digest and parser version, up to their
  -- order; it says that they are new only if there was no such run before it, and they are then the
  -- parse of the text. PostgreSQL is supposed to keep the constraints, and the other users of the
  -- tables to only add runs with their candidates.
  pub parse_once-Settled :
      (version : Text) (n : ℕ)
      → IsConsistent t0
      → Settled codec lists engine t0
          (key_of version source)
          source
          (parse_once engine codec lists version source (idle t0 n))
  unfolding parse_once
  parse_once-Settled version n c = elim (Bool-cases (is_empty (trim source.source_text))) [
    | inl b ↦
        rw b (record { closed = refl; consistent = c; extends = Extends-refl t0; promises = tt })
    | inr b ↦ rw b (
        in_transaction-Ends (key_of version source) t0 n (record {
          consistent = c;
          with_own = rw (together_none t0) c;
          extends = Extends-refl t0;
        }))
  ]
