-- ===== src/Repository.antt =====
-- `parse_once` of src/postgres_candidate_repository.rs, with the meaning of its SQL statements on
-- the tables of migrations/0001_init.sql. PostgreSQL and the connection pool are outside: the
-- `Engine` says which operation fails, what other transactions have committed by the time of each
-- operation (the isolation level is READ COMMITTED, the default), in which order rows come, and
-- what becomes of a commit.
pub mod Schema
pub mod Consistent
pub mod Growth
pub mod Rows
pub mod Laws
pub mod Settled
pub mod Stored
pub mod Outcome
pub mod Retry
pub mod History
pub mod Quiet
pub mod Inserted
pub mod Success
use infernal_pf2e_parser_sim.Base.{
  ℕ, suc, Bool, true, false, not, ◌||◌, ◌==◌, leb, if◌then◌else◌, ℤ, List, [], ◌∷◌, ◌++◌, map,
  filter, length, is_empty,
}
use infernal_pf2e_parser_sim.Std.Text.{Text, trim}
use infernal_pf2e_parser_sim.Std.Unicode.{Unicode}
use infernal_pf2e_parser_sim.Domain.{
  Uuid, SourceReference, Candidate, ParseOutcome, CandidateError, empty_source_text,
  source_digest_mismatch, repository,
}
use infernal_pf2e_parser_sim.Result.{Result, ok, err}
use infernal_pf2e_parser_sim.Stateful.{Stateful, pure, fail, lift, ◌>>=◌, ◌>>◌}
use infernal_pf2e_parser_sim.Codec.{Codec}
use infernal_pf2e_parser_sim.Kernel.{CandidateRepository}
use infernal_pf2e_parser_sim.Parser.{parse_candidates}
use Schema.{
  ListCodec, RunKey, RunRow, CandidateRow, Tables, no_tables, together, same_version, digest_eq,
  has_run, has_candidate, rows_of, row_of, candidates_of,
}

-- A commit takes effect and says so, or is refused; or it takes effect and the answer is lost.
pub data CommitFate : Type 0 where
  applied refused unconfirmed : CommitFate

-- Operations are numbered from the start of the service. `others` has the committed tables when
-- the operation runs, from those before it and this transaction's own rows.
pub record Engine : Type 0 where
  pub fails : ℕ → Bool
  pub fate : ℕ → CommitFate
  pub arrange : ℕ → List CandidateRow → List CandidateRow
  pub others : ℕ → Tables → Tables → Tables
  -- what `Uuid::new_v4` draws in front of the operation with this number
  pub draw : ℕ → ℕ → Uuid

-- the committed tables, the rows of the open transaction, and the next operation's number
pub record Session : Type 0 where
  pub committed : Tables
  pub pending : Tables
  pub clock : ℕ

abbrev pub Statement : Type 0 → Type 0
Statement A = Stateful Session CandidateError A

abbrev pub key_of : Text → SourceReference → RunKey
key_of version source = record {
  document_id = source.document_id.canonical;
  document_version = source.document_version;
  content_digest = source.content_digest;
  parser_version = version;
}

-- the loop over `existing_digests`
unfoldable pub check_digests : List ℕ → List (List ℕ) → Result CandidateError (Unit {0})
check_digests digest [] = ok tt
check_digests digest (existing ∷ rest) =
    let later = check_digests digest rest in
    if digest_eq existing digest then later else err source_digest_mismatch

-- a transaction that is dropped with an error is rolled back
unfoldable pub dropped :
    {A : Type 0} → Result CandidateError A × Session → Result CandidateError A × Session
dropped (ok a, s) = (ok a, s)
dropped (err e, s) = (err e, record s { pending = no_tables })

unfoldable pub commit_as : CommitFate → Session → Result CandidateError (Unit {0}) × Session
commit_as applied s =
    (ok tt, record s { committed = together s.committed s.pending; pending = no_tables })
commit_as refused s = (err repository, record s { pending = no_tables })
commit_as unconfirmed s =
    (err repository, record s { committed = together s.committed s.pending; pending = no_tables })

-- whether a row breaks the keys or the check of the table of candidates
abbrev pub violates : Tables → CandidateRow → Bool
violates seen row =
    has_candidate row.candidate_id seen.candidates
    || not (has_run row.key seen.runs)
    || not (leb row.confidence 100)

module _ (engine : Engine) where
  -- the session when its next operation runs
  abbrev pub arrive : Session → Session
  arrive s = record s {
    committed = engine.others s.clock s.committed s.pending;
    clock = suc s.clock;
  }

  -- An operation is told the tables that it sees and the rows of its own transaction, and returns
  -- the latter as it leaves them.
  unfoldable pub statement :
      {A : Type 0} → (Tables → Tables → Result CandidateError A × Tables) → Statement A
  statement run s =
      let (r, pending) = run (together (arrive s).committed s.pending) s.pending in
      if engine.fails s.clock
      then (err repository, arrive s)
      else (r, record (arrive s) { pending = pending })

  -- `Database::connection`, and then `transaction` on it
  abbrev pub connection : Statement (Unit {0})
  connection = statement (λ seen own. (ok tt, own))

  abbrev pub begin : Statement (Unit {0})
  begin = statement (λ seen own. (ok tt, own))

  -- `FIND_ANY_DIGEST_FOR_VERSION_SQL`. A digest may stand here more than once, and in any order,
  -- which the loop over them does not tell apart.
  abbrev pub find_digests : RunKey → Statement (List (List ℕ))
  find_digests k = statement (λ seen own. (
    ok (
        map (λ (r : RunRow). r.key.content_digest)
          (filter (λ (r : RunRow). same_version k.document_id k.document_version r.key) seen.runs)),
    own,
  ))

  -- `FIND_RUN_SQL`: whether there is a row; the primary key allows no second one
  abbrev pub find_run : RunKey → Statement Bool
  find_run k = statement (λ seen own. (ok (has_run k seen.runs), own))

  -- `INSERT_RUN_SQL`, with the check of the table and the number of rows that it inserted
  abbrev pub insert_run : RunRow → Statement ℕ
  insert_run row = statement (λ seen own.
      if not (length row.key.content_digest == 32)
      then (err repository, own)
      else if has_run row.key seen.runs
      then (ok 0, own)
      else (ok 1, record own { runs = own.runs ++ row ∷ [] }))

  -- `INSERT_CANDIDATE_SQL`, with the keys and the check of the table
  abbrev pub insert_candidate : CandidateRow → Statement (Unit {0})
  insert_candidate row = statement (λ seen own.
      if violates seen row
      then (err repository, own)
      else (ok tt, record own { candidates = own.candidates ++ row ∷ [] }))

  -- `SELECT_CANDIDATES_SQL` has no order of its own
  abbrev pub select_candidates : RunKey → Statement (List CandidateRow)
  select_candidates k s =
      statement (λ seen own. (ok (engine.arrange s.clock (rows_of k seen.candidates)), own)) s

  abbrev pub commit : Statement (Unit {0})
  commit s = commit_as (engine.fate s.clock) (arrive s)

  module _ (codec : Codec) (lists : ListCodec) where
    unfoldable pub load_candidates : RunKey → Statement (List Candidate)
    load_candidates k = do rows ← select_candidates k; lift (candidates_of codec lists rows)

    -- both branches that find the work done
    unfoldable pub finish_cached : RunKey → SourceReference → Statement ParseOutcome
    finish_cached k source = do
      candidates ← load_candidates k
      commit
      pure (record { source = source; candidates = candidates; was_already_processed = true })

    unfoldable pub insert_all : RunKey → List Candidate → Statement (Unit {0})
    insert_all k [] = pure tt
    insert_all k (c ∷ cs) = do insert_candidate (row_of codec lists k c); insert_all k cs

    unfoldable pub finish_new : RunKey → SourceReference → List Candidate → Statement ParseOutcome
    finish_new k source candidates = do
      insert_all k candidates
      commit
      pure (record { source = source; candidates = candidates; was_already_processed = false })

    module _ ⦃u : Unicode⦄ where
      -- what follows when no run was found
      unfoldable pub store_new : RunKey → SourceReference → Statement ParseOutcome
      store_new k source s =
          let candidates = parse_candidates (engine.draw s.clock) source.source_text in
          let request_id = (engine.draw s.clock (length candidates)).canonical in
          (do
            inserted ← insert_run (record { key = k; request_id = request_id })
            if inserted == 0 then finish_cached k source else finish_new k source candidates)
            s

      unfoldable pub in_transaction : RunKey → SourceReference → Statement ParseOutcome
      in_transaction k source = do
        connection
        begin
        existing_digests ← find_digests k
        lift (check_digests k.content_digest existing_digests)
        already_ran ← find_run k
        if already_ran then finish_cached k source else store_new k source

      unfoldable pub parse_once : Text → SourceReference → Statement ParseOutcome
      parse_once version source s =
          if is_empty (trim source.source_text)
          then (err empty_source_text, s)
          else dropped (in_transaction (key_of version source) source s)

      -- `impl CandidateRepository for PostgresCandidateRepository`
      abbrev pub postgres : CandidateRepository Session
      postgres = record { parse_once = parse_once }
