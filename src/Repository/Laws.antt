-- ===== src/Repository/Laws.antt =====
-- What the repository relies on in PostgreSQL and in the other users of its tables, and what a
-- transaction has made of the tables while it is open.
use infernal_pf2e_parser_sim.Base.{
  ℕ, true, false, List, ◌≡◌, refl, append-nil, Bool-cases, inl, inr,
}
use mathlib.Core.List.{Permᴰ}
use infernal_pf2e_parser_sim.Domain.{CandidateError, repository}
use infernal_pf2e_parser_sim.Result.{Result, ok, err}
use infernal_pf2e_parser_sim.Stateful.{continue, ◌>>=◌}
use infernal_pf2e_parser_sim.Codec.{is_canonical}
use infernal_pf2e_parser_sim.Repository.{Engine, Session, Statement, arrive, statement, dropped}
use infernal_pf2e_parser_sim.Repository.Schema.{CandidateRow, Tables, no_tables, together}
use infernal_pf2e_parser_sim.Repository.Consistent.{IsConsistent}
use infernal_pf2e_parser_sim.Repository.Growth.{Extends, Extends-trans}

-- What others may commit while a transaction has rows of its own: the constraints hold, of what
-- is committed and with the transaction's rows, and runs are only added.
pub record Interferes (t own t' : Tables) : Type 0 where
  pub consistent : IsConsistent t'
  pub with_own : IsConsistent (together t' own)
  pub extends : Extends t t'

-- PostgreSQL returns the selected rows in some order and keeps the constraints of the schema, and
-- the tables are written by instances of this service only, which never delete or change a row,
-- and commit the candidates of a run with it. `Uuid`s print canonically.
pub record IsPostgres (engine : Engine) : Type 0 where
  pub arranged : (n : ℕ) (rows : List CandidateRow) → Permᴰ (engine.arrange n rows) rows
  pub interferes :
      (n : ℕ) (t own : Tables)
      → IsConsistent t
      → IsConsistent (together t own)
      → Interferes t own (engine.others n t own)
  pub canonical : (n i : ℕ) → is_canonical (engine.draw n i).canonical ≡ true

pub together_none : (t : Tables) → together t no_tables ≡ t
together_none t = rw (append-nil, append-nil) refl

-- The tables were `t0` when the transaction began.
pub record IsOpen (t0 : Tables) (s : Session) : Type 0 where
  pub consistent : IsConsistent s.committed
  pub with_own : IsConsistent (together s.committed s.pending)
  pub extends : Extends t0 s.committed

module _ (engine : Engine) (law : IsPostgres engine) where
  pub arrive-IsOpen : {t0 : Tables} {s : Session} → IsOpen t0 s → IsOpen t0 (arrive engine s)
  arrive-IsOpen {t0} {s} o =
      let more = law.interferes s.clock s.committed s.pending o.consistent o.with_own in
      record {
        consistent = more.consistent;
        with_own = more.with_own;
        extends = Extends-trans o.extends more.extends;
      }

module _ (engine : Engine) {A B : Type 0} where
  -- To show something of a chain that begins with a statement, show it of the statement's failure
  -- and of what follows its success.
  pub statement_cases :
      (P : Result CandidateError B × Session → Type 0)
      (run : Tables → Tables → Result CandidateError A × Tables) (f : A → Statement B) (s : Session)
      → (engine.fails s.clock ≡ true → P (err repository, arrive engine s))
      → (engine.fails s.clock ≡ false
          → let (r, own) = run (together (arrive engine s).committed s.pending) s.pending in
            P (continue f r (record (arrive engine s) { pending = own })))
      → P ((statement engine run >>= f) s)
  unfolding statement
  statement_cases P run f s bad good = elim (Bool-cases (engine.fails s.clock)) [
    | inl e ↦ rw e (bad e)
    | inr e ↦ rw e (good e)
  ]

  -- the same where it does not matter which operations fail
  pub chain_statement :
      (P : Result CandidateError B × Session → Type 0)
      (run : Tables → Tables → Result CandidateError A × Tables) (f : A → Statement B) (s : Session)
      → P (err repository, arrive engine s)
      → (let (r, own) = run (together (arrive engine s).committed s.pending) s.pending in
          P (continue f r (record (arrive engine s) { pending = own })))
      → P ((statement engine run >>= f) s)
  chain_statement P run f s bad good = statement_cases P run f s (λ _. bad) (λ _. good)

-- A rollback changes nothing that is seen from outside.
module _ {A : Type 0} where
  pub dropped_result : (x : Result CandidateError A × Session) → (dropped x).0 ≡ x.0
  unfolding dropped
  dropped_result (ok a, s) = refl
  dropped_result (err e, s) = refl

  pub dropped_committed :
      (x : Result CandidateError A × Session) → (dropped x).1.committed ≡ x.1.committed
  unfolding dropped
  dropped_committed (ok a, s) = refl
  dropped_committed (err e, s) = refl
