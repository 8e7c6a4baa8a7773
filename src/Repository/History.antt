-- ===== src/Repository/History.antt =====
-- Any number of calls of `parse_once`, one behind the other.
use infernal_pf2e_parser_sim.Base.{ℕ, true, List, [], ◌∷◌, ◌≡◌, refl, sym, subst, ap}
use mathlib.Core.List.{Permᴰ}
use infernal_pf2e_parser_sim.Std.Text.{Text}
use infernal_pf2e_parser_sim.Std.Unicode.{Unicode}
use infernal_pf2e_parser_sim.Domain.{SourceReference, ParseOutcome}
use infernal_pf2e_parser_sim.Result.{ok}
use infernal_pf2e_parser_sim.Codec.{Codec}
use infernal_pf2e_parser_sim.Repository.{Engine, Session, parse_once}
use infernal_pf2e_parser_sim.Repository.Schema.{ListCodec, Tables, no_tables}
use infernal_pf2e_parser_sim.Repository.Consistent.{IsConsistent}
use infernal_pf2e_parser_sim.Repository.Growth.{Extends, Extends-refl, Extends-trans}
use infernal_pf2e_parser_sim.Repository.Laws.{IsPostgres}
use infernal_pf2e_parser_sim.Repository.Settled.{idle}
use infernal_pf2e_parser_sim.Repository.Outcome.{parse_once-Settled}
use infernal_pf2e_parser_sim.Repository.Retry.{parse_once-retried}

-- a parser version and a source
abbrev pub Request : Type 0
Request = Text × SourceReference

-- no transaction is open, and the tables keep their constraints and have what `t` had
pub record IsBetween (t : Tables) (s : Session) : Type 0 where
  pub closed : s.pending ≡ no_tables
  pub consistent : IsConsistent s.committed
  pub extends : Extends t s.committed

IsBetween-idle : {t : Tables} {s : Session} → IsBetween t s → idle s.committed s.clock ≡ s
IsBetween-idle {t} {s} b = ap (λ (p : Tables). record s { pending = p }) (sym b.closed)

module _ (codec : Codec) (lists : ListCodec) (engine : Engine) ⦃u : Unicode⦄ where
  -- the session behind these calls, whatever they return
  unfoldable pub parse_all : List Request → Session → Session
  parse_all [] s = s
  parse_all ((version, source) ∷ requests) s =
      parse_all requests (parse_once engine codec lists version source s).1

  module _ (law : IsPostgres engine) where
    pub parse_once-IsBetween :
        (version : Text) (source : SourceReference) (t : Tables) (s : Session)
        → IsBetween t s
        → IsBetween t (parse_once engine codec lists version source s).1
    parse_once-IsBetween version source t s b =
        subst (λ (s : Session). IsBetween t (parse_once engine codec lists version source s).1)
          (IsBetween-idle b)
          (let done =
              parse_once-Settled codec lists engine law s.committed source version s.clock
                b.consistent in
            record {
              closed = done.closed;
              consistent = done.consistent;
              extends = Extends-trans b.extends done.extends;
            })

    parse_all-IsBetween :
        (requests : List Request) (t : Tables) (s : Session)
        → IsBetween t s
        → IsBetween t (parse_all requests s)
    unfolding parse_all
    parse_all-IsBetween [] t s b = b
    parse_all-IsBetween ((version, source) ∷ requests) t s b =
        parse_all-IsBetween requests t _ (parse_once-IsBetween version source t s b)

    -- Once a source is parsed, on tables that keep their constraints, any number of other calls may
    -- follow, of any sources, with any failures in them and any runs that other instances add: when
    -- the source is parsed again with success, it is known as already processed, and its candidates
    -- are the same, with the same identifiers, up to their order. PostgreSQL and the other users of
    -- the tables are as `IsPostgres` says.
    pub parse_once-stable :
        (version : Text) (source : SourceReference) (between : List Request) (t : Tables) (n : ℕ)
        (first second : ParseOutcome)
        → IsConsistent t
        → (parse_once engine codec lists version source (idle t n)).0 ≡ ok first
        → (parse_once engine codec lists version source
            (parse_all between (parse_once engine codec lists version source (idle t n)).1)).0
          ≡ ok second
        → (second.was_already_processed ≡ true) × Permᴰ first.candidates second.candidates
    parse_once-stable version source between t n first second c e0 e1 =
        let s = (parse_once engine codec lists version source (idle t n)).1 in
        let one =
          parse_once-IsBetween version source t (idle t n)
            (record { closed = refl; consistent = c; extends = Extends-refl t }) in
        let all = parse_all-IsBetween between s.committed s (record {
          closed = one.closed;
          consistent = one.consistent;
          extends = Extends-refl s.committed;
        }) in
        let s' = parse_all between s in
        let again =
          subst (λ (s : Session). (parse_once engine codec lists version source s).0 ≡ ok second)
            (sym (IsBetween-idle all)) e1 in
        let (_, known, same) =
          parse_once-retried codec lists engine law version source t s'.committed n s'.clock first
            second c all.consistent e0 all.extends again in
        (known, same)
