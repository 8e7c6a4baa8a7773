-- ===== src/Service/Stored.antt =====
-- The work loop over the repository in PostgreSQL.
use infernal_pf2e_parser_sim.Base.{ℤ, List, [], ◌∷◌}
use infernal_pf2e_parser_sim.Std.Unicode.{Unicode}
use infernal_pf2e_parser_sim.Codec.{Codec}
use infernal_pf2e_parser_sim.Kernel.{KernelPort}
use infernal_pf2e_parser_sim.Repository.{Engine, Session, postgres}
use infernal_pf2e_parser_sim.Repository.Schema.{ListCodec, Tables}
use infernal_pf2e_parser_sim.Repository.Laws.{IsPostgres}
use infernal_pf2e_parser_sim.Repository.History.{IsBetween, parse_once-IsBetween}
use infernal_pf2e_parser_sim.Dispatch.Scope.{parser_version}
use infernal_pf2e_parser_sim.Service.{Service, Tick, turn, run}
use infernal_pf2e_parser_sim.Work.Store.{work_once-Holds}

module _ (codec : Codec) (lists : ListCodec) (engine : Engine) ⦃u : Unicode⦄
    (law : IsPostgres engine) (port : KernelPort) (lease : ℤ) where
  turn-IsBetween :
      (tick : Tick) (t : Tables) (service : Service Session)
      → IsBetween t service.world.store
      → IsBetween t (turn codec (postgres engine codec lists) port lease tick service).world.store
  unfolding turn
  turn-IsBetween tick t service b =
      work_once-Holds codec (postgres engine codec lists) port (IsBetween t)
        (λ source s. parse_once-IsBetween codec lists engine law parser_version source t s) lease
        service.world b

  -- Let the work loop begin when no transaction is open and the constraints of both tables hold.
  -- After any number of its turns, whatever the kernel answers, whatever fails in the database, and
  -- whatever runs other instances add, no transaction is open, the constraints hold, and every run
  -- that was stored at the beginning is there, with its candidates unchanged. PostgreSQL and the
  -- other users of the tables are as `IsPostgres` says.
  pub run-IsBetween :
      (ticks : List Tick) (t : Tables) (service : Service Session)
      → IsBetween t service.world.store
      → IsBetween t (run codec (postgres engine codec lists) port lease ticks service).world.store
  unfolding run
  run-IsBetween [] t service b = b
  run-IsBetween (tick ∷ ticks) t service b =
      run-IsBetween ticks t _ (turn-IsBetween tick t service b)
