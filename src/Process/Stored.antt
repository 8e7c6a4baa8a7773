-- ===== src/Process/Stored.antt =====
-- The process over the repository in PostgreSQL.
use infernal_pf2e_parser_sim.Base.{ℤ, List, sym, subst}
use infernal_pf2e_parser_sim.Std.Unicode.{Unicode}
use infernal_pf2e_parser_sim.Codec.{Codec}
use infernal_pf2e_parser_sim.Kernel.{KernelPort}
use infernal_pf2e_parser_sim.Health.{Thresholds}
use infernal_pf2e_parser_sim.Repository.{Engine, Session, postgres}
use infernal_pf2e_parser_sim.Repository.Schema.{ListCodec, Tables}
use infernal_pf2e_parser_sim.Repository.Laws.{IsPostgres}
use infernal_pf2e_parser_sim.Repository.History.{IsBetween, parse_once-IsBetween}
use infernal_pf2e_parser_sim.Dispatch.Scope.{parser_version}
use infernal_pf2e_parser_sim.Work.Store.{work_once-Holds}
use infernal_pf2e_parser_sim.Service.{Service, Tick, run}
use infernal_pf2e_parser_sim.Service.Stored.{run-IsBetween}
use infernal_pf2e_parser_sim.Process.{
  Point, renewing, passing, timing, storing, sleeping, Process, started, renewed, pass, Reach,
}
use infernal_pf2e_parser_sim.Process.Tracked.{At, Reach-Tracks, behind}

module _ (codec : Codec) (lists : ListCodec) (engine : Engine) ⦃u : Unicode⦄
    (law : IsPostgres engine) (port : KernelPort) (lease : ℤ) (thresholds : Thresholds) (t : Tables)
    (start : Service Session) (begins : IsBetween t start.world.store) where
  abbrev Keeps : Service Session → Type 0
  Keeps service = IsBetween t service.world.store

  -- the end of a pass that is made behind a turn
  pass-Keeps :
      (service : Service Session)
      → Keeps service
      → IsBetween t (pass codec (postgres engine codec lists) port lease service).1.store
  pass-Keeps service b =
      work_once-Holds codec (postgres engine codec lists) port (IsBetween t)
        (λ source s. parse_once-IsBetween codec lists engine law parser_version source t s) lease
        service.world b

  -- the service behind these turns
  turned :
      (ticks : List Tick) → Keeps (run codec (postgres engine codec lists) port lease ticks start)
  turned ticks = run-IsBetween codec lists engine law port lease ticks t start begins

  At-Keeps :
      (ticks : List Tick) (point : Point) (service : Service Session)
      → At codec (postgres engine codec lists) port lease start ticks point service
      → Keeps service
  unfolding renewed
  At-Keeps ticks renewing service e = subst Keeps (sym e) (turned ticks)
  At-Keeps ticks sleeping service e = subst Keeps (sym e) (turned ticks)
  At-Keeps ticks passing service (now, renew_lease, e) = subst Keeps (sym e) (turned ticks)
  At-Keeps ticks timing service (now, renew_lease, outcome, o, e) = subst Keeps (sym e) (
      pass-Keeps (behind codec (postgres engine codec lists) port lease start ticks) (turned ticks))
  At-Keeps ticks (storing at) service (now, renew_lease, outcome, o, e) = subst Keeps (sym e) (
      pass-Keeps (behind codec (postgres engine codec lists) port lease start ticks) (turned ticks))

  -- Let the process start when no transaction is open and the constraints of both tables hold:
  -- their keys, the reference between them, and the checks of the digest's length and of the
  -- confidence. In every interleaving of its threads, at every point of the work loop, whatever the
  -- kernel answers, whatever fails in the database, and whatever runs other instances add, no
  -- transaction is left open, the constraints hold, and every run that was stored at the start is
  -- there, with its row and its candidates unchanged. PostgreSQL and the other users of the tables
  -- are as `IsPostgres` says.
  pub Reach-IsBetween :
      {q : Process Session}
      → Reach codec (postgres engine codec lists) port lease thresholds (started start) q
      → IsBetween t q.service.world.store
  Reach-IsBetween {q} r =
      let tracks = Reach-Tracks codec (postgres engine codec lists) port lease start thresholds r in
      At-Keeps tracks.ticks q.point q.service tracks.at
