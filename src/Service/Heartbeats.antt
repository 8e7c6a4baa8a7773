-- ===== src/Service/Heartbeats.antt =====
-- How the probes follow the work loop.
use infernal_pf2e_parser_sim.Base.{ℤ, Bool, List, [], ◌∷◌, ◌≡◌, ◌≢◌, refl, ◌∙◌}
use infernal_pf2e_parser_sim.Domain.{ParserError}
use infernal_pf2e_parser_sim.Result.{err}
use infernal_pf2e_parser_sim.Codec.{Codec}
use infernal_pf2e_parser_sim.Kernel.{KernelPort, CandidateRepository}
use infernal_pf2e_parser_sim.Health.{Thresholds, age, evaluate, ready_path, ok_200}
use infernal_pf2e_parser_sim.Health.Probes.{IsFresh, evaluate-IsFresh}
use infernal_pf2e_parser_sim.Work.{work_once}
use infernal_pf2e_parser_sim.Service.{Tick, Service, beat, turn, run}

module _ (codec : Codec) {R : Type 0} (repository : CandidateRepository R) (port : KernelPort)
    (lease_seconds : ℤ) where
  -- every pass of these turns fails
  abbrev pub AllFail : List Tick → Service R → Type 0
  AllFail [] service = Unit
  AllFail (tick ∷ ticks) service =
      ((e : ParserError) × ((work_once codec repository port lease_seconds service.world).0
          ≡ err e))
      × AllFail ticks (turn codec repository port lease_seconds tick service)

  run-heartbeat :
      (ticks : List Tick) (service : Service R)
      → AllFail ticks service
      → (run codec repository port lease_seconds ticks service).heartbeat ≡ service.heartbeat
  unfolding run turn beat
  run-heartbeat [] service h = refl
  run-heartbeat (tick ∷ ticks) service ((e, fails), h) = run-heartbeat ticks _ h ∙ rw fails refl

  -- While every pass fails, the heartbeat stays where it was, so readiness stops answering 200 as
  -- soon as the last success is older than the threshold, whatever became of the database.
  pub run-IsFresh :
      (ticks : List Tick) (service : Service R) (thresholds : Thresholds) (now : ℤ) (d : Bool)
      → AllFail ticks service
      → ¬ IsFresh thresholds.ready_stale_seconds (age service.heartbeat now)
      → (evaluate ready_path
          (run codec repository port lease_seconds ticks service).heartbeat
          d
          thresholds
          now).0
        ≢ ok_200
  run-IsFresh ticks service thresholds now d fails stale answer =
      stale
        ((evaluate-IsFresh service.heartbeat thresholds now d).0
          (rw (run-heartbeat ticks service fails) at answer)).1
