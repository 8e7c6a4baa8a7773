-- ===== src/Process.antt =====
-- The process: `main` of src/main.rs, the accept loop of src/health.rs, and the threads they start
-- with what the threads share. The work loop and one thread for each connection run interleaved,
-- in any order; a step is what one thread does between two accesses to something outside it.
pub mod Tracked
pub mod Stored
pub mod Answers
pub mod Supported
pub mod Truthful
use infernal_pf2e_parser_sim.Base.{
  ℕ, zero, suc, ℤ, pos, Bool, ◌==◌, if◌then◌else◌, Option, none, some, List, [], ◌∷◌, ◌≡◌,
}
use mathlib.Core.List.{Memᴰ}
use infernal_pf2e_parser_sim.Std.Text.{Text, codes}
use infernal_pf2e_parser_sim.Domain.{ParserError}
use infernal_pf2e_parser_sim.Result.{Result, ok, err}
use infernal_pf2e_parser_sim.Clock.{unix_time, now_seconds}
use infernal_pf2e_parser_sim.Codec.{Codec}
use infernal_pf2e_parser_sim.Wire.{RenewedLease}
use infernal_pf2e_parser_sim.Kernel.{KernelPort, CandidateRepository, World}
use infernal_pf2e_parser_sim.Health.{
  Heartbeat, new_heartbeat, record_success, Thresholds, handle_request,
}
use infernal_pf2e_parser_sim.Work.{WorkOutcome, work_once}
use infernal_pf2e_parser_sim.Service.{Tick, Service, renew_lease_if_due}
use infernal_pf2e_parser_sim.Startup.{Config, or_else}

abbrev pub health_address_env : Text
health_address_env = codes "HEALTH_ADDRESS"

abbrev pub default_health_address : Text
default_health_address = codes "0.0.0.0:8090"

-- What the work loop does next. `timing` is behind a pass that is no error, and `storing` behind
-- the reading of the clock for it.
pub data Point : Type 0 where
  renewing passing timing sleeping : Point
  storing : ℤ → Point

-- A connection's thread in `handle_connection`: what it does next, with what it knows by then.
pub data Probe : Type 0 where
  absent reading closed : Probe
  checking : Text → Probe
  clocking : Text → Bool → Probe
  loading : Text → Bool → ℤ → Probe
  answered : Text → Bool → ℤ → Text → Probe

-- `serve`: it binds the address and then accepts connections, so many by now; or it has returned
-- an error, which `main` prints.
pub data Listener : Type 0 where
  binding failed : Listener
  listening : ℕ → Listener

-- The atomic cell is the list of the values it has held: that of `service` is the newest. A thread
-- without a connection, from the number of those accepted on, is `absent`.
pub record Process (R : Type 0) : Type 0 where
  pub point : Point
  pub service : Service R
  pub older : List Heartbeat
  pub listener : Listener
  pub probes : ℕ → Probe

-- the values of the cell
abbrev pub held : {R : Type 0} → Process R → List Heartbeat
held process = process.service.heartbeat ∷ process.older

abbrev pub update : (ℕ → Probe) → ℕ → Probe → ℕ → Probe
update probes i probe j = if i == j then probe else probes j

abbrev pub no_probes : ℕ → Probe
no_probes _ = absent

-- the state in which `run` and the listener's thread start
abbrev pub started : {R : Type 0} → Service R → Process R
started service = record {
  point = renewing;
  service = service;
  older = [];
  listener = binding;
  probes = no_probes;
}

-- the service that `main` hands to `run`
abbrev pub new_service : {R : Type 0} → Config → World R → Service R
new_service config world = record {
  instance_lease = config.instance_lease;
  heartbeat = new_heartbeat;
  world = world;
}

pub data Main (R : Type 0) : Type 0 where
  exit : ℕ → Main R
  -- the address to bind
  running : Text → Process R → Main R

-- `main`, from the environment and the result of `from_env`
unfoldable pub main :
    {R : Type 0} → (Text → Option Text) → Result ParserError Config → World R → Main R
main env (err error) world = exit 1
main env (ok config) world =
    running (or_else default_health_address (env health_address_env))
      (started (new_service config world))

-- Relaxed loads and stores: a load reads some value that the cell has held, not always the newest.
pub data ProbeStep (values : List Heartbeat) (thresholds : Thresholds)
    : Probe → Probe → Type 0 where
  read : (request : Text) → ProbeStep values thresholds reading (checking request)
  read_fails : ProbeStep values thresholds reading closed
  check :
      {request : Text} (connected : Bool)
      → ProbeStep values thresholds (checking request) (clocking request connected)
  clock :
      {request : Text} {connected : Bool} (elapsed : Option ℕ)
      → ProbeStep values thresholds
          (clocking request connected)
          (loading request connected (now_seconds elapsed))
  load :
      {request : Text} {connected : Bool} {now : ℤ} (heartbeat : Heartbeat)
      → Memᴰ heartbeat values
      → ProbeStep values thresholds (loading request connected now) (
          answered request connected now
            (handle_request request connected heartbeat thresholds now))

-- `renew_lease_if_due` at a reading of the clock, with the client's answer to a renewal
unfoldable pub renewed :
    {R : Type 0} → ℤ → (ℤ → Result ParserError RenewedLease) → Service R → Service R
renewed now renew_lease service = record service {
  instance_lease =
      renew_lease_if_due (record { now = now; renew_lease = renew_lease; success_time = pos 0 })
        service.instance_lease;
}

-- the `match` on the result of `work_once`
unfoldable pub after_pass : Result ParserError WorkOutcome → Point
after_pass (ok _) = timing
after_pass (err _) = sleeping

module _ (codec : Codec) {R : Type 0} (repository : CandidateRepository R) (port : KernelPort)
    (lease_seconds : ℤ) where
  abbrev pub pass : Service R → Result ParserError WorkOutcome × World R
  pass service = work_once codec repository port lease_seconds service.world

  -- The body of the loop of `run`, with the points between which other threads may run.
  pub data LoopStep
      : Point → Service R → List Heartbeat → Point → Service R → List Heartbeat → Type 0 where
    renew :
        {service : Service R} {older : List Heartbeat} (elapsed : Option ℕ)
        (renew_lease : ℤ → Result ParserError RenewedLease)
        → LoopStep renewing service older passing
            (renewed (unix_time elapsed) renew_lease service)
            older
    work :
        {service : Service R} {older : List Heartbeat}
        → LoopStep passing service older
            (after_pass (pass service).0)
            (record service { world = (pass service).1 })
            older
    time :
        {service : Service R} {older : List Heartbeat} (elapsed : Option ℕ)
        → LoopStep timing service older (storing (now_seconds elapsed)) service older
    store :
        {service : Service R} {older : List Heartbeat} {at : ℤ}
        → LoopStep
            (storing at)
            service
            older
            sleeping
            (record service { heartbeat = record_success service.heartbeat at })
            (service.heartbeat ∷ older)
    sleep :
        {service : Service R} {older : List Heartbeat}
        → LoopStep sleeping service older renewing service older

  module _ (thresholds : Thresholds) where
    -- One thread takes one step.
    pub data Step (p : Process R) : Process R → Type 0 where
      loop_step :
          {point : Point} {service : Service R} {older : List Heartbeat}
          → LoopStep p.point p.service p.older point service older
          → Step p (record p { point = point; service = service; older = older })
      probe_step :
          (i : ℕ) {probe : Probe}
          → ProbeStep (held p) thresholds (p.probes i) probe
          → Step p (record p { probes = update p.probes i probe })
      bind : p.listener ≡ binding → Step p (record p { listener = listening 0 })
      bind_fails : p.listener ≡ binding → Step p (record p { listener = failed })
      accept :
          {n : ℕ}
          → p.listener ≡ listening n
          → Step p (record p { listener = listening (suc n); probes = update p.probes n reading })
      accept_fails : {n : ℕ} → p.listener ≡ listening n → Step p p

    pub data Reach (start : Process R) : Process R → Type 0 where
      here : Reach start start
      later : {p q : Process R} → Reach start p → Step p q → Reach start q
