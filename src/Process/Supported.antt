-- ===== src/Process/Supported.antt =====
-- Every answer of a probe is what some value of the heartbeat gives.
use mathlib.Core.List.{Memᴰ}
use infernal_pf2e_parser_sim.Base.{
  ℕ, ℤ, List, ◌∷◌, All, ◌≡◌, refl, sym, subst, ◌==◌, inl, inr, Bool-cases,
}
use infernal_pf2e_parser_sim.Codec.{Codec}
use infernal_pf2e_parser_sim.Kernel.{KernelPort, CandidateRepository}
use infernal_pf2e_parser_sim.Health.{Heartbeat, Thresholds, handle_request}
use infernal_pf2e_parser_sim.Service.{Service}
use infernal_pf2e_parser_sim.Process.{
  Point, renewed, Probe, absent, reading, closed, checking, clocking, loading, answered, Process,
  held, update, ProbeStep, read, read_fails, check, clock, load, LoopStep, renew, work, time, store,
  sleep, Step, loop_step, probe_step, bind, bind_fails, accept, accept_fails,
}

module _ (thresholds : Thresholds) where
  -- An answer is what some value of the heartbeat gives.
  abbrev pub IsSupported : List Heartbeat → Probe → Type 0
  IsSupported values (answered request connected now response) =
      (heartbeat : Heartbeat) × Memᴰ heartbeat values
      × (response ≡ handle_request request connected heartbeat thresholds now)
  IsSupported values absent = Unit
  IsSupported values reading = Unit
  IsSupported values closed = Unit
  IsSupported values (checking _) = Unit
  IsSupported values (clocking _ _) = Unit
  IsSupported values (loading _ _ _) = Unit

  pub IsSupported-more :
      (h : Heartbeat) (values : List Heartbeat) (probe : Probe)
      → IsSupported values probe
      → IsSupported (h ∷ values) probe
  IsSupported-more h values (answered request connected now response) (heartbeat, m, e) =
      (heartbeat, Memᴰ.tail m, e)
  IsSupported-more h values absent s = tt
  IsSupported-more h values reading s = tt
  IsSupported-more h values closed s = tt
  IsSupported-more h values (checking _) s = tt
  IsSupported-more h values (clocking _ _) s = tt
  IsSupported-more h values (loading _ _ _) s = tt

  ProbeStep-IsSupported :
      {values : List Heartbeat} {before after : Probe}
      → ProbeStep values thresholds before after
      → IsSupported values after
  ProbeStep-IsSupported (read request) = tt
  ProbeStep-IsSupported read_fails = tt
  ProbeStep-IsSupported (check connected) = tt
  ProbeStep-IsSupported (clock elapsed) = tt
  ProbeStep-IsSupported (load heartbeat m) = (heartbeat, m, refl)

  unfoldable pub AllSupported : List Heartbeat → (ℕ → Probe) → Type 0
  AllSupported values probes = (i : ℕ) → IsSupported values (probes i)

  update-IsSupported :
      (values : List Heartbeat) (probes : ℕ → Probe) (i : ℕ) (probe : Probe)
      → IsSupported values probe
      → AllSupported values probes
      → AllSupported values (update probes i probe)
  unfolding AllSupported
  update-IsSupported values probes i probe s all j = elim (Bool-cases (i == j)) [
    | inl e ↦ rw e s
    | inr e ↦ rw e (all j)
  ]

pub All-Mem :
    (P : Heartbeat → Type 0) {h : Heartbeat} {hs : List Heartbeat} → Memᴰ h hs → All P hs → P h
All-Mem P (Memᴰ.head e) (p, ps) = subst P (sym e) p
All-Mem P (Memᴰ.tail m) (p, ps) = All-Mem P m ps

module _ (codec : Codec) {R : Type 0} (repository : CandidateRepository R) (port : KernelPort)
    (lease : ℤ) (thresholds : Thresholds) where
  LoopStep-IsSupported :
      {point : Point} {service : Service R} {older : List Heartbeat} {point' : Point}
      {service' : Service R} {older' : List Heartbeat}
      → LoopStep codec repository port lease point service older point' service' older'
      → (probe : Probe) → IsSupported thresholds (service.heartbeat ∷ older) probe
      → IsSupported thresholds (service'.heartbeat ∷ older') probe
  unfolding renewed
  LoopStep-IsSupported (renew elapsed renew_lease) probe s = s
  LoopStep-IsSupported work probe s = s
  LoopStep-IsSupported (time elapsed) probe s = s
  LoopStep-IsSupported (store {service} {older}) probe s =
      IsSupported-more thresholds _ (service.heartbeat ∷ older) probe s
  LoopStep-IsSupported sleep probe s = s

  pub Step-AllSupported :
      {p q : Process R}
      → Step codec repository port lease thresholds p q
      → AllSupported thresholds (held p) p.probes
      → AllSupported thresholds (held q) q.probes
  unfolding AllSupported
  Step-AllSupported {p} (loop_step s) all = λ i. LoopStep-IsSupported s (p.probes i) (all i)
  Step-AllSupported {p} (probe_step i {probe} s) all =
      update-IsSupported thresholds (held p) p.probes i probe (ProbeStep-IsSupported thresholds s)
        all
  Step-AllSupported (bind e) all = all
  Step-AllSupported (bind_fails e) all = all
  Step-AllSupported {p} (accept {n} e) all =
      update-IsSupported thresholds (held p) p.probes n reading tt all
  Step-AllSupported (accept_fails e) all = all
