-- ===== src/Tests/LoopExamples.antt =====
-- The work loop's theorems at a kernel that is out of order, and at a lease that runs out.
use infernal_pf2e_parser_sim.Base.{IsI64, ◌-ℤ◌, pos, true, [], ◌∷◌, some, ◌≡◌, ◌≢◌, refl, arith}
use infernal_pf2e_parser_sim.Domain.{unexpected_status, repository}
use infernal_pf2e_parser_sim.Result.{ok, err}
use infernal_pf2e_parser_sim.Kernel.{KernelPort, CandidateRepository}
use infernal_pf2e_parser_sim.Health.{
  saturating_sub, default_thresholds, age, evaluate, ready_path, ok_200,
}
use infernal_pf2e_parser_sim.Health.Probes.{IsFresh}
use infernal_pf2e_parser_sim.Work.{work_once}
use infernal_pf2e_parser_sim.Service.{InstanceLease, Tick, Service, renew_lease_if_due, run, turn}
use infernal_pf2e_parser_sim.Service.Renewal.{Renewal, renew_lease_if_due-Renewal}
use infernal_pf2e_parser_sim.Service.Heartbeats.{AllFail, run-IsFresh}
use infernal_pf2e_parser_sim.Tests.HexCodec.{hex_codec}

-- a kernel that answers 503 to everything
abbrev broken : KernelPort
broken = record {
  eligible_routes = λ h. err (unexpected_status 503);
  propose_claim = λ h route seconds. err (unexpected_status 503);
  routed_request = λ h route. err (unexpected_status 503);
  complete_claim = λ h claim token. err (unexpected_status 503);
  submit_request = λ h action scope. err (unexpected_status 503);
}

abbrev no_repository : CandidateRepository (Unit {0})
no_repository = record { parse_once = λ version source store. (err repository, store) }

abbrev lease : InstanceLease
lease = record { revision = pos 3; expires_at = pos 1060 }

abbrev tick : Tick
tick = record {
  now = pos 1045;
  renew_lease = λ revision. ok (record { lease_expires_at = pos 1105; lease_revision = pos 4 });
  success_time = pos 1046;
}

abbrev service : Service (Unit {0})
service = record {
  instance_lease = some lease;
  heartbeat = record { last_success = pos 1000 };
  world = record { calls = []; store = tt };
}

broken-AllFail : AllFail hex_codec no_repository broken (pos 300) (tick ∷ tick ∷ []) service
unfolding work_once turn
broken-AllFail = ((unexpected_status 503, refl), ((unexpected_status 503, refl), tt))

service_stale : ¬ IsFresh (pos 30) (age service.heartbeat (pos 1031))
unfolding age saturating_sub ◌-ℤ◌
service_stale h = absurd (omega arith)

run-IsFresh_example :
    (evaluate ready_path
      (run hex_codec no_repository broken (pos 300) (tick ∷ tick ∷ []) service).heartbeat
      true
      default_thresholds
      (pos 1031)).0
    ≢ ok_200
run-IsFresh_example =
    run-IsFresh hex_codec no_repository broken (pos 300) (tick ∷ tick ∷ []) service
      default_thresholds (pos 1031) true broken-AllFail service_stale

lease_range : IsI64 (lease.expires_at -ℤ pos 20)
unfolding ◌-ℤ◌
lease_range = (omega arith, omega arith)

renew_lease_if_due-Renewal_example :
    (after : InstanceLease) × (renew_lease_if_due tick (some lease) ≡ some after)
    × Renewal tick lease after
renew_lease_if_due-Renewal_example = renew_lease_if_due-Renewal tick lease lease_range
