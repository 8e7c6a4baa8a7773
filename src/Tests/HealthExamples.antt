-- ===== src/Tests/HealthExamples.antt =====
-- The probes' theorems at concrete times.
use infernal_pf2e_parser_sim.Base.{pos, true, ◌≡◌, ◌↔◌}
use infernal_pf2e_parser_sim.Health.{
  Heartbeat, age, default_thresholds, ok_200, evaluate, live_path, ready_path,
}
use infernal_pf2e_parser_sim.Health.Probes.{IsFresh, IsAlive, evaluate-ok_200}

-- the last pass was at second 1000
abbrev beating : Heartbeat
beating = record { last_success = pos 1000 }

evaluate-ok_200_example :
    ((evaluate ready_path beating true default_thresholds (pos 1020)).0 ≡ ok_200
      ↔ ((true ≡ true) × IsFresh (pos 30) (age beating (pos 1020))))
    × ((evaluate live_path beating true default_thresholds (pos 1020)).0 ≡ ok_200
        ↔ IsAlive (pos 150) (age beating (pos 1020)))
evaluate-ok_200_example = evaluate-ok_200 beating default_thresholds (pos 1020) true
