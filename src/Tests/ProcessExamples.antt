-- ===== src/Tests/ProcessExamples.antt =====
-- A turn of the work loop at a kernel that has nothing to do, with one probe that comes in between.
use mathlib.Core.List.{Memᴰ}
use infernal_pf2e_parser_sim.Base.{ℕ, some, ℤ, pos, true, none, [], ◌∷◌, ◌≡◌, refl}
use infernal_pf2e_parser_sim.Std.Text.{
  Text, codes, lines, split_whitespace, text_eq, strip_prefix, strip_line_end, strip_suffix,
}
use infernal_pf2e_parser_sim.Domain.{unexpected_status, repository}
use infernal_pf2e_parser_sim.Result.{ok, err}
use infernal_pf2e_parser_sim.Clock.{now_seconds, unix_time}
use infernal_pf2e_parser_sim.Kernel.{KernelPort, CandidateRepository, eligible_routes}
use infernal_pf2e_parser_sim.Health.{
  new_heartbeat, record_success, status_text, evaluate, saturating_sub, default_thresholds,
  handle_request, request_path, live_path, ready_path,
}
use infernal_pf2e_parser_sim.Work.{work_once}
use infernal_pf2e_parser_sim.Service.{Service, renew_lease_if_due}
use infernal_pf2e_parser_sim.Process.{
  sleeping, listening, reading, checking, clocking, loading, answered, Process, no_probes, update,
  started, renewed, after_pass, read, check, clock, load, renew, work, time, store, loop_step,
  probe_step, bind, accept, Reach, here, later,
}
use infernal_pf2e_parser_sim.Process.Tracked.{Tracks, Reach-Tracks}
use infernal_pf2e_parser_sim.Process.Answers.{HasStatus}
use infernal_pf2e_parser_sim.Process.Truthful.{SomeBeat, Ready, Stuck, Reach-Ready, Reach-Stuck}
use infernal_pf2e_parser_sim.Tests.HexCodec.{hex_codec}

-- a kernel without eligible routes
abbrev idle : KernelPort
idle = record {
  eligible_routes = λ h. ok [];
  propose_claim = λ h route seconds. err (unexpected_status 503);
  routed_request = λ h route. err (unexpected_status 503);
  complete_claim = λ h claim token. err (unexpected_status 503);
  submit_request = λ h action scope. err (unexpected_status 503);
}

abbrev no_repository : CandidateRepository (Unit {0})
no_repository = record { parse_once = λ version source store. (err repository, store) }

abbrev new_service : Service (Unit {0})
new_service = record {
  instance_lease = none;
  heartbeat = new_heartbeat;
  world = record { calls = []; store = tt };
}

-- The probe's thread loads the heartbeat behind the store of second 1046.
module _ (request : Text) (seconds : ℕ) where
  abbrev now : ℤ
  now = now_seconds (some seconds)

  abbrev response : Text
  response = handle_request request true (record { last_success = pos 1046 }) default_thresholds now

  abbrev final : Process (Unit {0})
  final = record {
    point = sleeping;
    service = record {
      instance_lease = none;
      heartbeat = record { last_success = pos 1046 };
      world = record { calls = eligible_routes ∷ []; store = tt };
    };
    older = new_heartbeat ∷ [];
    listener = listening 1;
    probes =
        update
          (update
            (update (update (update no_probes 0 reading) 0 (checking request)) 0
              (clocking request true))
            0 (loading request true now))
          0 (answered request true now response);
  }

  reach :
      Reach hex_codec no_repository idle (pos 300) default_thresholds (started new_service) final
  unfolding work_once renewed renew_lease_if_due after_pass record_success now_seconds unix_time
  reach =
      let s0 =
        later here (loop_step (renew (some 1045) (λ revision. err (unexpected_status 503)))) in
      let s1 = later (later s0 (bind refl)) (accept refl) in
      let s2 = later (later s1 (loop_step work)) (probe_step 0 (read request)) in
      let s3 = later (later s2 (probe_step 0 (check true))) (loop_step (time (some 1046))) in
      let s4 = later (later s3 (loop_step store)) (probe_step 0 (clock (some seconds))) in
      later s4 (probe_step 0 (load (record { last_success = pos 1046 }) (Memᴰ.head refl)))

abbrev ready_request : Text
ready_request = codes "GET /health/ready HTTP/1.1\r\nHost: parser\r\n\r\n"

abbrev live_request : Text
live_request = codes "GET /health/live HTTP/1.1\r\nHost: parser\r\n\r\n"

ready_request-path : request_path ready_request ≡ ready_path
unfolding request_path lines split_whitespace strip_line_end strip_suffix
ready_request-path = refl

live_request-path : request_path live_request ≡ live_path
unfolding request_path lines split_whitespace strip_line_end strip_suffix
live_request-path = refl

-- four seconds behind the pass
ready_status : HasStatus (codes "200") (response ready_request 1050)
unfolding handle_request strip_prefix status_text evaluate text_eq request_path lines
    split_whitespace strip_line_end strip_suffix saturating_sub now_seconds
ready_status = (_, refl)

-- four minutes behind it
restart_status : HasStatus (codes "503") (response live_request 1286)
unfolding handle_request strip_prefix status_text evaluate text_eq request_path lines
    split_whitespace strip_line_end strip_suffix saturating_sub now_seconds
restart_status = (_, refl)

Reach-Tracks_example :
    Tracks hex_codec no_repository idle
      (pos 300)
      new_service
      sleeping
      (final ready_request 1050).service
      (new_heartbeat ∷ [])
Reach-Tracks_example =
    Reach-Tracks hex_codec no_repository idle (pos 300) new_service default_thresholds
      (reach ready_request 1050)

Reach-Ready_example :
    SomeBeat hex_codec no_repository idle
      (pos 300)
      default_thresholds
      new_service
      (final ready_request 1050)
      (Ready default_thresholds true (now_seconds (some 1050)))
Reach-Ready_example =
    Reach-Ready hex_codec no_repository idle (pos 300) default_thresholds new_service refl
      (reach ready_request 1050) 0 refl ready_request-path ready_status

Reach-Stuck_example :
    SomeBeat hex_codec no_repository idle
      (pos 300)
      default_thresholds
      new_service
      (final live_request 1286)
      (Stuck default_thresholds true (now_seconds (some 1286)))
Reach-Stuck_example =
    Reach-Stuck hex_codec no_repository idle (pos 300) default_thresholds new_service refl
      (reach live_request 1286) 0 refl live_request-path restart_status
