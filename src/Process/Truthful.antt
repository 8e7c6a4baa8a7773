-- ===== src/Process/Truthful.antt =====
-- What the probes say while the work loop runs.
use mathlib.Core.List.{Memᴰ}
use infernal_pf2e_parser_sim.Base.{ℕ, ℤ, Bool, true, ◌≡◌, sym, subst, ◌∙◌, inl, inr}
use infernal_pf2e_parser_sim.Std.Text.{Text, codes, text_eq}
use infernal_pf2e_parser_sim.Codec.{Codec}
use infernal_pf2e_parser_sim.Kernel.{KernelPort, CandidateRepository}
use infernal_pf2e_parser_sim.Health.{
  Heartbeat, new_heartbeat, Thresholds, ok_200, unavailable_503, age, ready_path, live_path,
  request_path, handle_request,
}
use infernal_pf2e_parser_sim.Health.Probes.{IsFresh, IsAlive, evaluate-IsFresh, evaluate-IsAlive}
use infernal_pf2e_parser_sim.Service.{Service}
use infernal_pf2e_parser_sim.Process.{answered, Process, held, started, Reach, here, later}
use infernal_pf2e_parser_sim.Process.Tracked.{IsBeat, IsHeld, Tracks, Reach-Tracks}
use infernal_pf2e_parser_sim.Process.Answers.{
  HasStatus, found_at, handle_request-ok_200, handle_request-unavailable_503,
}
use infernal_pf2e_parser_sim.Process.Supported.{
  IsSupported, AllSupported, All-Mem, Step-AllSupported,
}

module _ (thresholds : Thresholds) (connected : Bool) (now : ℤ) where
  -- the database answered, and the pass is recent
  abbrev pub Ready : Heartbeat → Type 0
  Ready heartbeat = (connected ≡ true) × IsFresh thresholds.ready_stale_seconds (age heartbeat now)

  -- the pass is too old
  abbrev pub Stuck : Heartbeat → Type 0
  Stuck heartbeat = ¬ IsAlive thresholds.live_stale_seconds (age heartbeat now)

module _ (codec : Codec) {R : Type 0} (repository : CandidateRepository R) (port : KernelPort)
    (lease : ℤ) (thresholds : Thresholds) where
  module _ (start : Service R) where
    Reach-AllSupported :
        {q : Process R}
        → Reach codec repository port lease thresholds (started start) q
        → AllSupported thresholds (held q) q.probes
    unfolding AllSupported
    Reach-AllSupported here = λ i. tt
    Reach-AllSupported (later r s) =
        Step-AllSupported codec repository port lease thresholds s (Reach-AllSupported r)

    -- Of one of the times that the heartbeat has held by this state this holds, and of the turns
    -- behind the state, which account for all of them, one has a pass that was no error and read
    -- it.
    abbrev pub SomeBeat : Process R → (Heartbeat → Type 0) → Type 0
    SomeBeat q P =
        (tracks : Tracks codec repository port lease start q.point q.service q.older)
        × (heartbeat : Heartbeat) × Memᴰ heartbeat (held q)
        × IsBeat codec repository port lease start tracks.ticks heartbeat
        × P heartbeat

    -- An answer whose heartbeat cannot be the one of the start is about some turn's pass.
    answered-SomeBeat :
        (P : Heartbeat → Type 0) {q : Process R}
        → ¬ P start.heartbeat
        → Reach codec repository port lease thresholds (started start) q
        → (i : ℕ) {request : Text} {connected : Bool} {now : ℤ} {response : Text}
        → q.probes i ≡ answered request connected now response
        → ((heartbeat : Heartbeat)
            → response ≡ handle_request request connected heartbeat thresholds now
            → P heartbeat)
        → SomeBeat q P
    unfolding AllSupported
    answered-SomeBeat P {q} not_first r i e says =
        let t = Reach-Tracks codec repository port lease start thresholds r in
        let (heartbeat, m, written_so) =
          subst (IsSupported thresholds (held q)) e (Reach-AllSupported r i) in
        let holds = says heartbeat written_so in
        elim (All-Mem (IsHeld codec repository port lease start t.ticks) m t.beats) [
          | inl first ↦ absurd (not_first (subst P first holds))
          | inr beat ↦ (t, heartbeat, m, beat, holds)
        ]

    module _ (new : start.heartbeat ≡ new_heartbeat) {q : Process R}
        (r : Reach codec repository port lease thresholds (started start) q) (i : ℕ)
        {request : Text} {connected : Bool} {now : ℤ} {response : Text}
        (e : q.probes i ≡ answered request connected now response) where
      new-Ready : ¬ Ready thresholds connected now start.heartbeat
      unfolding age
      new-Ready (known, fresh) =
          subst (λ (h : Heartbeat). IsFresh thresholds.ready_stale_seconds (age h now)) new fresh

      new-Stuck : ¬ Stuck thresholds connected now start.heartbeat
      unfolding age
      new-Stuck stuck = stuck (
          subst (λ (h : Heartbeat). IsAlive thresholds.live_stale_seconds (age h now)) (sym new) tt)

      -- In every interleaving of the threads of a process that begins with no pass: if a request for
      -- readiness is answered with 200, then the database answered its check, and one of the times
      -- that the shared heartbeat has held by then is not zero and is at most the readiness threshold
      -- before the time the probe read; turns as in Reach-Tracks account for the service and for
      -- every time held, and one of them had a pass that was no error and read that time.
      pub Reach-Ready :
          request_path request ≡ ready_path
          → HasStatus (codes "200") response
          → SomeBeat q (Ready thresholds connected now)
      unfolding text_eq
      Reach-Ready path answer =
          answered-SomeBeat (Ready thresholds connected now) new-Ready r i e λ heartbeat says.
            let policy = found_at request connected heartbeat thresholds now in
            let is_ok =
              handle_request-ok_200 request connected heartbeat thresholds now
                (rw says at answer) in
            (evaluate-IsFresh heartbeat thresholds now connected).0
              (subst (λ (p : Text). policy p ≡ ok_200) path is_ok)

      -- In every interleaving of the threads of a process that begins with no pass: if a request for
      -- liveness is answered with 503, then one of the times that the shared heartbeat has held by
      -- then is not zero and is more than the liveness threshold before the time the probe read;
      -- turns as in Reach-Tracks account for the service and for every time held, and one of them
      -- had a pass that was no error and read that time.
      pub Reach-Stuck :
          request_path request ≡ live_path
          → HasStatus (codes "503") response
          → SomeBeat q (Stuck thresholds connected now)
      unfolding text_eq
      Reach-Stuck path answer =
          answered-SomeBeat (Stuck thresholds connected now) new-Stuck r i e λ heartbeat says alive.
            let policy = found_at request connected heartbeat thresholds now in
            let is_503 =
              handle_request-unavailable_503 request connected heartbeat thresholds now
                (rw says at answer) in
            let is_ok = (evaluate-IsAlive heartbeat thresholds now true).1 alive in
            let clash : ok_200 ≡ unavailable_503 =
              sym is_ok ∙ subst (λ (p : Text). policy p ≡ unavailable_503) path is_503 in
            cc
