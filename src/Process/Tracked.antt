-- ===== src/Process/Tracked.antt =====
-- The work loop among the probes, against the turns of Service.
use infernal_pf2e_parser_sim.Base.{
  ℤ, pos, List, [], ◌∷◌, ◌++◌, All, All-impl, ◌≡◌, refl, sym, ap, subst, ◌∙◌, append_assoc, ◌⊎◌,
  inl, inr,
}
use infernal_pf2e_parser_sim.Domain.{ParserError}
use infernal_pf2e_parser_sim.Result.{Result, ok, Result-cases}
use infernal_pf2e_parser_sim.Clock.{unix_time}
use infernal_pf2e_parser_sim.Codec.{Codec}
use infernal_pf2e_parser_sim.Wire.{RenewedLease}
use infernal_pf2e_parser_sim.Kernel.{KernelPort, CandidateRepository}
use infernal_pf2e_parser_sim.Health.{Heartbeat, record_success, Thresholds}
use infernal_pf2e_parser_sim.Work.{WorkOutcome}
use infernal_pf2e_parser_sim.Service.{Tick, Service, beat, renew_lease_if_due, turn, run}
use infernal_pf2e_parser_sim.Process.{
  Point, renewing, passing, timing, storing, sleeping, Process, started, renewed, after_pass, pass,
  LoopStep, renew, work, time, store, sleep, Step, loop_step, probe_step, bind, bind_fails, accept,
  accept_fails, Reach, here, later,
}

module _ (codec : Codec) {R : Type 0} (repository : CandidateRepository R) (port : KernelPort)
    (lease : ℤ) (start : Service R) where
  -- the service behind these turns
  abbrev pub behind : List Tick → Service R
  behind ticks = run codec repository port lease ticks start

  -- One of these turns had a pass that is no error, and read this time behind it.
  pub record IsBeat (ticks : List Tick) (heartbeat : Heartbeat) : Type 0 where
    pub before : List Tick
    pub tick : Tick
    pub after : List Tick
    pub outcome : WorkOutcome
    pub turns : before ++ tick ∷ after ≡ ticks
    pub passes : (pass codec repository port lease (behind before)).0 ≡ ok outcome
    pub recorded : heartbeat ≡ record_success start.heartbeat tick.success_time

  abbrev pub IsHeld : List Tick → Heartbeat → Type 0
  IsHeld ticks heartbeat = (heartbeat ≡ start.heartbeat) ⊎ IsBeat ticks heartbeat

  -- the service between two steps of a turn, whose readings are these
  abbrev passed : ℤ → (ℤ → Result ParserError RenewedLease) → List Tick → Service R
  passed now renew_lease ticks = record (renewed now renew_lease (behind ticks)) {
    world = (pass codec repository port lease (behind ticks)).1;
  }

  -- a turn behind these has made its pass, which is no error
  abbrev HasPassed : List Tick → Service R → Type 0
  HasPassed ticks service =
      (now : ℤ) × (renew_lease : ℤ → Result ParserError RenewedLease) × (outcome : WorkOutcome)
      × ((pass codec repository port lease (behind ticks)).0 ≡ ok outcome)
      × (service ≡ passed now renew_lease ticks)

  -- Where the loop is, behind these turns: a turn that has begun is at one of its points.
  abbrev pub At : List Tick → Point → Service R → Type 0
  At ticks renewing service = service ≡ behind ticks
  At ticks sleeping service = service ≡ behind ticks
  At ticks passing service =
      (now : ℤ) × (renew_lease : ℤ → Result ParserError RenewedLease) × (service
        ≡ renewed now renew_lease (behind ticks))
  At ticks timing service = HasPassed ticks service
  At ticks (storing at) service = HasPassed ticks service

  -- the loop's point, and the values that the heartbeat has held
  pub record Tracks (point : Point) (service : Service R) (older : List Heartbeat) : Type 0 where
    pub ticks : List Tick
    pub at : At ticks point service
    pub beats : All (IsHeld ticks) (service.heartbeat ∷ older)

  IsHeld-later :
      (ticks more : List Tick) (h : Heartbeat) → IsHeld ticks h → IsHeld (ticks ++ more) h
  IsHeld-later ticks more h (inl e) = inl e
  IsHeld-later ticks more h (inr b) = inr (record {
    before = b.before;
    tick = b.tick;
    after = b.after ++ more;
    outcome = b.outcome;
    turns = sym (append_assoc b.before (b.tick ∷ b.after) more) ∙ ap (λ l. l ++ more) b.turns;
    passes = b.passes;
    recorded = b.recorded;
  })

  run-snoc :
      (ticks : List Tick) (tick : Tick) (service : Service R)
      → run codec repository port lease (ticks ++ tick ∷ []) service
        ≡ turn codec repository port lease tick (run codec repository port lease ticks service)
  unfolding run
  run-snoc [] tick service = refl
  run-snoc (t ∷ ticks) tick service = run-snoc ticks tick _

  -- the turn that these readings make
  abbrev tick_of : ℤ → (ℤ → Result ParserError RenewedLease) → ℤ → Tick
  tick_of now renew_lease at = record { now = now; renew_lease = renew_lease; success_time = at }

  turn_of :
      (ticks : List Tick) (now : ℤ) (renew_lease : ℤ → Result ParserError RenewedLease) (at : ℤ)
      {result : Result ParserError WorkOutcome}
      → (pass codec repository port lease (behind ticks)).0 ≡ result
      → record (passed now renew_lease ticks) {
        heartbeat = beat at result (behind ticks).heartbeat;
      }
        ≡ behind (ticks ++ tick_of now renew_lease at ∷ [])
  unfolding turn renewed renew_lease_if_due
  turn_of ticks now renew_lease at e =
      ap
        (λ (r : Result ParserError WorkOutcome). record (passed now renew_lease ticks) {
          heartbeat = beat at r (behind ticks).heartbeat;
        })
        (sym e)
      ∙ sym (run-snoc ticks (tick_of now renew_lease at) start)

  work-Tracks :
      (ticks : List Tick) (now : ℤ) (renew_lease : ℤ → Result ParserError RenewedLease)
      (older : List Heartbeat)
      → All (IsHeld ticks) ((renewed now renew_lease (behind ticks)).heartbeat ∷ older)
      → Tracks
          (after_pass (pass codec repository port lease (behind ticks)).0)
          (passed now renew_lease ticks)
          older
  unfolding renewed after_pass beat
  work-Tracks ticks now renew_lease older beats =
      elim (Result-cases (pass codec repository port lease (behind ticks)).0) [
        | inl (outcome, o) ↦
            rw o
              (record { ticks = ticks; at = (now, renew_lease, outcome, o, refl); beats = beats })
        | inr (why, o) ↦ rw o (record {
          ticks = ticks ++ tick_of now renew_lease (pos 0) ∷ [];
          at = turn_of ticks now renew_lease (pos 0) o;
          beats =
              All-impl _ _ (IsHeld-later ticks (tick_of now renew_lease (pos 0) ∷ []))
                ((renewed now renew_lease (behind ticks)).heartbeat ∷ older) beats;
        })
      ]

  LoopStep-Tracks :
      {point : Point} {service : Service R} {older : List Heartbeat} {point' : Point}
      {service' : Service R} {older' : List Heartbeat}
      → LoopStep codec repository port lease point service older point' service' older'
      → Tracks point service older
      → Tracks point' service' older'
  unfolding renewed beat record_success
  LoopStep-Tracks (renew elapsed renew_lease) t = record {
    ticks = t.ticks;
    at = (unix_time elapsed, renew_lease, ap (renewed (unix_time elapsed) renew_lease) t.at);
    beats = t.beats;
  }
  LoopStep-Tracks (work {service} {older}) t =
      let (now, renew_lease, e) = t.at in
      subst
        (λ (s : Service R).
          All (IsHeld t.ticks) (s.heartbeat ∷ older)
          → Tracks (after_pass (pass codec repository port lease s).0)
              (record s { world = (pass codec repository port lease s).1 }) older)
        (sym e) (work-Tracks t.ticks now renew_lease older) t.beats
  LoopStep-Tracks (time elapsed) t = record { ticks = t.ticks; at = t.at; beats = t.beats }
  LoopStep-Tracks (store {service} {older} {at}) t =
      let (now, renew_lease, outcome, o, e) = t.at in
      let tick = tick_of now renew_lease at in
      record {
        ticks = t.ticks ++ tick ∷ [];
        at =
            ap (λ (s : Service R). record s { heartbeat = record_success s.heartbeat at }) e
            ∙ turn_of t.ticks now renew_lease at o;
        beats = (
          inr (record {
            before = t.ticks;
            tick = tick;
            after = [];
            outcome = outcome;
            turns = refl;
            passes = o;
            recorded = refl;
          }),
          All-impl _ _ (IsHeld-later t.ticks (tick ∷ [])) (service.heartbeat ∷ older) t.beats,
        );
      }
  LoopStep-Tracks sleep t = record { ticks = t.ticks; at = t.at; beats = t.beats }

  module _ (thresholds : Thresholds) where
    Step-Tracks :
        {p q : Process R}
        → Step codec repository port lease thresholds p q
        → Tracks p.point p.service p.older
        → Tracks q.point q.service q.older
    Step-Tracks (loop_step s) t = LoopStep-Tracks s t
    Step-Tracks (probe_step i s) t = t
    Step-Tracks (bind e) t = t
    Step-Tracks (bind_fails e) t = t
    Step-Tracks (accept e) t = t
    Step-Tracks (accept_fails e) t = t

    -- Whatever the threads of the listener and of the probes do among the steps of the work loop,
    -- and in whatever order the threads run, there are turns of the loop, as Service has them, such
    -- that the service is what these turns make of the one it started from, or is at the stated
    -- point of one more turn; and each value that the heartbeat has held by then was there at the
    -- start, or is the time that one of these turns read behind a pass that was no error.
    pub Reach-Tracks :
        {q : Process R}
        → Reach codec repository port lease thresholds (started start) q
        → Tracks q.point q.service q.older
    unfolding run
    Reach-Tracks here = record { ticks = []; at = refl; beats = (inl refl, tt) }
    Reach-Tracks (later r s) = Step-Tracks s (Reach-Tracks r)
