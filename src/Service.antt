-- ===== src/Service.antt =====
-- The work loop of src/lib.rs: `run` and `renew_lease_if_due`, with two functions of `from_env`'s.
-- The clock and the client's renewal are what the outside gives to one turn of the loop, a `Tick`;
-- the loop never ends, so what is modelled is any number of its turns.
pub mod Renewal
pub mod Heartbeats
pub mod Stored
use infernal_pf2e_parser_sim.Base.{
  ℕ, ℤ, pos, ◌-ℤ◌, wrap_i64, ltb_ℤ, Option, none, some, List, [], ◌∷◌, ◌==◌, length, if◌then◌else◌,
}
use infernal_pf2e_parser_sim.Std.Text.{Text}
use infernal_pf2e_parser_sim.Std.Decimal.{parse_i64}
use infernal_pf2e_parser_sim.Domain.{ParserError, invalid_enrollment_challenge}
use infernal_pf2e_parser_sim.Result.{Result, ok, err}
use infernal_pf2e_parser_sim.Codec.{Codec}
use infernal_pf2e_parser_sim.Wire.{RenewedLease}
use infernal_pf2e_parser_sim.Kernel.{KernelPort, CandidateRepository, World}
use infernal_pf2e_parser_sim.Health.{Heartbeat, record_success}
use infernal_pf2e_parser_sim.Work.{WorkOutcome, work_once}

abbrev pub default_lease_seconds : ℤ
default_lease_seconds = pos 300

abbrev pub renewal_margin_seconds : ℤ
renewal_margin_seconds = pos 20

-- the lease that `CLAIM_LEASE_SECONDS` asks for, or the default when it is unset or no integer
unfoldable pub lease_seconds_from : Option Text → ℤ
lease_seconds_from none = default_lease_seconds
lease_seconds_from (some value) = elim (parse_i64 value) [
  | some seconds ↦ seconds
  | none ↦ default_lease_seconds
]

-- `challenge_length` is the constant of the infernal-client library
unfoldable pub decode_challenge : Codec → ℕ → Text → Result ParserError (List ℕ)
decode_challenge codec challenge_length value = elim (codec.decode value) [
  | none ↦ err invalid_enrollment_challenge
  | some bytes ↦
      if length bytes == challenge_length then ok bytes else err invalid_enrollment_challenge
]

pub record InstanceLease : Type 0 where
  pub revision : ℤ
  pub expires_at : ℤ

pub record Tick : Type 0 where
  pub now : ℤ
  pub renew_lease : ℤ → Result ParserError RenewedLease
  pub success_time : ℤ

pub after_renewal : InstanceLease → Result ParserError RenewedLease → InstanceLease
after_renewal lease (ok renewed) = record {
  revision = renewed.lease_revision;
  expires_at = renewed.lease_expires_at;
}
after_renewal lease (err _) = lease

-- a build without overflow checks; with them, the difference would panic where it wraps here
unfoldable pub renew_lease_if_due : Tick → Option InstanceLease → Option InstanceLease
unfolding after_renewal
renew_lease_if_due tick none = none
renew_lease_if_due tick (some lease) =
    if ltb_ℤ tick.now (wrap_i64 (lease.expires_at -ℤ renewal_margin_seconds))
    then some lease
    else some (after_renewal lease (tick.renew_lease lease.revision))

-- Any outcome that is not an error keeps the heartbeat fresh.
unfoldable pub beat : ℤ → Result ParserError WorkOutcome → Heartbeat → Heartbeat
beat at (ok _) heartbeat = record_success heartbeat at
beat at (err _) heartbeat = heartbeat

pub record Service (R : Type 0) : Type 0 where
  pub instance_lease : Option InstanceLease
  pub heartbeat : Heartbeat
  pub world : World R

module _ (codec : Codec) {R : Type 0} (repository : CandidateRepository R) (port : KernelPort)
    (lease_seconds : ℤ) where
  -- one turn of the loop
  unfoldable pub turn : Tick → Service R → Service R
  unfolding beat
  turn tick service =
      let (result, world) = work_once codec repository port lease_seconds service.world in
      record {
        instance_lease = renew_lease_if_due tick service.instance_lease;
        heartbeat = beat tick.success_time result service.heartbeat;
        world = world;
      }

  -- the turns of these ticks
  unfoldable pub run : List Tick → Service R → Service R
  run [] service = service
  run (tick ∷ ticks) service = run ticks (turn tick service)
