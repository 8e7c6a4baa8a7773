-- ===== src/Service/Renewal.antt =====
-- When the instance lease is renewed.
use infernal_pf2e_parser_sim.Base.{
  ℤ, pos, negsuc, ◌-ℤ◌, ◌+ℤ◌, wrap_i64, ltb_ℤ, ◌≤ℤ◌, IsI64, true, false, some, ◌≡◌, refl, arith,
  Bool-cases, inl, inr,
}
use infernal_pf2e_parser_sim.Domain.{ParserError}
use infernal_pf2e_parser_sim.Result.{ok, err, Result-cases}
use infernal_pf2e_parser_sim.Wire.{RenewedLease}
use infernal_pf2e_parser_sim.Service.{
  InstanceLease, Tick, renew_lease_if_due, after_renewal, renewal_margin_seconds,
}

-- Wrapping changes no value that is in range.
wrap_i64-IsI64 : (v : ℤ) → IsI64 v → wrap_i64 v ≡ v
wrap_i64-IsI64 (pos n) h = ground arith
wrap_i64-IsI64 (negsuc n) h = ground arith

-- A lease is due when it expires within the margin.
abbrev pub IsDue : ℤ → InstanceLease → Type 0
IsDue now lease = lease.expires_at ≤ℤ now +ℤ renewal_margin_seconds

margin-early : (now e : ℤ) → ltb_ℤ now (e -ℤ pos 20) ≡ true → ¬ (e ≤ℤ now +ℤ pos 20)
unfolding ◌-ℤ◌
margin-early (pos a) (pos b) h d = ground arith
margin-early (pos a) (negsuc b) h d = ground arith
margin-early (negsuc a) (pos b) h d = ground arith
margin-early (negsuc a) (negsuc b) h d = ground arith

margin-due : (now e : ℤ) → ltb_ℤ now (e -ℤ pos 20) ≡ false → e ≤ℤ now +ℤ pos 20
unfolding ◌-ℤ◌
margin-due (pos a) (pos b) h = ground arith
margin-due (pos a) (negsuc b) h = ground arith
margin-due (negsuc a) (pos b) h = ground arith
margin-due (negsuc a) (negsuc b) h = ground arith

-- what may become of an enrolled instance's lease in one turn
pub data Renewal (tick : Tick) (lease : InstanceLease) : InstanceLease → Type 0 where
  early : ¬ IsDue tick.now lease → Renewal tick lease lease
  renewed :
      {answer : RenewedLease}
      → IsDue tick.now lease
      → tick.renew_lease lease.revision ≡ ok answer
      → Renewal tick lease
          (record { revision = answer.lease_revision; expires_at = answer.lease_expires_at })
  kept :
      {e : ParserError}
      → IsDue tick.now lease
      → tick.renew_lease lease.revision ≡ err e
      → Renewal tick lease lease

-- A lease is left alone until it expires within 20 seconds. From then on each turn asks for its
-- renewal at the revision it holds, takes the answer's revision and expiry together, and keeps
-- the lease as it was when the renewal fails. The expiry is assumed to be at least 20 above the
-- least `i64`, so that the margin can be subtracted.
pub renew_lease_if_due-Renewal :
    (tick : Tick) (lease : InstanceLease)
    → IsI64 (lease.expires_at -ℤ renewal_margin_seconds)
    → (after : InstanceLease) × (renew_lease_if_due tick (some lease) ≡ some after)
      × Renewal tick lease after
unfolding renew_lease_if_due after_renewal
renew_lease_if_due-Renewal tick lease range =
    let exact = wrap_i64-IsI64 (lease.expires_at -ℤ pos 20) range in
    elim (Bool-cases (ltb_ℤ tick.now (lease.expires_at -ℤ pos 20))) [
      | inl e ↦ (lease, rw (exact, e) refl, early (margin-early tick.now lease.expires_at e))
      | inr e ↦
          let due = margin-due tick.now lease.expires_at e in
          elim (Result-cases (tick.renew_lease lease.revision)) [
            | inl (answer, a) ↦ (_, rw (exact, e, a) refl, renewed due a)
            | inr (why, a) ↦ (lease, rw (exact, e, a) refl, kept due a)
          ]
    ]
