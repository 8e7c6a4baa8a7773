-- ===== src/Health/Probes.antt =====
-- What the two probes report.
use infernal_pf2e_parser_sim.Base.{
  Bool, true, false, Option, none, some, ◌≡◌, ◌≢◌, ◌↔◌, refl, arith, if◌then◌else◌, ℤ, pos, negsuc,
  leb_ℤ, ◌≤ℤ◌, ◌-ℤ◌, IsI64, Bool-cases, inl, inr,
}
use infernal_pf2e_parser_sim.Std.Text.{Text, text_eq}
use infernal_pf2e_parser_sim.Health.{
  saturating_sub, Heartbeat, age, Thresholds, Status, ok_200, live_answer, ready_answer, evaluate,
  live_path, ready_path,
}

-- The age of a pass is within the range of its type, whatever the two readings of the clock.
pub saturating_sub-IsI64 : (a b : ℤ) → IsI64 (saturating_sub a b)
unfolding saturating_sub ◌-ℤ◌
saturating_sub-IsI64 (pos a) (pos b) = ground arith
saturating_sub-IsI64 (pos a) (negsuc b) = ground arith
saturating_sub-IsI64 (negsuc a) (pos b) = ground arith
saturating_sub-IsI64 (negsuc a) (negsuc b) = ground arith

-- the answer to an age that is compared with a limit
module _ (seconds limit : ℤ) (good bad : Status × Text) (ok_good : good.0 ≡ ok_200)
    (not_ok : bad.0 ≢ ok_200) where
  limit-fresh : (if leb_ℤ seconds limit then good else bad).0 ≡ ok_200 → seconds ≤ℤ limit
  limit-fresh h = elim (Bool-cases (leb_ℤ seconds limit)) [
    | inl e ↦ ground arith
    | inr e ↦ absurd (not_ok (rw e at h))
  ]

  fresh-limit : seconds ≤ℤ limit → (if leb_ℤ seconds limit then good else bad).0 ≡ ok_200
  fresh-limit h = elim (Bool-cases (leb_ℤ seconds limit)) [
    | inl e ↦ rw e ok_good
    | inr e ↦ absurd (ground arith)
  ]

-- A pass is known of, and is at most `limit` seconds old.
abbrev pub IsFresh : ℤ → Option ℤ → Type 0
IsFresh limit none = ⊥
IsFresh limit (some seconds) = seconds ≤ℤ limit

-- No pass is known of yet, or the last is at most `limit` seconds old.
abbrev pub IsAlive : ℤ → Option ℤ → Type 0
IsAlive limit none = Unit
IsAlive limit (some seconds) = seconds ≤ℤ limit

ready_answer-IsFresh :
    (thresholds : Thresholds) (d : Bool) (o : Option ℤ)
    → ((ready_answer thresholds d o).0 ≡ ok_200
        → (d ≡ true) × IsFresh thresholds.ready_stale_seconds o)
      × ((d ≡ true) × IsFresh thresholds.ready_stale_seconds o
          → (ready_answer thresholds d o).0 ≡ ok_200)
unfolding ready_answer
ready_answer-IsFresh thresholds false o = (λ h. cc, λ (h, f). cc)
ready_answer-IsFresh thresholds true none = (λ h. cc, λ (h, f). absurd f)
ready_answer-IsFresh thresholds true (some seconds) = (
  λ h. (refl, limit-fresh seconds thresholds.ready_stale_seconds _ _ refl (λ e. cc) h),
  λ (h, f). fresh-limit seconds thresholds.ready_stale_seconds _ _ refl (λ e. cc) f,
)

live_answer-IsAlive :
    (thresholds : Thresholds) (o : Option ℤ)
    → ((live_answer thresholds o).0 ≡ ok_200 → IsAlive thresholds.live_stale_seconds o)
      × (IsAlive thresholds.live_stale_seconds o → (live_answer thresholds o).0 ≡ ok_200)
unfolding live_answer
live_answer-IsAlive thresholds none = (λ h. tt, λ h. refl)
live_answer-IsAlive thresholds (some seconds) = (
  λ h. limit-fresh seconds thresholds.live_stale_seconds _ _ refl (λ e. cc) h,
  λ f. fresh-limit seconds thresholds.live_stale_seconds _ _ refl (λ e. cc) f,
)

IsFresh-IsAlive : (a b : ℤ) (o : Option ℤ) → a ≤ℤ b → IsFresh a o → IsAlive b o
IsFresh-IsAlive _ _ none le f = absurd f
IsFresh-IsAlive _ _ (some seconds) le f = omega arith

-- Readiness answers 200 exactly when the database answered and a pass is known of that is no
-- older than the readiness threshold.
pub evaluate-IsFresh :
    (heartbeat : Heartbeat) (thresholds : Thresholds) (now : ℤ) (d : Bool)
    → ((evaluate ready_path heartbeat d thresholds now).0 ≡ ok_200
        → (d ≡ true) × IsFresh thresholds.ready_stale_seconds (age heartbeat now))
      × ((d ≡ true) × IsFresh thresholds.ready_stale_seconds (age heartbeat now)
          → (evaluate ready_path heartbeat d thresholds now).0 ≡ ok_200)
unfolding evaluate text_eq
evaluate-IsFresh heartbeat thresholds now d = ready_answer-IsFresh thresholds d (age heartbeat now)

-- Liveness answers 200 exactly when no pass is known of yet or the last is no older than the
-- liveness threshold, whatever became of the database.
pub evaluate-IsAlive :
    (heartbeat : Heartbeat) (thresholds : Thresholds) (now : ℤ) (d : Bool)
    → ((evaluate live_path heartbeat d thresholds now).0 ≡ ok_200
        → IsAlive thresholds.live_stale_seconds (age heartbeat now))
      × (IsAlive thresholds.live_stale_seconds (age heartbeat now)
          → (evaluate live_path heartbeat d thresholds now).0 ≡ ok_200)
unfolding evaluate text_eq
evaluate-IsAlive heartbeat thresholds now d = live_answer-IsAlive thresholds (age heartbeat now)

-- Readiness answers 200 exactly when the database answered and a pass is known of that is no older
-- than the readiness threshold. Liveness answers 200 exactly when no pass is known of yet or the
-- last is no older than the liveness threshold, whatever became of the database.
pub evaluate-ok_200 :
    (heartbeat : Heartbeat) (thresholds : Thresholds) (now : ℤ) (d : Bool)
    → ((evaluate ready_path heartbeat d thresholds now).0 ≡ ok_200
        ↔ ((d ≡ true) × IsFresh thresholds.ready_stale_seconds (age heartbeat now)))
      × ((evaluate live_path heartbeat d thresholds now).0 ≡ ok_200
          ↔ IsAlive thresholds.live_stale_seconds (age heartbeat now))
evaluate-ok_200 heartbeat thresholds now d =
    (evaluate-IsFresh heartbeat thresholds now d, evaluate-IsAlive heartbeat thresholds now d)

-- A service that is ready is live, if the readiness threshold is at most the liveness threshold.
pub ready-IsAlive :
    (heartbeat : Heartbeat) (thresholds : Thresholds) (now : ℤ) (d : Bool)
    → thresholds.ready_stale_seconds ≤ℤ thresholds.live_stale_seconds
    → (evaluate ready_path heartbeat d thresholds now).0 ≡ ok_200
    → (evaluate live_path heartbeat d thresholds now).0 ≡ ok_200
ready-IsAlive heartbeat thresholds now d le h =
    let (known, fresh) = (evaluate-IsFresh heartbeat thresholds now d).0 h in
    (evaluate-IsAlive heartbeat thresholds now d).1
      (IsFresh-IsAlive _ _ (age heartbeat now) le fresh)
