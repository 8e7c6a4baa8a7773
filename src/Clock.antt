-- ===== src/Clock.antt =====
-- The system clock as the two functions read it that ask for the time: `unix_time` of src/lib.rs
-- and of src/kernel_client.rs, and `now_seconds` of src/health.rs. The clock is outside; a reading
-- is the whole seconds since the epoch, which fit in 64 bits, or nothing if it is before that.
use infernal_pf2e_parser_sim.Base.{
  ℕ, ◌≤◌, Option, none, some, ℤ, pos, leb, max_i64, wrap_i64, if◌then◌else◌, ◌≡◌, arith,
}

-- `i64::try_from`, with the largest value for seconds that do not fit
unfoldable pub unix_time : Option ℕ → ℤ
unix_time none = pos 0
unix_time (some seconds) = if leb seconds max_i64 then pos seconds else pos max_i64

-- the cast `as i64`
unfoldable pub now_seconds : Option ℕ → ℤ
now_seconds none = pos 0
now_seconds (some seconds) = wrap_i64 (pos seconds)

-- The two agree as long as the seconds fit.
pub unix_time-now_seconds :
    (seconds : ℕ) → seconds ≤ max_i64 → unix_time (some seconds) ≡ now_seconds (some seconds)
unfolding unix_time now_seconds
unix_time-now_seconds seconds h = ground arith
