-- ===== src/Health.antt =====
-- src/health.rs: the heartbeat of the work loop and the policy of the two probes. The atomic cell
-- that the threads share is the heartbeat's value: a store replaces it, a load reads it.
pub mod Probes
use infernal_pf2e_parser_sim.Base.{
  ℕ, zero, suc, Bool, true, false, not, ◌||◌, Option, none, some, List, [], ◌∷◌, ◌++◌,
  if◌then◌else◌, length, ℤ, pos, negsuc, ◌-ℤ◌, leb_ℤ, ltb_ℤ, max_i64,
}
use infernal_pf2e_parser_sim.Std.Text.{Text, codes, text_eq, lines, split_whitespace}
use infernal_pf2e_parser_sim.Std.Decimal.{display_nat, display_i64}

-- `i64::saturating_sub`
unfoldable pub saturating_sub : ℤ → ℤ → ℤ
unfolding ◌-ℤ◌
saturating_sub a b =
    let exact = a -ℤ b in
    if ltb_ℤ (pos max_i64) exact
    then pos max_i64
    else if ltb_ℤ exact (negsuc max_i64)
    then negsuc max_i64
    else exact

-- the seconds of the last successful pass; zero means "not yet"
pub record Heartbeat : Type 0 where
  pub last_success : ℤ

abbrev pub new_heartbeat : Heartbeat
new_heartbeat = record { last_success = pos 0 }

unfoldable pub record_success : Heartbeat → ℤ → Heartbeat
record_success heartbeat at = record { last_success = at }

age_from : ℤ → ℤ → Option ℤ
age_from now (pos zero) = none
age_from now last = some (saturating_sub now last)

unfoldable pub age : Heartbeat → ℤ → Option ℤ
unfolding age_from
age heartbeat now = age_from now heartbeat.last_success

pub record Thresholds : Type 0 where
  pub ready_stale_seconds : ℤ
  pub live_stale_seconds : ℤ

abbrev pub default_thresholds : Thresholds
default_thresholds = record { ready_stale_seconds = pos 30; live_stale_seconds = pos 150 }

pub data Status : Type 0 where
  ok_200 unavailable_503 not_found_404 : Status

-- the status line's text
unfoldable pub status_text : Status → Text
status_text ok_200 = codes "200 OK"
status_text unavailable_503 = codes "503 Service Unavailable"
status_text not_found_404 = codes "404 Not Found"

unfoldable pub live_answer : Thresholds → Option ℤ → Status × Text
live_answer thresholds none = (ok_200, codes "starting\n")
live_answer thresholds (some seconds) =
    if leb_ℤ seconds thresholds.live_stale_seconds then (ok_200, codes "ok\n") else (
      unavailable_503,
      codes "no successful kernel pass for " ++ (display_i64 seconds ++ codes "s\n"),
    )

unfoldable pub ready_answer : Thresholds → Bool → Option ℤ → Status × Text
ready_answer thresholds false _ = (unavailable_503, codes "database unavailable\n")
ready_answer thresholds true none = (unavailable_503, codes "no successful kernel pass yet\n")
ready_answer thresholds true (some seconds) =
    if leb_ℤ seconds thresholds.ready_stale_seconds then (ok_200, codes "ok\n") else (
      unavailable_503,
      codes "last successful kernel pass " ++ (display_i64 seconds ++ codes "s ago\n"),
    )

abbrev pub live_path : Text
live_path = codes "/health/live"

abbrev pub ready_path : Text
ready_path = codes "/health/ready"

unfoldable pub evaluate : Text → Heartbeat → Bool → Thresholds → ℤ → Status × Text
unfolding live_answer ready_answer age
evaluate path heartbeat database_ok thresholds now =
    if text_eq path live_path
    then live_answer thresholds (age heartbeat now)
    else if text_eq path ready_path
    then ready_answer thresholds database_ok (age heartbeat now)
    else (not_found_404, codes "not found\n")

second_word : List Text → Text
second_word (_ ∷ path ∷ _) = path
second_word _ = []

path_of : List Text → Text
path_of [] = []
path_of (line ∷ _) = second_word (split_whitespace line)

-- The path of a request: the second word of its first line, or nothing.
unfoldable pub request_path : Text → Text
unfolding path_of second_word
request_path request = path_of (lines request)

-- `handle_connection`, from the request that was read to the response that is written. The
-- argument `check` is the result of `check_connection`, which only readiness asks for.
unfoldable pub handle_request : Text → Bool → Heartbeat → Thresholds → ℤ → Text
handle_request request check heartbeat thresholds now =
    let path = request_path request in
    let database_ok = not (text_eq path ready_path) || check in
    let (status, body) = evaluate path heartbeat database_ok thresholds now in
    codes "HTTP/1.1 "
    ++ (status_text status
        ++ (codes "\r\nContent-Type: text/plain\r\nContent-Length: "
            ++ (display_nat (length body) ++ (codes "\r\nConnection: close\r\n\r\n" ++ body))))
