-- ===== src/Process/Answers.antt =====
-- The status that a response of `handle_connection` carries.
use infernal_pf2e_parser_sim.Base.{ℤ, Bool, ◌++◌, not, ◌||◌, ◌≡◌, refl, some}
use infernal_pf2e_parser_sim.Std.Text.{Text, codes, strip_prefix, text_eq}
use infernal_pf2e_parser_sim.Health.{
  Heartbeat, Thresholds, Status, ok_200, unavailable_503, not_found_404, status_text, evaluate,
  ready_path, request_path, handle_request,
}

-- the response's first line begins with this status, as a probe reads it
abbrev pub HasStatus : Text → Text → Type 0
HasStatus status response =
    (rest : Text) × (strip_prefix (codes "HTTP/1.1 " ++ status) response ≡ some rest)

abbrev written : Status → Text → Text
written status rest = codes "HTTP/1.1 " ++ (status_text status ++ rest)

written-ok_200 :
    (status : Status) (rest : Text)
    → HasStatus (codes "200") (written status rest)
    → status ≡ ok_200
unfolding status_text strip_prefix
written-ok_200 ok_200 rest h = refl
written-ok_200 unavailable_503 rest (r, e) = cc
written-ok_200 not_found_404 rest (r, e) = cc

written-unavailable_503 :
    (status : Status) (rest : Text)
    → HasStatus (codes "503") (written status rest)
    → status ≡ unavailable_503
unfolding status_text strip_prefix
written-unavailable_503 ok_200 rest (r, e) = cc
written-unavailable_503 unavailable_503 rest h = refl
written-unavailable_503 not_found_404 rest (r, e) = cc

-- what the policy says for a request, which the response has in its first line
module _ (request : Text) (connected : Bool) (heartbeat : Heartbeat) (thresholds : Thresholds)
    (now : ℤ) where
  abbrev pub found_at : Text → Status
  found_at path =
      (evaluate path heartbeat (not (text_eq path ready_path) || connected) thresholds now).0

  abbrev found : Status
  found = found_at (request_path request)

  pub handle_request-ok_200 :
      HasStatus (codes "200") (handle_request request connected heartbeat thresholds now)
      → found ≡ ok_200
  unfolding handle_request
  handle_request-ok_200 = written-ok_200 found _

  pub handle_request-unavailable_503 :
      HasStatus (codes "503") (handle_request request connected heartbeat thresholds now)
      → found ≡ unavailable_503
  unfolding handle_request
  handle_request-unavailable_503 = written-unavailable_503 found _
