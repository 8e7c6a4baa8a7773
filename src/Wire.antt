-- ===== src/Wire.antt =====
-- The kernel's wire formats: src/claims.rs, src/routes.rs, src/routed_request.rs,
-- src/subscriptions.rs and src/instance_lease.rs. A response is its status and the bytes of its
-- body. Reading a body as JSON is serde's, with the deserializers that it derives for the
-- structures below: a parameter, one decoder for each structure that the code reads, with the
-- message of the error otherwise.
pub mod Answers
use infernal_pf2e_parser_sim.Base.{ℕ, ℤ, Bool, Option, List, ◌==◌, if◌then◌else◌, none, some}
use infernal_pf2e_parser_sim.Std.Text.{Text, codes}
use infernal_pf2e_parser_sim.Domain.{ParserError, unexpected_status, malformed_response}
use infernal_pf2e_parser_sim.Result.{Result, ok, err, map_err, ◌>>=◌}

pub record WorkClaim : Type 0 where
  pub claim_id : Text
  pub route_id : Text
  pub worker_service_id : Text
  pub worker_instance_id : Text
  pub fencing_token : ℤ
  pub status : Text
  pub claimed_at : ℤ
  pub lease_expires_at : ℤ

pub data ClaimOutcome : Type 0 where
  claimed : WorkClaim → ClaimOutcome
  already_claimed route_not_found : ClaimOutcome

pub data CompleteOutcome : Type 0 where
  completed : WorkClaim → CompleteOutcome
  fenced not_found : CompleteOutcome

pub record EligibleRoute : Type 0 where
  pub route_id : Text
  pub request_id : Text
  pub subscription_id : Text
  pub destination_service_id : Text
  pub created_at : ℤ

pub record RoutedRequest : Type 0 where
  pub request_id : Text
  pub source_service_id : Text
  pub action : Text
  pub scope : Text
  pub artifact_schema_version_id : Text
  pub permission_policy_schema_version_id : Text
  pub accepted_at : ℤ

pub data RoutedRequestOutcome : Type 0 where
  found : RoutedRequest → RoutedRequestOutcome
  missing : RoutedRequestOutcome

pub record Subscription : Type 0 where
  pub id : Text
  pub service_id : Text
  pub event_type : Text
  pub created_at : ℤ
  pub disabled_at : Option ℤ
  pub active : Bool

pub record RenewedLease : Type 0 where
  pub lease_expires_at : ℤ
  pub lease_revision : ℤ

abbrev pub Bytes : Type 0
Bytes = List ℕ

-- The lists of routes and of subscriptions are the single field of an object in the body.
pub record Json : Type 0 where
  pub work_claim : Bytes → Result Text WorkClaim
  pub eligible_routes : Bytes → Result Text (List EligibleRoute)
  pub routed_request : Bytes → Result Text RoutedRequest
  pub subscriptions : Bytes → Result Text (List Subscription)
  pub subscription : Bytes → Result Text Subscription
  pub renewed_lease : Bytes → Result Text RenewedLease

module _ (json : Json) where
  unfoldable pub parse_claim_response : ℕ → Bytes → Result ParserError ClaimOutcome
  parse_claim_response status body =
      if status == 201
      then (do claim ← map_err malformed_response (json.work_claim body); ok (claimed claim))
      else if status == 409
      then ok already_claimed
      else if status == 404
      then ok route_not_found
      else err (unexpected_status status)

  unfoldable pub parse_complete_response : ℕ → Bytes → Result ParserError CompleteOutcome
  parse_complete_response status body =
      if status == 200
      then (do claim ← map_err malformed_response (json.work_claim body); ok (completed claim))
      else if status == 409
      then ok fenced
      else if status == 404
      then ok not_found
      else err (unexpected_status status)

  unfoldable pub parse_eligible_routes : ℕ → Bytes → Result ParserError (List EligibleRoute)
  parse_eligible_routes status body =
      if status == 200
      then map_err malformed_response (json.eligible_routes body)
      else err (unexpected_status status)

  unfoldable pub parse_routed_request_response : ℕ → Bytes → Result ParserError RoutedRequestOutcome
  parse_routed_request_response status body =
      if status == 200
      then (do request ← map_err malformed_response (json.routed_request body); ok (found request))
      else if status == 404
      then ok missing
      else err (unexpected_status status)

  unfoldable pub parse_subscription_list : ℕ → Bytes → Result ParserError (List Subscription)
  parse_subscription_list status body =
      if status == 200
      then map_err malformed_response (json.subscriptions body)
      else err (unexpected_status status)

  unfoldable pub parse_create_subscription_response : ℕ → Bytes → Result ParserError Subscription
  parse_create_subscription_response status body =
      if status == 201
      then map_err malformed_response (json.subscription body)
      else err (unexpected_status status)

  unfoldable pub parse_renewal_response : ℕ → Bytes → Result ParserError RenewedLease
  parse_renewal_response status body =
      if status == 200
      then map_err malformed_response (json.renewed_lease body)
      else err (unexpected_status status)
