-- ===== src/Client.antt =====
-- `KernelClient` of src/kernel_client.rs: each operation builds one signed request, sends it, and
-- reads the response. The infernal-client library, serde's serializers, the random identifiers
-- and nonces and the clock are outside: parameters. What the outside gives to one operation is a
-- `Moment`.
pub mod Admission
pub mod Ensured
pub mod Exchanges
use infernal_pf2e_parser_sim.Base.{
  ℕ, ℤ, pos, ◌+ℤ◌, wrap_i64, Bool, List, [], ◌∷◌, ◌++◌, ◌==◌, if◌then◌else◌, any,
}
use infernal_pf2e_parser_sim.Std.Text.{Text, codes, text_eq}
use infernal_pf2e_parser_sim.Domain.{
  ParserError, client, malformed_response, admission_not_accepted, Uuid,
}
use infernal_pf2e_parser_sim.Result.{Result, ok, err, map_err, ◌>>=◌}
use infernal_pf2e_parser_sim.Wire.{
  Json, Bytes, ClaimOutcome, CompleteOutcome, EligibleRoute, RoutedRequestOutcome, Subscription,
  RenewedLease, parse_claim_response, parse_complete_response, parse_eligible_routes,
  parse_routed_request_response, parse_subscription_list, parse_create_subscription_response,
  parse_renewal_response,
}
use infernal_pf2e_parser_sim.Kernel.{Call, KernelPort}

abbrev pub signature_validity_seconds : ℤ
signature_validity_seconds = pos 30

abbrev pub requests_path : Text
requests_path = codes "/v1/requests"

abbrev pub no_artifact_schema_version_id : Text
no_artifact_schema_version_id = codes "00000000-0000-0000-0000-000000000001"

abbrev pub no_artifact_permission_policy_schema_version_id : Text
no_artifact_permission_policy_schema_version_id = codes "00000000-0000-0000-0000-000000000002"

abbrev pub eligible_routes_path : Text
eligible_routes_path = codes "/v1/routes/eligible"

abbrev pub subscriptions_path : Text
subscriptions_path = codes "/v1/subscriptions"

abbrev pub active_subscriptions_path : Text
active_subscriptions_path = codes "/v1/subscriptions?active=true"

abbrev pub renew_instance_path : Text
renew_instance_path = codes "/v1/instances/renew"

abbrev pub json_type : Text
json_type = codes "application/json"

pub record Response : Type 0 where
  pub status : ℕ
  pub body : Bytes

-- serde's serializers for the bodies; `json!` of an admission has its four members here
pub record Serializer : Type 0 where
  pub claim_request : ℤ → Result Text Bytes
  pub fenced_action_request : ℤ → Result Text Bytes
  pub create_subscription_request : Text → Result Text Bytes
  pub renew_instance_request : ℤ → Bytes
  pub submission : Text → Text → Text → Text → Result Text Bytes

-- `RequestParts::new` (method, authority, path, content type, body, identifier) and
-- `SignedRequest::sign` (parts, created, expires, nonce) with the service's credential
pub record Signing : Type 1 where
  pub Parts : Type 0
  pub Signed : Type 0
  pub new_parts : Text → Text → Text → Text → Bytes → Uuid → Result Text Parts
  pub sign_parts : Parts → ℤ → ℤ → Bytes → Result Text Signed

-- the identifier, the second and the nonce that an operation draws, and the answer to its request
pub record Moment (S : Type 0) : Type 0 where
  pub request_id : Uuid
  pub now : ℤ
  pub nonce : Result Text Bytes
  pub send : S → Result Text Response

module _ (signing : Signing) (serializer : Serializer) (json : Json) (authority : Text) where
  -- a build without overflow checks; with them, the sum would panic where it wraps here
  unfoldable pub sign : signing.Parts → Moment signing.Signed → Result ParserError signing.Signed
  sign parts m = do
    nonce ← map_err client m.nonce
    map_err client
        (signing.sign_parts parts m.now (wrap_i64 (m.now +ℤ signature_validity_seconds)) nonce)

  unfoldable pub build_get : Text → Moment signing.Signed → Result ParserError signing.Signed
  build_get path m = do
    parts ←
        map_err client (signing.new_parts (codes "GET") authority path json_type [] m.request_id)
    sign parts m

  unfoldable pub build_post :
      Text → Bytes → Moment signing.Signed → Result ParserError signing.Signed
  build_post path body m = do
    parts ←
        map_err client (signing.new_parts (codes "POST") authority path json_type body m.request_id)
    sign parts m

  unfoldable pub renew_lease : ℤ → Moment signing.Signed → Result ParserError RenewedLease
  renew_lease expected_revision m = do
    signed ← build_post renew_instance_path (serializer.renew_instance_request expected_revision) m
    response ← map_err client (m.send signed)
    parse_renewal_response json response.status response.body

  unfoldable pub active_subscriptions :
      Moment signing.Signed → Result ParserError (List Subscription)
  active_subscriptions m = do
    signed ← build_get active_subscriptions_path m
    response ← map_err client (m.send signed)
    parse_subscription_list json response.status response.body

  unfoldable pub create_subscription :
      Text → Moment signing.Signed → Result ParserError Subscription
  create_subscription event_type m = do
    body ← map_err malformed_response (serializer.create_subscription_request event_type)
    signed ← build_post subscriptions_path body m
    response ← map_err client (m.send signed)
    parse_create_subscription_response json response.status response.body

  -- the second moment is that of the creation, if there is one
  unfoldable pub ensure_subscription :
      Text → Moment signing.Signed → Moment signing.Signed → Result ParserError (Unit {0})
  ensure_subscription event_type m m' = do
    subscriptions ← active_subscriptions m
    if any (λ (s : Subscription). text_eq s.event_type event_type) subscriptions
        then ok tt
        else (do created ← create_subscription event_type m'; ok tt)

  unfoldable pub get_eligible_routes :
      Moment signing.Signed → Result ParserError (List EligibleRoute)
  get_eligible_routes m = do
    signed ← build_get eligible_routes_path m
    response ← map_err client (m.send signed)
    parse_eligible_routes json response.status response.body

  unfoldable pub post_claim : Text → ℤ → Moment signing.Signed → Result ParserError ClaimOutcome
  post_claim route_id lease_seconds m = do
    body ← map_err malformed_response (serializer.claim_request lease_seconds)
    signed ← build_post (codes "/v1/routes/" ++ (route_id ++ codes "/claims")) body m
    response ← map_err client (m.send signed)
    parse_claim_response json response.status response.body

  unfoldable pub get_routed_request :
      Text → Moment signing.Signed → Result ParserError RoutedRequestOutcome
  get_routed_request route_id m = do
    signed ← build_get (codes "/v1/routes/" ++ (route_id ++ codes "/request")) m
    response ← map_err client (m.send signed)
    parse_routed_request_response json response.status response.body

  unfoldable pub post_completion :
      Text → ℤ → Moment signing.Signed → Result ParserError CompleteOutcome
  post_completion claim_id fencing_token m = do
    body ← map_err malformed_response (serializer.fenced_action_request fencing_token)
    signed ← build_post (codes "/v1/claims/" ++ (claim_id ++ codes "/complete")) body m
    response ← map_err client (m.send signed)
    parse_complete_response json response.status response.body

  unfoldable pub post_submission :
      Text → Text → Moment signing.Signed → Result ParserError (Unit {0})
  post_submission action scope m = do
    body ← map_err malformed_response (
        serializer.submission action scope no_artifact_schema_version_id
          no_artifact_permission_policy_schema_version_id)
    signed ← build_post requests_path body m
    response ← map_err client (m.send signed)
    if response.status == 201 then ok tt else err (admission_not_accepted response.status)

  -- `impl KernelPort for KernelClient`, when each call comes at a moment of its own
  abbrev pub client_port : (List Call → Moment signing.Signed) → KernelPort
  client_port at = record {
    eligible_routes = λ h. get_eligible_routes (at h);
    propose_claim = λ h route_id lease_seconds. post_claim route_id lease_seconds (at h);
    routed_request = λ h route_id. get_routed_request route_id (at h);
    complete_claim = λ h claim_id fencing_token. post_completion claim_id fencing_token (at h);
    submit_request = λ h action scope. post_submission action scope (at h);
  }
