-- ===== src/Client/Exchanges.antt =====
-- The request and the answer of each operation of `KernelClient`.
use infernal_pf2e_parser_sim.Base.{
  ℤ, ◌+ℤ◌, wrap_i64, [], ◌++◌, ◌==◌, if◌then◌else◌, ◌≡◌, refl, sym, subst, inl, inr,
}
use infernal_pf2e_parser_sim.Std.Text.{Text, codes}
use infernal_pf2e_parser_sim.Domain.{
  ParserError, client, malformed_response, admission_not_accepted,
}
use infernal_pf2e_parser_sim.Result.{Result, ok, err, map_err, ◌>>=◌, Result-cases}
use infernal_pf2e_parser_sim.Wire.{
  Json, Bytes, parse_claim_response, parse_complete_response, parse_eligible_routes,
  parse_routed_request_response, parse_subscription_list, parse_create_subscription_response,
  parse_renewal_response,
}
use infernal_pf2e_parser_sim.Client.{
  Signing, Serializer, Moment, Response, signature_validity_seconds, json_type, sign, build_get,
  build_post, get_eligible_routes, post_claim, get_routed_request, post_completion, post_submission,
  active_subscriptions, create_subscription, renew_lease, eligible_routes_path, requests_path,
  active_subscriptions_path, subscriptions_path, renew_instance_path, no_artifact_schema_version_id,
  no_artifact_permission_policy_schema_version_id,
}

module _ (signing : Signing) (authority : Text) where
  -- What became of one request with this method and path, whose body is serialized so, and whose
  -- answer is read so. It is signed for 30 seconds from the moment's second. A failure is that of
  -- the first step that failed.
  pub data Exchanged {A : Type 0} (method path : Text) (serialized : Result Text Bytes)
      (read : Response → Result ParserError A) (m : Moment signing.Signed)
      : Result ParserError A → Type 0 where
    not_serialized :
        {why : Text}
        → serialized ≡ err why
        → Exchanged method path serialized read m (err (malformed_response why))
    not_assembled :
        {body : Bytes} {why : Text}
        → serialized ≡ ok body
        → signing.new_parts method authority path json_type body m.request_id ≡ err why
        → Exchanged method path serialized read m (err (client why))
    not_drawn :
        {body : Bytes} {parts : signing.Parts} {why : Text}
        → serialized ≡ ok body
        → signing.new_parts method authority path json_type body m.request_id ≡ ok parts
        → m.nonce ≡ err why
        → Exchanged method path serialized read m (err (client why))
    not_signed :
        {body : Bytes} {parts : signing.Parts} {nonce : Bytes} {why : Text}
        → serialized ≡ ok body
        → signing.new_parts method authority path json_type body m.request_id ≡ ok parts
        → m.nonce ≡ ok nonce
        → signing.sign_parts parts m.now (wrap_i64 (m.now +ℤ signature_validity_seconds)) nonce
          ≡ err why
        → Exchanged method path serialized read m (err (client why))
    not_sent :
        {body : Bytes} {parts : signing.Parts} {nonce : Bytes} {signed : signing.Signed}
        {why : Text}
        → serialized ≡ ok body
        → signing.new_parts method authority path json_type body m.request_id ≡ ok parts
        → m.nonce ≡ ok nonce
        → signing.sign_parts parts m.now (wrap_i64 (m.now +ℤ signature_validity_seconds)) nonce
          ≡ ok signed
        → m.send signed ≡ err why
        → Exchanged method path serialized read m (err (client why))
    answered :
        {body : Bytes} {parts : signing.Parts} {nonce : Bytes} {signed : signing.Signed}
        {response : Response}
        → serialized ≡ ok body
        → signing.new_parts method authority path json_type body m.request_id ≡ ok parts
        → m.nonce ≡ ok nonce
        → signing.sign_parts parts m.now (wrap_i64 (m.now +ℤ signature_validity_seconds)) nonce
          ≡ ok signed
        → m.send signed ≡ ok response
        → Exchanged method path serialized read m (read response)

  module _ {A : Type 0} (serializer : Serializer) (json : Json) (method path : Text)
      (serialized : Result Text Bytes) (read : Response → Result ParserError A)
      (m : Moment signing.Signed) where
    -- the chain that the operations have in common
    abbrev exchange : Result ParserError A
    exchange = do
      body ← map_err malformed_response serialized
      signed ← (do
        parts ← map_err client (signing.new_parts method authority path json_type body m.request_id)
        sign signing serializer json authority parts m)
      response ← map_err client (m.send signed)
      read response

    abbrev Ends : Result ParserError A → Type 0
    Ends = Exchanged method path serialized read m

    exchange-Exchanged : Ends exchange
    unfolding sign
    exchange-Exchanged = elim (Result-cases serialized) [
      | inr (why, e) ↦ subst Ends (sym (rw e refl)) (not_serialized e)
      | inl (body, e) ↦
          elim (Result-cases
            (signing.new_parts method authority path json_type body m.request_id)) [
              | inr (why, e1) ↦ subst Ends (sym (rw (e, e1) refl)) (not_assembled e e1)
              | inl (parts, e1) ↦ elim (Result-cases m.nonce) [
                | inr (why, e2) ↦ subst Ends (sym (rw (e, e1, e2) refl)) (not_drawn e e1 e2)
                | inl (nonce, e2) ↦
                    elim (Result-cases (
                      signing.sign_parts parts m.now
                        (wrap_i64 (m.now +ℤ signature_validity_seconds)) nonce)) [
                          | inr (why, e3) ↦
                              subst Ends (sym (rw (e, e1, e2, e3) refl)) (not_signed e e1 e2 e3)
                          | inl (signed, e3) ↦ elim (Result-cases (m.send signed)) [
                            | inr (why, e4) ↦
                                subst Ends (sym (rw (e, e1, e2, e3, e4) refl))
                                  (not_sent e e1 e2 e3 e4)
                            | inl (response, e4) ↦
                                subst Ends (sym (rw (e, e1, e2, e3, e4) refl))
                                  (answered e e1 e2 e3 e4)
                          ]
                        ]
              ]
            ]
    ]

module _ (signing : Signing) (serializer : Serializer) (json : Json) (authority : Text)
    (m : Moment signing.Signed) where
  -- a request without a body, and one with it
  abbrev Gets :
      {A : Type 0} → Text → (Response → Result ParserError A) → Result ParserError A → Type 0
  Gets path read = Exchanged signing authority (codes "GET") path (ok []) read m

  abbrev Posts :
      {A : Type 0}
      → Text
      → Result Text Bytes
      → (Response → Result ParserError A)
      → Result ParserError A
      → Type 0
  Posts path serialized read = Exchanged signing authority (codes "POST") path serialized read m

  got :
      {A : Type 0} (path : Text) (read : Response → Result ParserError A)
      → Gets path read
          (exchange signing authority serializer json (codes "GET") path (ok []) read m)
  got path read =
      exchange-Exchanged signing authority serializer json (codes "GET") path (ok []) read m

  posted :
      {A : Type 0} (path : Text) (serialized : Result Text Bytes)
      (read : Response → Result ParserError A)
      → Posts path serialized read
          (exchange signing authority serializer json (codes "POST") path serialized read m)
  posted path serialized read =
      exchange-Exchanged signing authority serializer json (codes "POST") path serialized read m

  abbrev judge : Response → Result ParserError (Unit {0})
  judge r = if r.status == 201 then ok tt else err (admission_not_accepted r.status)

  -- what each operation asks at this moment, and how it reads the answer
  abbrev pub AllExchanged : Type 0
  AllExchanged =
      Gets eligible_routes_path (λ r. parse_eligible_routes json r.status r.body)
        (get_eligible_routes signing serializer json authority m)
      × ((route_id : Text) (seconds : ℤ)
          → Posts (codes "/v1/routes/" ++ (route_id ++ codes "/claims"))
              (serializer.claim_request seconds) (λ r. parse_claim_response json r.status r.body)
              (post_claim signing serializer json authority route_id seconds m))
      × ((route_id : Text)
          → Gets (codes "/v1/routes/" ++ (route_id ++ codes "/request"))
              (λ r. parse_routed_request_response json r.status r.body)
              (get_routed_request signing serializer json authority route_id m))
      × ((claim_id : Text) (token : ℤ)
          → Posts (codes "/v1/claims/" ++ (claim_id ++ codes "/complete"))
              (serializer.fenced_action_request token)
              (λ r. parse_complete_response json r.status r.body)
              (post_completion signing serializer json authority claim_id token m))
      × ((action scope : Text)
          → Posts requests_path
              (serializer.submission action scope no_artifact_schema_version_id
                no_artifact_permission_policy_schema_version_id)
              judge (post_submission signing serializer json authority action scope m))
      × Gets active_subscriptions_path (λ r. parse_subscription_list json r.status r.body)
          (active_subscriptions signing serializer json authority m)
      × ((event_type : Text)
          → Posts subscriptions_path (serializer.create_subscription_request event_type)
              (λ r. parse_create_subscription_response json r.status r.body)
              (create_subscription signing serializer json authority event_type m))
      × ((revision : ℤ)
          → Posts renew_instance_path (ok (serializer.renew_instance_request revision))
              (λ r. parse_renewal_response json r.status r.body)
              (renew_lease signing serializer json authority revision m))

  -- Each operation of the client makes one request, at its own path, with GET and no body or with
  -- POST and its serialized argument, under the drawn identifier and signed with the drawn nonce
  -- for 30 seconds from the second of the call. If the request is answered, the operation returns
  -- what is read from the answer's status and body, for a submission whether the status is 201. It
  -- fails as not serialized only if the serialization fails, and with the client's error only if
  -- that is the error of making that request's parts, of drawing the nonce, of signing these parts
  -- or of sending what was signed, each behind the success of those before it.
  pub client-AllExchanged : AllExchanged
  unfolding get_eligible_routes post_claim get_routed_request post_completion post_submission
      active_subscriptions create_subscription renew_lease build_get build_post
  client-AllExchanged = (
    got eligible_routes_path _,
    λ route_id seconds. posted _ (serializer.claim_request seconds) _,
    λ route_id. got _ _,
    λ claim_id token. posted _ (serializer.fenced_action_request token) _,
    λ action scope. posted requests_path _ judge,
    got active_subscriptions_path _,
    λ event_type. posted subscriptions_path (serializer.create_subscription_request event_type) _,
    λ revision. posted renew_instance_path (ok (serializer.renew_instance_request revision)) _,
  )
