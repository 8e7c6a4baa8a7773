-- ===== src/Client/Admission.antt =====
-- The answers of `submit_request` as `KernelClient` implements it.
use infernal_pf2e_parser_sim.Base.{
  ℤ, List, ◌++◌, ◌==◌, ==-eq, Bool-cases, if◌then◌else◌, ◌≡◌, ◌≢◌, refl, sym, subst, arith, inl,
  inr, All,
}
use infernal_pf2e_parser_sim.Std.Text.{Text}
use infernal_pf2e_parser_sim.Domain.{
  ParserError, client, malformed_response, admission_not_accepted,
}
use infernal_pf2e_parser_sim.Result.{Result, ok, err, map_err, ◌>>=◌, err-injective}
use infernal_pf2e_parser_sim.Codec.{Codec}
use infernal_pf2e_parser_sim.Wire.{Json, Bytes}
use infernal_pf2e_parser_sim.Kernel.{Call, CandidateRepository, World}
use infernal_pf2e_parser_sim.Client.{
  Signing, Serializer, Moment, Response, sign, build_post, post_submission, requests_path,
  client_port, no_artifact_schema_version_id, no_artifact_permission_policy_schema_version_id,
}
use infernal_pf2e_parser_sim.Work.{work_once}
use infernal_pf2e_parser_sim.Work.Passes.{IsUnknownAction}
use infernal_pf2e_parser_sim.Work.Completion.{IsJustified, work_once-IsJustified}

module _ (signing : Signing) (serializer : Serializer) (json : Json) (authority : Text) where
  -- The request that carries a submission was built, and the kernel answered it with `response`.
  abbrev pub Answered : Text → Text → Moment signing.Signed → Response → Type 0
  Answered action scope m response =
      (body : Bytes) × (signed : signing.Signed) × (serializer.submission action scope
          no_artifact_schema_version_id no_artifact_permission_policy_schema_version_id
        ≡ ok body)
      × (build_post signing serializer json authority requests_path body m ≡ ok signed)
      × (m.send signed ≡ ok response)

  -- what a submission's result says of the request and its answer
  pub data Submission (action scope : Text) (m : Moment signing.Signed)
      : Result ParserError (Unit {0}) → Type 0 where
    created :
        {response : Response}
        → Answered action scope m response
        → response.status ≡ 201
        → Submission action scope m (ok tt)
    not_created :
        {response : Response}
        → Answered action scope m response
        → response.status ≢ 201
        → Submission action scope m (err (admission_not_accepted response.status))
    not_serialized : {why : Text} → Submission action scope m (err (malformed_response why))
    not_sent : {why : Text} → Submission action scope m (err (client why))

  -- a result that is a value or an error of the client library
  data OnlyClient {A : Type 0} : Result ParserError A → Type 0 where
    value : {a : A} → OnlyClient (ok a)
    failed : {why : Text} → OnlyClient (err (client why))

  OnlyClient-map_err : {A : Type 0} (r : Result Text A) → OnlyClient (map_err client r)
  OnlyClient-map_err (ok a) = value
  OnlyClient-map_err (err why) = failed

  OnlyClient-bind :
      {A B : Type 0} (r : Result Text A) (f : A → Result ParserError B)
      → ((a : A) → OnlyClient (f a))
      → OnlyClient (map_err client r >>= f)
  OnlyClient-bind (ok a) f h = h a
  OnlyClient-bind (err why) f h = failed

  build_post-OnlyClient :
      (path : Text) (body : Bytes) (m : Moment signing.Signed)
      → OnlyClient (build_post signing serializer json authority path body m)
  unfolding build_post sign
  build_post-OnlyClient path body m =
      OnlyClient-bind (signing.new_parts _ authority path _ body m.request_id) _
        λ parts. OnlyClient-bind m.nonce _ λ nonce. OnlyClient-map_err _

  module _ (action scope : Text) (m : Moment signing.Signed) where
    -- the test of the response's status
    abbrev judge : Response → Result ParserError (Unit {0})
    judge response =
        if response.status == 201 then ok tt else err (admission_not_accepted response.status)

    judge-Submission :
        (response : Response)
        → Answered action scope m response
        → Submission action scope m (judge response)
    judge-Submission response answered = elim (Bool-cases (response.status == 201)) [
      | inl e ↦ rw e (created answered (==-eq response.status 201 e))
      | inr e ↦ rw e (not_created answered (λ h. ground arith))
    ]

    module _ (body : Bytes)
        (serialized : serializer.submission action scope no_artifact_schema_version_id
            no_artifact_permission_policy_schema_version_id
          ≡ ok body) where
      sent-Submission :
          (signed : signing.Signed)
          → build_post signing serializer json authority requests_path body m ≡ ok signed
          → (r : Result Text Response) → m.send signed ≡ r
          → Submission action scope m (map_err client r >>= judge)
      sent-Submission signed built (ok response) sent =
          judge-Submission response (body, signed, serialized, built, sent)
      sent-Submission signed built (err why) sent = not_sent

      built-Submission :
          (r : Result ParserError signing.Signed)
          → OnlyClient r
          → build_post signing serializer json authority requests_path body m ≡ r
          → Submission action scope m (r >>= λ signed. (map_err client (m.send signed) >>= judge))
      built-Submission _ (value {a}) built = sent-Submission a built (m.send a) refl
      built-Submission _ failed built = not_sent

    serialized-Submission :
        (r : Result Text Bytes)
        → serializer.submission action scope no_artifact_schema_version_id
            no_artifact_permission_policy_schema_version_id
          ≡ r
        → Submission action scope m (
            map_err malformed_response r >>= λ body.
            (build_post signing serializer json authority requests_path body m >>= λ signed.
            (map_err client (m.send signed) >>= judge)))
    serialized-Submission (ok body) e =
        built-Submission body e _ (build_post-OnlyClient requests_path body m) refl
    serialized-Submission (err why) e = not_serialized

  -- Submitting succeeds only when the request was sent and answered with 201; another status is
  -- reported as the admission's, and all other failures are the serializer's or the client's.
  pub post_submission-Submission :
      (action scope : Text) (m : Moment signing.Signed)
      → Submission action scope m (post_submission signing serializer json authority action scope m)
  unfolding post_submission
  post_submission-Submission action scope m = serialized-Submission action scope m _ refl

  Submission-IsUnknownAction :
      {action scope : Text} {m : Moment signing.Signed} {e : ParserError}
      (r : Result ParserError (Unit {0}))
      → Submission action scope m r
      → r ≡ err e
      → ¬ IsUnknownAction e
  Submission-IsUnknownAction _ (created _ _) h = cc
  Submission-IsUnknownAction _ (not_created _ _) h =
      λ u. subst IsUnknownAction (sym (err-injective h)) u
  Submission-IsUnknownAction _ not_serialized h =
      λ u. subst IsUnknownAction (sym (err-injective h)) u
  Submission-IsUnknownAction _ not_sent h = λ u. subst IsUnknownAction (sym (err-injective h)) u

  -- The service with its real client completes a claim only behind a finished request: every
  -- completion that a pass asks for is of the claim it was granted on the oldest route, carries
  -- that claim's fencing token, and follows the acceptance of the admission of every candidate, or
  -- an action that is not the parser's. No assumption is left on what the kernel answers.
  pub client-IsJustified :
      (codec : Codec) {R : Type 0} (repository : CandidateRepository R)
      (at : List Call → Moment signing.Signed) (lease : ℤ) (w : World R)
      → (calls : List Call) × ((work_once codec repository
            (client_port signing serializer json authority at)
            lease
            w).1.calls
          ≡ w.calls ++ calls)
        × All
            (IsJustified codec repository
              (client_port signing serializer json authority at)
              lease
              w)
            calls
  client-IsJustified codec repository at lease w =
      work_once-IsJustified codec repository (client_port signing serializer json authority at)
        lease
        (λ h action scope e.
          Submission-IsUnknownAction _ (post_submission-Submission action scope (at h)))
        w
