-- ===== src/Startup/Enrolling.antt =====
-- `KernelClient` of src/kernel_client.rs as it is made and enrolled. The infernal-client library
-- is outside.
use infernal_pf2e_parser_sim.Base.{ℕ, ℤ, Option, none, some, List, ◌++◌}
use infernal_pf2e_parser_sim.Std.Text.{Text, codes}
use infernal_pf2e_parser_sim.Domain.{ParserError, client, Uuid}
use infernal_pf2e_parser_sim.Result.{Result, ok, map_err, and_then}
use infernal_pf2e_parser_sim.Wire.{Bytes}
use infernal_pf2e_parser_sim.Stateful.{lift, ◌>>=◌}
use infernal_pf2e_parser_sim.Startup.Steps.{Step, Starting, ask, ask_challenge, submit_enrollment}

-- the two members of the library's type that are read
pub record EnrolledInstance : Type 0 where
  pub lease_revision : ℤ
  pub lease_expires_at : ℤ

-- A credential is generated for a service identifier and stands here for it.
pub record EnrollmentApi : Type 1 where
  pub new_client : Result Text (Unit {0})
  pub with_root : Bytes → Result Text (Unit {0})
  pub Issued : Type 0
  pub request_enrollment_challenge : List Step → Text → Text → Text → Result Text Issued
  pub challenge_bytes : Issued → Result Text (List ℕ)
  pub Submission : Type 0
  pub sign : Uuid → List ℕ → Text → Text → Text → Result Text Submission
  pub submit : List Step → Text → Submission → Result Text EnrolledInstance

pub record KernelClient : Type 0 where
  pub credential : Uuid
  pub authority : Text
  pub extra_root : Option Bytes

abbrev pub base_url : KernelClient → Text
base_url c = codes "https://" ++ c.authority

module _ (api : EnrollmentApi) where
  unfoldable pub new : Uuid → Text → Result ParserError KernelClient
  new credential authority =
      and_then (map_err client api.new_client)
        (λ made. ok (record { credential = credential; authority = authority; extra_root = none }))

  unfoldable pub with_extra_root_certificate : Uuid → Text → Bytes → Result ParserError KernelClient
  with_extra_root_certificate credential authority pem =
      and_then (map_err client (api.with_root pem)) (λ made.
        ok (record { credential = credential; authority = authority; extra_root = some pem }))

  unfoldable pub request_challenge : KernelClient → Text → Text → Starting (List ℕ)
  request_challenge c pod_uid workload_token =
      ask (ask_challenge (base_url c) pod_uid workload_token) (λ steps.
        and_then
          (map_err client
            (api.request_enrollment_challenge steps (base_url c) pod_uid workload_token))
          (λ issued. map_err client (api.challenge_bytes issued)))

  unfoldable pub enroll : KernelClient → List ℕ → Text → Text → Text → Starting EnrolledInstance
  enroll c challenge endpoint pod_uid workload_token = do
    submission ←
        lift (map_err client (api.sign c.credential challenge endpoint pod_uid workload_token))
    ask (submit_enrollment (base_url c) challenge endpoint pod_uid workload_token)
        (λ steps. map_err client (api.submit steps (base_url c) submission))
