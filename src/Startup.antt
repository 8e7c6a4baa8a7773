-- ===== src/Startup.antt =====
-- `Config::from_env` of src/lib.rs. The environment, the files, the client library, the pool and
-- the kernel are outside.
pub mod Steps
pub mod Connecting
pub mod Enrolling
pub mod Follows
pub mod Planned
use infernal_pf2e_parser_sim.Base.{ℕ, ℤ, Option, none, some, List, [], ◌∷◌, ◌++◌}
use infernal_pf2e_parser_sim.Std.Text.{Text, codes, trim}
use infernal_pf2e_parser_sim.Std.Decimal.{parse_u64}
use infernal_pf2e_parser_sim.Domain.{
  ParserError, Uuid, missing_env, invalid_service_id, ca_certificate_unreadable,
  enrollment_token_unreadable,
}
use infernal_pf2e_parser_sim.Result.{Result, ok, err, map_err, ok_or, and_then}
use infernal_pf2e_parser_sim.Stateful.{pure, lift, ◌>>=◌, ◌>>◌}
use infernal_pf2e_parser_sim.Codec.{Codec}
use infernal_pf2e_parser_sim.Wire.{Json, Bytes}
use infernal_pf2e_parser_sim.Client.{Signing, Serializer, Moment, ensure_subscription}
use infernal_pf2e_parser_sim.Dispatch.{parse_action}
use infernal_pf2e_parser_sim.Service.{InstanceLease, lease_seconds_from, decode_challenge}
use Steps.{Step, Starting, ask, subscribe}
use Connecting.{PoolApi, Database, connect_from_env}
use Enrolling.{
  EnrollmentApi, KernelClient, new, with_extra_root_certificate, request_challenge, enroll,
}

abbrev pub kernel_authority_env : Text
kernel_authority_env = codes "KERNEL_AUTHORITY"

abbrev pub parser_service_id_env : Text
parser_service_id_env = codes "PARSER_SERVICE_ID"

abbrev pub claim_lease_seconds_env : Text
claim_lease_seconds_env = codes "CLAIM_LEASE_SECONDS"

abbrev pub poll_interval_seconds_env : Text
poll_interval_seconds_env = codes "POLL_INTERVAL_SECONDS"

abbrev pub kernel_ca_cert_path_env : Text
kernel_ca_cert_path_env = codes "KERNEL_CA_CERT_PATH"

abbrev pub enrollment_challenge_env : Text
enrollment_challenge_env = codes "ENROLLMENT_CHALLENGE"

abbrev pub service_endpoint_env : Text
service_endpoint_env = codes "SERVICE_ENDPOINT"

abbrev pub pod_uid_env : Text
pod_uid_env = codes "POD_UID"

abbrev pub workload_token_path_env : Text
workload_token_path_env = codes "WORKLOAD_TOKEN_PATH"

abbrev pub default_workload_token_path : Text
default_workload_token_path = codes "/var/run/secrets/infernal-law-enrollment/token"

abbrev pub default_poll_interval_seconds : ℕ
default_poll_interval_seconds = 5

-- `ACTIONS` of src/dispatch.rs
abbrev pub actions : List Text
actions = parse_action ∷ []

unfoldable pub poll_interval_from : Option Text → ℕ
poll_interval_from none = default_poll_interval_seconds
poll_interval_from (some value) = elim (parse_u64 value) [
  | some seconds ↦ seconds
  | none ↦ default_poll_interval_seconds
]

abbrev pub or_else {ℓ} : {A : Type ℓ} → A → Option A → A
or_else d none = d
or_else d (some a) = a

pub record Config : Type 0 where
  pub client : KernelClient
  pub repository : Database
  pub lease_seconds : ℤ
  -- in seconds
  pub poll_interval : ℕ
  pub instance_lease : Option InstanceLease

-- Everything outside: `env` is `env::var`, where a value that is no Unicode is not there.
pub record Host : Type 1 where
  pub env : Text → Option Text
  pub read : Text → Result Text Bytes
  pub read_to_string : Text → Result Text Text
  pub challenge_length : ℕ
  pub enrollment : EnrollmentApi
  pub pool : PoolApi
  pub serializer : Serializer
  pub json : Json
  -- signing with a client's credential, and the moments of its operations
  pub signing : KernelClient → Signing
  pub moment : (c : KernelClient) → List Step → Moment (signing c).Signed

module _ (codec : Codec) (host : Host) where
  required : Text → Starting Text
  required name = lift (ok_or (host.env name) (missing_env name))

  unfoldable pub construct : Uuid → Text → Starting KernelClient
  construct service_id authority = elim (host.env kernel_ca_cert_path_env) [
    | some path ↦ lift (
        and_then (map_err ca_certificate_unreadable (host.read path))
          (λ pem. with_extra_root_certificate host.enrollment service_id authority pem))
    | none ↦ lift (new host.enrollment service_id authority)
  ]

  -- an injected challenge, or one that the kernel is asked for
  unfoldable pub obtain_challenge : KernelClient → Text → Text → Starting (List ℕ)
  obtain_challenge c pod_uid workload_token = elim (host.env enrollment_challenge_env) [
    | some injected ↦ lift (decode_challenge codec host.challenge_length injected)
    | none ↦ request_challenge host.enrollment c pod_uid workload_token
  ]

  unfoldable pub enroll_pod : KernelClient → Text → Text → Starting (Option InstanceLease)
  enroll_pod c endpoint pod_uid = do
    token ← lift (
        map_err enrollment_token_unreadable (
          host.read_to_string
            (or_else default_workload_token_path (host.env workload_token_path_env))))
    challenge ← obtain_challenge c pod_uid (trim token)
    enrolled ← enroll host.enrollment c challenge endpoint pod_uid (trim token)
    pure (
        some
          (record { revision = enrolled.lease_revision; expires_at = enrolled.lease_expires_at }))

  -- Both variables are needed.
  unfoldable pub enroll_if_set :
      KernelClient → Option Text → Option Text → Starting (Option InstanceLease)
  enroll_if_set c (some endpoint) (some pod_uid) = enroll_pod c endpoint pod_uid
  enroll_if_set c _ _ = pure none

  -- The creation of a missing subscription is at the moment behind the list of them.
  unfoldable pub subscribe_all : KernelClient → List Text → Starting (Unit {0})
  subscribe_all c [] = pure tt
  subscribe_all c (action ∷ rest) = do
    ask (subscribe action) (λ steps.
        ensure_subscription (host.signing c) host.serializer host.json c.authority action
          (host.moment c steps) (host.moment c (steps ++ subscribe action ∷ [])))
    subscribe_all c rest

  unfoldable pub from_env : Starting Config
  unfolding required
  from_env = do
    authority ← required kernel_authority_env
    service_id_text ← required parser_service_id_env
    service_id ← lift (ok_or (codec.parse_uuid service_id_text) invalid_service_id)
    client ← construct service_id authority
    instance_lease ← enroll_if_set client (host.env service_endpoint_env) (host.env pod_uid_env)
    subscribe_all client actions
    database ← connect_from_env host.pool host.env
    pure (record {
      client = client;
      repository = database;
      lease_seconds = lease_seconds_from (host.env claim_lease_seconds_env);
      poll_interval = poll_interval_from (host.env poll_interval_seconds_env);
      instance_lease = instance_lease;
    })
