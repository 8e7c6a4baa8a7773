-- ===== src/Tests/StartupExamples.antt =====
-- A start that enrolls its pod with a challenge of the kernel's.
use infernal_pf2e_parser_sim.Base.{
  ℕ, true, none, some, Option, pos, List, [], ◌∷◌, ◌≡◌, refl, map, if◌then◌else◌,
}
use infernal_pf2e_parser_sim.Std.Text.{Text, codes, text_eq, trim, is_whitespace}
use infernal_pf2e_parser_sim.Result.{ok, err}
use infernal_pf2e_parser_sim.Wire.{Json, parse_subscription_list}
use infernal_pf2e_parser_sim.Client.{ensure_subscription, active_subscriptions, build_get, sign}
use infernal_pf2e_parser_sim.Codec.{is_canonical}
use infernal_pf2e_parser_sim.Dispatch.{parse_action}
use infernal_pf2e_parser_sim.Startup.{
  Host, Config, from_env, construct, enroll_if_set, enroll_pod, obtain_challenge, subscribe_all,
  kernel_authority_env, parser_service_id_env, service_endpoint_env, pod_uid_env,
}
use infernal_pf2e_parser_sim.Startup.Connecting.{
  PoolApi, database_url_env, connect_from_env, check_connection_of, migrate_of,
}
use infernal_pf2e_parser_sim.Startup.Enrolling.{EnrollmentApi, new, request_challenge, enroll}
use infernal_pf2e_parser_sim.Startup.Planned.{HasLease, from_env-Follows}
use infernal_pf2e_parser_sim.Startup.Follows.{
  kind, challenging, enrolling, subscribing, opening, checking, migrating, Keeps, plan,
}
use infernal_pf2e_parser_sim.Tests.HexCodec.{hex_codec}
use infernal_pf2e_parser_sim.Tests.ParserTests.{one_id}
use infernal_pf2e_parser_sim.Tests.ServiceExamples.{
  plain_signing, plain_serializer, one_subscription, listing,
}

abbrev pod_env : Text → Option Text
pod_env name =
    if text_eq name kernel_authority_env
    then some (codes "kernel:8443")
    else if text_eq name parser_service_id_env
    then some one_id.canonical
    else if text_eq name service_endpoint_env
    then some (codes "https://parser")
    else if text_eq name pod_uid_env
    then some (codes "pod-1")
    else if text_eq name database_url_env
    then some (codes "postgres://db")
    else none

-- challenges are their bytes, and submissions their challenge
abbrev granting : EnrollmentApi
granting = record {
  new_client = ok tt;
  with_root = λ pem. ok tt;
  Issued = List ℕ;
  request_enrollment_challenge = λ steps url pod token. ok (1 ∷ 2 ∷ []);
  challenge_bytes = λ issued. ok issued;
  Submission = List ℕ;
  sign = λ id challenge endpoint pod token. ok challenge;
  submit =
      λ steps url submission. ok (record { lease_revision = pos 1; lease_expires_at = pos 60 });
}

-- the kernel lists the subscription
abbrev subscribed : Json
subscribed = record one_subscription {
  subscriptions = λ body. ok (
      record {
        id = codes "s1";
        service_id = codes "d1";
        event_type = parse_action;
        created_at = pos 1;
        disabled_at = none;
        active = true;
      }
      ∷ []);
}

abbrev working_pool : PoolApi
working_pool = record {
  is_config = λ url. true;
  new_pool = λ steps url. ok tt;
  get = λ steps. ok tt;
  simple_query = λ steps. ok tt;
  batch_execute = λ steps. ok tt;
}

abbrev pod : Host
pod = record {
  env = pod_env;
  read = λ path. err (codes "no such file");
  read_to_string = λ path. ok (codes "token\n");
  challenge_length = 2;
  enrollment = granting;
  pool = working_pool;
  serializer = plain_serializer;
  json = subscribed;
  signing = λ c. plain_signing;
  moment = λ c steps. listing;
}

from_env-Follows_example :
    Keeps
      (plan pod_env)
      (λ (c : Config). HasLease hex_codec pod c.instance_lease)
      (from_env hex_codec pod)
      []
from_env-Follows_example = from_env-Follows hex_codec pod []

-- It takes every step of its plan.
all_steps :
    map kind (from_env hex_codec pod []).1
    ≡ challenging ∷ enrolling ∷ subscribing ∷ opening ∷ checking ∷ migrating ∷ []
unfolding from_env construct enroll_if_set enroll_pod obtain_challenge request_challenge enroll
    subscribe_all connect_from_env check_connection_of migrate_of new text_eq trim is_whitespace
    ensure_subscription active_subscriptions build_get sign parse_subscription_list is_canonical
all_steps = refl
