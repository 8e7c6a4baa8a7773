-- ===== src/Startup/Planned.antt =====
-- The order in which a start asks the outside, against a plan that is read off the environment.
use infernal_pf2e_parser_sim.Base.{
  ℕ, true, ◌&&◌, Option, none, some, List, [], ◌∷◌, ◌++◌, ◌≡◌, refl, if◌then◌else◌, is_empty, not,
  Bool-cases, Option-cases, inl, inr,
}
use infernal_pf2e_parser_sim.Std.Text.{Text, trim}
use infernal_pf2e_parser_sim.Domain.{
  client, enrollment_token_unreadable, missing_env, invalid_service_id, Uuid, database, pool,
  missing_environment, empty_url, invalid_postgres_config,
}
use infernal_pf2e_parser_sim.Result.{map_err, ok_or}
use infernal_pf2e_parser_sim.Stateful.{pure, lift, ◌>>◌}
use infernal_pf2e_parser_sim.Codec.{Codec}
use infernal_pf2e_parser_sim.Service.{InstanceLease, decode_challenge}
use infernal_pf2e_parser_sim.Startup.{
  Host, Config, from_env, construct, obtain_challenge, enroll_pod, enroll_if_set, subscribe_all,
  actions, service_endpoint_env, pod_uid_env, enrollment_challenge_env, kernel_ca_cert_path_env,
  or_else, default_workload_token_path, workload_token_path_env, kernel_authority_env,
  parser_service_id_env,
}
use infernal_pf2e_parser_sim.Dispatch.{parse_action}
use infernal_pf2e_parser_sim.Startup.Steps.{
  Step, ask, ask_challenge, submit_enrollment, subscribe, open_pool, check_connection, migrate,
}
use infernal_pf2e_parser_sim.Startup.Connecting.{
  database_url_env, Database, connect_from_env, check_connection_of, migrate_of,
}
use infernal_pf2e_parser_sim.Startup.Enrolling.{
  KernelClient, base_url, EnrolledInstance, request_challenge, enroll,
}
use infernal_pf2e_parser_sim.Startup.Follows.{
  enrolling, subscribing, opening, checking, migrating, is_some, enrolls, challenge_plan,
  enrollment_plan, plan, Anything, Keeps, Follows, lift-Follows, pure-Follows, fail-Follows,
  ask-Follows, chain-Follows,
}

module _ (codec : Codec) (host : Host) where
  -- the second condition of the plan, for what `from_env` returns
  abbrev pub HasLease : Option InstanceLease → Type 0
  HasLease lease = is_some lease ≡ enrolls host.env

  obtain_challenge-Follows :
      (c : KernelClient) (pod_uid token : Text)
      → Follows (challenge_plan host.env) Anything (obtain_challenge codec host c pod_uid token)
  unfolding obtain_challenge request_challenge
  obtain_challenge-Follows c pod_uid token =
      elim (Option-cases (host.env enrollment_challenge_env)) [
        | inr e ↦ rw (obtain_challenge, e) (ask-Follows Anything (ask_challenge _ _ _) _ (λ a. tt))
        | inl (injected, e) ↦
            rw (obtain_challenge, e)
              (lift-Follows Anything (decode_challenge codec host.challenge_length injected)
                (λ a h. tt))
      ]

  enroll-Follows :
      (c : KernelClient) (challenge : List ℕ) (endpoint pod_uid token : Text)
      → Follows
          (enrolling ∷ [])
          Anything
          (enroll host.enrollment c challenge endpoint pod_uid token)
  unfolding enroll
  enroll-Follows c challenge endpoint pod_uid token =
      chain-Follows [] (enrolling ∷ []) Anything Anything
        (lift (map_err client (host.enrollment.sign c.credential challenge endpoint pod_uid token)))
        _ (lift-Follows Anything _ (λ a h. tt))
        (λ submission q.
          ask-Follows Anything (submit_enrollment (base_url c) challenge endpoint pod_uid token) _
            (λ a. tt))

  enroll_pod-Follows :
      (c : KernelClient) (endpoint pod_uid : Text)
      → Follows
          (challenge_plan host.env ++ enrolling ∷ [])
          (λ (l : Option InstanceLease). is_some l ≡ true)
          (enroll_pod codec host c endpoint pod_uid)
  unfolding enroll_pod
  enroll_pod-Follows c endpoint pod_uid =
      chain-Follows [] (challenge_plan host.env ++ enrolling ∷ []) Anything _
        (lift (
          map_err enrollment_token_unreadable (
            host.read_to_string
              (or_else default_workload_token_path (host.env workload_token_path_env)))))
        _ (lift-Follows Anything _ (λ a h. tt))
        λ token q.
          chain-Follows (challenge_plan host.env) (enrolling ∷ []) Anything _
            (obtain_challenge codec host c pod_uid (trim token)) _
            (obtain_challenge-Follows c pod_uid (trim token))
            λ challenge q'.
              chain-Follows (enrolling ∷ []) [] Anything _
                (enroll host.enrollment c challenge endpoint pod_uid (trim token)) _
                (enroll-Follows c challenge endpoint pod_uid (trim token))
                (λ (enrolled : EnrolledInstance) q''.
                  pure-Follows (λ (l : Option InstanceLease). is_some l ≡ true) _ refl)

  enroll_if_set-Follows :
      (c : KernelClient) (endpoint pod_uid : Option Text)
      → Follows
          (if is_some endpoint && is_some pod_uid
            then challenge_plan host.env ++ enrolling ∷ []
            else [])
          (λ (l : Option InstanceLease). is_some l ≡ (is_some endpoint && is_some pod_uid))
          (enroll_if_set codec host c endpoint pod_uid)
  unfolding enroll_if_set
  enroll_if_set-Follows c (some endpoint) (some pod_uid) = enroll_pod-Follows c endpoint pod_uid
  enroll_if_set-Follows c (some endpoint) none = pure-Follows _ none refl
  enroll_if_set-Follows c none pod_uid = pure-Follows _ none refl

  subscribe_all-Follows :
      (c : KernelClient) → Follows (subscribing ∷ []) Anything (subscribe_all codec host c actions)
  unfolding subscribe_all
  subscribe_all-Follows c =
      chain-Follows (subscribing ∷ []) [] Anything Anything _ _
        (ask-Follows Anything (subscribe parse_action) _ (λ a. tt))
        (λ a q. pure-Follows Anything tt tt)

  abbrev database_at : Text → Database
  database_at url = record { url = url }

  connection_steps :
      (url : Text)
      → Follows (opening ∷ checking ∷ migrating ∷ []) Anything (
          ask
            (open_pool url)
            (λ steps. map_err database (map_err pool (host.pool.new_pool steps url)))
          >> (check_connection_of host.pool (database_at url)
              >> (migrate_of host.pool (database_at url) >> pure (database_at url))))
  unfolding check_connection_of migrate_of
  connection_steps url =
      chain-Follows (opening ∷ []) (checking ∷ migrating ∷ []) Anything Anything
        (ask (open_pool url)
          (λ steps. map_err database (map_err pool (host.pool.new_pool steps url))))
        _ (ask-Follows Anything (open_pool url) _ (λ a. tt))
        λ a q.
          chain-Follows (checking ∷ []) (migrating ∷ []) Anything Anything
            (check_connection_of host.pool (database_at url)) _
            (ask-Follows Anything check_connection _ (λ a. tt))
            λ b q'.
              chain-Follows (migrating ∷ []) [] Anything Anything
                (migrate_of host.pool (database_at url)) _
                (ask-Follows Anything migrate _ (λ a. tt)) λ c q''. pure-Follows Anything _ tt

  connect_from_env-Follows :
      Follows (opening ∷ checking ∷ migrating ∷ []) Anything (connect_from_env host.pool host.env)
  unfolding connect_from_env check_connection_of migrate_of
  connect_from_env-Follows =
      chain-Follows [] (opening ∷ checking ∷ migrating ∷ []) Anything Anything
        (lift (ok_or (host.env database_url_env) (database missing_environment))) _
        (lift-Follows Anything _ (λ a h. tt))
        λ url q. elim (Bool-cases (is_empty (trim url))) [
          | inl e ↦ rw e (fail-Follows _ _ (database empty_url))
          | inr e ↦ elim (Bool-cases (not (host.pool.is_config url))) [
            | inl f ↦ rw (e, f) (fail-Follows _ _ (database invalid_postgres_config))
            | inr f ↦ rw (e, f) (connection_steps url)
          ]
        ]

  construct-Follows :
      (id : Uuid) (authority : Text) → Follows [] Anything (construct codec host id authority)
  unfolding construct
  construct-Follows id authority = elim (Option-cases (host.env kernel_ca_cert_path_env)) [
    | inr e ↦ rw (construct, e) (lift-Follows Anything _ (λ a h. tt))
    | inl (path, e) ↦ rw (construct, e) (lift-Follows Anything _ (λ a h. tt))
  ]

  -- A start asks the outside for nothing but what its plan says, which is read off the environment
  -- alone, and in that order: the challenge, unless one is injected, and the enrollment, both only
  -- if the endpoint and the pod are set, and then also without an injected challenge; the
  -- subscription; and the pool, its check and the migration. It takes all of these steps if it succeeds, and then has an instance lease exactly
  -- if the plan has an enrollment; if it fails, it takes the first few of them.
  pub from_env-Follows :
      (before : List Step)
      → Keeps
          (plan host.env)
          (λ (c : Config). HasLease c.instance_lease)
          (from_env codec host)
          before
  unfolding from_env
  from_env-Follows =
      let rest = subscribing ∷ opening ∷ checking ∷ migrating ∷ [] in
      chain-Follows [] (plan host.env) Anything _
        (lift (ok_or (host.env kernel_authority_env) (missing_env kernel_authority_env))) _
        (lift-Follows Anything _ (λ a h. tt))
        λ authority q0.
          chain-Follows [] (plan host.env) Anything _
            (lift (ok_or (host.env parser_service_id_env) (missing_env parser_service_id_env))) _
            (lift-Follows Anything _ (λ a h. tt))
            λ id_text q1.
              chain-Follows [] (plan host.env) Anything _
                (lift (ok_or (codec.parse_uuid id_text) invalid_service_id)) _
                (lift-Follows Anything _ (λ a h. tt))
                λ service_id q2.
                  chain-Follows [] (plan host.env) Anything _
                    (construct codec host service_id authority) _
                    (construct-Follows service_id authority)
                    λ c q3.
                      chain-Follows (enrollment_plan host.env) rest HasLease _
                        (enroll_if_set codec host c (host.env service_endpoint_env)
                          (host.env pod_uid_env))
                        _
                        (enroll_if_set-Follows c (host.env service_endpoint_env)
                          (host.env pod_uid_env))
                        λ lease known.
                          chain-Follows (subscribing ∷ []) (opening ∷ checking ∷ migrating ∷ [])
                            Anything _ (subscribe_all codec host c actions) _
                            (subscribe_all-Follows c)
                            λ a q4.
                              chain-Follows (opening ∷ checking ∷ migrating ∷ []) [] Anything _
                                (connect_from_env host.pool host.env) _ connect_from_env-Follows
                                λ d q5.
                                  pure-Follows (λ (c : Config). HasLease c.instance_lease) _ known
