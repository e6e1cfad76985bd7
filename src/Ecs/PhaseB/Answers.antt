-- ===== src/Ecs/PhaseB/Answers.antt =====
-- What a poll of a service may answer, by what its calls gave.
use formae_plugin_aws.Prelude.Int.{ℤ, ◌+ℤ◌, ◌≤ℤ◌, ltb_ℤ}
use formae_plugin_aws.Prelude.{
  ◌≡◌, ◌≢◌, ◌⊎◌, true, false, ◌&&◌, Option, none, some, List, [], ◌∷◌, Io,
}
use formae_plugin_aws.Text.{Text, codes, ◌===◌}
use formae_plugin_aws.Go.{GoError, Outcome, returned, panicked, succeed}
use formae_plugin_aws.Sdk.{
  Operation, is_update, success, failure, ProgressResult, StatusRequest, ReadRequest, ReadResult,
}
use formae_plugin_aws.Ccx.Write.{to_string}
use formae_plugin_aws.Ecs.Classify.{classify_aws_error, classify_read_result_for_final}
use formae_plugin_aws.Ecs.Timeout.{
  Service, Deployment, rollout_completed, rollout_failed, EcsService, EcsClient, DescribeOutput,
  elapsed,
}
use formae_plugin_aws.Ecs.Timeout.Laws.{Bounded}
use formae_plugin_aws.Ecs.Elb.{ElbClient, Composition}
use formae_plugin_aws.Ecs.Endpoints.{compose_endpoints}
use formae_plugin_aws.Ecs.Reading.{service_read}
use formae_plugin_aws.Ecs.Final.{Health, needs_target_health, check_all_tgs_healthy}
use formae_plugin_aws.Ecs.PhaseB.{
  is_older, update_grace_window, has_inactive_failure, find_primary_deployment, is_phase_b_stable,
}

-- The rollout is completed, with as many tasks as are desired.
abbrev pub Steady : Deployment → EcsService → Type 0
Steady primary svc =
    (primary.rollout_state ≡ rollout_completed)
    × ((svc.running_count ≤ℤ svc.desired_count) × (svc.desired_count ≤ℤ svc.running_count))

module _ {ℓ} {W : Type ℓ} (s : Service W) (request : StatusRequest) (op : Operation) (start : ℤ)
    (cluster service : Text) (w : W) where
  -- From the world w, the client is there and is asked for the service.
  abbrev pub Asked : Outcome DescribeOutput → W → Type ℓ
  Asked o v =
      (client : EcsClient W) × ((w₁ : W) × ((s.ecs_client w ≡ (succeed client, w₁))
          × (client.describe_services cluster service w₁ ≡ (o, v))))

  abbrev pub Failing : GoError → W → Type ℓ
  Failing e v =
      ((out : Option (EcsClient W)) × (s.ecs_client w ≡ (returned out (some e), v)))
      ⊎ ((out : Option DescribeOutput) × Asked (returned out (some e)) v)

  -- What is described of the service: its failures, and the services.
  abbrev pub Described : DescribeOutput → Type ℓ
  Described out = (v : W) × Asked (succeed out) v

  -- The first service that is described, with its primary deployment, where nothing is inactive.
  abbrev pub Active : EcsService → Deployment → Type ℓ
  Active svc primary =
      (out : DescribeOutput) × ((more : List EcsService) × (Described out
          × ((out.services ≡ svc ∷ more)
              × ((has_inactive_failure out.failure_reasons ≡ false)
                  × (((to_string svc.status === codes "INACTIVE") ≡ false)
                      × (find_primary_deployment svc.deployments ≡ some primary))))))

  abbrev pub Stable : EcsService → Type ℓ
  Stable svc = (primary : Deployment) × (Active svc primary × Steady primary svc)

  -- The service is inactive, or its rollout has failed.
  abbrev pub Lost : Type ℓ
  Lost =
      ((out : DescribeOutput) × (Described out
          × ((has_inactive_failure out.failure_reasons ≡ true)
              ⊎ ((svc : EcsService) × ((more : List EcsService) × ((out.services ≡ svc ∷ more)
                      × ((to_string svc.status === codes "INACTIVE") ≡ true)))))))
      ⊎ ((svc : EcsService) × ((primary : Deployment) × (Active svc primary
              × (primary.rollout_state ≡ rollout_failed))))

  -- The client of the load balancing API cannot be made, or the health of the targets not be asked.
  abbrev pub Unlooked : EcsService → GoError → W → Type ℓ
  Unlooked svc e v' =
      ((factory : Io W (Outcome (ElbClient W))) × ((out : Option (ElbClient W)) × ((v : W)
            × ((s.elb_client ≡ some factory) × (factory v ≡ (returned out (some e), v'))))))
      ⊎ ((elb : ElbClient W) × ((out : Option Health) × ((v : W) × (check_all_tgs_healthy elb
                  svc.load_balancers v
                ≡ (returned out (some e), v')))))

  -- A passing error of the load balancing API, targets that are not healthy, or endpoints that are
  -- worth another try.
  abbrev pub Unready : EcsService → Type ℓ
  Unready svc =
      ((e : GoError) × ((v : W) × (Unlooked svc e v × ((classify_aws_error (some e)).1 ≡ true))))
      ⊎ (((elb : ElbClient W) × ((messages : List Text) × ((v : W) × ((v' : W)
                  × (check_all_tgs_healthy elb svc.load_balancers v
                      ≡ (succeed (false, messages), v'))))))
          ⊎ ((elb : ElbClient W) × ((composed : Composition) × ((err : Option GoError) × ((v : W)
                    × ((v' : W) × ((e : GoError) × ((compose_endpoints s.pause elb
                                svc.load_balancers v
                              ≡ (returned (some composed) err, v'))
                            × (composed.transient_error ≡ some e)))))))))

  -- Why there is a wait: a passing error; no service or no primary deployment yet; or an update in
  -- its grace window with an old deployment; or a service that is not stable, or is stable and needs
  -- target groups that are not ready.
  abbrev pub Cause : Type ℓ
  Cause =
      ((e : GoError) × ((v : W) × (Failing e v × ((classify_aws_error (some e)).1 ≡ true))))
      ⊎ (((out : DescribeOutput) × (Described out
              × ((out.services ≡ [])
                  ⊎ ((svc : EcsService) × ((more : List EcsService) × ((out.services ≡ svc ∷ more)
                          × (find_primary_deployment svc.deployments ≡ none)))))))
          ⊎ ((svc : EcsService) × ((primary : Deployment) × (Active svc primary
                  × ((((is_update op && is_older primary.created_at start) ≡ true)
                        × ((v : W) × (ltb_ℤ (elapsed (s.now v).0 start) update_grace_window
                              ≡ true)))
                      ⊎ ((is_phase_b_stable primary svc ≡ false)
                          ⊎ ((needs_target_health svc ≡ true) × Unready svc)))))))

  -- A result whose last step is a reading of the clock, against a budget.
  abbrev pub Waited : ℤ → ProgressResult × W → Type ℓ
  Waited budget (pr, w') =
      (v : W) × ((w' ≡ (s.now v).1) × Bounded s op request start budget (s.now v).0 pr)

  -- No target group is to be looked at, or all of them were found healthy.
  abbrev pub Fit : EcsService → Type ℓ
  Fit svc =
      (needs_target_health svc ≡ false)
      ⊎ ((elb : ElbClient W) × ((messages : List Text) × ((v : W) × ((v' : W)
                × (check_all_tgs_healthy elb svc.load_balancers v
                    ≡ (succeed (true, messages), v'))))))

  -- A success hands over what is read last, under the id that it is read by, and that is not empty.
  abbrev pub Done : ProgressResult × W → Type ℓ
  Done (pr, w') =
      (pr.operation_status ≡ success)
      × ((asked : ReadRequest) × ((found : ReadResult) × ((v : W) × ((service_read s asked v
                  ≡ (succeed found, w'))
                × ((pr.native_id ≡ asked.native_id)
                    × ((pr.resource_properties ≡ some found.properties)
                        × (found.properties ≢ [])))))))

  -- A failure of a stable service, with its code: by an error of the load balancing API that does not
  -- pass, or by a last read that is not good and not worth another one.
  abbrev pub Refuses : EcsService → ProgressResult × W → Type ℓ
  Refuses svc (pr, w') =
      (pr.operation_status ≡ failure)
      × (((e : GoError) × (Unlooked svc e w'
              × (((classify_aws_error (some e)).1 ≡ false)
                  × (pr.error_code ≡ (classify_aws_error (some e)).0))))
          ⊎ ((asked : ReadRequest) × ((rr : Option ReadResult) × ((err : Option GoError) × ((v : W)
                    × ((service_read s asked v ≡ (returned rr err, w'))
                        × (((classify_read_result_for_final rr err).1 ≡ false)
                            × (((classify_read_result_for_final rr err).2 ≡ false)
                                × (pr.error_code
                                    ≡ (classify_read_result_for_final rr err).0)))))))))

  abbrev pub Settles : ProgressResult × W → Type ℓ
  Settles (pr, w') =
      (pr.operation ≡ op)
      × ((Cause × Waited s.operation_timeout (pr, w'))
          ⊎ (((pr.operation_status ≡ failure)
                × (Lost
                    ⊎ ((e : GoError) × (Failing e w'
                          × (((classify_aws_error (some e)).1 ≡ false)
                              × (pr.error_code ≡ (classify_aws_error (some e)).0))))))
              ⊎ ((svc : EcsService) × (Stable svc
                    × (Refuses svc (pr, w')
                        ⊎ (Fit svc
                            × (Waited (s.operation_timeout +ℤ s.final_read_grace) (pr, w')
                                ⊎ Done (pr, w'))))))))

  abbrev pub Sound : Outcome ProgressResult × W → Type ℓ
  Sound (o, w') = (o ≡ panicked) ⊎ ((pr : ProgressResult) × ((o ≡ succeed pr) × Settles (pr, w')))
