-- ===== src/Ecs/PhaseB.antt =====
-- statusPhaseB and its tests, from phase.go and parse.go: is the deployment of the service stable?
pub mod Answers
pub mod Last
pub mod Laws
use formae_plugin_aws.Prelude.Int.{ℤ, pos, negsuc, ◌-ℤ◌, ◌+ℤ◌, scale, ltb_ℤ, pos_part, neg_part}
use formae_plugin_aws.Prelude.{
  ◌+◌, ◌-◌, ◌^◌, Bool, true, false, ◌&&◌, ◌||◌, not, ◌==◌, Option, none, some, List, [], ◌∷◌, ◌++◌,
  if◌then◌else◌, Io, pure,
}
use formae_plugin_aws.Text.{Text, codes, ◌===◌}
use formae_plugin_aws.Text.Decimal.{format_int}
use formae_plugin_aws.Go.{Outcome, after, deref}
use formae_plugin_aws.Sdk.{
  general_service_exception, Operation, is_update, ProgressResult, StatusRequest,
}
use formae_plugin_aws.Ccx.Write.{to_string}
use formae_plugin_aws.Ecs.Classify.{terminal_failure}
use formae_plugin_aws.Ecs.Timeout.{
  Time, unix_time, elapsed, RolloutState, rollout_completed, rollout_failed, Deployment, EcsService,
  DescribeOutput, EcsClient, Service, in_progress_or_timeout, classify_for_status,
}
use formae_plugin_aws.Ecs.PhaseA.{handle}
use formae_plugin_aws.Ecs.Final.{give, final_success}

abbrev pub update_grace_window : ℤ
update_grace_window = pos 60000000000

abbrev is_inactive : Option Text → Bool
is_inactive none = false
is_inactive (some reason) = reason === codes "INACTIVE"

unfoldable pub has_inactive_failure : List (Option Text) → Bool
has_inactive_failure [] = false
has_inactive_failure (reason ∷ reasons) = is_inactive reason || has_inactive_failure reasons

unfoldable pub find_primary_deployment : List Deployment → Option Deployment
find_primary_deployment [] = none
find_primary_deployment (d ∷ ds) =
    let rest = find_primary_deployment ds in
    if to_string d.status === codes "PRIMARY" then some d else rest

abbrev pub equal_ℤ : ℤ → ℤ → Bool
equal_ℤ a b = pos_part a + neg_part b == pos_part b + neg_part a

abbrev pub is_completed : RolloutState → Bool
is_completed rollout_completed = true
is_completed _ = false

abbrev pub is_failed : RolloutState → Bool
is_failed rollout_failed = true
is_failed _ = false

unfoldable pub is_phase_b_stable : Deployment → EcsService → Bool
is_phase_b_stable primary svc =
    is_completed primary.rollout_state && equal_ℤ svc.running_count svc.desired_count

-- time.Time.Add(-10 * time.Second), which stops at the bottom of int64
abbrev ten_before : ℤ → ℤ
ten_before t = if ltb_ℤ t (negsuc (2 ^ 63 - 11)) then negsuc (2 ^ 63 - 2) else t -ℤ pos 10

-- Created more than ten seconds before the operation, or at no known time.
unfoldable pub is_older : Option Time → ℤ → Bool
unfolding unix_time
is_older none start = true
is_older (some created) start =
    ltb_ℤ (scale 1000000000 (created.seconds +ℤ pos 62135596800) +ℤ pos created.nanos)
      (scale 1000000000 (ten_before (unix_time start)))

module _ {ℓ} {W : Type ℓ} (s : Service W) (request : StatusRequest) (op : Operation)
    (start : ℤ) where
  abbrev out_of_band : Text → Io W (Outcome ProgressResult)
  out_of_band msg =
      give s (pure (terminal_failure op request.native_id [] general_service_exception msg))

  abbrev pub waiting : Text → Io W (Outcome ProgressResult)
  waiting msg = give s (in_progress_or_timeout s op request start msg)

  unfoldable pub check_rollout : EcsService → Deployment → Io W (Outcome ProgressResult)
  check_rollout svc primary w =
      if is_failed primary.rollout_state
      then out_of_band (codes "deployment failed: " ++ to_string primary.rollout_state_reason) w
      else if not (is_phase_b_stable primary svc)
      then waiting
          (codes "rollout "
            ++ (s.rollout_text primary.rollout_state
                ++ (codes ": "
                    ++ (format_int svc.running_count
                        ++ (codes "/"
                            ++ (format_int svc.desired_count ++ codes " tasks running"))))))
          w
      else final_success s request op start svc w

  -- An update waits a minute for a deployment of its own.
  unfoldable pub check_grace : EcsService → Deployment → Io W (Outcome ProgressResult)
  check_grace svc primary w =
      let now = s.now w in
      if is_update op && is_older primary.created_at start
      then if ltb_ℤ (elapsed now.0 start) update_grace_window
        then waiting (codes "waiting for new deployment to start") now.1
        else check_rollout svc primary now.1
      else check_rollout svc primary w

  unfoldable pub check_service : Text → EcsService → Io W (Outcome ProgressResult)
  check_service service svc w =
      if to_string svc.status === codes "INACTIVE"
      then out_of_band
          (codes "ECS service " ++ (service ++ codes " is INACTIVE — deleted out-of-band")) w
      else elim (find_primary_deployment svc.deployments) [
        | none ↦ waiting (codes "no PRIMARY deployment yet") w
        | some primary ↦ check_grace svc primary w
      ]

  unfoldable pub check_described : Text → Text → DescribeOutput → Io W (Outcome ProgressResult)
  check_described cluster service out w =
      if has_inactive_failure out.failure_reasons
      then out_of_band
          (codes "ECS service "
            ++ (service
                ++ (codes " in cluster "
                    ++ (cluster ++ codes " reports INACTIVE — deleted out-of-band"))))
          w
      else elim out.services [
        | [] ↦
            waiting
              (codes
                "service not yet visible in DescribeServices (may be lag or out-of-band deletion)")
              w
        | svc ∷ _ ↦ check_service service svc w
      ]

  unfoldable pub describe : Text → Text → EcsClient W → Io W (Outcome ProgressResult)
  describe cluster service client w =
      let asked = client.describe_services cluster service w in
      after asked.0
        (λ out err.
          handle err
            (λ e. give s (classify_for_status s e op request start (codes "DescribeServices")))
            (deref out (check_described cluster service)))
        asked.1

  unfoldable pub status_phase_b : Text → Text → Io W (Outcome ProgressResult)
  status_phase_b cluster service w =
      let built = s.ecs_client w in
      after built.0
        (λ client err.
          handle err
            (λ e. give s (classify_for_status s e op request start (codes "build ECS client")))
            (deref client (describe cluster service)))
        built.1
