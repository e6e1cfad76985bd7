-- ===== src/Ecs/Timeout.antt =====
-- pkg/cfres/ecs/timeout.go: an operation is in progress within its budget, and fails past it. Also
-- what the provisioner is built with (the fields of Service in service.go).
pub mod Laws
use formae_plugin_aws.Prelude.Int.{ℤ, pos, negsuc, ◌+ℤ◌, ◌-ℤ◌, scale, ltb_ℤ}
use formae_plugin_aws.Prelude.{
  ℕ, Bool, true, false, Option, none, some, List, [], ◌++◌, ◌^◌, ◌-◌, if◌then◌else◌, Io, pure,
}
use formae_plugin_aws.Text.{Text, codes}
use formae_plugin_aws.Go.{GoError, Outcome}
use formae_plugin_aws.Json.{Json, Codec}
use formae_plugin_aws.Sdk.{
  ErrorCode, general_service_exception, no_code, Operation, OperationStatus, in_progress,
  ProgressResult, CreateRequest, UpdateRequest, StatusRequest, ReadRequest, ReadResult,
}
use formae_plugin_aws.Ecs.Elb.{ElbClient}
use formae_plugin_aws.Ecs.Classify.{Verdict, classify_aws_error, terminal_failure}

-- A wall clock reading: the Unix second, and the nanoseconds into it.
pub record Time : Type 0 where
  pub seconds : ℤ
  pub nanos : ℕ

-- The interface ccxClient: a result whose ProgressResult may be nil is an option.
pub record CcxClient {ℓ} (W : Type ℓ) : Type ℓ where
  pub create_resource : CreateRequest → Io W (Outcome (Option ProgressResult))
  pub update_resource : UpdateRequest → Io W (Outcome (Option ProgressResult))
  pub status_resource :
      StatusRequest
      → (ReadRequest → Io W (Outcome ReadResult))
      → Io W (Outcome (Option ProgressResult))
  pub read_resource : ReadRequest → Io W (Outcome ReadResult)

-- A load balancer of a service; the port is an int32.
pub record LoadBalancer : Type 0 where
  pub container_name : Option Text
  pub container_port : Option ℤ
  pub target_group_arn : Option Text

-- ecstypes.DeploymentRolloutState, as far as the code tells its values apart.
pub data RolloutState : Type 0 where
  rollout_completed rollout_failed rollout_other : RolloutState

pub record Deployment : Type 0 where
  pub status : Option Text
  pub rollout_state : RolloutState
  pub rollout_state_reason : Option Text
  pub created_at : Option Time

pub record EcsService : Type 0 where
  pub status : Option Text
  pub service_arn : Option Text
  pub cluster_arn : Option Text
  pub desired_count : ℤ
  pub running_count : ℤ
  pub deployments : List Deployment
  pub load_balancers : List LoadBalancer

-- DescribeServicesOutput: the reasons of its failures, and its services.
pub record DescribeOutput : Type 0 where
  pub failure_reasons : List (Option Text)
  pub services : List EcsService

-- The interface ecsClient, by cluster and service.
pub record EcsClient {ℓ} (W : Type ℓ) : Type ℓ where
  pub describe_services : Text → Text → Io W (Outcome DescribeOutput)

-- Durations are int64 nanoseconds; `duration_text` is their String(), and `status_text` and
-- `rollout_text` and `code_text` are the strings of enumerations, all of packages outside the repository.
pub record Service {ℓ} (W : Type ℓ) : Type ℓ where
  pub ccx_client : Io W (Outcome (CcxClient W))
  pub ecs_client : Io W (Outcome (EcsClient W))
  pub elb_client : Option (Io W (Outcome (ElbClient W)))
  pub codec : Codec
  -- the conversion of a JSON number to int32
  pub int32_of : Text → ℤ
  -- the verb %q
  pub quote : Text → Text
  pub code_text : ErrorCode → Text
  pub rollout_text : RolloutState → Text
  pub now : Io W Time
  -- waiting for nanoseconds or for the end of the context, whose error is then given
  pub pause : ℕ → Io W (Option GoError)
  pub operation_timeout : ℤ
  pub final_read_grace : ℤ
  pub duration_text : ℤ → Text
  pub status_text : OperationStatus → Text

-- time.Time.Sub stops at the ends of int64.
unfoldable pub saturate : ℤ → ℤ
saturate a =
    if ltb_ℤ (pos (2 ^ 63 - 1)) a
    then pos (2 ^ 63 - 1)
    else if ltb_ℤ a (negsuc (2 ^ 63 - 1))
    then negsuc (2 ^ 63 - 1)
    else a

-- time.Unix(s, 0): the seconds since the year 1, in int64, which wraps at its top.
unfoldable pub unix_time : ℤ → ℤ
unix_time s =
    let t = s +ℤ pos 62135596800 in if ltb_ℤ (pos (2 ^ 63 - 1)) t then t -ℤ pos (2 ^ 64) else t

-- now.Sub(time.Unix(unixStart, 0)), for a clock whose year has five digits at most
unfoldable pub elapsed : Time → ℤ → ℤ
unfolding unix_time saturate
elapsed now unix_start =
    saturate
      (scale 1000000000 ((now.seconds +ℤ pos 62135596800) -ℤ unix_time unix_start) +ℤ pos now.nanos)

-- msg, then ": " and the text of the error
abbrev with_cause : Text → GoError → Text
with_cause context err = context ++ (codes ": " ++ err.message)

module _ {ℓ} {W : Type ℓ} (s : Service W) where
  unfoldable pub bounded_result : Operation → StatusRequest → ℤ → ℤ → Text → Time → ProgressResult
  bounded_result op request unix_start budget msg now =
      if ltb_ℤ budget (elapsed now unix_start)
      then terminal_failure op request.native_id [] general_service_exception (
          codes "ECS operation exceeded " ++ (s.duration_text budget ++ (codes " budget: " ++ msg)))
      else record {
        operation = op;
        operation_status = in_progress;
        request_id = request.request_id;
        native_id = request.native_id;
        status_message = msg;
        error_code = no_code;
        resource_properties = none;
      }

  unfoldable pub bounded_in_progress :
      Operation → StatusRequest → ℤ → ℤ → Text → Io W ProgressResult
  unfolding bounded_result
  bounded_in_progress op request unix_start budget msg w =
      (bounded_result op request unix_start budget msg (s.now w).0, (s.now w).1)

  unfoldable pub in_progress_or_timeout : Operation → StatusRequest → ℤ → Text → Io W ProgressResult
  in_progress_or_timeout op request unix_start msg =
      bounded_in_progress op request unix_start s.operation_timeout msg

  unfoldable pub in_progress_or_final_read_timeout :
      Operation → StatusRequest → ℤ → Text → Io W ProgressResult
  in_progress_or_final_read_timeout op request unix_start msg =
      bounded_in_progress op request unix_start (s.operation_timeout +ℤ s.final_read_grace) msg

  unfoldable pub status_of_verdict :
      Verdict → GoError → Operation → StatusRequest → ℤ → Text → Io W ProgressResult
  status_of_verdict (code, true) err op request unix_start context =
      in_progress_or_timeout op request unix_start (with_cause context err)
  status_of_verdict (code, false) err op request unix_start context =
      pure (terminal_failure op request.native_id request.request_id code (with_cause context err))

  unfoldable pub classify_for_status :
      GoError → Operation → StatusRequest → ℤ → Text → Io W ProgressResult
  classify_for_status err op request unix_start context =
      status_of_verdict (classify_aws_error (some err)) err op request unix_start context
