-- ===== src/Examples/Services.antt =====
-- An ECS provisioner whose clock stands still.
use formae_plugin_aws.Prelude.Int.{pos}
use formae_plugin_aws.Prelude.{
  ℕ, suc, Io, ◌≤◌, ◌<◌, ◌*◌, ◌-◌, ◌+◌, ◌≡◌, ◌≢◌, refl, ◌⊎◌, inl, false, Option, none, some, ◌∷◌, [],
  arith,
}
use formae_plugin_aws.Text.{codes}
use formae_plugin_aws.Go.{GoError, Outcome, succeed, new_error}
use formae_plugin_aws.Sdk.{
  create, success, failure, in_progress, ProgressResult, ReadResult, ReadRequest, StatusRequest,
  no_code, general_service_exception,
}
use formae_plugin_aws.Json.{object, end}
use formae_plugin_aws.Ecs.Names.{
  Composite, Names, op_seg_create, compose_request_id, parse_composite, parse_cluster_and_service,
  pending_native_id, build_canonical_native_id,
}
use formae_plugin_aws.Ecs.Names.RoundTrip.{
  segment_of, parse_composite-compose_request_id, parse_cluster_and_service_lem,
}
use formae_plugin_aws.Ecs.Classify.{classify_aws_error, classify_for_entry}
use formae_plugin_aws.Ecs.Classify.Laws.{is_passing, classify_for_entry-is_passing}
use formae_plugin_aws.Ecs.Timeout.{
  EcsService, EcsClient, rollout_completed, CcxClient, Service, bounded_in_progress,
}
use formae_plugin_aws.Ecs.Timeout.Laws.{bounded_in_progress_exact}
use formae_plugin_aws.Ecs.Wrap.{wrap_for_create}
use formae_plugin_aws.Ecs.Wrap.Laws.{wrap_for_create_lem}
use formae_plugin_aws.Ecs.Steps.Laws.{Answers}
use formae_plugin_aws.Ecs.PhaseB
use formae_plugin_aws.Ecs.PhaseB.Answers
use formae_plugin_aws.Ecs.PhaseA.{check_phase_a}
use formae_plugin_aws.Ecs.PhaseA.Laws.{Sound, check_phase_a-Sound}

abbrev a_result : ProgressResult
a_result = record {
  operation = create;
  operation_status = in_progress;
  request_id = codes "token";
  native_id = [];
  status_message = codes "working";
  error_code = no_code;
  resource_properties = none;
}

abbrev a_read : ReadResult
a_read = record { resource_type = codes "T"; properties = codes "{}"; error_code = no_code }

abbrev a_client : CcxClient ℕ
a_client = record {
  create_resource = λ _ w. (succeed (some a_result), suc w);
  update_resource = λ _ w. (succeed (some a_result), suc w);
  status_resource = λ _ _ w. (succeed (some a_result), suc w);
  read_resource = λ _ w. (succeed a_read, suc w);
}

-- A service with all its tasks, and a client that finds it.
abbrev a_stable_service : EcsService
a_stable_service = record {
  status = some (codes "ACTIVE");
  service_arn = some (codes "arn:aws:ecs:r:1:service/c/s");
  cluster_arn = some (codes "arn:aws:ecs:r:1:cluster/c");
  desired_count = pos 2;
  running_count = pos 2;
  deployments =
      record {
        status = some (codes "PRIMARY");
        rollout_state = rollout_completed;
        rollout_state_reason = none;
        created_at = none;
      }
      ∷ [];
  load_balancers = [];
}

abbrev an_ecs_client : EcsClient ℕ
an_ecs_client = record {
  describe_services =
      λ _ _ w. (succeed (record { failure_reasons = []; services = a_stable_service ∷ [] }), suc w);
}

abbrev a_service : Service ℕ
a_service = record {
  ccx_client = λ w. (succeed a_client, w);
  ecs_client = λ w. (succeed an_ecs_client, w);
  elb_client = none;
  codec = record {
    unmarshal = λ _. some (object end);
    marshal = λ _. codes "null";
    error_of = λ _. new_error (codes "bad");
  };
  int32_of = λ _. pos 0;
  quote = λ t. t;
  code_text = λ _. codes "code";
  rollout_text = λ _. codes "other";
  now = λ w. (record { seconds = pos 1700001500; nanos = 0 }, w);
  pause = λ _ w. (none, w);
  operation_timeout = pos 1200000000000;
  final_read_grace = pos 120000000000;
  duration_text = λ _. codes "20m0s";
  status_text = λ _. codes "other";
}

abbrev a_poll : StatusRequest
a_poll = record {
  resource_type = codes "AWS::ECS::Service";
  request_id = compose_request_id op_seg_create (pos 1700000000) (codes "token");
  native_id = pending_native_id (codes "c") (codes "s");
  target_config = none;
}

parse_composite-compose_request_id_example :
    parse_composite (compose_request_id (segment_of create) (pos 1700000000) (codes "token/2"))
    ≡ some (record { op = create; unix_start = pos 1700000000; ccapi_token = codes "token/2" })
parse_composite-compose_request_id_example =
    parse_composite-compose_request_id create (pos 1700000000) (codes "token/2") (inl refl)
      (omega arith, omega arith)

parse_cluster_and_service_lem_example :
    (parse_cluster_and_service
        (build_canonical_native_id (codes "arn:aws:ecs:r:1:service/c/s") (codes "c"))
      ≡ some (record { cluster = codes "c"; service = codes "s" }))
    × (parse_cluster_and_service (pending_native_id (codes "c") (codes "s"))
        ≡ some (record { cluster = codes "c"; service = codes "s" }))
parse_cluster_and_service_lem_example =
    parse_cluster_and_service_lem (codes "aws:ecs:r:1:service/c") (codes "c") (codes "s")
      (omega arith) (omega arith) (λ e. ground arith) (λ e. ground arith)

abbrev denied : GoError
denied = record (new_error (codes "denied")) {
  api_error = some (record { code = codes "AccessDenied"; fault_server = false });
}

classify_for_entry-is_passing_example :
    ((classify_aws_error (some denied)).1
      ≡ is_passing (classify_for_entry denied create [] (codes "ccx")).error_code)
    × ((classify_for_entry denied create [] (codes "ccx")).error_code
        ≡ (classify_aws_error (some denied)).0)
classify_for_entry-is_passing_example = classify_for_entry-is_passing denied create [] (codes "ccx")

abbrev no_error : Option GoError
no_error = none

bounded_in_progress_exact_example :
    let pr =
      (bounded_in_progress a_service create a_poll (pos 1700000000) (pos 1200000000000) [] 0).0 in
    ((1000000000 * (1700001500 - 1700000000) + 0 ≤ 1200000000000)
      × ((pr.operation_status ≡ in_progress)
          × ((pr.request_id ≡ a_poll.request_id) × (pr.native_id ≡ a_poll.native_id))))
    ⊎ ((1200000000000 < 1000000000 * (1700001500 - 1700000000) + 0)
        × ((pr.operation_status ≡ failure)
            × ((pr.error_code ≡ general_service_exception) × (pr.native_id ≡ a_poll.native_id))))
bounded_in_progress_exact_example =
    bounded_in_progress_exact a_service create a_poll [] 0 1700001500 0 1700000000 1200000000000
      refl (omega arith) (omega arith) (omega arith)

wrap_for_create_lem_example :
    (out : ProgressResult) × (((wrap_for_create a_service
          (codes "c")
          (codes "s")
          (some a_result)
          0).0
        ≡ some out)
      × ((out.operation_status ≢ success)
          × ((parse_composite out.request_id
                ≡ some (record {
                  op = create;
                  unix_start = pos 1700001500;
                  ccapi_token = codes "token";
                }))
              × (parse_cluster_and_service out.native_id
                  ≡ some (record { cluster = codes "c"; service = codes "s" })))))
wrap_for_create_lem_example =
    wrap_for_create_lem a_service (codes "c") (codes "s") a_result 0 (λ e. ground arith) refl
      (omega arith, omega arith) (omega arith) (λ e. ground arith) (λ e. ground arith)

abbrev a_reader : ReadRequest → Io ℕ (Outcome ReadResult)
a_reader _ w = (succeed a_read, w)

check_phase_a-Sound_example :
    Sound a_service create a_poll
      (pos 1700000000)
      a_reader
      (codes "token")
      0
      (check_phase_a a_service a_reader a_poll create (pos 1700000000) (codes "token") 0)
check_phase_a-Sound_example =
    check_phase_a-Sound a_service create a_poll (pos 1700000000) a_reader (codes "token") 0

-- The request id and the native id of the poll, as they are parsed.
abbrev a_composite : Composite
a_composite = record { op = create; unix_start = pos 1700000000; ccapi_token = codes "token" }

abbrev some_names : Names
some_names = record { cluster = codes "c"; service = codes "s" }
