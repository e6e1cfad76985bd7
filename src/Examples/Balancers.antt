-- ===== src/Examples/Balancers.antt =====
-- A service behind one application load balancer, whose calls are counted.
use formae_plugin_aws.Prelude.Int.{pos}
use formae_plugin_aws.Prelude.{
  ℕ, suc, ◌+◌, ◌<◌, ◌≤◌, ◌≡◌, refl, ◌↔◌, Option, none, some, ◌∷◌, [], true, false, Io,
}
use formae_plugin_aws.Text.{codes}
use formae_plugin_aws.Go.{GoError, ApiError, Outcome, succeed, fail, new_error}
use formae_plugin_aws.Ecs.Timeout.{LoadBalancer}
use formae_plugin_aws.Ecs.Elb.{ElbClient, http}
use formae_plugin_aws.Ecs.Endpoints.{compose_endpoints}
use formae_plugin_aws.Ecs.Endpoints.Laws.{Published, compose_endpoints-Published}
use formae_plugin_aws.Ecs.Endpoints.Retries.{one_of, permanent_codes, is_transient, with_retries}
use formae_plugin_aws.Ecs.Endpoints.Retries.Laws.{Counts, is_transient_iff, with_retries-calls}

abbrev an_elb_client : ElbClient ℕ
an_elb_client = record {
  describe_target_health = λ _ w. (succeed (true ∷ []), suc w);
  describe_target_groups = λ _ w. (
    succeed
        (record { target_group_arn = some (codes "t"); load_balancer_arns = codes "l" ∷ [] } ∷ []),
    suc w,
  );
  describe_load_balancers = λ _ w. (
    succeed (
        record {
          load_balancer_arn = some (codes "l");
          is_application = true;
          dns_name = some (codes "d");
        }
        ∷ []),
    suc w,
  );
  describe_listeners = λ _ w. (
    succeed (
        record {
          port = some (pos 80);
          protocol = http;
          default_actions =
              record {
                is_forward = true;
                target_group_arn = some (codes "t");
                forward_config = none;
              }
              ∷ [];
        }
        ∷ []),
    suc w,
  );
}

abbrev no_end : ℕ → Io ℕ (Option GoError)
no_end n w = (none, w)

abbrev an_entry : LoadBalancer
an_entry = record {
  container_name = some (codes "web");
  container_port = some (pos 8080);
  target_group_arn = some (codes "t");
}

compose_endpoints-Published_example :
    Published an_elb_client
      (an_entry ∷ [])
      (codes "web:8080")
      (compose_endpoints no_end an_elb_client (an_entry ∷ []) 0).0
compose_endpoints-Published_example =
    compose_endpoints-Published no_end an_elb_client (an_entry ∷ []) (codes "web:8080") 0

abbrev no_group : GoError
no_group = record (new_error (codes "no group")) {
  api_error = some (record { code = codes "TargetGroupNotFound"; fault_server = true });
}

is_transient_iff_example :
    (is_transient no_group ≡ false)
    ↔ ((ae : ApiError) × ((no_group.api_error ≡ some ae) × (one_of permanent_codes ae.code ≡ true)))
is_transient_iff_example = is_transient_iff no_group

-- A call that always fails.
abbrev failing : Io ℕ (Outcome ℕ)
failing w = (fail (new_error (codes "EOF")), suc w)

abbrev itself : ℕ → ℕ
itself n = n

failing-Counts : Counts no_end failing itself
failing-Counts = record { calls = λ w. refl; pauses = λ n w. refl }

with_retries-calls_example :
    (itself 0 < itself (with_retries no_end failing 0).1)
    × (itself (with_retries no_end failing 0).1 ≤ itself 0 + 3)
with_retries-calls_example = with_retries-calls no_end failing itself failing-Counts 0
