-- ===== src/Ecs/Endpoints.antt =====
-- pkg/cfres/ecs/endpoints.go: the address of each load balancer of a service, from the target group,
-- the application load balancer in front of it and its forwarding listener. Lines that only log are
-- left out.
pub mod Retries
pub mod Entry
pub mod Collect
pub mod Laws
use formae_plugin_aws.Prelude.{ℕ, Option, none, some, List, [], ◌∷◌, if◌then◌else◌, Io}
use formae_plugin_aws.Text.{Text}
use formae_plugin_aws.Go.{GoError, Outcome, returned, panicked, succeed, after, deref}
use formae_plugin_aws.Maps.{Map, insert}
use formae_plugin_aws.Ecs.Timeout.{LoadBalancer}
use formae_plugin_aws.Ecs.Elb.{TargetGroup, Balancer, Listener, ElbClient, Composition}
use formae_plugin_aws.Ecs.Endpoints.Retries.{is_transient, with_retries}
use formae_plugin_aws.Ecs.Endpoints.Entry.{compose_one_entry}
use formae_plugin_aws.Ecs.Endpoints.Collect.{
  unique_tg_arns, unique_alb_arns, index_tgs_by_arn, index_lbs_by_arn,
}

-- The addresses of the entries that have one; a later entry replaces an earlier one of its key.
unfoldable pub compose_entries :
    Map TargetGroup → Map Balancer → Map (List Listener) → List LoadBalancer → Map Text → Map Text
compose_entries tgs albs listeners [] out = out
compose_entries tgs albs listeners (lb ∷ lbs) out =
    compose_entries tgs albs listeners lbs (elim (compose_one_entry lb tgs albs listeners) [
      | none ↦ out
      | some (key, url) ↦ insert key url out
    ])

-- No endpoints, with an error that is worth another try.
abbrev pub stopped : GoError → Composition
stopped e = record { endpoints = []; transient_error = if is_transient e then some e else none }

abbrev no_endpoints : Composition
no_endpoints = record { endpoints = []; transient_error = none }

abbrev pub worth_after : GoError → Option GoError → Option GoError
worth_after e worth = if is_transient e then some e else worth

module _ {ℓ} {W : Type ℓ} (pause : ℕ → Io W (Option GoError)) where
  -- describeTargetGroupsRetry, describeLoadBalancersRetry and describeListenersRetry, and what their
  -- callers do with an error and with the list.
  unfoldable pub describe_retry {κ} :
      {A : Type κ} {B : Type 0}
      → Io W (Outcome A)
      → (GoError → Io W (Outcome B))
      → (A → Io W (Outcome B))
      → Io W (Outcome B)
  describe_retry fn f k w =
      let asked = with_retries pause fn w in
      after asked.0 (λ out err. elim err [ some e ↦ f e | none ↦ deref out k ]) asked.1

  module _ (elb : ElbClient W) where
    -- The listeners of each load balancer, and the last error that is worth another try.
    unfoldable pub listeners_of :
        List Text
        → Map (List Listener)
        → Option GoError
        → (Map (List Listener) → Option GoError → Io W (Outcome Composition))
        → Io W (Outcome Composition)
    listeners_of [] found worth k = k found worth
    listeners_of (arn ∷ arns) found worth k =
        describe_retry (elb.describe_listeners arn)
          (λ e. listeners_of arns found (worth_after e worth) k)
          (λ listeners. listeners_of arns (insert arn listeners found) worth k)

    abbrev pub stop : GoError → Io W (Outcome Composition)
    stop e w = (succeed (stopped e), w)

    abbrev pub finish :
        List LoadBalancer
        → Map TargetGroup
        → Map Balancer
        → Map (List Listener)
        → Option GoError
        → Io W (Outcome Composition)
    finish lbs tgs albs listeners worth w = (
      succeed (record {
        endpoints = compose_entries tgs albs listeners lbs [];
        transient_error = worth;
      }),
      w,
    )

    -- Without load balancer ARNs there is nothing to describe.
    unfoldable pub describe_balancers :
        List Text → (Map Balancer → Io W (Outcome Composition)) → Io W (Outcome Composition)
    describe_balancers [] k = k []
    describe_balancers (arn ∷ arns) k =
        describe_retry (elb.describe_load_balancers (arn ∷ arns)) stop
          (λ found. k (index_lbs_by_arn found))

    unfoldable pub describe_groups : List LoadBalancer → List Text → Io W (Outcome Composition)
    unfolding describe_balancers
    describe_groups lbs [] w = (succeed no_endpoints, w)
    describe_groups lbs (arn ∷ arns) w =
        describe_retry (elb.describe_target_groups (arn ∷ arns)) stop
          (λ tgs.
            let balancers = unique_alb_arns tgs in
            describe_balancers balancers
              (λ albs. listeners_of balancers [] none (finish lbs (index_tgs_by_arn tgs) albs)))
          w

    unfoldable pub compose_endpoints : List LoadBalancer → Io W (Outcome Composition)
    unfolding describe_groups
    compose_endpoints lbs = describe_groups lbs (unique_tg_arns lbs)
