-- ===== src/Ecs/Elb.antt =====
-- The data of the load balancing SDK that pkg/cfres/ecs touches, and the interface elbv2Client of
-- clients.go.
use formae_plugin_aws.Prelude.Int.{ℤ}
use formae_plugin_aws.Prelude.{Bool, Option, List, Io}
use formae_plugin_aws.Text.{Text}
use formae_plugin_aws.Go.{GoError, Outcome}
use formae_plugin_aws.Maps.{Map}

pub record TargetGroup : Type 0 where
  pub target_group_arn : Option Text
  pub load_balancer_arns : List Text

-- elbv2types.LoadBalancer: whether its type is application, and its name.
pub record Balancer : Type 0 where
  pub load_balancer_arn : Option Text
  pub is_application : Bool
  pub dns_name : Option Text

-- The ARNs of a forward config's target groups are there if the config is.
pub record Action : Type 0 where
  pub is_forward : Bool
  pub target_group_arn : Option Text
  pub forward_config : Option (List (Option Text))

pub data Protocol : Type 0 where
  http https other_protocol : Protocol

pub record Listener : Type 0 where
  pub port : Option ℤ
  pub protocol : Protocol
  pub default_actions : List Action

-- Of the health of a target group, for each target whether it has a health and that is healthy.
pub record ElbClient {ℓ} (W : Type ℓ) : Type ℓ where
  pub describe_target_health : Text → Io W (Outcome (List Bool))
  pub describe_target_groups : List Text → Io W (Outcome (List TargetGroup))
  pub describe_load_balancers : List Text → Io W (Outcome (List Balancer))
  pub describe_listeners : Text → Io W (Outcome (List Listener))

-- ComposeResult of endpoints.go
pub record Composition : Type 0 where
  pub endpoints : Map Text
  pub transient_error : Option GoError
