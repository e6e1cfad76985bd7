-- ===== src/Ecs/Reading.antt =====
-- Read, readWithClient and decodeLoadBalancersFromProps of pkg/cfres/ecs/service.go: the read of
-- Cloud Control with the cluster as an ARN and the endpoints of the load balancers. The line that
-- only logs is left out.
use formae_plugin_aws.Prelude.Int.{ℤ}
use formae_plugin_aws.Prelude.{
  ◌||◌, not, Option, none, some, List, [], ◌∷◌, ◌++◌, if◌then◌else◌, Io,
}
use formae_plugin_aws.Text.{Text, codes, is_empty, has_prefix}
use formae_plugin_aws.Go.{
  wrap_error, Outcome, returned, panicked, succeed, fail, after, unless_error, deref, call,
}
use formae_plugin_aws.Sdk.{is_no_code, no_code, throttling, ReadRequest, ReadResult}
use formae_plugin_aws.Json.{
  Json, Items, Fields, string, number, object, array, nil, cons, get, put, as_string, Codec,
}
use formae_plugin_aws.Ccx.Read.{decode_map, map_of, with_map}
use formae_plugin_aws.Ecs.Names.{ArnParts, parse_ecs_arn}
use formae_plugin_aws.Ecs.Timeout.{LoadBalancer, CcxClient, Service}
use formae_plugin_aws.Ecs.Elb.{ElbClient, Composition}
use formae_plugin_aws.Ecs.Endpoints.{compose_endpoints}
use formae_plugin_aws.Maps.{Map, fields_of}

abbrev or_empty : Option Text → Text
or_empty none = []
or_empty (some s) = s

-- A string that is there and not empty.
abbrev nonempty_string : Option Json → Option Text
nonempty_string (some (string (c ∷ s))) = some (c ∷ s)
nonempty_string _ = none

-- The cluster as an ARN of the parts that the ARN of the service has.
abbrev inflated : Text → ArnParts → Text
inflated cluster arn =
    codes "arn:"
    ++ (arn.partition
        ++ (codes ":ecs:"
            ++ (arn.region ++ (codes ":" ++ (arn.account ++ (codes ":cluster/" ++ cluster))))))

unfoldable pub inflate_cluster : Fields → Fields
inflate_cluster props =
    let cluster = or_empty (as_string (get (codes "Cluster") props)) in
    if is_empty cluster || has_prefix (codes "arn:") cluster
    then props
    else elim (parse_ecs_arn (or_empty (as_string (get (codes "ServiceArn") props)))) [
      | none ↦ props
      | some arn ↦ put (codes "Cluster") (string (inflated cluster arn)) props
    ]

module _ (int32_of : Text → ℤ) where
  abbrev port_of : Option Json → Option ℤ
  port_of (some (number n)) = some (int32_of n)
  port_of _ = none

  abbrev load_balancer_of : Fields → LoadBalancer
  load_balancer_of m = record {
    container_name = nonempty_string (get (codes "ContainerName") m);
    container_port = port_of (get (codes "ContainerPort") m);
    target_group_arn = nonempty_string (get (codes "TargetGroupArn") m);
  }

  unfoldable pub load_balancers_of : Items → List LoadBalancer
  load_balancers_of nil = []
  load_balancers_of (cons (object m) items) = load_balancer_of m ∷ load_balancers_of items
  load_balancers_of (cons _ items) = load_balancers_of items

  unfoldable pub decode_load_balancers_from_props : Fields → List LoadBalancer
  decode_load_balancers_from_props props = elim (get (codes "LoadBalancers") props) [
    | some (array items) ↦ load_balancers_of items
    | _ ↦ []
  ]

abbrev throttled_result : ReadResult → ReadResult
throttled_result r = record {
  resource_type = r.resource_type;
  properties = [];
  error_code = throttling;
}

abbrev read_result : Codec → ReadResult → Json → ReadResult
read_result c r props = record {
  resource_type = r.resource_type;
  properties = c.marshal props;
  error_code = no_code;
}

module _ {ℓ} {W : Type ℓ} (s : Service W) where
  -- The assignment of a key panics on the nil map that JSON null decodes to.
  unfoldable pub add_endpoints : ReadResult → Json → Map Text → Outcome ReadResult
  add_endpoints r (object props) endpoints = succeed (
      read_result s.codec r (object (put (codes "Endpoints") (object (fields_of endpoints)) props)))
  add_endpoints r _ endpoints = panicked

  unfoldable pub composed_result : ReadResult → Json → Composition → Outcome ReadResult
  composed_result r props composed = elim composed.transient_error [
    | some _ ↦ succeed (throttled_result r)
    | none ↦ add_endpoints r props composed.endpoints
  ]

  -- Without a factory for load balancer clients there are no endpoints.
  unfoldable pub with_endpoints :
      Option (Io W (Outcome (ElbClient W))) → ReadResult → Json → Io W (Outcome ReadResult)
  with_endpoints none r props w = (succeed (read_result s.codec r props), w)
  with_endpoints (some factory) r props w =
      call factory
        (λ e. fail (wrap_error (codes "building ELBv2 client for endpoint composition: ") e))
        (λ elb w'.
          let lbs = decode_load_balancers_from_props s.int32_of (map_of props) in
          let composed = compose_endpoints s.pause elb lbs w' in
          after composed.0 (λ out err. deref out (λ c w''. (composed_result r props c, w'')))
            composed.1)
        w

  unfoldable pub enrich_read : ReadResult → Io W (Outcome ReadResult)
  enrich_read r w =
      if not (is_no_code r.error_code) || is_empty r.properties
      then (succeed r, w)
      else elim (decode_map s.codec r.properties) [
        | none ↦ (
          fail (wrap_error (codes "parsing Service properties: ") (s.codec.error_of r.properties)),
          w,
        )
        | some v ↦ with_endpoints s.elb_client r (with_map v (inflate_cluster (map_of v))) w
      ]

  unfoldable pub read_with_client : CcxClient W → ReadRequest → Io W (Outcome ReadResult)
  read_with_client client request w =
      let answer = client.read_resource request w in
      after answer.0
        (λ res err.
          unless_error err fail
            (elim res [ none ↦ (λ w'. (returned none none, w')) | some r ↦ enrich_read r ]))
        answer.1

  unfoldable pub service_read : ReadRequest → Io W (Outcome ReadResult)
  service_read request =
      call s.ccx_client (λ e. fail (wrap_error (codes "loading CloudControl client: ") e))
        (λ client. read_with_client client request)
