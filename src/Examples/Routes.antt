-- ===== src/Examples/Routes.antt =====
-- A route to a gateway, and a table that cannot be described. The world counts the calls.
use formae_plugin_aws.Prelude.{ℕ, suc, ◌≡◌, refl, none, some, inl}
use formae_plugin_aws.Text.{codes, ◌===◌, cut}
use formae_plugin_aws.Go.{new_error, no_output, succeed, fail}
use formae_plugin_aws.Sdk.{delete, done_result, DeleteRequest}
use formae_plugin_aws.Json.{Fields, null, string, field, end, get}
use formae_plugin_aws.CodeBuild.Ids.{split_n}
use formae_plugin_aws.Ec2.Route.{
  RouteClient, Route, pick_target, build_native_id, parse_route_id, route_delete,
}
use formae_plugin_aws.Ec2.Route.Laws.{Named, build_native_id-Named, route_delete-Undescribed}

abbrev a_route_props : Fields
a_route_props = field (codes "RouteTableId") (string (codes "rtb-1")) (
    field (codes "DestinationCidrBlock") (string (codes "10.0.0.0/8"))
      (field (codes "GatewayId") (string (codes "igw-1")) end))

a_route_id : build_native_id a_route_props ≡ inl (codes "rtb-1|10.0.0.0/8|GatewayId=igw-1")
unfolding build_native_id pick_target get ◌===◌
a_route_id = refl

build_native_id-Named_example : Named a_route_props (codes "rtb-1|10.0.0.0/8|GatewayId=igw-1")
build_native_id-Named_example =
    build_native_id-Named a_route_props (codes "rtb-1|10.0.0.0/8|GatewayId=igw-1") a_route_id

abbrev no_tables : RouteClient ℕ
no_tables = record {
  create_route = λ _ w. (succeed no_output, suc w);
  delete_route = λ _ _ w. (succeed no_output, suc w);
  describe_tables = λ _ w. (fail (new_error (codes "throttled")), suc w);
}

abbrev a_route : Route ℕ
a_route = record {
  route_client = λ w. (succeed no_tables, w);
  codec = record {
    unmarshal = λ _. some null;
    marshal = λ _. codes "{}";
    error_of = λ _. new_error (codes "bad");
  };
}

abbrev a_route_delete : DeleteRequest
a_route_delete = record {
  resource_type = codes "AWS::EC2::Route";
  native_id = codes "rtb-1|10.0.0.0/8|GatewayId=igw-1";
  target_config = none;
}

route_delete-Undescribed_example :
    route_delete a_route a_route_delete 0
    ≡ (succeed (done_result delete a_route_delete.native_id none), 1)
unfolding parse_route_id split_n cut
route_delete-Undescribed_example =
    route_delete-Undescribed a_route no_tables a_route_delete (codes "rtb-1") (codes "10.0.0.0/8")
      none (new_error (codes "throttled")) 0 0 0 1 refl refl refl refl
