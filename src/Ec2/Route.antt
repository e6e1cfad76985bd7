-- ===== src/Ec2/Route.antt =====
-- The provisioner of AWS::EC2::Route, pkg/cfres/ec2/route.go.
pub mod Laws
use formae_plugin_aws.Prelude.{
  Option, none, some, List, [], ◌∷◌, ◌++◌, if◌then◌else◌, Io, ◌⊎◌, inl, inr,
}
use formae_plugin_aws.Text.{Text, codes, ◌===◌}
use formae_plugin_aws.Go.{
  GoError, new_error, wrap_error, Outcome, NoOutput, returned, panicked, succeed, fail, after,
  attempt, call, deref,
}
use formae_plugin_aws.Sdk.{
  no_code, not_found, is_not_found, create, delete, ProgressResult, done_result, CreateRequest,
  UpdateRequest, DeleteRequest, StatusRequest, ReadRequest, ReadResult, ListRequest, ListResult,
}
use formae_plugin_aws.Json.{Json, Fields, string, object, end, field, Codec}
use formae_plugin_aws.Properties.{get_string_property, text_at, unless_bad, decode_or}
use formae_plugin_aws.Acm.Reading.{nonempty}
use formae_plugin_aws.CodeBuild.Ids.{split_n}

-- ec2types.Route, as far as the code reads it
pub record TableRoute : Type 0 where
  pub destination_cidr_block : Option Text
  pub gateway_id : Option Text
  pub nat_gateway_id : Option Text
  pub network_interface_id : Option Text
  pub instance_id : Option Text
  pub transit_gateway_id : Option Text
  pub vpc_peering_connection_id : Option Text

-- ec2.CreateRouteInput
pub record RouteInput : Type 0 where
  pub route_table_id : Text
  pub destination : Text
  pub gateway : Option Text
  pub nat_gateway : Option Text
  pub network_interface : Option Text
  pub instance_target : Option Text
  pub transit_gateway : Option Text
  pub vpc_endpoint : Option Text
  pub vpc_peering_connection : Option Text

-- A table of the answer is its routes; a route is deleted by its table and its destination.
pub record RouteClient {ℓ} (W : Type ℓ) : Type ℓ where
  pub create_route : RouteInput → Io W (Outcome NoOutput)
  pub delete_route : Text → Text → Io W (Outcome NoOutput)
  pub describe_tables : Text → Io W (Outcome (List (List TableRoute)))

-- The struct Route: a client for its configuration, and encoding/json.
pub record Route {ℓ} (W : Type ℓ) : Type ℓ where
  pub route_client : Io W (Outcome (RouteClient W))
  pub codec : Codec

abbrev pub target_keys : List Text
target_keys =
    codes "GatewayId"
    ∷ codes "NatGatewayId"
    ∷ codes "NetworkInterfaceId"
    ∷ codes "InstanceId"
    ∷ codes "TransitGatewayId"
    ∷ codes "VpcEndpointId"
    ∷ codes "VpcPeeringConnectionId"
    ∷ []

abbrev chosen_or_error : Option (Text × Text) → (Text × Text) ⊎ GoError
chosen_or_error none = inr (new_error (codes "no route target set"))
chosen_or_error (some t) = inl t

-- The value of a key, after the target that is chosen so far: a second target is an error.
abbrev pub choose :
    Option (Text × Text)
    → Text
    → Text
    → (Option (Text × Text) → (Text × Text) ⊎ GoError)
    → (Text × Text) ⊎ GoError
choose chosen key [] rest = rest chosen
choose none key (c ∷ s) rest = rest (some (key, c ∷ s))
choose (some (other, v)) key (c ∷ s) rest =
    inr (new_error (codes "multiple route targets set: " ++ (other ++ (codes " and " ++ key))))

unfoldable pub pick_target : Fields → List Text → Option (Text × Text) → (Text × Text) ⊎ GoError
pick_target props [] chosen = chosen_or_error chosen
pick_target props (key ∷ keys) chosen =
    choose chosen key (text_at key props) (λ now. pick_target props keys now)

abbrev pub route_id : Text → Text → Text × Text → Text
route_id table cidr (key, value) = table ++ b'|' ∷ (cidr ++ b'|' ∷ (key ++ b'=' ∷ value))

abbrev pub id_of_target : Text ⊎ GoError → Text ⊎ GoError → (Text × Text) ⊎ GoError → Text ⊎ GoError
id_of_target (inr e) cidr target = inr (wrap_error (codes "invalid RouteTableId: ") e)
id_of_target (inl table) (inr e) target =
    inr (wrap_error (codes "invalid DestinationCidrBlock: ") e)
id_of_target (inl table) (inl cidr) (inr e) = inr e
id_of_target (inl table) (inl cidr) (inl target) = inl (route_id table cidr target)

unfoldable pub build_native_id : Fields → Text ⊎ GoError
unfolding pick_target
build_native_id props =
    id_of_target (get_string_property props (codes "RouteTableId"))
      (get_string_property props (codes "DestinationCidrBlock"))
      (pick_target props target_keys none)

abbrev route_input : Fields → Text → Text → RouteInput
route_input props table cidr = record {
  route_table_id = table;
  destination = cidr;
  gateway = nonempty (text_at (codes "GatewayId") props);
  nat_gateway = nonempty (text_at (codes "NatGatewayId") props);
  network_interface = nonempty (text_at (codes "NetworkInterfaceId") props);
  instance_target = nonempty (text_at (codes "InstanceId") props);
  transit_gateway = nonempty (text_at (codes "TransitGatewayId") props);
  vpc_endpoint = nonempty (text_at (codes "VpcEndpointId") props);
  vpc_peering_connection = nonempty (text_at (codes "VpcPeeringConnectionId") props);
}

-- The first route with the destination.
unfoldable pub find_route : Text → List TableRoute → Option TableRoute
find_route cidr [] = none
find_route cidr (route ∷ routes) =
    let rest = find_route cidr routes in
    elim route.destination_cidr_block [
      | none ↦ rest
      | some d ↦ if d === cidr then some route else rest
    ]

abbrev or_target : Text → Option Text → Fields → Fields
or_target key none rest = rest
or_target key (some v) rest = field key (string v) end

-- The first target that the route has.
abbrev route_target : TableRoute → Fields
route_target route = or_target (codes "GatewayId") route.gateway_id (
    or_target (codes "NatGatewayId") route.nat_gateway_id (
      or_target (codes "NetworkInterfaceId") route.network_interface_id (
        or_target (codes "InstanceId") route.instance_id (
          or_target (codes "TransitGatewayId") route.transit_gateway_id
            (or_target (codes "VpcPeeringConnectionId") route.vpc_peering_connection_id end)))))

abbrev pub no_route : ReadResult
no_route = record {
  resource_type = codes "AWS::EC2::Route";
  properties = [];
  error_code = not_found;
}

abbrev route_failed : Text → {A : Type 0} → GoError → Outcome A
route_failed context e = fail (wrap_error context e)

abbrev pub parts_or_error : Text → List Text → (Text × Text) ⊎ GoError
parts_or_error id (table ∷ cidr ∷ target ∷ []) = inl (table, cidr)
parts_or_error id _ = inr (
    new_error (
      codes "invalid NativeID format: expected RouteTableId|DestinationCidrBlock|target, got: "
      ++ id))

-- The table and the destination of a native id.
unfoldable pub parse_route_id : Text → (Text × Text) ⊎ GoError
unfolding split_n
parse_route_id id = parts_or_error id (split_n b'|' 2 id)

module _ {ℓ} {W : Type ℓ} (r : Route W) where
  abbrev route_properties : Text → Text → TableRoute → ReadResult
  route_properties table cidr route = record {
    resource_type = codes "AWS::EC2::Route";
    properties = r.codec.marshal (
        object (
          field (codes "RouteTableId") (string table)
            (field (codes "DestinationCidrBlock") (string cidr) (route_target route))));
    error_code = no_code;
  }

  abbrev route_found : Text → Text → List (List TableRoute) → ReadResult
  route_found table cidr [] = no_route
  route_found table cidr (routes ∷ more) = elim (find_route cidr routes) [
    | none ↦ no_route
    | some route ↦ route_properties table cidr route
  ]

  -- Any error of the description counts as a route that is not there.
  abbrev pub describe_route : RouteClient W → Text × Text → Io W (Outcome ReadResult)
  describe_route client (table, cidr) =
      call (client.describe_tables table) (λ e. succeed no_route)
        (λ tables w. (succeed (route_found table cidr tables), w))

  unfoldable pub route_read : ReadRequest → Io W (Outcome ReadResult)
  unfolding find_route
  route_read request =
      call r.route_client (route_failed (codes "unable to load AWS config: "))
        (λ client. unless_bad (parse_route_id request.native_id) fail (describe_route client))

  abbrev created_route : Text ⊎ GoError → Io W (Outcome ProgressResult)
  created_route (inr e) w = (fail e, w)
  created_route (inl id) w = (succeed (done_result create id none), w)

  unfoldable route_create : CreateRequest → Io W (Outcome ProgressResult)
  unfolding build_native_id
  route_create request =
      call r.route_client (route_failed (codes "unable to load AWS config: ")) (λ client.
        decode_or r.codec (codes "failed to parse properties: ") request.properties (λ props.
          unless_bad (get_string_property props (codes "RouteTableId"))
            (route_failed (codes "invalid RouteTableId: "))
            (λ table.
              unless_bad (get_string_property props (codes "DestinationCidrBlock"))
                (route_failed (codes "invalid DestinationCidrBlock: "))
                (λ cidr.
                  attempt (client.create_route (route_input props table cidr))
                    (route_failed (codes "failed to create route: "))
                    (created_route (build_native_id props))))))

  abbrev delete_parts : RouteClient W → Text × Text → Io W (Outcome ProgressResult)
  delete_parts client (table, cidr) =
      attempt (client.delete_route table cidr) (route_failed (codes "failed to delete route: "))
        (λ w. (succeed (done_result delete (table ++ b'|' ∷ cidr) none), w))

  abbrev pub delete_found :
      DeleteRequest → RouteClient W → ReadResult → Io W (Outcome ProgressResult)
  delete_found request client read w =
      if is_not_found read.error_code
      then (succeed (done_result delete request.native_id none), w)
      else unless_bad (parse_route_id request.native_id) fail (delete_parts client) w

  unfoldable pub route_delete : DeleteRequest → Io W (Outcome ProgressResult)
  unfolding route_read
  route_delete request =
      call r.route_client (route_failed (codes "unable to load AWS config: ")) (λ client.
        call
          (route_read
            (record { resource_type = []; native_id = request.native_id; target_config = none }))
          (route_failed (codes "failed to read route before delete: "))
          (delete_found request client))

  unfoldable route_update : UpdateRequest → Io W (Outcome ProgressResult)
  route_update request w = (
    fail (
        new_error (
          codes
            "update is not supported for AWS::EC2::Route resources; delete and recreate instead")),
    w,
  )

  unfoldable route_status : StatusRequest → Io W (Outcome ProgressResult)
  route_status request w =
      (fail (new_error (codes "status check is not implemented for AWS::EC2::Route resources")), w)

  unfoldable route_list : ListRequest → Io W (Outcome ListResult)
  route_list request w = (succeed (record { native_ids = []; next_page_token = none }), w)
