-- ===== src/Ccx/Write/Laws.antt =====
-- What the three mutations send and return.
use formae_plugin_aws.Prelude.{
  ◌≡◌, ◌≢◌, true, false, ◌&&◌, Option, none, some, [], arith, is_some, ◌⊎◌, inl, inr, Bool-cases,
  Option-cases, if◌then◌else◌,
}
use formae_plugin_aws.Text.{Text}
use formae_plugin_aws.Go.{GoError, returned, succeed}
use formae_plugin_aws.Go.Laws.{call_ok}
use formae_plugin_aws.Sdk.{
  create, delete, success, CcStatus, cc_success, is_cc_success, is_not_found, CreateRequest,
  UpdateRequest, DeleteRequest, ProgressEvent, ProgressResult,
}
use formae_plugin_aws.Status.{from_operation_status}
use formae_plugin_aws.Props.{requires_map_tags}
use formae_plugin_aws.Ccx.Cloud.{Cloud, Description}
use formae_plugin_aws.Ccx.Identifier.{normalize_composite_identifier}
use formae_plugin_aws.Ccx.Write.{
  to_string, create_body, event_result, api_error, created, create_resource, update_resource,
  deleted, delete_resource,
}

-- The identifier of an event, in the form in which Cloud Control lists it.
abbrev listed_identifier : Option Text → Text
listed_identifier none = []
listed_identifier (some id) = normalize_composite_identifier id

-- The result of a delete that Cloud Control accepted.
abbrev delete_result : Text → ProgressEvent → ProgressResult
delete_result token event = record {
  operation = delete;
  operation_status =
      if is_not_found event.error_code
      then success
      else from_operation_status event.operation_status;
  request_id = token;
  native_id = [];
  status_message = to_string event.status_message;
  error_code = event.error_code;
  resource_properties = none;
}

module _ {ℓ} {W : Type ℓ} (c : Cloud W) where
  deleted_lem :
      (event : ProgressEvent) (token : Text) (w : W)
      → event.request_token ≡ some token
      → deleted c event w ≡ (succeed (delete_result token event), w)
  unfolding deleted
  deleted_lem event token w e = elim (Bool-cases (is_not_found event.error_code)) [
    | inl gone ↦ rw (deleted, e) (rw gone)
    | inr there ↦ rw (deleted, e) (rw there)
  ]

  -- An accepted delete gives a result with the request token, the message and the error code of the
  -- event; its status is that of the event, but a success if the resource was already gone.
  delete_resource_lem :
      (request : DeleteRequest) (event : ProgressEvent) (token : Text) (w w' : W)
      → c.delete_resource request.resource_type request.native_id w
        ≡ (returned (some event) none, w')
      → event.request_token ≡ some token
      → delete_resource c request w ≡ (succeed (delete_result token event), w')
  unfolding delete_resource
  delete_resource_lem request event token w w' sent e =
      rw (call_ok _ (api_error c delete) (deleted c) w w' event sent) (deleted_lem event token w' e)

  -- An update is sent only after the resource was found, and never as a patch of a type whose tags are
  -- a map: in these cases the world is as the lookup left it.
  pub update_resource_guarded :
      (request : UpdateRequest) (w : W) (out : Option Description) (err : Option GoError)
      → (c.get_resource request.resource_type request.native_id w).0 ≡ returned out err
      → ((x : GoError) × (err ≡ some x))
        ⊎ (requires_map_tags request.resource_type && is_some request.patch_document ≡ true)
      → (update_resource c request w).1
        ≡ (c.get_resource request.resource_type request.native_id w).1
  unfolding update_resource
  update_resource_guarded request w out (some y) got (inl (x, e)) = rw (update_resource, got)
  update_resource_guarded request w out none got (inl (x, e)) = cc
  update_resource_guarded request w out (some x) got (inr h) = rw (update_resource, got)
  update_resource_guarded request w out none got (inr h) = rw (update_resource, got) (rw h)

  created_lem :
      (request : CreateRequest) (event : ProgressEvent) (token : Text) (w : W)
      → event.request_token ≡ some token
      → event.operation_status ≢ cc_success
      → created c request event w
        ≡ (succeed (event_result create (listed_identifier event.identifier) token event), w)
  unfolding created
  created_lem request event token w e running =
      let open_still : is_cc_success event.operation_status ≡ false = not_success _ running in
      elim (Option-cases event.identifier) [
        | inl absent ↦ rw (created, absent) (rw (open_still, e))
        | inr (id, there) ↦ rw (created, there) (rw e (rw open_still))
      ]
    where
      not_success : (s : CcStatus) → s ≢ cc_success → is_cc_success s ≡ false
      not_success s h = ground arith

  -- A create that Cloud Control accepts without finishing it gives the token to poll with and the
  -- identifier in its listed form.
  create_resource_accepted :
      (request : CreateRequest) (body token : Text) (event : ProgressEvent) (w w' : W)
      → create_body c.codec request.resource_type request.properties ≡ inl body
      → c.create_resource request.resource_type body w ≡ (returned (some event) none, w')
      → event.request_token ≡ some token
      → event.operation_status ≢ cc_success
      → create_resource c request w
        ≡ (succeed (event_result create (listed_identifier event.identifier) token event), w')
  unfolding create_resource
  create_resource_accepted request body token event w w' eb sent e running =
      rw (create_resource, eb)
        (rw (call_ok _ (api_error c create) (created c request) w w' event sent)
          (created_lem request event token w' e running))
