-- ===== src/Ccx/Poll/Laws.antt =====
-- Which progress events end an operation, and how.
use formae_plugin_aws.Prelude.{
  ◌⊎◌, ◌||◌, ◌≡◌, refl, ◌&&◌, not, Option, none, some, arith, Io, Bool-cases, inl, inr,
  if◌then◌else◌, ◌∙◌,
}
use formae_plugin_aws.Go.{GoError, Outcome, returned, succeed, fail}
use formae_plugin_aws.Sdk
use formae_plugin_aws.Sdk.{
  CcOperation, cc_create, cc_delete, CcStatus, cc_failed, success, failure, in_progress, is_success,
  is_not_found, StatusRequest, ReadRequest, ReadResult, ProgressEvent, ProgressResult,
}
use formae_plugin_aws.Go.Laws.{after_holds, deref_holds, call_holds}
use formae_plugin_aws.Status.{from_operation_status}
use formae_plugin_aws.Ccx.Cloud.{Cloud}
use formae_plugin_aws.Ccx.Read.{with_read}
use formae_plugin_aws.Ccx.Read.Laws.{take_properties_same}
use formae_plugin_aws.Ccx.Write.{to_string}
use formae_plugin_aws.Ccx.Retry.{retry_read, default_opts}
use formae_plugin_aws.Ccx.Errors.{is_invalid_request}
use formae_plugin_aws.Ccx.Poll.{
  is_not_stabilized, is_create, remapped_status, status_result, is_delete, enrich, poll,
  status_resource, identifier_of,
}

module _ {ℓ} {W : Type ℓ} (c : Cloud W) where
  -- Cloud Control's "not stabilized", a create whose resource is not found yet, and a create that waits
  -- for a target group's load balancer keep the agent polling; any other event has its own status.
  remapped_status_lem :
      (event : ProgressEvent)
      → remapped_status c event ≡ (
          if is_not_stabilized event.error_code
            || (is_create event.operation
                && (is_not_found event.error_code
                    || (is_invalid_request event.error_code
                        && c.matches_target_group (to_string event.status_message))))
          then in_progress
          else from_operation_status event.operation_status)
  unfolding remapped_status
  remapped_status_lem event = ground arith

  module _ (read : ReadRequest → Io W (Outcome ReadResult)) where
    -- Deleting what is gone has succeeded: the result is a success, and nothing is read.
    poll_deleted :
        (request : StatusRequest) (event : ProgressEvent) (w : W)
        → event.operation ≡ cc_delete
        → event.error_code ≡ Sdk.not_found
        → poll c read request event w ≡ (succeed (status_result c request success event), w)
    unfolding poll
    poll_deleted request event w o e = rw (o, e)

-- A result for the request at hand, with properties only if the operation has succeeded.
abbrev pub Follows : StatusRequest → Outcome ProgressResult → Type 0
Follows request (returned (some pr) err) =
    (pr.request_id ≡ request.request_id)
    × ((pr.operation_status ≡ success) ⊎ (pr.resource_properties ≡ none))
Follows request _ = Unit

module _ {ℓ} {W : Type ℓ} (c : Cloud W) (read : ReadRequest → Io W (Outcome ReadResult)) where
  with_read-Follows :
      (request : StatusRequest) (pr : ProgressResult) (res : Option ReadResult)
      (err : Option GoError) (w : W)
      → pr.request_id ≡ request.request_id
      → pr.operation_status ≡ success
      → Follows request (with_read pr res err w).0
  unfolding with_read
  with_read-Follows request pr res err w same done =
      let kept = take_properties_same pr res err in (kept.2 ∙ same, inl (kept.1 ∙ done))

  enrich-Follows :
      (request : StatusRequest) (event : ProgressEvent) (pr : ProgressResult) (w : W)
      → pr.request_id ≡ request.request_id
      → pr.operation_status ≡ success
      → Follows request (enrich c read request event pr w).0
  unfolding enrich with_read
  enrich-Follows request event pr w same done =
      deref_holds (Follows request) tt event.type_name _ w (λ type_name w'.
        let read_request : ReadRequest = record {
          resource_type = type_name;
          native_id = identifier_of event.identifier;
          target_config = request.target_config;
        } in
        let got = retry_read c.clock default_opts (read read_request) w' in
        after_holds (Follows request) tt got.0 (with_read pr) got.1
          (λ res err w''. with_read-Follows request pr res err w'' same done))

  poll-Follows :
      (request : StatusRequest) (event : ProgressEvent) (w : W)
      → Follows request (poll c read request event w).0
  unfolding poll
  poll-Follows request event w =
      elim (Bool-cases (is_delete event.operation && is_not_found event.error_code)) [
        | inl gone ↦ rw (poll, gone) (refl, inr refl)
        | inr other ↦
            elim (Bool-cases
              (is_success (remapped_status c event) && not (is_delete event.operation))) [
                | inl done ↦
                    rw (poll, other, done) (enrich-Follows request event _ w refl (ground arith))
                | inr running ↦ rw (poll, other, running) (refl, inr refl)
              ]
      ]

  -- Whatever Cloud Control and the read answer: a result of a status call carries the token that was
  -- polled, so the agent can poll again, and it has properties only if its status is a success.
  pub status_resource-Follows :
      (request : StatusRequest) (w : W) → Follows request (status_resource c read request w).0
  unfolding status_resource
  status_resource-Follows request w =
      call_holds (Follows request) tt (c.request_status request.request_id) fail
        (poll c read request) w (λ e. tt) (λ event w'. poll-Follows request event w')
